-- ===== src/Machine.antt =====
-- The console's memory as the loader sees it: one byte for each address, words stored with their
-- highest byte first, and a log of the cache operations (`DCFlushRange`, `ICInvalidateRange`),
-- which change no byte. An address is a natural number; a pointer that C computes is reduced
-- modulo 2 ^ 32 where the source computes it.
pub mod Laws
use custom_rpxloader.Base.{
  ℕ, zero, suc, ◌+◌, ◌-◌, ◌*◌, ◌/◌, ◌%◌, ◌^◌, ◌<◌, Bool, ◌&&◌, List, [], ◌∷◌, ltb, leb,
  if◌then◌else◌,
}

abbrev pub Memory : Type 0
Memory = ℕ → ℕ

pub data CacheOp : Type 0 where
  dc_flush_range : ℕ → ℕ → CacheOp
  ic_invalidate_range : ℕ → ℕ → CacheOp

-- `cache` lists the operations, the last one first.
pub record Machine : Type 0 where
  pub mem : Memory
  pub cache : List CacheOp

-- Unsigned 32-bit arithmetic. A signed `int32_t` is the same bit pattern.
abbrev pub u32 : ℕ → ℕ
u32 n = n % 2 ^ 32

abbrev pub add32 : ℕ → ℕ → ℕ
add32 a b = u32 (a + b)

abbrev pub sub32 : ℕ → ℕ → ℕ
sub32 a b = u32 (a + 2 ^ 32 - b)

-- `n` bytes from `src`, at `a`.
unfoldable pub blit : Memory → ℕ → ℕ → (ℕ → ℕ) → Memory
blit m a n src x = if leb a x && ltb x (a + n) then src (x - a) else m x

-- The bytes of a word and of a halfword, highest first.
abbrev pub word_bytes : ℕ → ℕ → ℕ
word_bytes v zero = v / 2 ^ 24 % 256
word_bytes v (suc zero) = v / 2 ^ 16 % 256
word_bytes v (suc (suc zero)) = v / 2 ^ 8 % 256
word_bytes v (suc (suc (suc i))) = v % 256

abbrev pub half_bytes : ℕ → ℕ → ℕ
half_bytes v zero = v / 2 ^ 8 % 256
half_bytes v (suc i) = v % 256

unfoldable pub read32 : Memory → ℕ → ℕ
read32 m a = m a * 2 ^ 24 + m (a + 1) * 2 ^ 16 + m (a + 2) * 2 ^ 8 + m (a + 3)

unfoldable pub read16 : Memory → ℕ → ℕ
read16 m a = m a * 2 ^ 8 + m (a + 1)

unfoldable pub write32 : Memory → ℕ → ℕ → Memory
unfolding blit
write32 m a v = blit m a 4 (word_bytes v)

unfoldable pub write16 : Memory → ℕ → ℕ → Memory
unfolding blit
write16 m a v = blit m a 2 (half_bytes v)

-- Every cell holds a byte.
abbrev pub IsBytes : Memory → Type 0
IsBytes m = (a : ℕ) → m a < 256

-- memset, memcpy, DCFlushRange and ICInvalidateRange.
abbrev pub memset : ℕ → ℕ → ℕ → Machine → Machine
memset a v n s = record s { mem = blit s.mem a n (λ _. v % 256) }

abbrev pub memcpy : ℕ → (ℕ → ℕ) → ℕ → Machine → Machine
memcpy a src n s = record s { mem = blit s.mem a n src }

-- DCFlushRange and ICInvalidateRange over the same range, one after the other.
abbrev pub sync_range : ℕ → ℕ → Machine → Machine
sync_range a n s = record s { cache = ic_invalidate_range a n ∷ dc_flush_range a n ∷ s.cache }
