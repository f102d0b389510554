-- ===== src/Machine/Laws.antt =====
-- Reads after writes, and what a write leaves alone.
use custom_rpxloader.Base.{ℕ, zero, suc, ◌+◌, ◌-◌, ◌^◌, ◌≤◌, ◌<◌, ◌≡◌, ◌⊎◌, arith}
use custom_rpxloader.Machine.{
  Memory, blit, word_bytes, half_bytes, read32, read16, write32, write16, IsBytes,
}

-- `m'` is `m` but for the addresses from `lo` up to `hi`.
abbrev pub SameOutside : ℕ → ℕ → Memory → Memory → Type 0
SameOutside lo hi m m' = (x : ℕ) → (x < lo) ⊎ (hi ≤ x) → m' x ≡ m x

pub blit-outside : (m : Memory) (a n : ℕ) (src : ℕ → ℕ) → SameOutside a (a + n) m (blit m a n src)
unfolding blit
blit-outside m a n src x h = ground arith

pub blit-inside :
    (m : Memory) (a n : ℕ) (src : ℕ → ℕ) (i : ℕ) → i < n → blit m a n src (a + i) ≡ src i
unfolding blit
blit-inside m a n src i h = ground arith

pub blit-IsBytes :
    {m : Memory} (a n : ℕ) (src : ℕ → ℕ)
    → IsBytes m
    → ((i : ℕ) → src i < 256)
    → IsBytes (blit m a n src)
unfolding blit
blit-IsBytes a n src hm hs x = ground (arith, hm x, hs (x - a))

word_bytes-lt : (v i : ℕ) → word_bytes v i < 256
word_bytes-lt v zero = omega arith
word_bytes-lt v (suc zero) = omega arith
word_bytes-lt v (suc (suc zero)) = omega arith
word_bytes-lt v (suc (suc (suc i))) = omega arith

half_bytes-lt : (v i : ℕ) → half_bytes v i < 256
half_bytes-lt v zero = omega arith
half_bytes-lt v (suc i) = omega arith

pub write32-IsBytes : {m : Memory} (a v : ℕ) → IsBytes m → IsBytes (write32 m a v)
unfolding write32
write32-IsBytes a v h = blit-IsBytes a 4 (word_bytes v) h (word_bytes-lt v)

pub write16-IsBytes : {m : Memory} (a v : ℕ) → IsBytes m → IsBytes (write16 m a v)
unfolding write16
write16-IsBytes a v h = blit-IsBytes a 2 (half_bytes v) h (half_bytes-lt v)

pub write32-outside : (m : Memory) (a v : ℕ) → SameOutside a (a + 4) m (write32 m a v)
unfolding write32
write32-outside m a v = blit-outside m a 4 (word_bytes v)

pub write16-outside : (m : Memory) (a v : ℕ) → SameOutside a (a + 2) m (write16 m a v)
unfolding write16
write16-outside m a v = blit-outside m a 2 (half_bytes v)

pub read32-lt : {m : Memory} (a : ℕ) → IsBytes m → read32 m a < 2 ^ 32
unfolding read32
read32-lt a h = omega (arith, h a, h (a + 1), h (a + 2), h (a + 3))

pub read32-write32 : (m : Memory) (a v : ℕ) → v < 2 ^ 32 → read32 (write32 m a v) a ≡ v
unfolding read32 write32
read32-write32 m a v h = ground (
  arith,
  blit-inside m a 4 (word_bytes v) 0,
  blit-inside m a 4 (word_bytes v) 1,
  blit-inside m a 4 (word_bytes v) 2,
  blit-inside m a 4 (word_bytes v) 3,
)

pub read16-write16 : (m : Memory) (a v : ℕ) → v < 2 ^ 16 → read16 (write16 m a v) a ≡ v
unfolding read16 write16
read16-write16 m a v h =
    ground (arith, blit-inside m a 2 (half_bytes v) 0, blit-inside m a 2 (half_bytes v) 1)

-- A word that a change does not touch reads the same.
pub read32-SameOutside :
    (lo hi : ℕ) {m m' : Memory} (b : ℕ)
    → SameOutside lo hi m m'
    → (b + 4 ≤ lo) ⊎ (hi ≤ b)
    → read32 m' b ≡ read32 m b
unfolding read32
read32-SameOutside lo hi b same apart =
    ground (arith, same b, same (b + 1), same (b + 2), same (b + 3))

pub SameOutside-trans :
    (lo hi : ℕ) {m m' m'' : Memory}
    → SameOutside lo hi m m'
    → SameOutside lo hi m' m''
    → SameOutside lo hi m m''
SameOutside-trans lo hi p q x h = ground (arith, p x h, q x h)

pub SameOutside-mono :
    (lo hi lo' hi' : ℕ) {m m' : Memory}
    → SameOutside lo hi m m'
    → lo' ≤ lo
    → hi ≤ hi'
    → SameOutside lo' hi' m m'
SameOutside-mono lo hi lo' hi' p a b x h = ground (arith, p x)

-- Two words that do not overlap.
abbrev pub Apart : ℕ → ℕ → Type 0
Apart a b = (a + 4 ≤ b) ⊎ (b + 4 ≤ a)

pub read32-write32-Apart :
    (m : Memory) (a v b : ℕ) → Apart a b → read32 (write32 m a v) b ≡ read32 m b
read32-write32-Apart m a v b h =
    ground
      (arith, read32-SameOutside a (a + 4) {m = m} {m' = write32 m a v} b (write32-outside m a v))
