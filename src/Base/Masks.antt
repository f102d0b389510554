-- ===== src/Base/Masks.antt =====
-- The masks of the relocation code as arithmetic.
use Prim.Native.Nat.{ℕ, ◌+◌, ◌-◌, ◌*◌, ◌/◌, ◌%◌, ◌^◌, ◌<◌, bit_and, bit_or}
use mathlib.Core.Path.{◌≡◌}
use native.Mathlib.Nat.{one-le-pow}
use native.Mathlib.Omega.{arith}
use custom_rpxloader.Base.Bits.{
  bit_and-zero, bit_or-zero, zero-bit_or, bit_and_split, bit_or_split, bit_and_full,
}

-- A mask of the `k` lowest bits is the remainder by `2 ^ k`.
pub bit_and_low : (k a : ℕ) → bit_and a (2 ^ k - 1) ≡ a % 2 ^ k
bit_and_low k a = ground (
  arith,
  one-le-pow k 2,
  bit_and_split k (a / 2 ^ k) (a % 2 ^ k) 0 (2 ^ k - 1),
  bit_and_full k (a % 2 ^ k),
  bit_and-zero (a / 2 ^ k),
)

-- A mask of ones from bit `i` up to bit `i + k`.
pub bit_and_field : (i k a : ℕ) → bit_and a ((2 ^ k - 1) * 2 ^ i) ≡ a / 2 ^ i % 2 ^ k * 2 ^ i
bit_and_field i k a = ground (
  arith,
  one-le-pow i 2,
  bit_and_split i (a / 2 ^ i) (a % 2 ^ i) (2 ^ k - 1) 0,
  bit_and_low k (a / 2 ^ i),
  bit_and-zero (a % 2 ^ i),
)

-- `|` of a number with zeros below bit `k` and a number below `2 ^ k` is their sum.
pub bit_or_fields : (k q r : ℕ) → r < 2 ^ k → bit_or (q * 2 ^ k) r ≡ q * 2 ^ k + r
bit_or_fields k q r h =
    ground (arith, one-le-pow k 2, bit_or_split k q 0 0 r, bit_or-zero q, zero-bit_or r)

-- The opcode and the two flag bits of an I-form branch.
pub bit_and_branch24 : (x : ℕ) → x < 2 ^ 32 → bit_and x 0xfc000003 ≡ x / 2 ^ 26 * 2 ^ 26 + x % 4
bit_and_branch24 x h = ground (
  arith,
  bit_and_split 26 (x / 2 ^ 26) (x % 2 ^ 26) 0x3f 3,
  bit_and_low 6 (x / 2 ^ 26),
  bit_and_low 2 (x % 2 ^ 26),
)

-- The same mask for a B-form branch: it also clears bit 22.
pub bit_and_branch14 :
    (x : ℕ)
    → x < 2 ^ 32
    → bit_and x 0xffbf0003 ≡ x / 2 ^ 23 * 2 ^ 23 + x / 2 ^ 16 % 2 ^ 6 * 2 ^ 16 + x % 4
bit_and_branch14 x h = ground (
  arith,
  bit_and_split 16 (x / 2 ^ 16) (x % 2 ^ 16) 0xffbf 3,
  bit_and_split 7 (x / 2 ^ 16 / 2 ^ 7) (x / 2 ^ 16 % 2 ^ 7) 0x1ff 0x3f,
  bit_and_low 9 (x / 2 ^ 16 / 2 ^ 7),
  bit_and_low 6 (x / 2 ^ 16 % 2 ^ 7),
  bit_and_low 2 (x % 2 ^ 16),
)

-- `|` of a head and two flag bits with a field of `k` bits from bit 2 up.
pub bit_or_branch :
    (k q f c : ℕ)
    → f < 4
    → c < 2 ^ k
    → bit_or (q * (2 ^ k * 4) + f) (c * 4) ≡ q * (2 ^ k * 4) + c * 4 + f
bit_or_branch k q f c hf hc =
    ground (arith, bit_or_split 2 (q * 2 ^ k) f c 0, bit_or_fields k q c, bit_or-zero f)
