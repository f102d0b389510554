-- ===== src/Base/Bits.antt =====
-- `&` and `|` on numbers split in two at a bit, and the masks of the relocation code as arithmetic.
use Prim.Native.Nat.{
  ℕ, zero, suc, ◌+◌, ◌*◌, ◌/◌, ◌%◌, ◌^◌, ◌≤◌, ◌<◌, ◌-◌, min, max, bit_and, bit_or, digits, bitwise,
  bit_and-bitwise, bit_or-bitwise,
}
use mathlib.Core.Path.{◌≡◌, refl, ap, ◌∙◌}
use native.Mathlib.Decide.{dec_le}
use native.Mathlib.Nat.{pow-suc, one-le-pow, le_refl}
use native.Mathlib.Omega.{arith}

-- `&` and `|` stand for a recursion on the binary digits, with a counter that only has to be large
-- enough: one round more changes nothing, so neither do any number of rounds.
module _ (base : ℕ → ℕ) (op : ℕ → ℕ → ℕ) where
  one_more :
      (rounds x y : ℕ) → x ≤ rounds → digits base op (suc rounds) x y ≡ digits base op rounds x y
  one_more zero zero y h = refl
  one_more zero (suc x) y h = absurd (omega arith)
  one_more (suc rounds) zero y h = refl
  one_more (suc rounds) (suc x) y h =
      ap (λ (t : ℕ). t * 2 + op (suc x % 2) (y % 2))
        (one_more rounds (suc x / 2) (y / 2) (omega arith))

  any_more :
      (most rounds x y : ℕ)
      → rounds ≤ most
      → x ≤ rounds
      → digits base op most x y ≡ digits base op rounds x y
  any_more zero zero x y h k = refl
  any_more zero (suc rounds) x y h k = absurd (omega arith)
  any_more (suc most) rounds x y h k = elim (dec_le rounds most) [
    | yes p ↦ one_more most x y (omega arith) ∙ any_more most rounds x y p k
    | no p ↦ let e : rounds ≡ suc most = omega arith in rw e
  ]

  lowest_digit :
      (x y : ℕ)
      → bitwise base op (suc x) y ≡ bitwise base op (suc x / 2) (y / 2) * 2 + op (suc x % 2) (y % 2)
  lowest_digit x y =
      ap (λ (t : ℕ). t * 2 + op (suc x % 2) (y % 2))
        (any_more x (suc x / 2) (suc x / 2) (y / 2) (omega arith) (omega arith))

bit_and_step : (x y : ℕ) → bit_and x y ≡ bit_and (x / 2) (y / 2) * 2 + min (x % 2) (y % 2)
bit_and_step zero y = omega (arith, bit_and-bitwise 0 y, bit_and-bitwise 0 (y / 2))
bit_and_step (suc x) y =
    bit_and-bitwise (suc x) y
    ∙ lowest_digit (λ _. 0) min x y
    ∙ omega (arith, bit_and-bitwise (suc x / 2) (y / 2))

bit_or_step : (x y : ℕ) → bit_or x y ≡ bit_or (x / 2) (y / 2) * 2 + max (x % 2) (y % 2)
bit_or_step zero y = omega (arith, bit_or-bitwise 0 y, bit_or-bitwise 0 (y / 2))
bit_or_step (suc x) y =
    bit_or-bitwise (suc x) y
    ∙ lowest_digit (λ t. t) max x y
    ∙ omega (arith, bit_or-bitwise (suc x / 2) (y / 2))

double : (c n : ℕ) → c * 2 ^ suc n ≡ c * 2 ^ n * 2
double c n = omega (arith, ap (λ (p : ℕ). c * p) (pow-suc 2 n))

bit_and-zero_below : (n a : ℕ) → a ≤ n → bit_and a 0 ≡ 0
bit_and-zero_below n zero h = refl
bit_and-zero_below zero (suc a) h = absurd (omega arith)
bit_and-zero_below (suc n) (suc a) h =
    omega (arith, bit_and_step (suc a) 0, bit_and-zero_below n (suc a / 2) (omega arith))

pub bit_and-zero : (a : ℕ) → bit_and a 0 ≡ 0
bit_and-zero a = bit_and-zero_below a a (le_refl a)

bit_or-zero_below : (n a : ℕ) → a ≤ n → bit_or a 0 ≡ a
bit_or-zero_below n zero h = refl
bit_or-zero_below zero (suc a) h = absurd (omega arith)
bit_or-zero_below (suc n) (suc a) h =
    omega (arith, bit_or_step (suc a) 0, bit_or-zero_below n (suc a / 2) (omega arith))

pub bit_or-zero : (a : ℕ) → bit_or a 0 ≡ a
bit_or-zero a = bit_or-zero_below a a (le_refl a)

pub zero-bit_or : (a : ℕ) → bit_or 0 a ≡ a
zero-bit_or a = simp bit_or-bitwise

pub zero-bit_and : (a : ℕ) → bit_and 0 a ≡ 0
zero-bit_and a = simp bit_and-bitwise

-- Both operations work on the part above bit `k` and on the part below it alone.
pub bit_and_split :
    (k q r m s : ℕ)
    → r < 2 ^ k
    → s < 2 ^ k
    → bit_and (q * 2 ^ k + r) (m * 2 ^ k + s) ≡ bit_and q m * 2 ^ k + bit_and r s
bit_and_split zero q r m s hr hs =
    let r0 : r ≡ 0 = omega arith in
    let s0 : s ≡ 0 = omega arith in rw (r0, s0) (ground (arith, bit_and-zero 0))
bit_and_split (suc k) q r m s hr hs = ground (
  arith,
  bit_and_step (q * 2 ^ suc k + r) (m * 2 ^ suc k + s),
  bit_and_step r s,
  double q k,
  double m k,
  double (bit_and q m) k,
  pow-suc 2 k,
  bit_and_split k q (r / 2) m (s / 2) (omega (arith, pow-suc 2 k)) (omega (arith, pow-suc 2 k)),
)

pub bit_or_split :
    (k q r m s : ℕ)
    → r < 2 ^ k
    → s < 2 ^ k
    → bit_or (q * 2 ^ k + r) (m * 2 ^ k + s) ≡ bit_or q m * 2 ^ k + bit_or r s
bit_or_split zero q r m s hr hs =
    let r0 : r ≡ 0 = omega arith in
    let s0 : s ≡ 0 = omega arith in rw (r0, s0) (ground (arith, bit_or-zero 0))
bit_or_split (suc k) q r m s hr hs = ground (
  arith,
  bit_or_step (q * 2 ^ suc k + r) (m * 2 ^ suc k + s),
  bit_or_step r s,
  double q k,
  double m k,
  double (bit_or q m) k,
  pow-suc 2 k,
  bit_or_split k q (r / 2) m (s / 2) (omega (arith, pow-suc 2 k)) (omega (arith, pow-suc 2 k)),
)

pub bit_and_full : (k r : ℕ) → r < 2 ^ k → bit_and r (2 ^ k - 1) ≡ r
bit_and_full zero r h = rw bit_and-zero (omega arith)
bit_and_full (suc k) r h = ground (
  arith,
  bit_and_step r (2 ^ suc k - 1),
  pow-suc 2 k,
  one-le-pow k 2,
  bit_and_full k (r / 2) (omega (arith, pow-suc 2 k)),
)
