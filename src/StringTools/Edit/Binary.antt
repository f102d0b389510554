-- ===== src/StringTools/Edit/Binary.antt =====
-- The text of a byte in binary (src/utils/StringTools.cpp, `byte_to_binary`).
use custom_rpxloader.Base.{
  ℕ, zero, suc, ◌+◌, ◌-◌, ◌*◌, ◌/◌, ◌%◌, ◌<◌, ◌≡◌, refl, [], ◌∷◌, length, ◌==◌, if◌then◌else◌,
  arith, bit_and, bit_and_field,
}
use custom_rpxloader.Reader.{Text}
use custom_rpxloader.StringTools.Edit.{binary_from, byte_to_binary}

-- The number that a text of binary digits stands for, behind a text that stands for `n`.
abbrev pub value_from : ℕ → Text → ℕ
value_from n [] = n
value_from n (c ∷ t) = value_from (2 * n + (c - b'0')) t

digit : (v z b : ℕ) → v ≡ b * z → b < 2 → 0 < z → (if v == z then b'1' else b'0') ≡ b'0' + b
digit v z zero h lt pos = ground arith
digit v z (suc zero) h lt pos = ground arith
digit v z (suc (suc b)) h lt pos = absurd (omega arith)

-- One bit, at a power of 2 that is a numeral.
module _ (x : ℕ) where
  bit :
      (z : ℕ)
      → bit_and x z ≡ x / z % 2 * z
      → 0 < z
      → (if bit_and x z == z then b'1' else b'0') ≡ b'0' + x / z % 2
  bit z h pos = digit (bit_and x z) z (x / z % 2) h (omega arith) pos

nibble : (y : ℕ) → 2 * (2 * (2 * (y / 8 % 2) + y / 4 % 2) + y / 2 % 2) + y % 2 ≡ y % 16
nibble y = omega arith

sum_lem :
    (x : ℕ)
    → 2
          * (2
                * (2
                      * (2
                            * (2 * (2 * (2 * (2 * 0 + x / 128 % 2) + x / 64 % 2) + x / 32 % 2)
                                + x / 16 % 2)
                          + x / 8 % 2)
                    + x / 4 % 2)
              + x / 2 % 2)
        + x / 1 % 2
      ≡ x % 256
sum_lem x = omega (arith, nibble x, nibble (x / 16), quarters)
  where
    quarters : (x / 16 / 8 ≡ x / 128) × (x / 16 / 4 ≡ x / 64) × (x / 16 / 2 ≡ x / 32)
    quarters = (omega arith, omega arith, omega arith)

back : (q : ℕ) → b'0' + q - b'0' ≡ q
back q = omega arith

-- `byte_to_binary` gives the lowest eight bits of its argument, of any sign, as eight digits, the
-- highest first.
pub value_from-byte_to_binary :
    (x : ℕ) → (length (byte_to_binary x) ≡ 8) × (value_from 0 (byte_to_binary x) ≡ x % 256)
unfolding byte_to_binary binary_from
value_from-byte_to_binary x = (
  refl,
  rw
      (
        bit x 128 (bit_and_field 7 1 x) (omega arith),
        bit x 64 (bit_and_field 6 1 x) (omega arith),
        bit x 32 (bit_and_field 5 1 x) (omega arith),
        bit x 16 (bit_and_field 4 1 x) (omega arith),
        bit x 8 (bit_and_field 3 1 x) (omega arith),
        bit x 4 (bit_and_field 2 1 x) (omega arith),
        bit x 2 (bit_and_field 1 1 x) (omega arith),
        bit x 1 (bit_and_field 0 1 x) (omega arith),
      )
      (rw
        (
          back (x / 128 % 2),
          back (x / 64 % 2),
          back (x / 32 % 2),
          back (x / 16 % 2),
          back (x / 8 % 2),
          back (x / 4 % 2),
          back (x / 2 % 2),
          back (x / 1 % 2),
        )
        (sum_lem x)),
)
