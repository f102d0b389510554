-- ===== src/WiiuZlib/Bounds.antt =====
-- What `inflate` and `deflate` write behind their buffers (src/utils/wiiu_zlib.hpp).
use custom_rpxloader.Base.{
  Option, ℕ, ◌+◌, ◌-◌, ◌^◌, ◌≤◌, ◌<◌, ◌≡◌, ◌≢◌, ◌↔◌, refl, ap, ◌∙◌, Bool, true, false, none, some,
  ◌++◌, length, take, drop, arith, if◌then◌else◌,
}
use custom_rpxloader.Machine.{u32}
use custom_rpxloader.Reader.{Text}
use custom_rpxloader.WiiuZlib.Header.{IsLimited}
use custom_rpxloader.WiiuZlib.{
  Convertor, ZResult, Zlib, Output, sub64, max, is_error, read_uncompressed_size,
  write_compressed_size, inflate, deflate,
}

max_right : (a b : ℕ) → a < b → max a b ≡ b
max_right a b h = ground arith

-- A result behind two conditions and an error.
guarded_eq :
    {A : Type 0} (a b e : Bool) (x r : A)
    → (if a then if b then if e then none else some x else none else none) ≡ some r
    → (e ≡ false) × (r ≡ x)
guarded_eq true true false x r h = (refl, cc)
guarded_eq true true true x r h = cc
guarded_eq true false e x r h = cc
guarded_eq false b e x r h = cc

-- The same for a result with a size, which keeps `before` where nothing has been tried.
guarded_size_eq :
    (a b e : Bool) (before : ℕ) (x r : ℕ × Output)
    → ◌≡◌ {A = ℕ × Option Output}
        (if a
          then if b then if e then (0, none) else (x.0, some x.1) else (before, none)
          else (before, none))
        (r.0, some r.1)
    → (e ≡ false) × (r ≡ x)
guarded_size_eq true true false before (n, x) (m, r) h =
    let size : n ≡ m = ap (λ p. p.0) h in
    let output : some x ≡ some r = ap (λ p. p.1) h in (refl, cc)
guarded_size_eq true true true before x r h = let output : none ≡ some r.1 = ap (λ p. p.1) h in cc
guarded_size_eq true false e before x r h = let output : none ≡ some r.1 = ap (λ p. p.1) h in cc
guarded_size_eq false b e before x r h = let output : none ≡ some r.1 = ap (λ p. p.1) h in cc

module _ (zlib : Zlib) (allocated : ℕ → Bool) (convertor : Convertor) where
  -- The call of zlib's deflate.
  abbrev pub deflated : Text → ℕ → ZResult × Text
  deflated bytes size = zlib.run_deflate (take (u32 size) bytes) (u32 (sub64 size 4))

  abbrev pub deflated_size : Text → ℕ → ℕ
  deflated_size bytes size = sub64 size (u32 (sub64 size 4) - length ((deflated bytes size).1))

  abbrev pub deflated_output : Text → ℕ → Output
  deflated_output bytes size = record {
    capacity = u32 size;
    content =
        write_compressed_size zlib allocated convertor (deflated_size bytes size)
        ++ (deflated bytes size).1;
    extent = max (4 + length ((deflated bytes size).1)) (deflated_size bytes size + 1);
  }

  pub deflate-eq-some :
      (bytes : Text) (size before : ℕ) (r : ℕ × Output)
      → deflate zlib allocated convertor bytes size before ≡ (r.0, some r.1)
      → (is_error ((deflated bytes size).0) ≡ false)
        × (r ≡ (deflated_size bytes size, deflated_output bytes size))
  unfolding deflate
  deflate-eq-some bytes size before r h =
      guarded_size_eq (allocated (u32 size)) zlib.deflate_init (is_error ((deflated bytes size).0))
        before (deflated_size bytes size, deflated_output bytes size) r h

  abbrev inflated : Text → ℕ → ZResult × Text
  inflated bytes size =
      zlib.run_inflate (take (u32 (sub64 size 4)) (drop 4 bytes))
        (read_uncompressed_size zlib allocated convertor bytes)

  abbrev inflated_output : Text → ℕ → Output
  inflated_output bytes size =
      let uncompressed_size = read_uncompressed_size zlib allocated convertor bytes in
      record {
        capacity = u32 (uncompressed_size + 1);
        content = (inflated bytes size).1;
        extent = max (length ((inflated bytes size).1)) (uncompressed_size + 1);
      }

  inflate-eq-some :
      (bytes : Text) (size : ℕ) (r : Output)
      → (inflate zlib allocated convertor bytes size).1 ≡ some r
      → r ≡ inflated_output bytes size
  unfolding inflate
  inflate-eq-some bytes size r h =
      (guarded_eq (allocated (u32 (read_uncompressed_size zlib allocated convertor bytes + 1)))
        zlib.inflate_init (is_error ((inflated bytes size).0)) (inflated_output bytes size) r h).1

-- If zlib writes no more than there is room for and the data are 4 bytes at least and less than 2^32,
-- a result of `deflate` has been written within its buffer if and only if it is shorter than the
-- data.
pub deflate-fits :
    (zlib : Zlib) (allocated : ℕ → Bool) (convertor : Convertor) (bytes : Text)
    (size before compressed_size : ℕ) (output : Output)
    → IsLimited zlib.run_deflate
    → 4 ≤ size
    → size < 2 ^ 32
    → deflate zlib allocated convertor bytes size before ≡ (compressed_size, some output)
    → (output.extent ≤ output.capacity) ↔ (compressed_size < size)
deflate-fits zlib allocated convertor bytes size before compressed_size output limited large small
      h =
    let avail = u32 (sub64 size 4) in
    let written = length (zlib.run_deflate (take (u32 size) bytes) avail).1 in
    let eq =
      (deflate-eq-some zlib allocated convertor bytes size before (compressed_size, output) h).1 in
    let within : written ≤ avail = limited (take (u32 size) bytes) avail in
    let room : avail ≡ size - 4 = omega arith in
    let c : compressed_size ≡ sub64 size (avail - written) = ap (λ r. r.0) eq in
    let c' : compressed_size ≡ written + 4 = omega (arith, within, room, c) in
    let extent : output.extent ≡ max (4 + written) (sub64 size (avail - written) + 1) =
      ap (λ r. (r.1).extent) eq in
    let extent' : output.extent ≡ written + 5 = omega (
      arith,
      c,
      c',
      extent,
      max_right (4 + written) (sub64 size (avail - written) + 1) (omega (arith, c, c')),
    ) in
    let capacity : output.capacity ≡ u32 size = ap (λ r. (r.1).capacity) eq in
    (omega (arith, c', extent', capacity), omega (arith, c', extent', capacity))

read_uncompressed_size-lt :
    (zlib : Zlib) (allocated : ℕ → Bool) (convertor : Convertor) (bytes : Text)
    → read_uncompressed_size zlib allocated convertor bytes < 2 ^ 32
unfolding read_uncompressed_size
read_uncompressed_size-lt zlib allocated convertor bytes = omega arith

-- If zlib writes no more than there is room for, a result of `inflate` has been written within its
-- buffer if and only if the size in front of the data is not 2^32 - 1.
pub inflate-fits :
    (zlib : Zlib) (allocated : ℕ → Bool) (convertor : Convertor) (bytes : Text) (size : ℕ)
    (output : Output)
    → IsLimited zlib.run_inflate
    → (inflate zlib allocated convertor bytes size).1 ≡ some output
    → (output.extent ≤ output.capacity)
      ↔ ((inflate zlib allocated convertor bytes size).0 ≢ 2 ^ 32 - 1)
unfolding inflate
inflate-fits zlib allocated convertor bytes size output limited h =
    let n = read_uncompressed_size zlib allocated convertor bytes in
    let eq = inflate-eq-some zlib allocated convertor bytes size output h in
    let written = length (zlib.run_inflate (take (u32 (sub64 size 4)) (drop 4 bytes)) n).1 in
    let within : written ≤ n = limited (take (u32 (sub64 size 4)) (drop 4 bytes)) n in
    let extent : output.extent ≡ n + 1 =
      ap (λ r. r.extent) eq ∙ max_right written (n + 1) (omega (arith, within)) in
    let capacity : output.capacity ≡ u32 (n + 1) = ap (λ r. r.capacity) eq in
    let word : n < 2 ^ 32 = read_uncompressed_size-lt zlib allocated convertor bytes in
    (omega (arith, extent, capacity, word), omega (arith, extent, capacity, word))
