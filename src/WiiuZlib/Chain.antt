-- ===== src/WiiuZlib/Chain.antt =====
-- `inflate` of what `deflate` has made (src/utils/wiiu_zlib.hpp).
use custom_rpxloader.Base.{
  ℕ, ◌+◌, ◌-◌, ◌^◌, ◌≤◌, ◌<◌, ◌≡◌, refl, sym, ap, ◌∙◌, Bool, true, false, none, some, ◌++◌, length,
  take, drop, arith, if◌then◌else◌,
}
use custom_rpxloader.Machine.{u32}
use custom_rpxloader.Reader.{Text}
use custom_rpxloader.WiiuZlib.Header.{IsConvertor, IsLimited, read-write, drop-header, take-length}
use custom_rpxloader.WiiuZlib.Bounds.{deflated, deflate-eq-some}
use custom_rpxloader.WiiuZlib.{
  Convertor, Zlib, Output, sub64, is_error, read_uncompressed_size, write_compressed_size, inflate,
  deflate,
}

-- `inflate` of a stream that `deflate` has made, with less room than the text takes, is an error.
abbrev pub IsRefusing : Zlib → Type 0
IsRefusing zlib =
    (text : Text) (room small : ℕ)
    → is_error (zlib.run_deflate text room).0 ≡ false
    → small < length text
    → is_error (zlib.run_inflate (zlib.run_deflate text room).1 small).0 ≡ true

none_of_error :
    {A : Type 0} (a b e : Bool) (x : A)
    → e ≡ true
    → (if a then if b then if e then none else some x else none else none) ≡ none
none_of_error true true true x h = refl
none_of_error true false true x h = refl
none_of_error false b true x h = refl
none_of_error a b false x h = cc

inflate-none :
    (zlib : Zlib) (allocated : ℕ → Bool) (convertor : Convertor) (bytes : Text) (size : ℕ)
    → is_error
        (zlib.run_inflate
          (take (u32 (sub64 size 4)) (drop 4 bytes))
          (read_uncompressed_size zlib allocated convertor bytes)).0
      ≡ true
    → inflate zlib allocated convertor bytes size
      ≡ (read_uncompressed_size zlib allocated convertor bytes, none)
unfolding inflate
inflate-none zlib allocated convertor bytes size h =
    ap (λ r. (read_uncompressed_size zlib allocated convertor bytes, r))
      (none_of_error (allocated (u32 (read_uncompressed_size zlib allocated convertor bytes + 1)))
        zlib.inflate_init
        (is_error
          (zlib.run_inflate (take (u32 (sub64 size 4)) (drop 4 bytes))
            (read_uncompressed_size zlib allocated convertor bytes)).0)
        _ h)

-- If zlib writes no more than there is room for and refuses a text that is larger than the room, then
-- `inflate` gives null for each result of `deflate` that is shorter than its text of at least 4 and
-- less than 2^32 bytes: the size that it reads is the compressed size if the file has the byte order
-- of the console, and 0 otherwise.
pub inflate-deflate :
    (need_conversion : Bool) (zlib : Zlib) (allocated : ℕ → Bool) (convertor : Convertor)
    (text : Text) (before compressed_size : ℕ) (output : Output)
    → IsConvertor need_conversion convertor
    → IsLimited zlib.run_deflate
    → IsRefusing zlib
    → 4 ≤ length text
    → length text < 2 ^ 32
    → deflate zlib allocated convertor text (length text) before ≡ (compressed_size, some output)
    → compressed_size < length text
    → inflate zlib allocated convertor output.content compressed_size
      ≡ ((if need_conversion then 0 else compressed_size), none)
inflate-deflate need_conversion zlib allocated convertor text before compressed_size output
      conversion limited refusing large small h shorter =
    let size = length text in
    let avail = u32 (sub64 size 4) in
    let whole : take (u32 size) text ≡ text =
      ap (λ n. take n text) {x = u32 size} {y = size} (omega arith) ∙ take-length text in
    let out = (deflated zlib allocated convertor text size).1 in
    let (fine, eq) =
      deflate-eq-some zlib allocated convertor text size before (compressed_size, output) h in
    let within : length out ≤ avail = limited (take (u32 size) text) avail in
    let room : avail ≡ size - 4 = omega arith in
    let c : compressed_size ≡ sub64 size (avail - length out) = ap (λ r. r.0) eq in
    let c' : compressed_size ≡ length out + 4 = omega (arith, within, room, c) in
    let content : output.content
        ≡ write_compressed_size zlib allocated convertor compressed_size ++ out =
      ap (λ r. (r.1).content) eq
      ∙ ap (λ n. write_compressed_size zlib allocated convertor n ++ out) (sym c) in
    let input : take (u32 (sub64 compressed_size 4)) out ≡ out =
      ap (λ n. take n out) {x = u32 (sub64 compressed_size 4)} {y = length out}
        (omega (arith, c', within, room))
      ∙ take-length out in
    let header =
      read-write need_conversion zlib allocated convertor compressed_size out conversion
        (omega (arith, shorter)) in
    let refused =
      refusing (take (u32 size) text) avail (if need_conversion then 0 else compressed_size) fine
        (ground (arith, shorter, ap (λ t. length t) whole)) in
    rw content (
      inflate-none zlib allocated convertor
        (write_compressed_size zlib allocated convertor compressed_size ++ out) compressed_size
        (rw (drop-header zlib allocated convertor compressed_size out, input, header) refused)
      ∙ ap (λ n. (n, none)) header)
