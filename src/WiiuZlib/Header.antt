-- ===== src/WiiuZlib/Header.antt =====
-- The four bytes in front of a compressed section (src/utils/wiiu_zlib.hpp).
use custom_rpxloader.Base.{
  ℕ, ◌+◌, ◌-◌, ◌*◌, ◌/◌, ◌%◌, ◌^◌, ◌≤◌, ◌<◌, ◌≡◌, refl, ap, ◌∙◌, Bool, true, false, some,
  if◌then◌else◌, [], ◌∷◌, ◌++◌, length, take, drop, arith, ltb,
}
use custom_rpxloader.Machine.{u32}
use custom_rpxloader.Reader.{Text}
use custom_rpxloader.WiiuZlib.{
  Convertor, ZResult, z_stream_end, Zlib, sub64, first_word, word_text, read_uncompressed_size,
  write_compressed_size, inflate,
}

-- A word with its bytes in the other order.
abbrev pub swap32 : ℕ → ℕ
swap32 x = x % 256 * 2 ^ 24 + x / 2 ^ 8 % 256 * 2 ^ 16 + x / 2 ^ 16 % 256 * 2 ^ 8 + x / 2 ^ 24 % 256

-- What ELFIO's convertor does with a number below 2 ^ 32: nothing, if the file has the byte order of
-- the console, and otherwise the change of its four or eight bytes.
abbrev pub IsConvertor : Bool → Convertor → Type 0
IsConvertor need_conversion convertor =
    (x : ℕ)
    → x < 2 ^ 32
    → (convertor.word x ≡ (if need_conversion then swap32 x else x))
      × (convertor.xword x ≡ (if need_conversion then swap32 x * 2 ^ 32 else x))

-- A size in the byte order of the file.
abbrev pub stored_size : Bool → ℕ → Text
stored_size true n = n % 256 ∷ n / 2 ^ 8 % 256 ∷ n / 2 ^ 16 % 256 ∷ n / 2 ^ 24 % 256 ∷ []
stored_size false n = n / 2 ^ 24 % 256 ∷ n / 2 ^ 16 % 256 ∷ n / 2 ^ 8 % 256 ∷ n % 256 ∷ []

-- zlib writes no more than there is room for.
abbrev pub IsLimited : (Text → ℕ → ZResult × Text) → Type 0
IsLimited step = (text : Text) (n : ℕ) → length (step text n).1 ≤ n

first_word-word_text : (w : ℕ) (rest : Text) → w < 2 ^ 32 → first_word (word_text w ++ rest) ≡ w
first_word-word_text w rest h = omega arith

-- A size in the byte order of the file is read as it is.
read-stored :
    (need_conversion : Bool) (zlib : Zlib) (allocated : ℕ → Bool) (convertor : Convertor) (size : ℕ)
    (rest : Text)
    → IsConvertor need_conversion convertor
    → size < 2 ^ 32
    → read_uncompressed_size zlib allocated convertor (stored_size need_conversion size ++ rest)
      ≡ size
unfolding read_uncompressed_size
read-stored true zlib allocated convertor size rest conversion h =
    let word = first_word (stored_size true size ++ rest) in
    let swapped : word ≡ swap32 size = omega arith in
    ap u32 ((conversion word (omega arith)).0 ∙ ap swap32 swapped) ∙ omega arith
read-stored false zlib allocated convertor size rest conversion h =
    let word = first_word (stored_size false size ++ rest) in
    let same : word ≡ size = omega arith in
    ap u32 ((conversion word (omega arith)).0 ∙ same) ∙ omega arith

-- What is written at the start of a buffer is read from there only in the console's byte order.
pub read-write :
    (need_conversion : Bool) (zlib : Zlib) (allocated : ℕ → Bool) (convertor : Convertor) (size : ℕ)
    (rest : Text)
    → IsConvertor need_conversion convertor
    → size < 2 ^ 32
    → read_uncompressed_size zlib allocated convertor
        (write_compressed_size zlib allocated convertor size ++ rest)
      ≡ (if need_conversion then 0 else size)
unfolding read_uncompressed_size write_compressed_size
read-write true zlib allocated convertor size rest conversion h =
    let x = u32 (convertor.xword size) in
    let stored : x ≡ 0 = omega (arith, (conversion size h).1) in
    let word = first_word (word_text x ++ rest) in
    let zero_word : word ≡ 0 = first_word-word_text x rest (omega arith) ∙ stored in
    ap u32 ((conversion word (omega (arith, zero_word))).0 ∙ ap swap32 zero_word)
read-write false zlib allocated convertor size rest conversion h =
    let x = u32 (convertor.xword size) in
    let stored : x ≡ size = omega (arith, (conversion size h).1) in
    let word = first_word (word_text x ++ rest) in
    let same : word ≡ size = first_word-word_text x rest (omega arith) ∙ stored in
    ap u32 ((conversion word (omega (arith, same))).0 ∙ same) ∙ omega arith

pub u32-sub64 : (n : ℕ) → n < 2 ^ 32 → u32 (sub64 (n + 4) 4) ≡ n
u32-sub64 n h = omega arith

pub take-length : (text : Text) → take (length text) text ≡ text
take-length [] = refl
take-length (c ∷ text) = ap (◌∷◌ c) (take-length text)

drop-stored :
    (need_conversion : Bool) (size : ℕ) (rest : Text)
    → drop 4 (stored_size need_conversion size ++ rest) ≡ rest
drop-stored true size rest = refl
drop-stored false size rest = refl

pub drop-header :
    (zlib : Zlib) (allocated : ℕ → Bool) (convertor : Convertor) (size : ℕ) (rest : Text)
    → drop 4 (write_compressed_size zlib allocated convertor size ++ rest) ≡ rest
unfolding write_compressed_size
drop-header zlib allocated convertor size rest = refl

-- If there are memory and a stream, then for a stream from which zlib gets back a text of less than
-- 2^32 - 1 bytes, behind the size of the text in the byte order of the file, `inflate` gives that
-- size and the text with a final zero within its buffer, in either byte order.
pub inflate-stored :
    (need_conversion : Bool) (zlib : Zlib) (allocated : ℕ → Bool) (convertor : Convertor)
    (text stream : Text)
    → IsConvertor need_conversion convertor
    → length text < 2 ^ 32 - 1
    → length stream < 2 ^ 32
    → allocated (length text + 1) ≡ true
    → zlib.inflate_init ≡ true
    → zlib.run_inflate stream (length text) ≡ (z_stream_end, text)
    → inflate zlib allocated convertor
        (stored_size need_conversion (length text) ++ stream)
        (length stream + 4)
      ≡ (
        length text,
        some (record { capacity = length text + 1; content = text; extent = length text + 1 }),
      )
unfolding inflate
inflate-stored need_conversion zlib allocated convertor text stream conversion small short room
      ready gives =
    let re =
      read-stored need_conversion zlib allocated convertor (length text) stream conversion
        (omega arith) in
    let input : take (u32 (sub64 (length stream + 4) 4)) stream ≡ stream =
      rw (u32-sub64 (length stream) short) (take-length stream) in
    let size : u32 (length text + 1) ≡ length text + 1 = omega arith in
    let grows : ltb (length text) (length text + 1) ≡ true = ground arith in
    rw
      (
        inflate,
        re,
        drop-stored need_conversion (length text) stream,
        input,
        gives,
        size,
        room,
        ready,
        grows,
      )
      refl
