-- ===== src/WiiuZlib/Tests.antt =====
-- A compression of texts that repeat the letter a (src/utils/wiiu_zlib.hpp).
use custom_rpxloader.Base.{
  ℕ, ◌*◌, ◌^◌, ◌≤◌, ◌<◌, ◌≡◌, ◌↔◌, refl, zero, suc, ◌&&◌, Bool, true, false, none, some, [], ◌∷◌,
  length, leb, ◌==◌, if◌then◌else◌, arith,
}
use custom_rpxloader.Reader.{Text}
use custom_rpxloader.WiiuZlib.Header.{swap32, IsConvertor, IsLimited, inflate-stored}
use custom_rpxloader.WiiuZlib.Bounds.{deflate-fits}
use custom_rpxloader.WiiuZlib.Chain.{IsRefusing, inflate-deflate}
use custom_rpxloader.WiiuZlib.{
  Convertor, ZResult, z_stream_end, z_error, Zlib, Output, read_uncompressed_size,
  write_compressed_size, inflate, deflate,
}

abbrev repeated : ℕ → Text
repeated zero = []
repeated (suc n) = b'a' ∷ repeated n

abbrev is_repeated : Text → Bool
is_repeated [] = true
is_repeated (c ∷ text) = if c == b'a' then is_repeated text else false

abbrev pack : Text → ℕ → ZResult × Text
pack text room =
    if leb 1 room && is_repeated text then (z_stream_end, length text ∷ []) else (z_error, [])

abbrev unpack : Text → ℕ → ZResult × Text
unpack [] room = (z_error, [])
unpack (n ∷ stream) room = if leb n room then (z_stream_end, repeated n) else (z_error, [])

abbrev letters : Zlib
letters = record {
  inflate_init = true;
  deflate_init = true;
  run_inflate = unpack;
  run_deflate = pack;
}

pack-IsLimited : IsLimited pack
pack-IsLimited text room = ground arith

letters-IsRefusing : IsRefusing letters
letters-IsRefusing text room small fine less = ground (arith, fine, less)

-- A file with the byte order of the console, and one with the other.
abbrev same : Convertor
same = record { word = λ x. x; xword = λ x. x }

same-IsConvertor : IsConvertor false same
same-IsConvertor x h = (refl, refl)

abbrev swapped : Convertor
swapped = record { word = swap32; xword = λ x. swap32 x * 2 ^ 32 }

swapped-IsConvertor : IsConvertor true swapped
swapped-IsConvertor x h = (refl, refl)

abbrev packed : Output
packed = record { capacity = 8; content = 0 ∷ 0 ∷ 0 ∷ 5 ∷ 8 ∷ []; extent = 6 }

packed_lem : deflate letters (λ n. true) same (repeated 8) 8 0 ≡ (5, some packed)
unfolding deflate write_compressed_size
packed_lem = refl

deflate-fits_example : (6 ≤ 8) ↔ (5 < 8)
deflate-fits_example =
    deflate-fits letters (λ n. true) same (repeated 8) 8 0 5 packed pack-IsLimited (omega arith)
      (omega arith) packed_lem

abbrev unpacked : Output
unpacked = record { capacity = 9; content = repeated 8; extent = 9 }

unpacked_lem : inflate letters (λ n. true) same (0 ∷ 0 ∷ 0 ∷ 8 ∷ 8 ∷ []) 5 ≡ (8, some unpacked)
unfolding inflate read_uncompressed_size
unpacked_lem = refl

inflate-stored_example :
    inflate letters (λ n. true) swapped (8 ∷ 0 ∷ 0 ∷ 0 ∷ 8 ∷ []) 5 ≡ (8, some unpacked)
inflate-stored_example =
    inflate-stored true letters (λ n. true) swapped (repeated 8) (8 ∷ []) swapped-IsConvertor
      (omega arith) (omega arith) refl refl refl

inflate-deflate_example : inflate letters (λ n. true) same (0 ∷ 0 ∷ 0 ∷ 5 ∷ 8 ∷ []) 5 ≡ (5, none)
inflate-deflate_example =
    inflate-deflate false letters (λ n. true) same (repeated 8) 0 5 packed same-IsConvertor
      pack-IsLimited letters-IsRefusing (omega arith) (omega arith) packed_lem (omega arith)
