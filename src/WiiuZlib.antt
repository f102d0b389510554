-- ===== src/WiiuZlib.antt =====
-- `wiiu_zlib` (src/utils/wiiu_zlib.hpp): the compression that the ELF library calls. zlib, the
-- allocator and the convertor of byte orders are parameters. A buffer is its capacity, what has
-- been put into it, and the number of elements up to the last that has been written.
pub mod Bounds
pub mod Header
pub mod Chain
mod Tests
use custom_rpxloader.Base.{
  ℕ, ◌+◌, ◌-◌, ◌*◌, ◌/◌, ◌%◌, ◌^◌, Bool, true, false, Option, none, some, List, [], ◌∷◌, ◌++◌,
  length, take, drop, get_or, ltb, if◌then◌else◌,
}
use custom_rpxloader.Machine.{u32, word_bytes}
use custom_rpxloader.Reader.{Text}

-- Z_OK, Z_STREAM_END and any other result
pub data ZResult : Type 0 where
  z_ok : ZResult
  z_stream_end : ZResult
  z_error : ZResult

-- Whether a stream is made, and one call with Z_FINISH: from the input and `avail_out`, the result
-- and the bytes at `next_out`.
pub record Zlib : Type 0 where
  pub inflate_init : Bool
  pub deflate_init : Bool
  pub run_inflate : Text → ℕ → ZResult × Text
  pub run_deflate : Text → ℕ → ZResult × Text

-- ELFIO's endianess_convertor: its operators on `uint32_t` and on `uint64_t`.
pub record Convertor : Type 0 where
  pub word : ℕ → ℕ
  pub xword : ℕ → ℕ

pub record Output : Type 0 where
  pub capacity : ℕ
  pub content : Text
  pub extent : ℕ

abbrev pub sub64 : ℕ → ℕ → ℕ
sub64 a b = (a + 2 ^ 64 - b) % 2 ^ 64

abbrev pub max : ℕ → ℕ → ℕ
max a b = if ltb a b then b else a

-- The word at the start of a text, and the bytes of a word, highest first.
abbrev pub first_word : Text → ℕ
first_word bytes =
    get_or bytes 0 0 * 2 ^ 24
    + get_or bytes 1 0 * 2 ^ 16
    + get_or bytes 2 0 * 2 ^ 8
    + get_or bytes 3 0

abbrev pub word_text : ℕ → Text
word_text w = word_bytes w 0 ∷ word_bytes w 1 ∷ word_bytes w 2 ∷ word_bytes w 3 ∷ []

abbrev pub is_error : ZResult → Bool
is_error z_ok = false
is_error z_stream_end = false
is_error z_error = true

module _ (zlib : Zlib) (allocated : ℕ → Bool) (convertor : Convertor) where
  -- `read_uncompressed_size`
  unfoldable pub read_uncompressed_size : Text → ℕ
  read_uncompressed_size bytes = u32 (convertor.word (first_word bytes))

  -- `write_compressed_size`: the bytes that it puts at the start. The size is an `Elf_Xword`, so the
  -- convertor of 64 bits is called, and its result is cut to a word.
  unfoldable pub write_compressed_size : ℕ → Text
  write_compressed_size compressed_size = word_text (u32 (convertor.xword compressed_size))

  -- `inflate`: the uncompressed size, and the result if it is not null.
  unfoldable pub inflate : Text → (compressed_size : ℕ) → ℕ × Option Output
  inflate bytes compressed_size =
      let uncompressed_size = read_uncompressed_size bytes in
      let capacity = u32 (uncompressed_size + 1) in
      let (z_ret, out) =
        zlib.run_inflate (take (u32 (sub64 compressed_size 4)) (drop 4 bytes)) uncompressed_size in
      let output : Output = record {
        capacity = capacity;
        content = out;
        extent = max (length out) (uncompressed_size + 1);
      } in
      (
        uncompressed_size,
        if allocated capacity
            then if zlib.inflate_init then if is_error z_ret then none else some output else none
            else none,
      )

  -- `deflate`: the caller's `compressed_size` afterwards, and the result if it is not null.
  unfoldable pub deflate : Text → (decompressed_size compressed_size : ℕ) → ℕ × Option Output
  deflate bytes decompressed_size compressed_size =
      let capacity = u32 decompressed_size in
      let avail_out = u32 (sub64 decompressed_size 4) in
      let (z_ret, out) = zlib.run_deflate (take (u32 decompressed_size) bytes) avail_out in
      let compressed_size' = sub64 decompressed_size (avail_out - length out) in
      let output : Output = record {
        capacity = capacity;
        content = write_compressed_size compressed_size' ++ out;
        extent = max (4 + length out) (compressed_size' + 1);
      } in
      if allocated capacity
      then if zlib.deflate_init
        then if is_error z_ret then (0, none) else (compressed_size', some output)
        else (compressed_size, none)
      else (compressed_size, none)
