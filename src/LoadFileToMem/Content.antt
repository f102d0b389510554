-- ===== src/LoadFileToMem/Content.antt =====
-- `LoadFileToMem` reads the whole file (src/utils/FileUtils.cpp).
use custom_rpxloader.Base.{
  ℕ, zero, suc, ◌+◌, ◌-◌, ◌^◌, ◌≤◌, ◌<◌, ◌≡◌, ◌≢◌, refl, ap, sym, ◌∙◌, true, false, some, List, [],
  ◌∷◌, ◌++◌, length, ltb, ◌==◌, if◌then◌else◌, arith, length-append, ==_refl,
}
use mathlib.Core.List.{append_assoc, append-nil}
use custom_rpxloader.Machine.{u32, add32, sub32}
use custom_rpxloader.LoadFileToMem.Total.{load_file_to_mem-read}
use custom_rpxloader.LoadFileToMem.{File, Held, read_all, finish, load_file_to_mem, round_up}

-- One answer of `read`: some of the bytes that follow, at most `n`.
pub record IsChunk (f : File) (done : ℕ) (rest : List ℕ) (n : ℕ) : Type 0 where
  pub first : ℕ
  pub others : List ℕ
  pub following : List ℕ
  pub answer : f.read done n ≡ some (first ∷ others)
  pub split : rest ≡ (first ∷ others) ++ following
  pub bounded : length (first ∷ others) ≤ n

-- The system reads a regular file with this content, in pieces of any size but 0.
pub record IsRegular (f : File) (content : List ℕ) : Type 0 where
  pub can_open : f.can_open ≡ true
  pub fstat : f.fstat ≡ some (length content)
  pub memalign : (n : ℕ) → f.memalign n ≡ true
  pub read :
      (before rest : List ℕ) (n : ℕ)
      → content ≡ before ++ rest
      → rest ≢ []
      → 0 < n
      → IsChunk f (length before) rest n

read_all-full :
    (f : File) (filesize fuel blocksize : ℕ) (buffer : List ℕ)
    → ltb (u32 (length buffer)) filesize ≡ false
    → read_all f filesize fuel blocksize buffer ≡ some buffer
unfolding read_all
read_all-full f filesize zero blocksize buffer h = rw h refl
read_all-full f filesize (suc fuel) blocksize buffer h = rw h refl

read_all-content :
    (f : File) (content : List ℕ) (fuel blocksize : ℕ) (before rest : List ℕ)
    → IsRegular f content
    → content ≡ before ++ rest
    → length content < 2 ^ 31
    → 0 < blocksize
    → blocksize ≤ 0x80000
    → length rest ≤ fuel
    → read_all f (length content) fuel blocksize before ≡ some content
unfolding read_all
read_all-content f content fuel blocksize before [] reg e small pos block enough =
    let same : content ≡ before = e ∙ append-nil before in
    let size : length content ≡ length before = ap length same in
    read_all-full f (length content) fuel blocksize before (ground arith) ∙ ap some (sym same)
read_all-content f content zero blocksize before (c ∷ rest) reg e small pos block enough =
    absurd (omega arith)
read_all-content f content (suc fuel) blocksize before (c ∷ rest) reg e small pos block enough =
    let sum : length content ≡ length before + suc (length rest) =
      ap length e ∙ length-append before (c ∷ rest) in
    let done : u32 (length before) ≡ length before = omega arith in
    let n =
      if ltb (length content) (add32 (u32 (length before)) blocksize)
      then sub32 (length content) (u32 (length before))
      else blocksize in
    let more : ltb (u32 (length before)) (length content) ≡ true = ground arith in
    let n_pos : 0 < n = ground arith in
    let n_le : n ≤ 0x80000 = ground arith in
    let k = reg.read before (c ∷ rest) n e (λ q. cc) n_pos in
    let split = ap length k.split ∙ length-append (k.first ∷ k.others) k.following in
    rw (more, ap (λ d. f.read d n) done ∙ k.answer)
      (read_all-content f content fuel n (before ++ k.first ∷ k.others) k.following reg
        (e
          ∙ ap (λ l. before ++ l) k.split
          ∙ sym (append_assoc before (k.first ∷ k.others) k.following))
        small n_pos n_le (omega (arith, split)))

-- A regular file of less than 2 ^ 31 bytes, for which there is memory, is read as a whole, whatever
-- the pieces that `read` gives.
pub load_file_to_mem-content :
    (f : File) (content : List ℕ) (held : Held)
    → IsRegular f content
    → length content < 2 ^ 31
    → load_file_to_mem f held
      ≡ some (record {
        code = length content;
        inbuffer = some content;
        size = length content;
        held = record held { buffers = held.buffers + 1 };
      })
unfolding finish
load_file_to_mem-content f content held reg small =
    let size : u32 (length content) ≡ length content = omega arith in
    let all =
      read_all-content f content (length content) 0x80000 [] content reg refl small (omega arith)
        (omega arith) (omega arith) in
    let same : (u32 (length content) == u32 (length content)) ≡ true =
      ==_refl (u32 (length content)) in
    let back : held.files + 1 - 1 ≡ held.files = omega arith in
    load_file_to_mem-read f held (length content) content reg.can_open reg.fstat
      (reg.memalign (round_up (u32 (length content)))) (rw size all)
    ∙ rw same (rw (size, back) refl)
