-- ===== src/LoadFileToMem/Tests.antt =====
-- A file of three bytes that is read in pieces of one byte, and a file that breaks off
-- (src/utils/FileUtils.cpp).
use custom_rpxloader.Base.{
  ℕ, zero, suc, ◌<◌, ◌≤◌, ◌≡◌, ◌≢◌, ap, ◌∙◌, refl, true, Option, some, List, [], ◌∷◌, ◌++◌, length,
  arith, drop,
}
use custom_rpxloader.LoadFileToMem.{File, Held, Loaded, load_file_to_mem}
use custom_rpxloader.LoadFileToMem.Total.{IsBounded, IsKept, load_file_to_mem-IsKept}
use custom_rpxloader.LoadFileToMem.Content.{IsChunk, load_file_to_mem-content}

-- The next byte of a text.
abbrev next : List ℕ → ℕ → Option (List ℕ)
next bytes zero = some []
next [] (suc n) = some []
next (c ∷ bytes) (suc n) = some (c ∷ [])

abbrev abc : List ℕ
abc = 97 ∷ 98 ∷ 99 ∷ []

abbrev file : ℕ → File
file size = record {
  can_open = true;
  fstat = some size;
  memalign = λ _. true;
  read = λ done n. next (drop done abc) n;
}

abbrev nothing : Held
nothing = record { files = 0; buffers = 0 }

next-length : (text : List ℕ) (n : ℕ) (bytes : List ℕ) → next text n ≡ some bytes → length bytes ≤ n
next-length text zero bytes h = ground arith
next-length [] (suc n) bytes h = ground arith
next-length (c ∷ text) (suc n) bytes h = ground arith

file-IsBounded : (size : ℕ) → IsBounded (file size)
file-IsBounded size done n bytes h = next-length (drop done abc) n bytes h

-- The file is said to have five bytes, and has three.
load_file_to_mem-IsKept_example :
    (r : Loaded) × (load_file_to_mem (file 5) nothing ≡ some r) × IsKept nothing r
load_file_to_mem-IsKept_example =
    load_file_to_mem-IsKept (file 5) nothing (file-IsBounded 5) λ size h. ground arith

drop-append : (before rest : List ℕ) → drop (length before) (before ++ rest) ≡ rest
drop-append [] rest = refl
drop-append (c ∷ before) rest = drop-append before rest

file-read :
    (before rest : List ℕ) (n : ℕ)
    → abc ≡ before ++ rest
    → rest ≢ []
    → 0 < n
    → IsChunk (file 3) (length before) rest n
file-read before [] n e some_left pos = absurd (some_left refl)
file-read before (c ∷ rest) zero e some_left pos = absurd (omega arith)
file-read before (c ∷ rest) (suc n) e some_left pos = record {
  first = c;
  others = [];
  following = rest;
  answer =
      ap (λ text. next (drop (length before) text) (suc n)) e
      ∙ ap (λ text. next text (suc n)) (drop-append before (c ∷ rest));
  split = refl;
  bounded = omega arith;
}

load_file_to_mem-content_example :
    load_file_to_mem (file 3) nothing
    ≡ some (record {
      code = 3;
      inbuffer = some abc;
      size = 3;
      held = record { files = 0; buffers = 1 };
    })
load_file_to_mem-content_example =
    load_file_to_mem-content (file 3) abc nothing
      (record { can_open = refl; fstat = refl; memalign = λ n. refl; read = file-read })
      (omega arith)
