-- ===== src/ModuleDataFactory/FromPath/Tests.antt =====
-- `load` of a module from a file of one byte (src/module/ModuleDataFactory.cpp).
use custom_rpxloader.Base.{
  ℕ, zero, suc, ◌+◌, ◌≤◌, ◌<◌, ◌≡◌, ◌≢◌, refl, sym, true, Option, some, List, [], ◌∷◌, ◌++◌, length,
  arith,
}
use custom_rpxloader.Outcome.{Outcome}
use custom_rpxloader.Reader.{Reader}
use custom_rpxloader.LoadFileToMem.{File, Held}
use custom_rpxloader.LoadFileToMem.Content.{IsChunk}
use custom_rpxloader.ModuleData.{ModuleData}
use custom_rpxloader.ModuleDataFactory.{load}
use custom_rpxloader.ModuleDataFactory.Sample.{reader, empty}
use custom_rpxloader.ModuleDataFactory.FromPath.{load_path}
use custom_rpxloader.ModuleDataFactory.FromPath.Released.{
  IsReleased, kept, load_path-IsReleased, load_path-content,
}

abbrev content : List ℕ
content = 0x7f ∷ []

abbrev next : ℕ → Option (List ℕ)
next zero = some []
next (suc n) = some content

abbrev file : File
file = record { can_open = true; fstat = some 1; memalign = λ n. true; read = λ done n. next n }

abbrev nothing : Held
nothing = record { files = 0; buffers = 0 }

abbrev parse : List ℕ → Option Reader
parse buffer = some reader

next-length : (n : ℕ) (bytes : List ℕ) → next n ≡ some bytes → length bytes ≤ n
next-length zero bytes h = ground arith
next-length (suc n) bytes h = ground arith

load_path-IsReleased_example :
    (h : Held) × (o : Outcome ModuleData) × IsReleased file parse true 0x00fd0000 0x10000 0x00900000
      500 nothing empty h o
load_path-IsReleased_example =
    load_path-IsReleased file parse true 0x00fd0000 0x10000 0x00900000 500 nothing empty
      (λ done n bytes h. next-length n bytes h) (λ size h. ground arith)

file-read :
    (before rest : List ℕ) (n : ℕ)
    → content ≡ before ++ rest
    → rest ≢ []
    → 0 < n
    → IsChunk file (length before) rest n
file-read before rest zero e left pos = absurd (omega arith)
file-read [] rest (suc n) e left pos = record {
  first = 0x7f;
  others = [];
  following = [];
  answer = refl;
  split = sym e;
  bounded = omega arith;
}
file-read (b ∷ []) rest (suc n) e left pos = absurd (left (cc))
file-read (b ∷ c ∷ before) rest (suc n) e left pos = cc

load_path-content_example :
    load_path file parse true 0x00fd0000 0x10000 0x00900000 500 nothing empty
    ≡ some (
      record {
        files = 0;
        buffers = 0 + kept (load (some content) parse true 0x00fd0000 0x10000 0x00900000 500 empty);
      },
      load (some content) parse true 0x00fd0000 0x10000 0x00900000 500 empty,
    )
load_path-content_example =
    load_path-content file parse true 0x00fd0000 0x10000 0x00900000 500 nothing empty content
      (record { can_open = refl; fstat = refl; memalign = λ n. refl; read = file-read })
      (omega arith)
