-- ===== src/ModuleDataFactory/FromPath/Released.antt =====
-- `load` gives back what it has taken (src/module/ModuleDataFactory.cpp, src/utils/FileUtils.cpp).
use custom_rpxloader.Base.{
  ℕ, ◌+◌, ◌^◌, ◌<◌, ◌≡◌, ◌≢◌, refl, ap, ◌∙◌, Bool, true, false, Option, none, some, List, length,
  ltb, arith, inl, inr, Bool-cases,
}
use custom_rpxloader.Machine.{Machine}
use custom_rpxloader.Outcome.{Outcome, done, failed, fatal}
use custom_rpxloader.Reader.{Reader}
use custom_rpxloader.LoadFileToMem.{File, Held, Loaded, load_file_to_mem}
use custom_rpxloader.LoadFileToMem.Total.{IsBounded, given, load_file_to_mem-IsKept}
use custom_rpxloader.LoadFileToMem.Content.{IsRegular, load_file_to_mem-content}
use custom_rpxloader.OnLeavingScope.{on_leaving_scope, leave_scope}
use custom_rpxloader.ModuleData.{ModuleData}
use custom_rpxloader.ModuleDataFactory.{load}
use custom_rpxloader.ModuleDataFactory.FromPath.{free_buffer, run_all, leave_load, load_path}

-- One more buffer after a call of `OSFatal`, and none otherwise.
abbrev pub kept : Outcome ModuleData → ℕ
kept (done m s) = 0
kept (failed s) = 0
kept (fatal s) = 1

leave_load-kept :
    (o : Outcome ModuleData) (held : Held) (n : ℕ)
    → held.buffers ≡ n + 1
    → (leave_load o (on_leaving_scope free_buffer) held).buffers ≡ n + kept o
unfolding leave_load run_all on_leaving_scope leave_scope
leave_load-kept (done m s) held n h = omega arith
leave_load-kept (failed s) held n h = omega arith
leave_load-kept (fatal s) held n h = h

leave_load-files :
    (o : Outcome ModuleData) (held : Held)
    → (leave_load o (on_leaving_scope free_buffer) held).files ≡ held.files
unfolding leave_load run_all on_leaving_scope leave_scope
leave_load-files (done m s) held = refl
leave_load-files (failed s) held = refl
leave_load-files (fatal s) held = refl

leave_load-held :
    (o : Outcome ModuleData) (held : Held)
    → leave_load o (on_leaving_scope free_buffer) (record held { buffers = held.buffers + 1 })
      ≡ record held { buffers = held.buffers + kept o }
unfolding leave_load run_all on_leaving_scope leave_scope
leave_load-held (done m s) held = ground arith
leave_load-held (failed s) held = ground arith
leave_load-held (fatal s) held = refl

module _ (f : File) (parse : List ℕ → Option Reader) (allocated : Bool) (d m t n : ℕ) (held : Held)
    (s : Machine) where
  -- What `load` ends with.
  pub record IsReleased (h : Held) (o : Outcome ModuleData) : Type 0 where
    pub run : load_path f parse allocated d m t n held s ≡ some (h, o)
    pub files : h.files ≡ held.files
    pub buffers : h.buffers ≡ held.buffers + kept o

  load_path-read :
      (r : Loaded)
      → load_file_to_mem f held ≡ some r
      → r.code < 2 ^ 31
      → load_path f parse allocated d m t n held s
        ≡ some (
          leave_load
              (load r.inbuffer parse allocated d m t n s)
              (on_leaving_scope free_buffer)
              r.held,
          load r.inbuffer parse allocated d m t n s,
        )
  unfolding load_path
  load_path-read r e small =
      let good : ltb r.code (2 ^ 31) ≡ true = ground arith in rw (load_path, e, good) refl

  load_path-unread :
      (r : Loaded)
      → load_file_to_mem f held ≡ some r
      → ltb r.code (2 ^ 31) ≡ false
      → load_path f parse allocated d m t n held s ≡ some (r.held, failed s)
  unfolding load_path load
  load_path-unread r e bad = rw (load_path, e, bad) refl

  given_cases : (b : Option (List ℕ)) → given b ≢ 1 → given b ≡ 0
  given_cases none h = refl
  given_cases (some buffer) h = absurd (h refl)

  -- If `read` gives no more than it is asked for and a file's size is less than 2 ^ 31, `load` ends
  -- on every path; then it has closed the files that it has opened, and it holds no buffer of its
  -- own, unless it has ended in `OSFatal`.
  pub load_path-IsReleased :
      IsBounded f
      → ((size : ℕ) → f.fstat ≡ some size → size < 2 ^ 31)
      → (h : Held) × (o : Outcome ModuleData) × IsReleased h o
  load_path-IsReleased bounded sizes =
      let (r, e, k) = load_file_to_mem-IsKept f held bounded sizes in
      elim (Bool-cases (ltb r.code (2 ^ 31))) [
        | inl good ↦
            let small : r.code < 2 ^ 31 = ground arith in
            let o = load r.inbuffer parse allocated d m t n s in
            let one : given r.inbuffer ≡ 1 = (k.success).0 small in
            (
              leave_load o (on_leaving_scope free_buffer) r.held,
              o,
              record {
                run = load_path-read r e small;
                files = leave_load-files o r.held ∙ k.files;
                buffers = leave_load-kept o r.held held.buffers (omega (arith, one, k.buffers));
              },
            )
        | inr bad ↦
            let zero_lem : given r.inbuffer ≡ 0 =
              given_cases r.inbuffer (λ one. ground (arith, (k.success).1 one)) in
            (
              r.held,
              failed s,
              record {
                run = load_path-unread r e bad;
                files = k.files;
                buffers = omega (arith, zero_lem, k.buffers);
              },
            )
      ]

  -- For a regular file of less than 2 ^ 31 bytes, for which there is memory, `load` does what it
  -- does with a buffer that holds the file's content, and gives it back unless it ends in `OSFatal`.
  pub load_path-content :
      (content : List ℕ)
      → IsRegular f content
      → length content < 2 ^ 31
      → let o = load (some content) parse allocated d m t n s in
        load_path f parse allocated d m t n held s
        ≡ some (record held { buffers = held.buffers + kept o }, o)
  load_path-content content regular small =
      let o = load (some content) parse allocated d m t n s in
      let r : Loaded = record {
        code = length content;
        inbuffer = some content;
        size = length content;
        held = record held { buffers = held.buffers + 1 };
      } in
      load_path-read r (load_file_to_mem-content f content held regular small) small
      ∙ ap (λ h. some (h, o)) (leave_load-held o held)
