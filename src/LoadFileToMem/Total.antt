-- ===== src/LoadFileToMem/Total.antt =====
-- `LoadFileToMem` ends, and holds what it should (src/utils/FileUtils.cpp).
use custom_rpxloader.Base.{
  ℕ, zero, suc, ◌+◌, ◌^◌, ◌≤◌, ◌<◌, ◌≡◌, ◌↔◌, refl, ap, ◌∙◌, true, Option, none, some, List, [],
  ◌∷◌, ◌++◌, length, ltb, ◌==◌, if◌then◌else◌, arith, inl, inr, Option-cases, Bool-cases,
  length-append,
}
use custom_rpxloader.Machine.{u32, add32, sub32}
use custom_rpxloader.LoadFileToMem.{
  File, Held, Loaded, read_all, finish, load_file_to_mem, give_up, opened, closed, round_up,
}

-- `read` gives at most as many bytes as it was asked for.
abbrev pub IsBounded : File → Type 0
IsBounded f = (at n : ℕ) (bytes : List ℕ) → f.read at n ≡ some bytes → length bytes ≤ n

-- The number of buffers that the caller is given.
abbrev pub given : Option (List ℕ) → ℕ
given none = 0
given (some buffer) = 1

-- What a read leads to ends with no more than `limit` bytes, if it does so with every answer that is
-- not empty.
after_read :
    (more : List ℕ → Option (List ℕ)) (buffer : List ℕ) (n limit : ℕ) (r : Option (List ℕ))
    → length buffer ≤ limit
    → ((bytes : List ℕ) → r ≡ some bytes → length bytes ≤ n)
    → ((c : ℕ) (cs : List ℕ)
        → length (c ∷ cs) ≤ n
        → (result : List ℕ) × (more (c ∷ cs) ≡ some result) × (length result ≤ limit))
    → (result : List ℕ) × ((elim r [
      | none ↦ some buffer
      | some [] ↦ some buffer
      | some (c ∷ cs) ↦ more (c ∷ cs)
    ])
        ≡ some result)
      × (length result ≤ limit)
after_read more buffer n limit none inside h go = (buffer, refl, inside)
after_read more buffer n limit (some []) inside h go = (buffer, refl, inside)
after_read more buffer n limit (some (c ∷ cs)) inside h go = go c cs (h (c ∷ cs) refl)

read_all-ends :
    (f : File) (filesize fuel blocksize : ℕ) (buffer : List ℕ)
    → IsBounded f
    → filesize < 2 ^ 31
    → blocksize ≤ 0x80000
    → length buffer ≤ filesize
    → filesize ≤ length buffer + fuel
    → (result : List ℕ) × (read_all f filesize fuel blocksize buffer ≡ some result)
      × (length result ≤ filesize)
unfolding read_all
read_all-ends f filesize zero blocksize buffer bounded small block inside enough =
    (buffer, ground arith, inside)
read_all-ends f filesize (suc fuel) blocksize buffer bounded small block inside enough =
    elim (Bool-cases (ltb (u32 (length buffer)) filesize)) [
      | inr e ↦ (buffer, rw e refl, inside)
      | inl e ↦
          let n =
            if ltb filesize (add32 (u32 (length buffer)) blocksize)
            then sub32 filesize (u32 (length buffer))
            else blocksize in
          rw e (
            after_read (λ bytes. read_all f filesize fuel n (buffer ++ bytes)) buffer n filesize
              (f.read (u32 (length buffer)) n) inside (bounded (u32 (length buffer)) n)
              λ c cs h.
                read_all-ends f filesize fuel n (buffer ++ c ∷ cs) bounded small (ground arith)
                  (ground (arith, length-append buffer (c ∷ cs)))
                  (ground (arith, length-append buffer (c ∷ cs))))
    ]

-- What a run of `LoadFileToMem` that holds `held` at its start leaves.
pub record IsKept (held : Held) (r : Loaded) : Type 0 where
  pub files : r.held.files ≡ held.files
  pub buffers : r.held.buffers ≡ held.buffers + given r.inbuffer
  pub success : (r.code < 2 ^ 31) ↔ (given r.inbuffer ≡ 1)
  pub size :
      (buffer : List ℕ)
      → r.inbuffer ≡ some buffer
      → (r.size ≡ length buffer) × (r.code ≡ length buffer)

finish-IsKept :
    (filesize : ℕ) (buffer : List ℕ) (held h : Held)
    → filesize < 2 ^ 31
    → length buffer ≤ filesize
    → h.files ≡ held.files + 1
    → h.buffers ≡ held.buffers + 1
    → IsKept held (finish filesize buffer h)
unfolding finish
finish-IsKept filesize buffer held h small inside f b =
    elim (Bool-cases (u32 (length buffer) == filesize)) [
      | inl e ↦
          rw (e, finish)
            (record {
              files = omega arith;
              buffers = omega arith;
              success = (λ _. refl, λ _. small);
              size = λ other q.
                  let full : filesize ≡ length buffer = ground (arith, e) in
                  let same : buffer ≡ other = cc in
                  let whole = full ∙ ap (λ (l : List ℕ). length l) same in (whole, whole);
            })
      | inr e ↦
          rw (e, finish)
            (record {
              files = omega arith;
              buffers = omega arith;
              success = (λ q. absurd (omega (arith, q)), λ q. absurd (omega (arith, q)));
              size = λ other q. cc;
            })
    ]

give_up-IsKept : (k : ℕ) (held : Held) → 0 < k → k < 2 ^ 31 → IsKept held (give_up k held)
give_up-IsKept k held pos lt = record {
  files = refl;
  buffers = omega arith;
  success = (λ q. absurd (omega (arith, q)), λ q. absurd (omega (arith, q)));
  size = λ other q. cc;
}

-- The run in which the buffer is read.
pub load_file_to_mem-read :
    (f : File) (held : Held) (size : ℕ) (buffer : List ℕ)
    → f.can_open ≡ true
    → f.fstat ≡ some size
    → f.memalign (round_up (u32 size)) ≡ true
    → read_all f (u32 size) (u32 size) 0x80000 [] ≡ some buffer
    → load_file_to_mem f held
      ≡ some
          (finish (u32 size) buffer (record { files = held.files + 1; buffers = held.buffers + 1 }))
unfolding load_file_to_mem
load_file_to_mem-read f held size buffer e e' m ends = rw (e, e', m, ends) refl

-- If `read` gives no more than it is asked for and a file's size is less than 2 ^ 31, then
-- `LoadFileToMem` ends; it has closed what it opened; it holds one more buffer if it gives one to
-- the caller and none otherwise; its result is not negative exactly if it gives one; and the size
-- that it tells and the result are then the number of bytes that have been read into the buffer.
pub load_file_to_mem-IsKept :
    (f : File) (held : Held)
    → IsBounded f
    → ((size : ℕ) → f.fstat ≡ some size → size < 2 ^ 31)
    → (r : Loaded) × (load_file_to_mem f held ≡ some r) × IsKept held r
unfolding load_file_to_mem
load_file_to_mem-IsKept f held bounded sizes = elim (Bool-cases f.can_open) [
  | inr e ↦ (give_up 1 held, rw e refl, give_up-IsKept 1 held (omega arith) (omega arith))
  | inl e ↦ elim (Option-cases f.fstat) [
    | inl e' ↦
        (give_up 4 (closed (opened held)), rw (e, e') refl, failed 4 (omega arith) (omega arith))
    | inr (size, e') ↦ elim (Bool-cases (f.memalign (round_up (u32 size)))) [
      | inr m ↦ (
        give_up 2 (closed (opened held)),
        rw (e, e', m) refl,
        failed 2 (omega arith) (omega arith),
      )
      | inl m ↦
          let small : u32 size < 2 ^ 31 = omega (arith, sizes size e') in
          let (buffer, ends, inside) =
            read_all-ends f (u32 size) (u32 size) 0x80000 [] bounded small (omega arith)
              (omega arith) (omega arith) in
          let h : Held = record { files = held.files + 1; buffers = held.buffers + 1 } in
          (
            finish (u32 size) buffer h,
            load_file_to_mem-read f held size buffer e e' m ends,
            finish-IsKept (u32 size) buffer held h small inside refl refl,
          )
    ]
  ]
]
  where
    failed : (k : ℕ) → 0 < k → k < 2 ^ 31 → IsKept held (give_up k (closed (opened held)))
    failed k pos lt =
        let g = give_up-IsKept k (closed (opened held)) pos lt in
        record { files = omega arith; buffers = g.buffers; success = g.success; size = g.size }
