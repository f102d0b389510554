-- ===== src/Trampolin/Laws.antt =====
-- What the search for a trampoline finds (src/ElfUtils.cpp, the loop of case R_PPC_REL24).
use custom_rpxloader.Base.{
  ℕ, zero, suc, ◌+◌, ◌*◌, ◌≤◌, ◌<◌, ◌≡◌, sym, ap, ◌∙◌, true, false, Option, none, some, ◌⊎◌, inl,
  inr, arith, Bool-cases, Option-cases,
}
use native.Mathlib.Decide.{dec_lt}
use custom_rpxloader.Machine.{Memory}
use custom_rpxloader.Trampolin.{status, is_reusable, entry_size, find_slot}

-- The `i`-th entry may be taken and none of those before it may.
pub record IsFirst (m : Memory) (table n slot : ℕ) : Type 0 where
  pub i : ℕ
  pub in_table : i < n
  pub place : slot ≡ table + entry_size * i
  pub reusable : is_reusable (status m slot) ≡ true
  pub busy_before : (j : ℕ) → j < i → is_reusable (status m (table + entry_size * j)) ≡ false

-- No entry of the table may be taken.
abbrev pub IsFull : Memory → ℕ → ℕ → Type 0
IsFull m table n = (j : ℕ) → j < n → is_reusable (status m (table + entry_size * j)) ≡ false

busy_step :
    (m : Memory) (table i : ℕ)
    → is_reusable (status m table) ≡ false
    → IsFull m (table + entry_size) i
    → IsFull m table (suc i)
busy_step m table i now later zero h =
    let e : table + entry_size * 0 ≡ table = omega arith in rw e now
busy_step m table i now later (suc j) h =
    let e : table + entry_size * suc j ≡ table + entry_size + entry_size * j = omega arith in
    rw e (later j (omega arith))

-- An entry that the search returns is the first one that may be taken.
pub find_slot-IsFirst :
    (m : Memory) (n table : ℕ) {slot : ℕ} → find_slot m n table ≡ some slot → IsFirst m table n slot
unfolding find_slot
find_slot-IsFirst m zero table h = cc
find_slot-IsFirst m (suc n) table {slot} h = elim (Bool-cases (is_reusable (status m table))) [
  | inl free ↦ found free (rw free at h)
  | inr busy ↦ later busy (find_slot-IsFirst m n (table + entry_size) (rw busy at h))
]
  where
    found :
        is_reusable (status m table) ≡ true → some table ≡ some slot → IsFirst m table (suc n) slot
    found free e =
        let same : table ≡ slot = cc in
        record {
          i = 0;
          in_table = omega arith;
          place = omega arith;
          reusable = rw (← same) free;
          busy_before = λ j h. absurd (omega arith);
        }

    later :
        is_reusable (status m table) ≡ false
        → IsFirst m (table + entry_size) n slot
        → IsFirst m table (suc n) slot
    later busy f = record {
      i = suc f.i;
      in_table = omega arith;
      place = omega arith;
      reusable = f.reusable;
      busy_before = busy_step m table f.i busy f.busy_before;
    }

-- The search fails only on a full table.
pub find_slot-IsFull : (m : Memory) (n table : ℕ) → find_slot m n table ≡ none → IsFull m table n
unfolding find_slot
find_slot-IsFull m zero table h = λ j k. absurd (omega arith)
find_slot-IsFull m (suc n) table h = elim (Bool-cases (is_reusable (status m table))) [
  | inl free ↦ λ j k. cc (rw free at h)
  | inr busy ↦ busy_step m table n busy (find_slot-IsFull m n (table + entry_size) (rw busy at h))
]

-- What the outcome of a search of `n` entries says of the table.
abbrev pub Finds : Memory → ℕ → ℕ → Option ℕ → Type 0
Finds m table n none = IsFull m table n
Finds m table n (some slot) = IsFirst m table n slot

-- An entry that is neither free nor import-done is not the one that is found, and lies apart from
-- it.
pub find_slot-apart :
    (m : Memory) (n table : ℕ) {slot : ℕ} (j : ℕ)
    → find_slot m n table ≡ some slot
    → is_reusable (status m (table + entry_size * j)) ≡ false
    → (table + entry_size * j + entry_size ≤ slot) ⊎ (slot + entry_size ≤ table + entry_size * j)
find_slot-apart m n table {slot} j h busy = go (find_slot-IsFirst m n table h)
  where
    go :
        IsFirst m table n slot
        → (table + entry_size * j + entry_size ≤ slot)
          ⊎ (slot + entry_size ≤ table + entry_size * j)
    go f = elim (dec_lt f.i j) [
      | yes p ↦ inr (omega (arith, f.place))
      | no p ↦ elim (dec_lt j f.i) [
        | yes q ↦ inl (omega (arith, f.place))
        | no q ↦
            let e : j ≡ f.i = omega arith in
            let same : table + entry_size * j ≡ slot = rw e (sym f.place) in
            cc (f.reusable, busy, ap (λ (x : ℕ). is_reusable (status m x)) same)
      ]
    ]

-- There is one first entry that may be taken, and the search returns it.
pub IsFirst-find_slot :
    (m : Memory) (n table : ℕ) {slot : ℕ} → IsFirst m table n slot → find_slot m n table ≡ some slot
IsFirst-find_slot m n table {slot} f = elim (Option-cases (find_slot m n table)) [
  | inl e ↦
      let busy = find_slot-IsFull m n table e f.i f.in_table in
      cc (rw (← f.place) at busy, f.reusable)
  | inr (slot', e) ↦ e ∙ ap some (same (find_slot-IsFirst m n table e))
]
  where
    same : {slot' : ℕ} → IsFirst m table n slot' → slot' ≡ slot
    same g = elim (dec_lt f.i g.i) [
      | yes p ↦ let busy = g.busy_before f.i p in cc (rw (← f.place) at busy, f.reusable)
      | no p ↦ elim (dec_lt g.i f.i) [
        | yes q ↦ let busy = f.busy_before g.i q in cc (rw (← g.place) at busy, g.reusable)
        | no q ↦ let e : g.i ≡ f.i = omega arith in g.place ∙ rw e (sym f.place)
      ]
    ]

-- An entry stays the first one while it may be taken and those before it keep their status.
pub IsFirst-keep :
    {m m' : Memory} {table n slot : ℕ}
    → IsFirst m table n slot
    → is_reusable (status m' slot) ≡ true
    → ((j : ℕ)
        → table + entry_size * j + entry_size ≤ slot
        → status m' (table + entry_size * j) ≡ status m (table + entry_size * j))
    → IsFirst m' table n slot
IsFirst-keep f reusable same = record {
  i = f.i;
  in_table = f.in_table;
  place = f.place;
  reusable = reusable;
  busy_before = λ j h. rw (same j (omega (arith, f.place))) (f.busy_before j h);
}
