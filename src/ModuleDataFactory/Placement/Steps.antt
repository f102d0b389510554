-- ===== src/ModuleDataFactory/Placement/Steps.antt =====
-- The ways through one round of the copy loop (src/module/ModuleDataFactory.cpp, `load`).
use custom_rpxloader.Base.{ℕ, ◌≤◌, ◌≡◌, true, false, none, some, arith}
use custom_rpxloader.Machine.{Machine, u32, add32}
use custom_rpxloader.Outcome.{done, failed}
use custom_rpxloader.Reader.{Section}
use custom_rpxloader.ModuleDataFactory.Placement.{
  is_placed, Placing, locate, fill, store_section, place,
}

module _ (low top : ℕ) where
  pub place-skip :
      (p : Section) (v : Placing) (s : Machine)
      → is_placed p ≡ false
      → place low top p v s ≡ done v s
  unfolding place
  place-skip p v s h = ground arith

  pub place-unsupported :
      (p : Section) (v : Placing) (s : Machine)
      → is_placed p ≡ true
      → locate p v ≡ none
      → place low top p v s ≡ failed s
  unfolding place
  place-unsupported p v s h e = rw e (ground arith)

  pub place-locate :
      (p : Section) (v v' : Placing) (d : ℕ) (s : Machine)
      → is_placed p ≡ true
      → locate p v ≡ some (d, v')
      → place low top p v s ≡ store_section low top p d v' s
  unfolding place
  place-locate p v v' d s h e = rw e (ground arith)

  -- A section that has been stored passed both checks.
  pub record IsStored (p : Section) (d : ℕ) (v v' : Placing) (s s' : Machine) : Type 0 where
    pub not_below : low ≤ d
    pub not_above : add32 d (u32 p.size) ≤ top
    pub base : v'.base_offset ≡ v.base_offset
    pub offset : v'.offset_data ≡ v.offset_data
    pub destinations : v'.destinations ≡ v.destinations
    pub bytes : s'.mem ≡ (fill p d s).mem

  pub store_section-IsStored :
      (p : Section) (d : ℕ) (v v' : Placing) (s s' : Machine)
      → store_section low top p d v s ≡ done v' s'
      → IsStored p d v v' s s'
  unfolding store_section
  store_section-IsStored p d v v' s s' h = ground arith
