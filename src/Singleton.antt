-- ===== src/Singleton.antt =====
-- include/utils/singleton.hpp: the holder of one object, with callers of `instance()` in any order
-- and the `clean` that runs at exit. An access to a static member is one step. The order in which
-- other processors see the writes is the order of the steps.
pub mod Once
pub mod Cleaning
use swordfishd.Base.{ℕ, suc, ◌≡◌, Bool, true, false, Option, none, some, ◌==◌, if◌then◌else◌}

-- How far `clean` has come: not begun, behind `delete`, behind `pinst_ = false`, at its end.
pub data Ending : Type 0 where
  running : Ending
  removed : Ending
  cleared : Ending
  cleaned : Ending

-- The static members, with the thread that has locked the mutex, and the number of objects made.
pub record Holder : Type 0 where
  pub pinst : Option ℕ
  pub owner : Option ℕ
  pub deleted : Bool
  pub made : ℕ
  pub ending : Ending

abbrev pub new_holder : Holder
new_holder = record { pinst = none; owner = none; deleted = false; made = 0; ending = running }

-- Where a caller of `instance()` stands.
pub data Caller : Type 0 where
  before : Caller
  -- in `create()`: at the guard, behind it, behind the test of `pinst_`, behind that of `deleted_`
  creating : Caller
  guarded : Caller
  tested : Caller
  permitted : Caller
  -- about to release the guard
  leaving : Caller
  -- at `return *pinst_`
  returning : Caller
  given : (address : ℕ) → Caller
  thrown : Caller
  -- a null pointer was dereferenced
  crashed : Caller

-- One step of the caller `i`. `grants` says whether the mutex lets a caller in, given who has it.
pub data Act (grants : Option ℕ → Bool) (i : ℕ) (h : Holder)
    : Caller → Holder → Caller → Type 0 where
  sees_one : {p : ℕ} → h.pinst ≡ some p → Act grants i h before h returning
  misses : h.pinst ≡ none → Act grants i h before h creating
  acquires : grants h.owner ≡ true → Act grants i h creating (record h { owner = some i }) guarded
  sees_made : {p : ℕ} → h.pinst ≡ some p → Act grants i h guarded h leaving
  tests : h.pinst ≡ none → Act grants i h guarded h tested
  throws : h.deleted ≡ true → Act grants i h tested (record h { owner = none }) thrown
  permits : h.deleted ≡ false → Act grants i h tested h permitted
  makes : Act grants i h permitted (record h { pinst = some h.made; made = suc h.made }) leaving
  unlocks : Act grants i h leaving (record h { owner = none }) returning
  returns : {p : ℕ} → h.pinst ≡ some p → Act grants i h returning h (given p)
  crashes : h.pinst ≡ none → Act grants i h returning h crashed

-- One step of `clean`, which was registered when the object was made.
pub data Clean (h : Holder) : Holder → Type 0 where
  removes :
      {p : ℕ} → h.ending ≡ running → h.pinst ≡ some p → Clean h (record h { ending = removed })
  clears : h.ending ≡ removed → Clean h (record h { pinst = none; ending = cleared })
  marks : h.ending ≡ cleared → Clean h (record h { deleted = true; ending = cleaned })

abbrev pub place : (ℕ → Caller) → ℕ → Caller → ℕ → Caller
place f i c j = if i == j then c else f j

-- What any number of callers can come to.
pub data Comes (grants : Option ℕ → Bool) : Holder → (ℕ → Caller) → Type 0 where
  begin : Comes grants new_holder (λ i. before)
  acts :
      {h h' : Holder} {f : ℕ → Caller} {c : Caller} (i : ℕ)
      → Comes grants h f
      → Act grants i h (f i) h' c
      → Comes grants h' (place f i c)
  cleans : {h h' : Holder} {f : ℕ → Caller} → Comes grants h f → Clean h h' → Comes grants h' f
