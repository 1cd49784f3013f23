-- ===== src/Locks/Reference.antt =====
-- A mutex with the laws that include/dhashmap.hpp relies on, for the examples.
use swordfishd.Base.{◌≡◌, refl, Bool, true, false, Option, none, some}
use swordfishd.Locks.{Mutex}

abbrev pub try_upgradable : Bool → Option Bool
try_upgradable true = none
try_upgradable false = some true

pub try-granted : (s : Bool) → s ≡ false → (t : Bool) × (try_upgradable s ≡ some t) × (t ≡ true)
try-granted true h = cc
try-granted false h = (true, refl, refl)

pub try-refused : (s : Bool) → s ≡ true → try_upgradable s ≡ none
try-refused true h = refl
try-refused false h = cc

abbrev pub reference_mutex : Mutex
reference_mutex = record {
  State = Bool;
  free = false;
  lock_sharable = λ s. some s;
  unlock_sharable = λ s. s;
  lock_upgradable = try_upgradable;
  unlock_upgradable = λ s. false;
  upgradable = λ s. s;
  free_lem = refl;
  sharable_lem = λ s. (s, refl, refl);
  unlock_sharable_lem = λ s. refl;
  granted = try-granted;
  refused = try-refused;
  unlock_upgradable_lem = λ s h. refl;
}
