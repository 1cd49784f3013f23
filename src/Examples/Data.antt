-- ===== src/Examples/Data.antt =====
-- A map with one key, a storage around it, and a runtime whose order index is the usual one.
use swordfishd.Base.{
  ◌≡◌, refl, sym, ◌∙◌, true, false, none, [], ◌∷◌, arith, codes, ok, length, decimal, size_add,
}
use mathlib.Core.Path.{subst}
use swordfishd.Index.{Entry, references, use_count, locks, search, find_key, insert_key, dhm_hash}
use swordfishd.Index.Reference.{reference_index}
use swordfishd.Index.Footprint.{footprint}
use swordfishd.Dhashmap.{Dhashmap, Runtime, Hooks, new_dhashmap, add, add_new, find_value}
use swordfishd.Dhashmap.Invariant.{IsValid, new_dhashmap-IsValid}
use swordfishd.Dhashmap.InsertNew.{add-IsValid}
use swordfishd.Dhashmap.Expiry.{Balanced}
use swordfishd.Queue.{Queue}
use swordfishd.Stats.{Stats}
use swordfishd.Storage.{Storage, Formats}

abbrev pub runtime : Runtime
runtime = record { index = reference_index; default_hash = length; survives = λ e es. true }

abbrev pub hooks : Hooks
hooks = record { custom_hash = none; normalize_key = none }

abbrev pub first_entry : Entry
first_entry = record { key = codes "k"; ttl = 5; value = record { addr = 0; text = codes "vv" } }

-- The map after `add("k", "vv")` at time 5.
abbrev pub stocked : Dhashmap
stocked = record {
  ttl = 10;
  keys = first_entry ∷ [];
  values = first_entry.value ∷ [];
  deleted = 0;
  gets = 0;
  updates = 0;
  configured = false;
  storage_size = 3;
  lib_handle = false;
  hooks = hooks;
  next_addr = 1;
}

stocked-add : add runtime (new_dhashmap 10 hooks) (codes "k") (codes "vv") 5 ≡ ok stocked
unfolding add new_dhashmap find_value dhm_hash locks use_count references search add_new find_key
    insert_key reference_index size_add
stocked-add = refl

ok-injective {ℓ} : {A : Type ℓ} {a b : A} → ok a ≡ ok b → a ≡ b
ok-injective h = cc

pub stocked-IsValid : IsValid stocked
stocked-IsValid =
    let (m, run, valid) =
      add-IsValid runtime (new_dhashmap 10 hooks) (codes "k") (codes "vv") 5
        (new_dhashmap-IsValid 10 hooks) in
    subst IsValid (ok-injective (sym run ∙ stocked-add)) valid

pub stocked-Balanced : Balanced 0 stocked
unfolding footprint references
stocked-Balanced = record { size_is = refl; fits = omega arith }

abbrev pub queue : Queue
queue = record { items = codes "a" ∷ codes "b" ∷ []; curr_size = 2 }

abbrev pub stats : Stats
stats = record {
  start_time = 1;
  storage_size = 0;
  deleted = 4;
  queue_size = 0;
  gets = 7;
  values_size = 0;
  updates = 2;
}

abbrev pub storage : Storage
storage = record {
  storage = stocked;
  queue = queue;
  stats = stats;
  max_storage_size = 3;
  max_queue_size = 2;
  expirate_size = 1;
}

abbrev pub formats : Formats
formats = record { show_size = decimal; show_uptime = λ now start. decimal now }
