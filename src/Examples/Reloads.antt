-- ===== src/Examples/Reloads.antt =====
-- The theorem on the libraries of a daemon's storages, at two starts.
use swordfishd.Base.{◌≡◌, ◌⊎◌, refl, true, false, some, [], ◌∷◌, codes, empty, err, exits, length}
use swordfishd.Dhashmap.{Library}
use swordfishd.Storage.Reloads.{Setting, Kept, unset, make_storages, all_load, first_library_stays}
use swordfishd.FillFunc.{normalize_key}

abbrev shipped : Library
shipped = record {
  custom_hash = some (λ v. length v);
  normalize_key = some normalize_key;
  failed = false;
}

-- A library with other functions.
abbrev other_library : Library
other_library = record {
  custom_hash = some (λ v. 0);
  normalize_key = some (λ k. k);
  failed = false;
}

abbrev first_setting : Setting
first_setting = record {
  now = 1;
  ttl = 10;
  max_storage_size = 1000;
  max_queue_size = 5;
  expirate_size = 100;
  path = codes "filler.so";
  library = some shipped;
}

abbrev second_setting : Setting
second_setting = record first_setting {
  now = 50;
  path = codes "other.so";
  library = some other_library;
}

first_library_stays_example :
    (Kept (λ v. length v) normalize_key unset (first_setting ∷ second_setting ∷ [])
      × (all_load (second_setting ∷ []) ≡ true))
    ⊎ ((make_storages unset (first_setting ∷ second_setting ∷ []) ≡ err exits)
        × (all_load (second_setting ∷ []) ≡ false))
unfolding empty
first_library_stays_example =
    first_library_stays first_setting (second_setting ∷ []) shipped (λ v. length v) normalize_key
      refl refl refl refl refl
