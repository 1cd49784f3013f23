-- ===== src/FillFunc.antt =====
-- misc/fill_func/filler.cpp: the library that the daemon is shipped with as an example. It gives a
-- value for every key, normalizes keys, and hashes values. `rand()` and `boost::hash` are
-- parameters.
pub mod Fills
use swordfishd.Base.{
  ℕ, suc, ◌%◌, Bool, true, false, ◌&&◌, ◌||◌, some, none, List, [], ◌∷◌, ◌++◌, ◌==◌, if◌then◌else◌,
  Bytes, codes,
}
use swordfishd.Dhashmap.{Hooks}
use swordfishd.Filler.{Source}

-- The value that the loop of `get_values_from_outside` makes for a key.
abbrev pub made_value : ℕ → Bytes → Bytes
made_value drawn key = if drawn % 2 == 0 then codes "repeat" else key ++ codes "_boo"

-- The loop, with the draws from `rand()` counted from `i`.
unfoldable pub push_values : (ℕ → ℕ) → ℕ → List Bytes → List Bytes → List Bytes
push_values rand i [] values = values
push_values rand i (key ∷ keys) values =
    push_values rand (suc i) keys (values ++ made_value (rand i) key ∷ [])

-- `get_values_from_outside`: what it leaves in `values`, and what it returns.
unfoldable pub get_values_from_outside : (ℕ → ℕ) → (keys values : List Bytes) → List Bytes × Bool
unfolding push_values
get_values_from_outside rand keys values = (push_values rand 0 keys [], true)

abbrev pub starts_with : Bytes → Bytes → Bool
starts_with [] s = true
starts_with (c ∷ cs) [] = false
starts_with (c ∷ cs) (x ∷ xs) = x == c && starts_with cs xs

-- `s.find(part) != std::string::npos`.
unfoldable pub finds : Bytes → Bytes → Bool
finds part [] = starts_with part []
finds part (x ∷ xs) = starts_with part (x ∷ xs) || finds part xs

-- `normalize_key`, with the key that it leaves in `normalized_key`.
unfoldable pub normalize_key : Bytes → Bytes
unfolding finds
normalize_key key = if finds (codes "normalized") key then codes "normalized" else key

-- `custom_hash`, with the hash that it leaves in `hash`.
abbrev pub custom_hash : (Bytes → ℕ) → Bytes → ℕ
custom_hash hash_res value = hash_res value

-- The library as the filler finds it: it exports no function that says whether it is alive, for
-- which `Configure` of the filler ends the process.
abbrev pub fill_source : (ℕ → ℕ) → Source
fill_source rand = record {
  get_vals = λ keys vals. (get_values_from_outside rand keys vals).0;
  is_filler_alive = none;
  failed = false;
}

-- The library as the map loads it.
abbrev pub fill_hooks : (Bytes → ℕ) → Hooks
fill_hooks hash_res = record {
  custom_hash = some (custom_hash hash_res);
  normalize_key = some normalize_key;
}
