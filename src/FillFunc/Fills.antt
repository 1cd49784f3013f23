-- ===== src/FillFunc/Fills.antt =====
-- misc/fill_func/filler.cpp: its values and its normalized keys, and the filler that looks it up.
use swordfishd.Base.{
  ℕ, suc, ◌≡◌, refl, ap, ◌∙◌, inl, inr, true, false, ◌||◌, some, List, [], ◌∷◌, ◌++◌, append-nil,
  append_assoc, Bool-cases, Bytes, codes, empty, err, exits,
}
use swordfishd.Index.{normalized_hash}
use swordfishd.Filler.{Filler, configure}
use swordfishd.Filler.Rounds.{configure-Configures}
use swordfishd.FillFunc.{
  made_value, push_values, get_values_from_outside, finds, normalize_key, fill_source,
}

-- The specification: one value for each key, in the order of the keys.
abbrev pub values_for : (ℕ → ℕ) → ℕ → List Bytes → List Bytes
values_for rand i [] = []
values_for rand i (key ∷ keys) = made_value (rand i) key ∷ values_for rand (suc i) keys

push_values-append :
    (rand : ℕ → ℕ) (i : ℕ) (keys values : List Bytes)
    → push_values rand i keys values ≡ values ++ values_for rand i keys
unfolding push_values
push_values-append rand i [] values = simp (append-nil)
push_values-append rand i (key ∷ keys) values =
    push_values-append rand (suc i) keys (values ++ made_value (rand i) key ∷ [])
    ∙ append_assoc values (made_value (rand i) key ∷ []) (values_for rand (suc i) keys)

pub get_values_lem :
    (rand : ℕ → ℕ) (keys values : List Bytes)
    → get_values_from_outside rand keys values ≡ (values_for rand 0 keys, true)
unfolding get_values_from_outside
get_values_lem rand keys values = rw (push_values-append rand 0 keys [])

pub normalize_key_idem : (k : Bytes) → normalize_key (normalize_key k) ≡ normalize_key k
unfolding normalize_key finds
normalize_key_idem k = elim (Bool-cases (finds (codes "normalized") k)) [
  | inl hit ↦ rw hit refl
  | inr miss ↦ rw miss (rw miss)
]

-- The index of the keys has a key and its normalized text at the same place.
normalized_hash-normalize_key :
    (default : Bytes → ℕ) (k : Bytes)
    → normalized_hash default (some normalize_key) (normalize_key k)
      ≡ normalized_hash default (some normalize_key) k
unfolding normalized_hash
normalized_hash-normalize_key default k = ap default (normalize_key_idem k)

-- `Configure` of the filler does not load the library, which exports no function that says whether
-- it is alive: the process exits, for all names that are not empty.
fill_source_exits :
    (rand : ℕ → ℕ) (path function : Bytes) (size : ℕ) (f : Filler)
    → (empty path || empty function) ≡ false
    → configure (some (fill_source rand)) path function size f ≡ err exits
fill_source_exits rand path function size f named =
    elim (configure-Configures (some (fill_source rand)) path function size f named) [
      | inl (fails, exit) ↦ exit
      | inr (loads, ready) ↦ absurd (cc)
    ]
