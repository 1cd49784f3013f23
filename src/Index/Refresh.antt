-- ===== src/Index/Refresh.antt =====
-- include/dhashmap.hpp, `update_ttl` on an entry of the index.
use swordfishd.Base.{
  ℕ, ◌≡◌, refl, inl, inr, Option, none, some, List, [], ◌∷◌, arith, Bool-cases, All, Bytes, str_eq,
  map,
}
use swordfishd.Index.{Pointer, Entry, references, find_key, update_ttl}
use swordfishd.Index.Keys.{HasKeys}

-- What an entry maps to what.
abbrev pub binding : Entry → Bytes × Pointer
binding e = (e.key, e.value)

abbrev pub bindings : List Entry → List (Bytes × Pointer)
bindings = map binding

-- The keys, their order and their values stay.
pub bindings-update_ttl :
    (k : Bytes) (now : ℕ) (es : List Entry) → bindings (update_ttl k now es) ≡ bindings es
unfolding update_ttl
bindings-update_ttl k now [] = refl
bindings-update_ttl k now (e ∷ es) = ground (arith, bindings-update_ttl k now es)

pub references-update_ttl :
    (k : Bytes) (now a : ℕ) (es : List Entry) → references a (update_ttl k now es) ≡ references a es
unfolding update_ttl references
references-update_ttl k now a [] = refl
references-update_ttl k now a (e ∷ es) = ground (arith, references-update_ttl k now a es)

abbrev pub value_of : Option Entry → Option Pointer
value_of none = none
value_of (some e) = some e.value

pub find_key-update_ttl :
    (k j : Bytes) (now : ℕ) (es : List Entry)
    → value_of (find_key j (update_ttl k now es)) ≡ value_of (find_key j es)
unfolding update_ttl find_key
find_key-update_ttl k j now [] = refl
find_key-update_ttl k j now (e ∷ es) = ground (arith, find_key-update_ttl k j now es)

find_key-update_ttl-none :
    (k j : Bytes) (now : ℕ) (es : List Entry)
    → find_key j es ≡ none
    → find_key j (update_ttl k now es) ≡ none
unfolding update_ttl find_key
find_key-update_ttl-none k j now [] h = refl
find_key-update_ttl-none k j now (e ∷ es) h = ground (arith, find_key-update_ttl-none k j now es)

pub update_ttl-HasKeys :
    (k : Bytes) (now : ℕ) (es : List Entry) → HasKeys es → HasKeys (update_ttl k now es)
unfolding update_ttl
update_ttl-HasKeys k now [] h = h
update_ttl-HasKeys k now (e ∷ es) h =
    ground (arith, update_ttl-HasKeys k now es h.1, find_key-update_ttl-none k e.key now es h.0)

pub update_ttl-All {ℓ} :
    (P : Pointer → Type ℓ) (k : Bytes) (now : ℕ) (es : List Entry)
    → All (λ (e : Entry). P e.value) es
    → All (λ (e : Entry). P e.value) (update_ttl k now es)
unfolding update_ttl
update_ttl-All P k now [] h = h
update_ttl-All P k now (e ∷ es) h = elim (Bool-cases (str_eq e.key k)) [
  | inl hit ↦ rw hit h
  | inr miss ↦ rw miss (h.0, update_ttl-All P k now es h.1)
]
