-- ===== src/Index/Reference.antt =====
-- The usual insertion into an ordered index, behind the entries that are as early, for the
-- examples.
use swordfishd.Base.{
  ◌≤◌, ◌≡◌, refl, ap, inl, inr, List, [], ◌∷◌, ◌++◌, arith, ltb, if◌then◌else◌, Bool-cases, All,
}
use swordfishd.Index.{Entry, TtlIndex}

pub place : Entry → List Entry → List Entry
place e [] = e ∷ []
place e (x ∷ xs) = let rest = place e xs in if ltb e.ttl x.ttl then e ∷ x ∷ xs else x ∷ rest

pub place-splits :
    (e : Entry) (es : List Entry)
    → (pre : List Entry) × (post : List Entry) × (es ≡ pre ++ post) × (place e es ≡ pre ++ e ∷ post)
unfolding place
place-splits e [] = ([], [], refl, refl)
place-splits e (x ∷ xs) = elim (Bool-cases (ltb e.ttl x.ttl)) [
  | inl before ↦ ([], x ∷ xs, refl, rw before)
  | inr behind ↦
      let (pre, post, split, placed) = place-splits e xs in
      (x ∷ pre, post, ap (◌∷◌ x) split, rw behind (ap (◌∷◌ x) placed))
]

pub place-last :
    (e : Entry) (es : List Entry) → All (λ x. x.ttl ≤ e.ttl) es → place e es ≡ es ++ e ∷ []
unfolding place
place-last e [] h = refl
place-last e (x ∷ xs) h = elim (Bool-cases (ltb e.ttl x.ttl)) [
  | inl before ↦ absurd (ground (arith, h.0))
  | inr behind ↦ rw behind (ap (◌∷◌ x) (place-last e xs h.1))
]

unfoldable pub reference_index : TtlIndex
unfolding place
reference_index = record { place = place; place_splits = place-splits; place_last = place-last }
