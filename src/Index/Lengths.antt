-- ===== src/Index/Lengths.antt =====
-- include/dhashmap.hpp: how many entries the index has.
use swordfishd.Base.{
  ℕ, ◌+◌, ◌≤◌, ◌≡◌, ap, inl, inr, List, [], ◌∷◌, arith, Bool-cases, Option-cases, length,
  length-append, Bytes, str_eq,
}
use swordfishd.Index.{Entry, find_key, erase_key, update_ttl, TtlIndex, insert_key}

pub length-insert_key :
    (ix : TtlIndex) (e : Entry) (es : List Entry) → length (insert_key ix e es) ≤ length es + 1
unfolding insert_key
length-insert_key ix e es = elim (Option-cases (find_key e.key es)) [
  | inl absent ↦
      let (pre, post, split, placed) = ix.place_splits e es in
      rw (absent, insert_key, placed)
        (omega (arith, ap length split, length-append pre post, length-append pre (e ∷ post)))
  | inr (x, known) ↦ rw (known, insert_key) (omega arith)
]

pub length-erase_key : (k : Bytes) (es : List Entry) → length (erase_key k es) ≤ length es
unfolding erase_key
length-erase_key k [] = omega arith
length-erase_key k (e ∷ es) = elim (Bool-cases (str_eq e.key k)) [
  | inl same ↦ rw same (omega arith)
  | inr other ↦ rw other (omega (arith, length-erase_key k es))
]

pub length-update_ttl :
    (k : Bytes) (now : ℕ) (es : List Entry) → length (update_ttl k now es) ≡ length es
unfolding update_ttl
length-update_ttl k now [] = omega arith
length-update_ttl k now (e ∷ es) = elim (Bool-cases (str_eq e.key k)) [
  | inl same ↦ rw same
  | inr other ↦ rw other (omega (arith, length-update_ttl k now es))
]
