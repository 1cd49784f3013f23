-- ===== src/Index/Footprint.antt =====
-- include/dhashmap.hpp: the bytes that a list of entries keeps, every key, and every value
-- object once.
use mathlib.Core.Path.{subst}
use swordfishd.Base.{
  ℕ, ◌+◌, ◌≡◌, refl, ap, ◌∙◌, inl, inr, none, some, List, [], ◌∷◌, ◌++◌, arith, ◌==◌, if◌then◌else◌,
  Bool-cases, All, Bytes, length,
}
use swordfishd.Index.{
  Pointer, Entry, references, find_key, erase_key, update_ttl, TtlIndex, insert_key,
}
use swordfishd.Index.Keys.{find_key-Located}
use swordfishd.Index.Refresh.{references-update_ttl}

-- A value counts at the last entry that holds it.
unfoldable pub footprint : List Entry → ℕ
footprint [] = 0
footprint (e ∷ es) =
    length e.key
    + (if references e.value.addr es == 0 then length e.value.text else 0)
    + footprint es

-- The entries that hold the address of `p` hold its text.
abbrev pub Agrees : Pointer → List Entry → Type 0
Agrees p = All (λ (e : Entry). e.value.addr ≡ p.addr → e.value.text ≡ p.text)

pub references-append :
    (a : ℕ) (xs ys : List Entry) → references a (xs ++ ys) ≡ references a xs + references a ys
unfolding references
references-append a [] ys = omega arith
references-append a (x ∷ xs) ys = omega (arith, references-append a xs ys)

pub references-middle :
    (a : ℕ) (e : Entry) (pre post : List Entry)
    → references a (pre ++ e ∷ post)
      ≡ references a (pre ++ post) + (if e.value.addr == a then 1 else 0)
unfolding references
references-middle a e [] post = omega arith
references-middle a e (x ∷ pre) post = omega (arith, references-middle a e pre post)

pub footprint-middle :
    (e : Entry) (pre post : List Entry)
    → Agrees e.value (pre ++ post)
    → footprint (pre ++ e ∷ post)
      ≡ footprint (pre ++ post)
        + length e.key
        + (if references e.value.addr (pre ++ post) == 0 then length e.value.text else 0)
unfolding footprint references
footprint-middle e [] post h = omega arith
footprint-middle e (x ∷ pre) post h = elim (Bool-cases (x.value.addr == e.value.addr)) [
  | inl same ↦ ground (
    arith,
    footprint-middle e pre post h.1,
    references-middle x.value.addr e pre post,
    ap length (h.0 (ground arith)),
  )
  | inr other ↦
      ground (arith, footprint-middle e pre post h.1, references-middle x.value.addr e pre post)
]

-- Insertion adds the key, and the value if nothing held it.
pub footprint-insert_key :
    (ix : TtlIndex) (e : Entry) (es : List Entry)
    → find_key e.key es ≡ none
    → Agrees e.value es
    → (footprint (insert_key ix e es)
        ≡ footprint es
          + length e.key
          + (if references e.value.addr es == 0 then length e.value.text else 0))
unfolding insert_key
footprint-insert_key ix e es k h =
    let (pre, post, split, placed) = ix.place_splits e es in
    rw (k, insert_key, placed)
      (rw (← split) at (footprint-middle e pre post (subst (Agrees e.value) split h)))

pub references-insert_key :
    (ix : TtlIndex) (e : Entry) (es : List Entry) (a : ℕ)
    → find_key e.key es ≡ none
    → references a (insert_key ix e es) ≡ references a es + (if e.value.addr == a then 1 else 0)
unfolding insert_key
references-insert_key ix e es a k =
    let (pre, post, split, placed) = ix.place_splits e es in
    rw (k, insert_key, placed) (rw (← split) at (references-middle a e pre post))

Agrees-middle :
    (p : Pointer) (e : Entry) (pre post : List Entry)
    → Agrees p (pre ++ e ∷ post)
    → Agrees p (pre ++ post)
Agrees-middle p e [] post h = h.1
Agrees-middle p e (x ∷ pre) post h = (h.0, Agrees-middle p e pre post h.1)

-- Erasing takes the key away, and the value if nothing else holds it.
pub footprint-erase_key :
    (k : Bytes) (e : Entry) (es : List Entry)
    → find_key k es ≡ some e
    → Agrees e.value es
    → (footprint es
        ≡ footprint (erase_key k es)
          + length k
          + (if references e.value.addr (erase_key k es) == 0 then length e.value.text else 0))
footprint-erase_key k e es f h =
    let l = find_key-Located k e es f in
    rw l.erased (
      ap footprint l.split
      ∙ footprint-middle e l.pre l.post
          (Agrees-middle e.value e l.pre l.post (subst (Agrees e.value) l.split h))
      ∙ rw l.key_is)

pub references-erase_key :
    (k : Bytes) (e : Entry) (es : List Entry) (a : ℕ)
    → find_key k es ≡ some e
    → references a es ≡ references a (erase_key k es) + (if e.value.addr == a then 1 else 0)
references-erase_key k e es a f =
    let l = find_key-Located k e es f in
    rw l.erased (ap (references a) l.split ∙ references-middle a e l.pre l.post)

pub footprint-update_ttl :
    (k : Bytes) (now : ℕ) (es : List Entry) → footprint (update_ttl k now es) ≡ footprint es
unfolding footprint update_ttl
footprint-update_ttl k now [] = refl
footprint-update_ttl k now (e ∷ es) =
    ground (arith, footprint-update_ttl k now es, references-update_ttl k now e.value.addr es)
