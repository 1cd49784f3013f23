-- ===== src/Index/Keys.antt =====
-- include/dhashmap.hpp, the index of keys: lookups and reference counts behind its operations.
use mathlib.Core.Path.{subst}
use swordfishd.Base.{
  ◌≡◌, refl, sym, ap, ◌∙◌, inl, inr, false, Option, none, some, List, [], ◌∷◌, ◌++◌, arith,
  if◌then◌else◌, Bool-cases, Bytes, str_eq, str_eq_iff,
}
use swordfishd.Index.{Entry, find_key, erase_key, TtlIndex, insert_key}

-- No two entries have one key.
abbrev pub HasKeys : List Entry → Type 0
HasKeys [] = Unit
HasKeys (e ∷ es) = (find_key e.key es ≡ none) × HasKeys es

-- The entry of a key, and the entries on both sides of it.
pub record Located (k : Bytes) (e : Entry) (es : List Entry) : Type 0 where
  pub pre : List Entry
  pub post : List Entry
  pub split : es ≡ pre ++ e ∷ post
  pub erased : erase_key k es ≡ pre ++ post
  pub key_is : e.key ≡ k

pub find_key-Located :
    (k : Bytes) (e : Entry) (es : List Entry) → find_key k es ≡ some e → Located k e es
unfolding find_key erase_key
find_key-Located k e [] h = cc
find_key-Located k e (x ∷ xs) h = elim (Bool-cases (str_eq x.key k)) [
  | inl hit ↦
      let same : x ≡ e = ground arith in
      record {
        pre = [];
        post = xs;
        split = ap (λ y. y ∷ xs) same;
        erased = rw hit;
        key_is = ap (λ (y : Entry). y.key) (sym same) ∙ (str_eq_iff x.key k).0 hit;
      }
  | inr miss ↦
      let l = find_key-Located k e xs (ground arith) in
      record {
        pre = x ∷ l.pre;
        post = l.post;
        split = ap (◌∷◌ x) l.split;
        erased = rw miss (ap (◌∷◌ x) l.erased);
        key_is = l.key_is;
      }
]

abbrev pub or_else {ℓ} : {A : Type ℓ} → Option A → Option A → Option A
or_else (some a) b = some a
or_else none b = b

pub find_key-append :
    (k : Bytes) (xs ys : List Entry)
    → find_key k (xs ++ ys) ≡ or_else (find_key k xs) (find_key k ys)
unfolding find_key
find_key-append k [] ys = refl
find_key-append k (x ∷ xs) ys = ground (arith, find_key-append k xs ys)

-- An entry in the middle is found under its key, if the key stands nowhere before it.
pub find_key-middle :
    (k : Bytes) (e : Entry) (pre post : List Entry)
    → find_key e.key (pre ++ post) ≡ none
    → find_key k (pre ++ e ∷ post) ≡ (if str_eq e.key k then some e else find_key k (pre ++ post))
unfolding find_key
find_key-middle k e [] post h = refl
find_key-middle k e (x ∷ pre) post h = ground (
  arith,
  find_key-middle k e pre post,
  str_eq_iff x.key k,
  str_eq_iff e.key k,
  str_eq_iff x.key e.key,
)

HasKeys-middle :
    (e : Entry) (pre post : List Entry)
    → HasKeys (pre ++ post)
    → find_key e.key (pre ++ post) ≡ none
    → HasKeys (pre ++ e ∷ post)
unfolding find_key
HasKeys-middle e [] post h k = (k, h)
HasKeys-middle e (x ∷ pre) post h k = (
  rw (find_key-middle x.key e pre post (ground arith))
      (ground (arith, str_eq_iff x.key e.key, str_eq_iff e.key x.key)),
  HasKeys-middle e pre post h.1 (ground arith),
)

pub find_key-insert_key :
    (ix : TtlIndex) (e : Entry) (es : List Entry) (k : Bytes)
    → find_key e.key es ≡ none
    → find_key k (insert_key ix e es) ≡ (if str_eq e.key k then some e else find_key k es)
unfolding insert_key
find_key-insert_key ix e es k h =
    let (pre, post, split, placed) = ix.place_splits e es in
    rw (h, insert_key, placed) (rw (find_key-middle k e pre post (rw (← split) h), ← split))

pub insert_key-HasKeys :
    (ix : TtlIndex) (e : Entry) (es : List Entry)
    → HasKeys es
    → find_key e.key es ≡ none
    → HasKeys (insert_key ix e es)
unfolding insert_key
insert_key-HasKeys ix e es h k =
    let (pre, post, split, placed) = ix.place_splits e es in
    rw (k, insert_key, placed) (HasKeys-middle e pre post (subst HasKeys split h) (rw (← split) k))

pub find_key-erase_key_ne :
    (k j : Bytes) (es : List Entry)
    → str_eq k j ≡ false
    → find_key j (erase_key k es) ≡ find_key j es
unfolding find_key erase_key
find_key-erase_key_ne k j [] h = refl
find_key-erase_key_ne k j (e ∷ es) h =
    ground (
      arith,
      find_key-erase_key_ne k j es h,
      str_eq_iff e.key k,
      str_eq_iff e.key j,
      str_eq_iff k j,
    )

find_key-erase_key-none :
    (k j : Bytes) (es : List Entry) → find_key j es ≡ none → find_key j (erase_key k es) ≡ none
unfolding find_key erase_key
find_key-erase_key-none k j [] h = refl
find_key-erase_key-none k j (e ∷ es) h = ground (arith, find_key-erase_key-none k j es)

pub find_key-erase_key :
    (k : Bytes) (es : List Entry) → HasKeys es → find_key k (erase_key k es) ≡ none
unfolding find_key erase_key
find_key-erase_key k [] h = refl
find_key-erase_key k (e ∷ es) h = elim (Bool-cases (str_eq e.key k)) [
  | inl hit ↦ rw hit (rw ((str_eq_iff e.key k).0 hit) at h.0)
  | inr miss ↦ rw miss (rw miss (find_key-erase_key k es h.1))
]

pub erase_key-HasKeys : (k : Bytes) (es : List Entry) → HasKeys es → HasKeys (erase_key k es)
unfolding erase_key
erase_key-HasKeys k [] h = h
erase_key-HasKeys k (e ∷ es) h =
    ground (arith, erase_key-HasKeys k es h.1, find_key-erase_key-none k e.key es h.0)
