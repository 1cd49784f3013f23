-- ===== src/Index/Values.antt =====
-- include/dhashmap.hpp, the set of weak pointers: its search, erasing and sweeping.
use swordfishd.Base.{
  ℕ, ◌<◌, ◌≡◌, ◌≢◌, refl, ◌⊎◌, inl, inr, true, none, some, List, [], ◌∷◌, arith, ltb, Bool-cases,
  str_eq_iff,
}
use swordfishd.Index.{Pointer, Entry, references, locks, dhm_equal_to, search, erase_value, sweep}

-- The pointer is in the set.
abbrev pub Has : Pointer → List Pointer → Type 0
Has p [] = ⊥
Has p (v ∷ vs) = (v ≡ p) ⊎ Has p vs

-- Some entry holds the object.
abbrev pub IsLive : List Entry → Pointer → Type 0
IsLive es p = 0 < references p.addr es

pub locks_iff : (es : List Entry) (p : Pointer) → locks [] es p ≡ ltb 0 (references p.addr es)
unfolding locks
locks_iff es p = refl

pub record Finds (locals : List ℕ) (es : List Entry) (vs : List Pointer) (x v : Pointer)
    : Type 0 where
  pub in_set : Has v vs
  pub lockable : locks locals es v ≡ true
  pub same_text : v.text ≡ x.text

pub search-Finds :
    (locals : List ℕ) (es : List Entry) (vs : List Pointer) (x v : Pointer)
    → search locals es vs x ≡ some v
    → Finds locals es vs x v
unfolding search dhm_equal_to
search-Finds locals es [] x v h = cc
search-Finds locals es (u ∷ vs) x v h = elim (Bool-cases (dhm_equal_to locals es x u)) [
  | inl hit ↦
      let same : u ≡ v = ground arith in
      record {
        in_set = inl same;
        lockable = ground arith;
        same_text = ground (arith, str_eq_iff x.text u.text);
      }
  | inr miss ↦
      let f = search-Finds locals es vs x v (ground arith) in
      record { in_set = inr f.in_set; lockable = f.lockable; same_text = f.same_text }
]

-- A search that finds nothing leaves no lockable pointer with the text.
pub search-none :
    (locals : List ℕ) (es : List Entry) (vs : List Pointer) (x v : Pointer)
    → search locals es vs x ≡ none
    → locks locals es x ≡ true
    → Has v vs
    → locks locals es v ≡ true
    → v.text ≢ x.text
unfolding search dhm_equal_to
search-none locals es [] x v h lx m lv e = m
search-none locals es (u ∷ vs) x v h lx (inl same) lv e = ground (arith, str_eq_iff x.text u.text)
search-none locals es (u ∷ vs) x v h lx (inr m) lv e =
    search-none locals es vs x v (ground arith) lx m lv e

pub erase_value-Has :
    (locals : List ℕ) (es : List Entry) (vs : List Pointer) (x p : Pointer)
    → Has p (erase_value locals es vs x)
    → Has p vs
unfolding erase_value
erase_value-Has locals es [] x p h = h
erase_value-Has locals es (v ∷ vs) x p h = elim (Bool-cases (dhm_equal_to locals es x v)) [
  | inl hit ↦ inr (ground arith)
  | inr miss ↦ ground (arith, erase_value-Has locals es vs x p)
]

-- Erasing takes at most a lockable pointer with the text of `x`.
pub Has-erase_value :
    (locals : List ℕ) (es : List Entry) (vs : List Pointer) (x p : Pointer)
    → Has p vs
    → ¬ ((locks locals es p ≡ true) × (p.text ≡ x.text))
    → Has p (erase_value locals es vs x)
unfolding erase_value dhm_equal_to
Has-erase_value locals es [] x p h n = h
Has-erase_value locals es (v ∷ vs) x p (inl same) n =
    elim (Bool-cases (dhm_equal_to locals es x v)) [
      | inl hit ↦ absurd (n (ground arith, ground (arith, str_eq_iff x.text v.text)))
      | inr miss ↦ rw miss (inl same)
    ]
Has-erase_value locals es (v ∷ vs) x p (inr m) n = elim (Bool-cases (dhm_equal_to locals es x v)) [
  | inl hit ↦ rw hit m
  | inr miss ↦ rw miss (inr (Has-erase_value locals es vs x p m n))
]

pub sweep-Has :
    (es : List Entry) (vs : List Pointer) (p : Pointer)
    → Has p (sweep es vs)
    → Has p vs × IsLive es p
unfolding sweep
sweep-Has es [] p h = absurd h
sweep-Has es (v ∷ vs) p h = elim (Bool-cases (locks [] es v)) [
  | inl kept ↦ sweep_kept kept (rw kept at h) (sweep-Has es vs p)
  | inr gone ↦ let (m, l) = sweep-Has es vs p (rw gone at h) in (inr m, l)
]
  where
    sweep_kept :
        locks [] es v ≡ true
        → (v ≡ p) ⊎ Has p (sweep es vs)
        → (Has p (sweep es vs) → Has p vs × IsLive es p)
        → ((v ≡ p) ⊎ Has p vs) × IsLive es p
    sweep_kept kept (inl same) ih = (inl same, ground (arith, locks_iff es v))
    sweep_kept kept (inr m) ih = (inr (ih m).0, (ih m).1)

pub Has-sweep :
    (es : List Entry) (vs : List Pointer) (p : Pointer)
    → Has p vs
    → IsLive es p
    → Has p (sweep es vs)
unfolding sweep
Has-sweep es [] p h l = h
Has-sweep es (v ∷ vs) p (inl same) l =
    let kept : locks [] es v ≡ true = ground (arith, locks_iff es v) in rw kept (inl same)
Has-sweep es (v ∷ vs) p (inr m) l = elim (Bool-cases (locks [] es v)) [
  | inl kept ↦ rw kept (inr (Has-sweep es vs p m l))
  | inr gone ↦ rw gone (Has-sweep es vs p m l)
]
