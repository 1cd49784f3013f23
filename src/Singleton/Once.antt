-- ===== src/Singleton/Once.antt =====
-- include/utils/singleton.hpp: until the program exits there is one object at most.
use mathlib.Core.Path.{subst}
use swordfishd.Base.{
  ℕ, suc, ◌≡◌, ◌≢◌, ◌⊎◌, refl, sym, ◌∙◌, inl, inr, Bool, true, false, Option, none, some, arith,
  ◌==◌, Bool-cases, ==_iff,
}
use swordfishd.Singleton.{
  running, Holder, Caller, before, creating, guarded, tested, permitted, leaving, returning, given,
  thrown, crashed, Act, Clean, Comes, begin, acts, cleans,
}

-- The mutex lets nobody in while a caller has it.
abbrev pub Excludes : (Option ℕ → Bool) → Type 0
Excludes grants = (i : ℕ) → grants (some i) ≡ false

-- What is known while the caller `i` stands at `c`.
abbrev pub Fits : Holder → ℕ → Caller → Type 0
Fits h i before = Unit
Fits h i creating = Unit
Fits h i guarded = h.owner ≡ some i
Fits h i tested = (h.owner ≡ some i) × (h.pinst ≡ none)
Fits h i permitted = (h.owner ≡ some i) × (h.pinst ≡ none)
Fits h i leaving = (h.owner ≡ some i) × (h.pinst ≡ some 0)
Fits h i returning = h.pinst ≡ some 0
Fits h i (given p) = (p ≡ 0) × (h.pinst ≡ some 0)
Fits h i thrown = ⊥
Fits h i crashed = ⊥

-- No object, or the first one.
abbrev pub IsSingle : Holder → Type 0
IsSingle h =
    (h.deleted ≡ false) × (((h.made ≡ 0) × (h.pinst ≡ none)) ⊎ ((h.made ≡ 1) × (h.pinst ≡ some 0)))

-- What a step does to the members, as the other callers see it.
data Change (i : ℕ) (h : Holder) : Holder → Type 0 where
  none_changed : Change i h h
  taken : h.owner ≡ none → Change i h (record h { owner = some i })
  released : h.owner ≡ some i → Change i h (record h { owner = none })
  object_made :
      h.owner ≡ some i
      → h.pinst ≡ none
      → Change i h (record h { pinst = some h.made; made = suc h.made })

owner-free :
    (grants : Option ℕ → Bool) (o : Option ℕ) → Excludes grants → grants o ≡ true → o ≡ none
owner-free grants none ex h = refl
owner-free grants (some i) ex h = absurd (let e = ex i in cc)

Act-Change :
    {grants : Option ℕ → Bool} {i : ℕ} {h h' : Holder} {c c' : Caller}
    → Excludes grants
    → Fits h i c
    → Act grants i h c h' c'
    → Change i h h'
Act-Change ex k (Act.sees_one e) = none_changed
Act-Change ex k (Act.misses e) = none_changed
Act-Change {grants} {h = h} ex k (Act.acquires e) = taken (owner-free grants h.owner ex e)
Act-Change ex k (Act.sees_made e) = none_changed
Act-Change ex k (Act.tests e) = none_changed
Act-Change ex k (Act.throws e) = released k.0
Act-Change ex k (Act.permits e) = none_changed
Act-Change ex k Act.makes = object_made k.0 k.1
Act-Change ex k Act.unlocks = released k.0
Act-Change ex k (Act.returns e) = none_changed
Act-Change ex k (Act.crashes e) = none_changed

Change-Fits :
    {i j : ℕ} {h h' : Holder} → i ≢ j → Change i h h' → (c : Caller) → Fits h j c → Fits h' j c
Change-Fits ne none_changed c k = k
Change-Fits ne (taken e) before k = tt
Change-Fits ne (taken e) c k = ground arith
Change-Fits ne (released e) before k = tt
Change-Fits ne (released e) c k = ground arith
Change-Fits ne (object_made e n) before k = tt
Change-Fits ne (object_made e n) c k = ground arith

Act-Fits :
    {grants : Option ℕ → Bool} {i : ℕ} {h h' : Holder} {c c' : Caller}
    → Excludes grants
    → IsSingle h
    → Fits h i c
    → Act grants i h c h' c'
    → IsSingle h' × Fits h' i c'
Act-Fits ex s k (Act.sees_one e) = (s, ground arith)
Act-Fits ex s k (Act.misses e) = (s, tt)
Act-Fits ex s k (Act.acquires e) = (s, refl)
Act-Fits ex s k (Act.sees_made e) = (s, (k, ground arith))
Act-Fits ex s k (Act.tests e) = (s, (k, e))
Act-Fits ex s k (Act.throws e) = absurd (cc (s.0))
Act-Fits ex s k (Act.permits e) = (s, k)
Act-Fits ex s k Act.makes = ground arith
Act-Fits ex s k Act.unlocks = (s, k.1)
Act-Fits ex s k (Act.returns e) = (s, (ground arith, k))
Act-Fits ex s k (Act.crashes e) = absurd (cc)

Act-ending :
    {grants : Option ℕ → Bool} {i : ℕ} {h h' : Holder} {c c' : Caller}
    → Act grants i h c h' c'
    → h'.ending ≡ h.ending
Act-ending (Act.sees_one e) = refl
Act-ending (Act.misses e) = refl
Act-ending (Act.acquires e) = refl
Act-ending (Act.sees_made e) = refl
Act-ending (Act.tests e) = refl
Act-ending (Act.throws e) = refl
Act-ending (Act.permits e) = refl
Act-ending Act.makes = refl
Act-ending Act.unlocks = refl
Act-ending (Act.returns e) = refl
Act-ending (Act.crashes e) = refl

Clean-begun : {h h' : Holder} → Clean h h' → h'.ending ≢ running
Clean-begun (Clean.removes e o) same = cc
Clean-begun (Clean.clears e) same = cc
Clean-begun (Clean.marks e) same = cc

-- With a mutex that lets nobody in while a caller has it, and until `clean` begins: one object is
-- made at most; every caller that has been given an object has the one that `pinst_` points to; a
-- caller in the guarded section of `create` has the mutex; and no caller gets an exception or meets a
-- null pointer.
pub Comes-Fits :
    {grants : Option ℕ → Bool} {h : Holder} {f : ℕ → Caller}
    → Excludes grants
    → Comes grants h f
    → h.ending ≡ running
    → IsSingle h × ((j : ℕ) → Fits h j (f j))
Comes-Fits ex begin e = ((refl, inl (refl, refl)), λ j. tt)
Comes-Fits {grants} {h} ex (acts {h = h₀} {f = f} {c = c} i r a) e =
    let (single, fits) = Comes-Fits ex r (sym (Act-ending a) ∙ e) in
    let (single', here) = Act-Fits ex single (fits i) a in
    (
      single',
      λ j. elim (Bool-cases (i == j)) [
        | inl same ↦ rw same (subst (λ k. Fits h k c) ((==_iff i j).0 same) here)
        | inr other ↦
            rw other (Change-Fits (ground arith) (Act-Change ex (fits i) a) (f j) (fits j))
      ],
    )
Comes-Fits ex (cleans r c) e = absurd (Clean-begun c e)
