-- ===== src/Singleton/Cleaning.antt =====
-- include/utils/singleton.hpp: `clean` takes no lock, so a caller can run between its writes.
use mathlib.Core.Path.{subst}
use swordfishd.Base.{ℕ, suc, ◌≡◌, ◌≢◌, refl, sym, ◌∙◌, Bool, true, false, Option, none, some, arith}
use swordfishd.Singleton.{
  cleaned, Holder, new_holder, Caller, before, given, Act, Clean, place, Comes, begin, acts, cleans,
}

module _ (grants : Option ℕ → Bool) (i : ℕ) where
  -- A step of `i`, which stands at `c`, with the places of the others left as they are.
  record At (h : Holder) (c : Caller) (g : ℕ → Caller) : Type 0 where
    all : ℕ → Caller
    comes : Comes grants h all
    stands : all i ≡ c
    others : (k : ℕ) → k ≢ i → all k ≡ g k

  step :
      {h h' : Holder} {c c' : Caller} {g : ℕ → Caller}
      → At h c g
      → Act grants i h c h' c'
      → At h' c' g
  step {h} {h'} {c} {c'} s a = record {
    all = place s.all i c';
    comes = acts i s.comes (subst (λ x. Act grants i h x h' c') (sym s.stands) a);
    stands = ground arith;
    others = λ k ne. ground (arith, s.others k ne);
  }

  -- A caller that meets no object and may make one makes the next, and gets it.
  creates :
      (h : Holder) (g : ℕ → Caller)
      → grants none ≡ true
      → h.owner ≡ none
      → h.pinst ≡ none
      → h.deleted ≡ false
      → At h before g
      → At (record h { owner = none; pinst = some h.made; made = suc h.made }) (given h.made) g
  creates h g lets unheld null kept s =
      step
        (step
          (step
            (step
              (step (step (step s (Act.misses null)) (Act.acquires (rw unheld lets)))
                (Act.tests null))
              (Act.permits kept))
            Act.makes)
          Act.unlocks)
        (Act.returns refl)

-- With any mutex that lets a caller in while nobody has it, two different callers can come to have
-- different objects: the second is made while `clean` stands between its two writes, and `clean`
-- then ends.
pub clean_race :
    (grants : Option ℕ → Bool) (i j : ℕ)
    → grants none ≡ true
    → i ≢ j
    → (h : Holder) × (f : ℕ → Caller) × Comes grants h f
      × (f i ≡ given 0)
      × (f j ≡ given 1)
      × (h.made ≡ 2)
      × (h.pinst ≡ some 1)
      × (h.ending ≡ cleaned)
clean_race grants i j lets ne =
    let nobody = λ (k : ℕ). before in
    let first =
      creates grants i new_holder nobody lets refl refl refl
        (record { all = nobody; comes = begin; stands = refl; others = λ k d. refl }) in
    let cleared_then = cleans (cleans first.comes (Clean.removes refl refl)) (Clean.clears refl) in
    let second = creates grants j _ first.all lets refl refl refl (record {
      all = first.all;
      comes = cleared_then;
      stands = first.others j (λ e. ne (sym e));
      others = λ k d. refl;
    }) in
    (
      _,
      second.all,
      cleans second.comes (Clean.marks refl),
      second.others i ne ∙ first.stands,
      second.stands,
      refl,
      refl,
      refl,
    )
