-- ===== src/Examples/Singletons.antt =====
-- The theorems on the singleton, for two callers.
use swordfishd.Base.{ℕ, refl, Bool, true, false, Option, none, some}
use swordfishd.Singleton.{
  Holder, new_holder, before, creating, guarded, tested, permitted, Act, place, Comes, begin, acts,
}
use swordfishd.Singleton.Once.{IsSingle, Fits, Comes-Fits}

abbrev mutex : Option ℕ → Bool
mutex none = true
mutex (some i) = false

abbrev inside : Holder
inside = record new_holder { owner = some 0 }

-- The first caller is about to make the object, and the second one waits for the mutex.
waiting : Comes mutex inside (
    place
      (place (place (place (place (λ i. before) 0 creating) 0 guarded) 0 tested) 1 creating)
      0
      permitted)
waiting =
    acts 0
      (acts 1
        (acts 0 (acts 0 (acts 0 begin (Act.misses refl)) (Act.acquires refl)) (Act.tests refl))
        (Act.misses refl))
      (Act.permits refl)

Comes-Fits_example :
    IsSingle inside
    × ((j : ℕ)
        → Fits inside j (
            place
              (place (place (place (place (λ i. before) 0 creating) 0 guarded) 0 tested) 1 creating)
              0
              permitted
              j))
Comes-Fits_example = Comes-Fits (λ i. refl) waiting refl
