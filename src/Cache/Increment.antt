-- ===== src/Cache/Increment.antt =====
-- src/dhashmap.cpp: calls on the map up to an increment of an erased iterator, which has no meaning
-- where it does not lead to the successor.
use swordfishd.Base.{◌≡◌, ◌⊎◌, refl, inl, List, [], ◌∷◌}
use swordfishd.Dhashmap
use swordfishd.Dhashmap.{Dhashmap, Runtime}
use swordfishd.Dhashmap.Increment.{mended, EndsAt, bind-agrees, expirate-agrees, add_same, get_same}
use swordfishd.Cache.{Call, add, get, expirate, perform, perform_all}

perform-agrees :
    (rt : Runtime) (c : Call) (m : Dhashmap)
    → (perform rt c m ≡ perform (mended rt) c m) ⊎ EndsAt rt (perform rt c m)
unfolding perform
perform-agrees rt (add key val now) m = inl (rw (add_same rt m key val now) refl)
perform-agrees rt (get key now later) m = inl (rw (get_same rt m key [] now later) refl)
perform-agrees rt (expirate limit) m =
    bind-agrees rt (Dhashmap.expirate rt m limit) _ _ _ (expirate-agrees rt m limit) (λ r. inl refl)

pub perform_all-agrees :
    (rt : Runtime) (calls : List Call) (m : Dhashmap)
    → (perform_all rt calls m ≡ perform_all (mended rt) calls m)
      ⊎ EndsAt rt (perform_all rt calls m)
unfolding perform_all
perform_all-agrees rt [] m = inl refl
perform_all-agrees rt (c ∷ calls) m =
    bind-agrees rt (perform rt c m) _ _ _ (perform-agrees rt c m) (λ r.
      bind-agrees rt (perform_all rt calls r.0) _ _ _ (perform_all-agrees rt calls r.0)
        (λ s. inl refl))
