-- ===== src/Base/Pairs.antt =====
-- Two lists side by side.
use Prim.Native.Nat.{ℕ, zero, suc}
use mathlib.Core.Path.{◌≡◌, refl}
use mathlib.Core.List.{List, [], ◌∷◌, ◌++◌}
use mathlib.Core.Option.{none, some}
use swordfishd.Base.Lists.{get_elem?, set_elem, modify}

module _ {ℓ κ} {A : Type ℓ} {B : Type κ} where
  -- The lists are of one length, and what stands beside each other is related.
  abbrev pub Beside : (R : A → B → Type 0) → List A → List B → Type 0
  Beside R [] [] = Unit
  Beside R [] (y ∷ ys) = ⊥
  Beside R (x ∷ xs) [] = ⊥
  Beside R (x ∷ xs) (y ∷ ys) = R x y × Beside R xs ys

  pub Beside-snoc :
      (R : A → B → Type 0) (xs : List A) (ys : List B) (x : A) (y : B)
      → Beside R xs ys
      → R x y
      → Beside R (xs ++ x ∷ []) (ys ++ y ∷ [])
  Beside-snoc R [] [] x y b r = (r, tt)
  Beside-snoc R [] (v ∷ ys) x y b r = absurd b
  Beside-snoc R (u ∷ xs) [] x y b r = absurd b
  Beside-snoc R (u ∷ xs) (v ∷ ys) x y b r = (b.0, Beside-snoc R xs ys x y b.1 r)

  -- What is beside no element does not change.
  pub Beside-none :
      (R : A → B → Type 0) (f : B → B) (i : ℕ) (xs : List A) (ys : List B)
      → get_elem? xs i ≡ none
      → Beside R xs ys
      → modify f i ys ≡ ys
  Beside-none R f i [] [] e b = refl
  Beside-none R f i [] (v ∷ ys) e b = absurd b
  Beside-none R f i (u ∷ xs) [] e b = absurd b
  Beside-none R f zero (u ∷ xs) (v ∷ ys) e b = cc
  Beside-none R f (suc i) (u ∷ xs) (v ∷ ys) e b = rw (Beside-none R f i xs ys e b.1)

  -- Both sides change at one place.
  pub Beside-set :
      (R : A → B → Type 0) (f : B → B) (i : ℕ) (x x' : A) (xs : List A) (ys : List B)
      → get_elem? xs i ≡ some x
      → ((y : B) → R x y → R x' (f y))
      → Beside R xs ys
      → Beside R (set_elem i x' xs) (modify f i ys)
  Beside-set R f i x x' [] ys e h b = cc
  Beside-set R f i x x' (u ∷ xs) [] e h b = absurd b
  Beside-set R f zero x x' (u ∷ xs) (v ∷ ys) e h b =
      let same : u ≡ x = cc in (h v (rw (← same) b.0), b.1)
  Beside-set R f (suc i) x x' (u ∷ xs) (v ∷ ys) e h b = (b.0, Beside-set R f i x x' xs ys e h b.1)
