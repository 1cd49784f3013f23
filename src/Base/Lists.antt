-- ===== src/Base/Lists.antt =====
-- Lists measured by native numbers, and predicates on every element.
use Prim.Native.Nat.{ℕ, zero, suc, ◌+◌}
use mathlib.Core.Path.{◌≡◌, refl, ap}
use mathlib.Core.List.{List, [], ◌∷◌, ◌++◌}
use mathlib.Core.Option.{Option, none, some}
use native.Mathlib.Omega.{arith}

module _ {ℓ} {A : Type ℓ} where
  abbrev pub length : List A → ℕ
  length [] = 0
  length (x ∷ xs) = suc (length xs)

  abbrev pub get_elem? : List A → ℕ → Option A
  get_elem? [] i = none
  get_elem? (x ∷ xs) zero = some x
  get_elem? (x ∷ xs) (suc i) = get_elem? xs i

  abbrev pub take : ℕ → List A → List A
  take zero xs = []
  take (suc n) [] = []
  take (suc n) (x ∷ xs) = x ∷ take n xs

  abbrev pub drop : ℕ → List A → List A
  drop zero xs = xs
  drop (suc n) [] = []
  drop (suc n) (x ∷ xs) = drop n xs

  pub length-append : (xs ys : List A) → length (xs ++ ys) ≡ length xs + length ys
  length-append [] ys = omega arith
  length-append (x ∷ xs) ys = omega (arith, length-append xs ys)

  abbrev pub All {κ} : (Holds : A → Type κ) (members : List A) → Type κ
  All Holds [] = Unit
  All Holds (first ∷ more) = Holds first × All Holds more

  pub All-append {κ} :
      (Holds : A → Type κ) (front back : List A)
      → All Holds back
      → All Holds front
      → All Holds (front ++ back)
  All-append Holds [] back b f = b
  All-append Holds (first ∷ more) back b f = (f.0, All-append Holds more back b f.1)

  -- `xs[i] = x`, which leaves the list as it is where there is no `i`.
  abbrev pub set_elem : ℕ → A → List A → List A
  set_elem i x [] = []
  set_elem zero x (y ∷ ys) = x ∷ ys
  set_elem (suc i) x (y ∷ ys) = y ∷ set_elem i x ys

  abbrev pub modify : (A → A) → ℕ → List A → List A
  modify f i [] = []
  modify f zero (x ∷ xs) = f x ∷ xs
  modify f (suc i) (x ∷ xs) = x ∷ modify f i xs

  pub set_elem_same : (i : ℕ) (x : A) (xs : List A) → get_elem? xs i ≡ some x → set_elem i x xs ≡ xs
  set_elem_same i x [] e = refl
  set_elem_same zero x (u ∷ xs) e = ground arith
  set_elem_same (suc i) x (u ∷ xs) e = rw (set_elem_same i x xs e)

  pub length-set_elem : (i : ℕ) (x : A) (xs : List A) → length (set_elem i x xs) ≡ length xs
  length-set_elem i x [] = refl
  length-set_elem zero x (u ∷ xs) = refl
  length-set_elem (suc i) x (u ∷ xs) = ap suc (length-set_elem i x xs)

  pub get_elem?-middle :
      (front : List A) (x : A) (back : List A)
      → get_elem? (front ++ x ∷ back) (length front) ≡ some x
  get_elem?-middle [] x back = refl
  get_elem?-middle (u ∷ front) x back = get_elem?-middle front x back

  pub set_elem-middle :
      (front : List A) (x y : A) (back : List A)
      → set_elem (length front) y (front ++ x ∷ back) ≡ front ++ y ∷ back
  set_elem-middle [] x y back = refl
  set_elem-middle (u ∷ front) x y back = ap (◌∷◌ u) (set_elem-middle front x y back)
