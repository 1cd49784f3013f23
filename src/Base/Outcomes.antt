-- ===== src/Base/Outcomes.antt =====
-- How a call can end: with a value, or in one of the ways in which the program stops.
use mathlib.Core.Path.{◌≡◌, refl}
use mathlib.Core.Logic.{◌⊎◌, inl, inr}

pub data Fault : Type 0 where
  -- `abort()`
  aborted : Fault
  -- `exit(status)`
  exits : Fault
  -- `std::out_of_range` from `vector::at`
  out_of_range : Fault
  -- the default action of a signal
  killed : Fault
  -- the C++ standard gives the operation no meaning
  undefined_behaviour : Fault

-- `err` comes with how the program stopped.
pub data Run {ℓ} (T : Type ℓ) : Type ℓ where
  err : (how : Fault) → Run T
  ok : (value : T) → Run T

infixl 5 ◌>>=◌
abbrev pub ◌>>=◌ {κ ℓ} : {S : Type κ} {T : Type ℓ} (first : Run S) (next : S → Run T) → Run T
err how >>= next = err how
ok value >>= next = next value

pub >>=-eq-ok {κ ℓ} :
    {S : Type κ} {T : Type ℓ} (first : Run S) (next : S → Run T) {t : T}
    → (first >>= next) ≡ ok t
    → (s : S) × (first ≡ ok s) × (next s ≡ ok t)
>>=-eq-ok (err how) next reached = absurd cc
>>=-eq-ok (ok value) next reached = (value, refl, reached)

pub Run-cases {ℓ} : {T : Type ℓ} (r : Run T) → ((f : Fault) × (r ≡ err f)) ⊎ ((t : T) × (r ≡ ok t))
Run-cases (err how) = inl (how, refl)
Run-cases (ok value) = inr (value, refl)
