-- ===== src/Base/Decimal.antt =====
-- Numbers in decimal, as streams print them.
use Prim.Native.Nat.{ℕ, zero, suc, ◌+◌, ◌-◌, ◌*◌, ◌/◌, ◌%◌, ◌<◌}
use mathlib.Core.Path.{◌≡◌, ap, ◌∙◌}
use mathlib.Core.Logic.{inl, inr}
use mathlib.Core.List.{[], ◌∷◌}
use native.Mathlib.Omega.{arith}
use swordfishd.Base.Tests.{ltb, if◌then◌else◌, Bool-cases}
use swordfishd.Base.Text.{Bytes}

-- The digits of `n` in front of `rest`; each round takes a digit off the end.
digits_onto : ℕ → ℕ → Bytes → Bytes
digits_onto zero n rest = rest
digits_onto (suc fuel) n rest =
    let digit = b'0' + n % 10 in
    let more = digits_onto fuel (n / 10) (digit ∷ rest) in if ltb n 10 then digit ∷ rest else more

-- `stream << n`.
unfoldable pub decimal : ℕ → Bytes
unfolding digits_onto
decimal n = digits_onto (n + 1) n []

-- The number that digits stand for, behind those that were read.
unfoldable pub read_onto : ℕ → Bytes → ℕ
read_onto acc [] = acc
read_onto acc (c ∷ s) = read_onto (acc * 10 + (c - b'0')) s

read_onto-digits_onto :
    (fuel n : ℕ) (rest : Bytes)
    → n < fuel
    → read_onto 0 (digits_onto fuel n rest) ≡ read_onto n rest
unfolding digits_onto read_onto
read_onto-digits_onto zero n rest h = elim h [ ]
read_onto-digits_onto (suc fuel) n rest h = elim (Bool-cases (ltb n 10)) [
  | inl last ↦
      let e : 0 * 10 + (b'0' + n % 10 - b'0') ≡ n = ground arith in
      rw last (ap (λ (k : ℕ). read_onto k rest) e)
  | inr more ↦
      let e : n / 10 * 10 + (b'0' + n % 10 - b'0') ≡ n = omega arith in
      rw more (
        read_onto-digits_onto fuel (n / 10) ((b'0' + n % 10) ∷ rest) (ground arith)
        ∙ ap (λ (k : ℕ). read_onto k rest) e)
]

-- What is printed reads back.
pub read-decimal : (n : ℕ) → read_onto 0 (decimal n) ≡ n
unfolding decimal read_onto
read-decimal n = read_onto-digits_onto (n + 1) n [] (omega arith)
