-- ===== src/Tokenizer/Find.antt =====
-- src/command_tokenizer.cpp: the search for "\r\n".
use swordfishd.Base.{
  ℕ, zero, suc, ◌+◌, ◌≤◌, ◌≡◌, refl, ap, inl, inr, true, false, none, some, [], ◌∷◌, ◌++◌, arith,
  Bool-cases, take, drop, length, Bytes, crlf,
}
use swordfishd.Tokenizer.{at_crlf, find_first}

-- The bytes hold no line end.
abbrev pub IsOneLine : Bytes → Type 0
IsOneLine s = find_first s ≡ none

-- A line end behind a text with none is the first.
pub find_first-append :
    (l t : Bytes) → IsOneLine l → find_first (l ++ (crlf ++ t)) ≡ some (length l)
unfolding find_first
find_first-append [] t h = refl
find_first-append (c ∷ []) t h = ground arith
find_first-append (c ∷ d ∷ l) t h = ground (arith, find_first-append (d ∷ l) t)

-- Where a line end is found the text splits there, and the part in front is one line.
pub record SplitsAt (s : Bytes) (p : ℕ) : Type 0 where
  pub joined : s ≡ take p s ++ (crlf ++ drop (p + 2) s)
  pub line : IsOneLine (take p s)
  pub inside : p + 2 ≤ length s

SplitsAt-zero : (c : ℕ) (s : Bytes) → at_crlf (c ∷ s) ≡ true → SplitsAt (c ∷ s) 0
unfolding find_first
SplitsAt-zero c [] h = cc
SplitsAt-zero c (d ∷ s) h = record { joined = ground arith; line = refl; inside = omega arith }

drop-suc : (c : ℕ) (s : Bytes) (p : ℕ) → drop (suc p + 2) (c ∷ s) ≡ drop (p + 2) s
drop-suc c s p = let e : suc p + 2 ≡ suc (p + 2) = omega arith in rw e

at_crlf-take :
    (c : ℕ) (s : Bytes) (p : ℕ) → at_crlf (c ∷ s) ≡ false → at_crlf (c ∷ take p s) ≡ false
at_crlf-take c s zero h = refl
at_crlf-take c [] (suc p) h = refl
at_crlf-take c (d ∷ s) (suc p) h = h

SplitsAt-suc :
    (c : ℕ) (s : Bytes) (p : ℕ) → at_crlf (c ∷ s) ≡ false → SplitsAt s p → SplitsAt (c ∷ s) (suc p)
unfolding find_first
SplitsAt-suc c s p h k = record {
  joined = rw (drop-suc c s p) (ap (◌∷◌ c) k.joined);
  line = rw (at_crlf-take c s p h, k.line);
  inside = omega (arith, k.inside);
}

pub find_first-SplitsAt : (s : Bytes) (p : ℕ) → find_first s ≡ some p → SplitsAt s p
unfolding find_first
find_first-SplitsAt [] p e = cc
find_first-SplitsAt (c ∷ s) zero e = elim (Bool-cases (at_crlf (c ∷ s))) [
  | inl h ↦ SplitsAt-zero c s h
  | inr h ↦ absurd (ground arith)
]
find_first-SplitsAt (c ∷ s) (suc p) e = elim (Bool-cases (at_crlf (c ∷ s))) [
  | inl h ↦ absurd (ground arith)
  | inr h ↦ SplitsAt-suc c s p h (find_first-SplitsAt s p (ground arith))
]
