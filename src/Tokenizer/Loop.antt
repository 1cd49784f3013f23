-- ===== src/Tokenizer/Loop.antt =====
-- src/command_tokenizer.cpp: the loop over the iterator against the specification.
use mathlib.Core.Path.{subst₂}
use swordfishd.Base.{
  ℕ, zero, suc, ◌+◌, ◌-◌, ◌<◌, ◌≡◌, refl, sym, ap, ◌∙◌, inl, inr, true, Option, none, some, List,
  [], ◌∷◌, ◌++◌, arith, Option-cases, take, drop, length, Bytes, crlf,
}
use swordfishd.Tokenizer.{
  Iterator, find_first, find, iterator, equals, increment, end_iterator, append, tokens_from,
  tokens, advance,
}
use swordfishd.Tokenizer.Find.{find_first-SplitsAt}
use swordfishd.Tokenizer.Split.{IsSplit, IsSplit-unique, IsSplit-append}

abbrev at : Bytes → ℕ → Iterator
at token o = record { attached = true; token = token; offset = some o }

-- What one call of `operator ++` on a set pointer does, from offset `o`.
increment-at_end :
    (s token : Bytes) (o : ℕ)
    → find_first (drop o s) ≡ none
    → increment s (at token o) ≡ (drop o s, end_iterator)
unfolding increment find
increment-at_end s token o e = rw (e, advance)

drop-nil : (n : ℕ) → drop {A = ℕ} n [] ≡ []
drop-nil zero = refl
drop-nil (suc n) = refl

drop-drop : (a b : ℕ) (s : Bytes) → drop a (drop b s) ≡ drop (a + b) s
drop-drop a zero s = let e : a + 0 ≡ a = omega arith in rw e
drop-drop a (suc b) [] = drop-nil a ∙ sym (drop-nil (a + suc b))
drop-drop a (suc b) (c ∷ s) =
    let e : a + suc b ≡ suc (a + b) = omega arith in rw e (drop-drop a b s)

increment-at_line :
    (s token : Bytes) (o p : ℕ)
    → find_first (drop o s) ≡ some p
    → increment s (at token o) ≡ (s, at (take p (drop o s)) (p + 2 + o))
unfolding increment find advance
increment-at_line s token o p e =
    let width : p + o - o ≡ p = omega arith in
    let past : p + o + 2 ≡ p + 2 + o = omega arith in rw (e, advance, width, past)

length-drop : (n : ℕ) (s : Bytes) → length (drop n s) ≡ length s - n
length-drop zero s = omega arith
length-drop (suc n) [] = omega arith
length-drop (suc n) (c ∷ s) = omega (arith, length-drop n s)

-- The loop run from an iterator that stands at `token`, with `o` bytes behind it.
abbrev Yields : Bytes → Bytes → Option (List Bytes × Bytes) → Type 0
Yields token u out = (ls : List Bytes) × (r : Bytes) × (out ≡ some (token ∷ ls, r)) × IsSplit u ls r

tokens_from-end : (fuel : ℕ) (s : Bytes) → 0 < fuel → tokens_from fuel s end_iterator ≡ some ([], s)
unfolding tokens_from equals
tokens_from-end zero s h = elim h [ ]
tokens_from-end (suc fuel) s h = refl

tokens_from-Yields :
    (fuel : ℕ) (s token : Bytes) (o : ℕ)
    → length (drop o s) + 1 < fuel
    → Yields token (drop o s) (tokens_from fuel s (at token o))
unfolding tokens_from equals
tokens_from-Yields zero s token o h = elim h [ ]
tokens_from-Yields (suc fuel) s token o h = elim (Option-cases (find_first (drop o s))) [
  | inl e ↦ (
    [],
    drop o s,
    rw (increment-at_end s token o e, tokens_from-end fuel (drop o s) (omega arith)),
    record { joined = refl; lines = tt; rest = e },
  )
  | inr (p, e) ↦
      let cut = find_first-SplitsAt (drop o s) p e in
      let behind = drop-drop (p + 2) o s in
      let shorter : length (drop (p + 2 + o) s) + 1 < fuel =
        omega (arith, ap length behind, length-drop (p + 2) (drop o s), cut.inside) in
      let (ls, r, run, split) = tokens_from-Yields fuel s (take p (drop o s)) (p + 2 + o) shorter in
      (
        take p (drop o s) ∷ ls,
        r,
        rw (increment-at_line s token o p e, run),
        record {
          joined = cut.joined ∙ ap (λ u. take p (drop o s) ++ (crlf ++ u)) (behind ∙ split.joined);
          lines = (cut.line, split.lines);
          rest = split.rest;
        },
      )
]

iterator-at_end : (s : Bytes) → find_first s ≡ none → iterator s ≡ end_iterator
unfolding iterator find
iterator-at_end s e = rw (e, iterator)

iterator-at_line : (s : Bytes) (p : ℕ) → find_first s ≡ some p → iterator s ≡ at (take p s) (p + 2)
unfolding iterator find
iterator-at_line s p e =
    let at_start : p + 0 ≡ p = omega arith in
    let width : p - 0 ≡ p = omega arith in rw (e, iterator, at_start, width)

-- The loop over the tokenizer ends within its fuel. Its tokens are the finished lines of the
-- string, in order and without their "\r\n", and what stays is the unfinished rest.
pub tokens-IsSplit :
    (s : Bytes) → (ls : List Bytes) × (r : Bytes) × (tokens s ≡ some (ls, r)) × IsSplit s ls r
unfolding tokens
tokens-IsSplit s = elim (Option-cases (find_first s)) [
  | inl e ↦ (
    [],
    s,
    rw (iterator-at_end s e, tokens_from-end (length s + 2) s (omega arith)),
    record { joined = refl; lines = tt; rest = e },
  )
  | inr (p, e) ↦
      let cut = find_first-SplitsAt s p e in
      let enough : length (drop (p + 2) s) + 1 < length s + 2 =
        omega (arith, length-drop (p + 2) s) in
      let (ls, r, run, split) = tokens_from-Yields (length s + 2) s (take p s) (p + 2) enough in
      (
        take p s ∷ ls,
        r,
        rw (iterator-at_line s p e, run),
        record {
          joined = cut.joined ∙ ap (λ u. take p s ++ (crlf ++ u)) split.joined;
          lines = (cut.line, split.lines);
          rest = split.rest;
        },
      )
]

pub tokens_sound :
    (s : Bytes) {ls : List Bytes} {r : Bytes} → tokens s ≡ some (ls, r) → IsSplit s ls r
tokens_sound s {ls} {r} e =
    let (ms, q, run, split) = tokens-IsSplit s in
    let same : ms ≡ ls = cc in let rest : q ≡ r = cc in subst₂ (IsSplit s) same rest split

pub tokens_complete :
    {s : Bytes} {ls : List Bytes} {r : Bytes} → IsSplit s ls r → tokens s ≡ some (ls, r)
tokens_complete {s} split =
    let (ms, q, run, found) = tokens-IsSplit s in
    let (same, rest) = IsSplit-unique found split in rw (run, same, rest)

-- How the bytes are cut into reads makes no difference: a loop over a whole stream sees what a
-- loop over a first part sees, and then what a loop over its rest with the second part appended
-- sees, and leaves the same rest.
pub tokens-append :
    (s t : Bytes) {ls ms : List Bytes} {r q : Bytes}
    → tokens s ≡ some (ls, r)
    → tokens (append r t) ≡ some (ms, q)
    → tokens (append s t) ≡ some (ls ++ ms, q)
unfolding append
tokens-append s t {ls} {ms} {r} {q} e f =
    tokens_complete (IsSplit-append t (tokens_sound s e) (tokens_sound (r ++ t) f))
