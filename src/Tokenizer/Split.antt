-- ===== src/Tokenizer/Split.antt =====
-- include/command_tokenizer.hpp, as a specification: a byte stream as finished lines, each with
-- its "\r\n", and a remainder.
use mathlib.Core.Path.{ap₂}
use swordfishd.Base.{
  ◌≡◌, refl, sym, ap, ◌∙◌, List, [], ◌∷◌, ◌++◌, append_assoc, take, drop, length, All, All-append,
  Bytes, crlf,
}
use swordfishd.Tokenizer.{find_first}
use swordfishd.Tokenizer.Find.{IsOneLine, find_first-append}

-- Lines, each with its end, in front of a rest.
abbrev pub join : List Bytes → Bytes → Bytes
join [] r = r
join (l ∷ ls) r = l ++ (crlf ++ join ls r)

-- `s` consists of the finished lines `ls` and an unfinished rest `r`.
pub record IsSplit (s : Bytes) (ls : List Bytes) (r : Bytes) : Type 0 where
  pub joined : s ≡ join ls r
  pub lines : All IsOneLine ls
  pub rest : IsOneLine r

pub join-append : (ls ms : List Bytes) (r : Bytes) → join (ls ++ ms) r ≡ join ls (join ms r)
join-append [] ms r = refl
join-append (l ∷ ls) ms r = rw (join-append ls ms r)

pub join-append_right : (ls : List Bytes) (r t : Bytes) → join ls r ++ t ≡ join ls (r ++ t)
join-append_right [] r t = refl
join-append_right (l ∷ ls) r t = rw (append_assoc, append_assoc, join-append_right ls r t)

take-append : (l t : Bytes) → take (length l) (l ++ t) ≡ l
take-append [] t = refl
take-append (c ∷ l) t = ap (◌∷◌ c) (take-append l t)

drop-append : (l t : Bytes) → drop (length l) (l ++ t) ≡ t
drop-append [] t = refl
drop-append (c ∷ l) t = drop-append l t

-- Two streams that agree have the same first line, and agree behind it.
first_line :
    (l m s t : Bytes)
    → IsOneLine l
    → IsOneLine m
    → l ++ (crlf ++ s) ≡ m ++ (crlf ++ t)
    → (l ≡ m) × (s ≡ t)
first_line l m s t h k e =
    let size : length l ≡ length m =
      let ends = sym (find_first-append l s h) ∙ ap find_first e ∙ find_first-append m t k in cc in
    (
      sym (take-append l (crlf ++ s)) ∙ ap₂ (λ n u. take n u) size e ∙ take-append m (crlf ++ t),
      ap (drop 2) (
          sym (drop-append l (crlf ++ s))
          ∙ ap₂ (λ n u. drop n u) size e
          ∙ drop-append m (crlf ++ t)),
    )

join-injective :
    (ls ms : List Bytes) (r q : Bytes)
    → All IsOneLine ls
    → All IsOneLine ms
    → IsOneLine r
    → IsOneLine q
    → join ls r ≡ join ms q
    → (ls ≡ ms) × (r ≡ q)
join-injective [] [] r q a b h k e = (refl, e)
join-injective [] (m ∷ ms) r q a b h k e =
    cc (sym h ∙ ap find_first e ∙ find_first-append m (join ms q) b.0)
join-injective (l ∷ ls) [] r q a b h k e =
    cc (sym k ∙ ap find_first (sym e) ∙ find_first-append l (join ls r) a.0)
join-injective (l ∷ ls) (m ∷ ms) r q a b h k e =
    let (same, tails) = first_line l m (join ls r) (join ms q) a.0 b.0 e in
    let (rests, ends) = join-injective ls ms r q a.1 b.1 h k tails in (ap₂ ◌∷◌ same rests, ends)

-- A stream splits in one way.
pub IsSplit-unique :
    {s : Bytes} {ls ms : List Bytes} {r q : Bytes}
    → IsSplit s ls r
    → IsSplit s ms q
    → (ls ≡ ms) × (r ≡ q)
IsSplit-unique a b = join-injective _ _ _ _ a.lines b.lines a.rest b.rest (sym a.joined ∙ b.joined)

-- More bytes continue the rest.
pub IsSplit-append :
    {s : Bytes} {ls ms : List Bytes} {r q : Bytes} (t : Bytes)
    → IsSplit s ls r
    → IsSplit (r ++ t) ms q
    → IsSplit (s ++ t) (ls ++ ms) q
IsSplit-append {s} {ls} {ms} {r} {q} t a b = record {
  joined = rw (join-append ls ms q, ← b.joined, a.joined) (join-append_right ls r t);
  lines = All-append IsOneLine ls ms b.lines a.lines;
  rest = b.rest;
}
