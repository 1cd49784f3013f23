-- ===== src/Command/Reference.antt =====
-- A splitter of lines with the laws that src/command.cpp relies on, for the examples.
use swordfishd.Base.{
  ℕ, ◌≡◌, refl, ap, Bool, true, false, List, [], ◌∷◌, ◌++◌, arith, ◌==◌, if◌then◌else◌, Bytes,
}
use swordfishd.Command.{Splitter, has_blank, starts_blank}

unfoldable pub extend : ℕ → List Bytes → List Bytes
extend c [] = (c ∷ []) ∷ []
extend c (w ∷ ws) = (c ∷ w) ∷ ws

-- The tokens of a text; `skip` tells that the text follows a blank that ended a token.
unfoldable pub words : Bool → Bytes → List Bytes
unfolding extend
words skip [] = [] ∷ []
words skip (c ∷ s) =
    let rest = words (c == b' ') s in
    if c == b' ' then if skip then rest else [] ∷ rest else extend c rest

pub words-word : (w : Bytes) → has_blank w ≡ false → words false w ≡ w ∷ []
unfolding words
words-word [] h = refl
words-word (c ∷ w) h = ground (arith, words-word w)

words_skip : (s : Bytes) → starts_blank s ≡ false → words true s ≡ words false s
unfolding words
words_skip [] h = refl
words_skip (c ∷ s) h = ground arith

pub words-next :
    (w s : Bytes)
    → has_blank w ≡ false
    → starts_blank s ≡ false
    → words false (w ++ b' ' ∷ s) ≡ w ∷ words false s
unfolding words
words-next [] s h k = ap (◌∷◌ []) (words_skip s k)
words-next (c ∷ w) s h k = ground (arith, words-next w s)

pub words-run :
    (w s : Bytes)
    → has_blank w ≡ false
    → words false (w ++ b' ' ∷ b' ' ∷ s) ≡ words false (w ++ b' ' ∷ s)
unfolding words
words-run [] s h = refl
words-run (c ∷ w) s h = ground (arith, words-run w s)

abbrev pub reference_splitter : Splitter
reference_splitter = record {
  split = words false;
  split_word = words-word;
  split_next = words-next;
  split_run = words-run;
}
