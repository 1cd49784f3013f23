-- ===== src/Command/Words.antt =====
-- src/command.cpp: a line of words, its name and its arguments.
use swordfishd.Base.{
  ℕ, suc, ◌+◌, ◌≡◌, ◌≢◌, refl, ap, false, List, [], ◌∷◌, ◌++◌, arith, Bytes, length, All, get_elem?,
  Run, ok, err, out_of_range, Option, some, none,
}
use swordfishd.Command.{
  Splitter, Command, parse_command, name, argc, at, arguments, has_blank, starts_blank,
}

-- Words joined by single blanks.
abbrev pub unwords : Bytes → List Bytes → Bytes
unwords w [] = w
unwords w (v ∷ vs) = w ++ b' ' ∷ unwords v vs

-- A word is not empty and has no blank.
abbrev pub IsWord : Bytes → Type 0
IsWord w = (w ≢ []) × (has_blank w ≡ false)

starts_blank-unwords :
    (w : Bytes) (ws : List Bytes) → IsWord w → starts_blank (unwords w ws) ≡ false
starts_blank-unwords [] ws h = absurd (h.0 refl)
starts_blank-unwords (c ∷ w) [] h = ground arith
starts_blank-unwords (c ∷ w) (v ∷ vs) h = ground arith

split-unwords :
    (sp : Splitter) (ws : List Bytes) (w : Bytes)
    → has_blank w ≡ false
    → All IsWord ws
    → sp.split (unwords w ws) ≡ w ∷ ws
split-unwords sp [] w h k = sp.split_word w h
split-unwords sp (v ∷ vs) w h k =
    rw (sp.split_next w (unwords v vs) h (starts_blank-unwords v vs k.0))
      (ap (◌∷◌ w) (split-unwords sp vs v k.0.1 k.1))

command_words :
    (c : Command) (w : Bytes) (ws : List Bytes)
    → c.args ≡ w ∷ ws
    → (name c ≡ w) × (arguments c ≡ ws) × (argc c ≡ length ws)
unfolding name arguments argc
command_words c w [] e = ground arith
command_words c w (v ∷ vs) e = ground arith

-- A line of words, joined by single blanks, is parsed into its first word as the name and the
-- others as the arguments. The first word has no blank, and the others have none and are not
-- empty.
pub parse_command-unwords :
    (sp : Splitter) (w : Bytes) (ws : List Bytes)
    → has_blank w ≡ false
    → All IsWord ws
    → (name (parse_command sp (unwords w ws)) ≡ w)
      × (arguments (parse_command sp (unwords w ws)) ≡ ws)
      × (argc (parse_command sp (unwords w ws)) ≡ length ws)
unfolding parse_command
parse_command-unwords sp w ws h k =
    command_words (parse_command sp (unwords w ws)) w ws (split-unwords sp ws w h k)

abbrev pub checked : Option Bytes → Run Bytes
checked (some a) = ok a
checked none = err out_of_range

at-words :
    (c : Command) (xs : List Bytes) (x : ℕ)
    → c.args ≡ xs
    → (at c x ≡ checked (get_elem? (arguments c) x)) × (argc c ≡ length (arguments c))
unfolding at arguments argc
at-words c [] x e = rw e (refl, refl)
at-words c (w ∷ []) x e = let step : x + 1 ≡ suc x = omega arith in rw e (ground arith)
at-words c (w ∷ v ∷ vs) x e = let step : x + 1 ≡ suc x = omega arith in rw e (ground arith)

-- `at` returns the argument that the range of iterators has at that place and throws behind the
-- last one, and `argc` is the length of that range.
pub at-arguments :
    (c : Command) (x : ℕ)
    → (at c x ≡ checked (get_elem? (arguments c) x)) × (argc c ≡ length (arguments c))
at-arguments c x = at-words c c.args x refl
