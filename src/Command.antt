-- ===== src/Command.antt =====
-- include/command.hpp and src/command.cpp: a command line as its words. The splitting itself is
-- `boost::split(args, line, is_any_of(" "), token_compress_on)`, a parameter with its laws.
pub mod Words
pub mod Reference
use swordfishd.Base.{
  ℕ, suc, ◌+◌, ◌-◌, ◌<◌, ◌≡◌, ◌≢◌, Bool, true, false, List, [], ◌∷◌, ◌++◌, Option, none, some, ltb,
  ◌==◌, ◌||◌, if◌then◌else◌, get_elem?, length, drop, Bytes, codes, Run, ok, err, Fault,
  out_of_range, undefined_behaviour,
}

-- The text has a blank.
abbrev pub has_blank : Bytes → Bool
has_blank [] = false
has_blank (c ∷ s) = c == b' ' || has_blank s

-- The text begins with a blank.
abbrev pub starts_blank : Bytes → Bool
starts_blank [] = false
starts_blank (c ∷ s) = c == b' '

-- `boost::split` on blanks with `token_compress_on`: a text with no blank is one token, and a run
-- of blanks ends a token.
pub record Splitter : Type 0 where
  pub split : Bytes → List Bytes
  pub split_word : (w : Bytes) → has_blank w ≡ false → split w ≡ w ∷ []
  pub split_next :
      (w s : Bytes)
      → has_blank w ≡ false
      → starts_blank s ≡ false
      → split (w ++ b' ' ∷ s) ≡ w ∷ split s
  pub split_run :
      (w s : Bytes) → has_blank w ≡ false → split (w ++ b' ' ∷ b' ' ∷ s) ≡ split (w ++ b' ' ∷ s)

pub record Command : Type 0 where
  pub args : List Bytes

-- `parse_command`, and the constructor, which only calls it.
unfoldable pub parse_command : Splitter → Bytes → Command
parse_command sp line = record { args = sp.split line }

-- `privacy::_unknown_command`.
abbrev pub unknown_command : Bytes
unknown_command = codes "unknown"

-- `name`.
unfoldable pub name : Command → Bytes
name c = elim c.args [ [] ↦ unknown_command | x ∷ xs ↦ x ]

-- `argc`.
unfoldable pub argc : Command → ℕ
argc c = if ltb 0 (length c.args) then length c.args - 1 else 0

-- `operator []`, which does not check its index.
unfoldable pub subscript : Command → ℕ → Run Bytes
subscript c x = elim (get_elem? c.args (x + 1)) [ some a ↦ ok a | none ↦ err undefined_behaviour ]

-- `at`.
unfoldable pub at : Command → ℕ → Run Bytes
at c x = elim (get_elem? c.args (x + 1)) [ some a ↦ ok a | none ↦ err out_of_range ]

-- What lies between `arg_begin()` and `arg_end()`.
unfoldable pub arguments : Command → List Bytes
unfolding argc
arguments c = if argc c == 0 then [] else drop 1 c.args
