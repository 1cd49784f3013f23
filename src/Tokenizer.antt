-- ===== src/Tokenizer.antt =====
-- include/command_tokenizer.hpp and src/command_tokenizer.cpp: the commands of a byte stream.
-- The tokenizer's state is its `remainder_`; an iterator works on that string through a pointer,
-- so the functions on iterators take the string and return it. `npos` is `none`.
pub mod Find
pub mod Split
pub mod Loop
use mathlib.Core.Option
use swordfishd.Base.{
  ℕ, zero, suc, ◌+◌, ◌-◌, Bool, true, false, not, ◌&&◌, Option, none, some, List, [], ◌∷◌, ◌++◌,
  ◌==◌, if◌then◌else◌, take, drop, length, Bytes, crlf,
}

-- `CommandTokenizer::iterator`. `attached` tells whether the pointer `remainder_` is set.
pub record Iterator : Type 0 where
  pub attached : Bool
  pub token : Bytes
  pub offset : Option ℕ

abbrev pub at_crlf : Bytes → Bool
at_crlf (c ∷ d ∷ s) = c == b'\r' && d == b'\n'
at_crlf _ = false

-- `find("\r\n")`.
unfoldable pub find_first : Bytes → Option ℕ
find_first [] = none
find_first (c ∷ s) = if at_crlf (c ∷ s) then some 0 else Option.map suc (find_first s)

-- `find("\r\n", pos)`.
unfoldable pub find : Bytes → ℕ → Option ℕ
find s pos = Option.map (λ p. p + pos) (find_first (drop pos s))

-- `assign(begin() + from, begin() + to)`.
abbrev pub slice : Bytes → ℕ → ℕ → Bytes
slice s from to = take (to - from) (drop from s)

-- The default constructor.
abbrev pub end_iterator : Iterator
end_iterator = record { attached = false; token = []; offset = none }

-- `iterator(std::string &remainder)`.
unfoldable pub iterator : Bytes → Iterator
iterator s = elim (find s 0) [
  | some p ↦ record { attached = true; token = slice s 0 p; offset = some (p + 2) }
  | none ↦ end_iterator
]

-- The pointers of two iterators over one tokenizer agree when both or neither are set.
same_bool : Bool → Bool → Bool
same_bool true b = b
same_bool false b = not b

same_offset : Option ℕ → Option ℕ → Bool
same_offset none none = true
same_offset (some a) (some b) = a == b
same_offset _ _ = false

-- `operator ==`.
unfoldable pub equals : Iterator → Iterator → Bool
unfolding same_bool same_offset
equals x y = same_bool x.attached y.attached && same_offset x.offset y.offset

-- The branches of `operator ++` for a set pointer, after its `find`.
advance : Bytes → Iterator → ℕ → Option ℕ → Bytes × Iterator
advance s it from (some x) =
    (s, record { attached = true; token = slice s from x; offset = some (x + 2) })
advance s it from none = (drop from s, record { attached = false; token = []; offset = none })

-- `operator ++`, with the string that it leaves. A set pointer comes with an offset.
unfoldable pub increment : Bytes → Iterator → Bytes × Iterator
unfolding advance
increment s it =
    if it.attached
    then elim it.offset [ some from ↦ advance s it from (find s from) | none ↦ (s, it) ]
    else (s, it)

-- `append`.
unfoldable pub append : Bytes → Bytes → Bytes
append remainder buff = remainder ++ buff

-- `for(x = begin(); x != end(); ++x)`, from a given iterator: the tokens that the body sees, and
-- the remainder after the loop. `none` means that the fuel ran out.
unfoldable pub tokens_from : ℕ → Bytes → Iterator → Option (List Bytes × Bytes)
tokens_from zero s it = none
tokens_from (suc fuel) s it =
    let rest = tokens_from fuel (increment s it).0 (increment s it).1 in
    if equals it end_iterator then some ([], s) else Option.map (λ r. (it.token ∷ r.0, r.1)) rest

-- The loop over all that the tokenizer holds. Each round takes two bytes at least.
unfoldable pub tokens : Bytes → Option (List Bytes × Bytes)
tokens s = tokens_from (length s + 2) s (iterator s)
