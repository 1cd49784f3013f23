-- ===== src/Examples/Server.antt =====
-- The theorems on the parts around the map, at concrete inputs.
use swordfishd.Base.{
  ◌≡◌, refl, ap, str_eq, some, List, [], ◌∷◌, ◌++◌, arith, length, All, Option, ◌⊎◌, Bytes, codes,
  crlf, ok,
}
use swordfishd.Tokenizer.{tokens}
use swordfishd.Tokenizer.Split.{IsSplit}
use swordfishd.Tokenizer.Loop.{tokens-IsSplit}
use swordfishd.Queue
use swordfishd.Queue.{push, wait_and_pop, new_queue, contains}
use swordfishd.Queue.Fifo.{
  push_all, pop_many, firsts, pop_many-push_all, pushes, pops, after, after-IsValid, total,
}
use swordfishd.Command.{parse_command, name, arguments, argc, Command}
use swordfishd.Command.Reference.{reference_splitter}
use swordfishd.Command.Words.{unwords, parse_command-unwords}
use swordfishd.Storage.{Storage, add_item, get_val, refresh_stats, reset_stats}
use swordfishd.Dhashmap.{normalize}
use swordfishd.Storage
use swordfishd.Storage.Calls
use swordfishd.Dhashmap.Increment.{EndsAt}
use swordfishd.Storage.Calls.{asks, takes, tries, expires, asks_stats, perform_all-IsSound}
use swordfishd.Storage.Sound.{IsSound, IsMeant}
use swordfishd.Storage.Reply.{Replies, get_val-Replies}
use swordfishd.Examples.Data.{runtime, storage, stocked-IsValid, formats, queue, hooks}

abbrev get_line : Bytes
get_line = codes "get k n"

abbrev command : Command
command = record { args = codes "get" ∷ codes "k" ∷ codes "n" ∷ [] }

get_val-Replies_example :
    (r : Storage × Bytes) × (get_val runtime formats (λ i. (6, 7)) command storage
      ≡ ok (r.0, r.1 ++ codes "END" ++ crlf))
    × Replies formats storage (arguments command) [] r
get_val-Replies_example =
    get_val-Replies runtime formats (λ i. (6, 7)) command storage stocked-IsValid

abbrev stream : Bytes
stream = codes "get k" ++ crlf ++ codes "qu"

tokens-IsSplit_example :
    (ls : List Bytes) × (r : Bytes) × (tokens stream ≡ some (ls, r)) × IsSplit stream ls r
tokens-IsSplit_example = tokens-IsSplit stream

pop_many-push_all_example :
    pop_many
      (length (firsts (codes "a" ∷ codes "b" ∷ codes "a" ∷ [])))
      (push_all new_queue (codes "a" ∷ codes "b" ∷ codes "a" ∷ []))
    ≡ firsts (codes "a" ∷ codes "b" ∷ codes "a" ∷ [])
pop_many-push_all_example = pop_many-push_all (codes "a" ∷ codes "b" ∷ codes "a" ∷ [])

queue-IsValid : Queue.Fifo.IsValid queue
unfolding contains str_eq
queue-IsValid = record { distinct = (refl, (refl, tt)); counted = refl }

parse_command-unwords_example :
    (name (parse_command reference_splitter (unwords (codes "get") (codes "k" ∷ []))) ≡ codes "get")
    × (arguments (parse_command reference_splitter (unwords (codes "get") (codes "k" ∷ [])))
        ≡ codes "k" ∷ [])
    × (argc (parse_command reference_splitter (unwords (codes "get") (codes "k" ∷ []))) ≡ 1)
parse_command-unwords_example =
    parse_command-unwords reference_splitter (codes "get") (codes "k" ∷ []) refl
      (((λ h. absurd (omega (arith, ap length h))), refl), tt)

-- A client asks, the filler takes the oldest key and adds a value, and the statistics are read.
abbrev member_calls : List Storage.Calls.Call
member_calls =
    asks command (λ i. (6, 7))
    ∷ takes
    ∷ tries (codes "n") (codes "x") 8
    ∷ expires
    ∷ asks_stats 9
    ∷ []

-- Every key has one byte.
storage-IsSound : IsSound (λ k. length k ≡ 1) hooks storage
storage-IsSound = record {
  valid = stocked-IsValid;
  in_order = queue-IsValid;
  bounded = omega arith;
  fits = omega arith;
  meant = (refl, (refl, tt));
  hooks_are = refl;
}

perform_all-IsSound_example :
    ((r : Storage × List (Option Bytes)) × (Storage.Calls.perform_all runtime formats member_calls
          storage
        ≡ ok r)
      × IsSound (λ k. length k ≡ 1) hooks r.0
      × All (IsMeant (λ k. length k ≡ 1) hooks) r.1)
    ⊎ EndsAt runtime (Storage.Calls.perform_all runtime formats member_calls storage)
unfolding arguments normalize
perform_all-IsSound_example =
    perform_all-IsSound (λ k. length k ≡ 1) hooks runtime formats member_calls storage
      ((refl, (refl, tt)), (tt, (tt, (tt, (tt, tt))))) storage-IsSound
