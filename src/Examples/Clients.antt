-- ===== src/Examples/Clients.antt =====
-- The theorem on the connections of the server, at two clients.
use swordfishd.Base.{
  ℕ, ◌≡◌, refl, Bool, false, true, some, List, [], ◌∷◌, ◌++◌, Bytes, codes, crlf, str_eq, err,
  aborted, arith,
}
use swordfishd.LogLevel.{debug}
use swordfishd.Command.Reference.{reference_splitter, words, extend}
use swordfishd.Worker.{Environment}
use swordfishd.Server.{Server, new_server, Completion, accept, came, failed, complete_all}
use swordfishd.Server.{new_connection}
use swordfishd.Command.{parse_command, name}
use swordfishd.Tokenizer.{append, find_first}
use swordfishd.Tokenizer.Split.{IsSplit}
use swordfishd.Worker.Replies.{before_quit}
use swordfishd.Server.Replies.{new_connection-Serves}
use swordfishd.Server.Streams.{new_stream}
use swordfishd.Server.Connections.{Sound, lost_client_ends_all}
use swordfishd.Examples.Data.{runtime, storage, stocked-IsValid, formats}

abbrev environment : Environment
environment = record { splitter = reference_splitter; runtime = runtime; formats = formats }

abbrev started : Server
started = new_server debug storage

started-Sound : Sound environment [] started
started-Sound = record { valid = stocked-IsValid; one_accept = refl; all_serve = tt }

-- The line of the first client comes in two parts, with the second client's between them.
abbrev completions : List Completion
completions =
    accept false
    ∷ came 0 (codes "get ")
    ∷ accept true
    ∷ accept false
    ∷ came 1 (codes "quit" ++ crlf)
    ∷ came 0 (codes "k" ++ crlf)
    ∷ failed 0
    ∷ []

-- All writes go through.
abbrev through : ℕ → ℕ → Bool
through n i = true

-- One client waits for its bytes.
abbrev open_one : Server
open_one = record started { connections = new_connection ∷ [] }

open_one-Sound : Sound environment (new_stream ∷ []) open_one
open_one-Sound = record {
  valid = stocked-IsValid;
  one_accept = refl;
  all_serve = (new_connection-Serves environment, tt);
}

abbrev line_came : Bytes
line_came = codes "get k" ++ crlf

line_came-IsSplit : IsSplit (append [] line_came) (codes "get k" ∷ []) []
unfolding append find_first
line_came-IsSplit = record { joined = refl; lines = (refl, tt); rest = refl }

-- It has gone when its reply is written.
lost_client_ends_all_example :
    complete_all environment
      (λ n i j. (6, 7))
      (λ n i. false)
      0
      (came 0 line_came ∷ accept false ∷ [])
      open_one
    ≡ some (err aborted)
unfolding before_quit parse_command name str_eq words extend
lost_client_ends_all_example =
    lost_client_ends_all environment (λ n i j. (6, 7)) (λ n i. false) 0 0 0 line_came [] [] []
      (codes "get k" ∷ []) (accept false ∷ []) (new_stream ∷ []) open_one open_one-Sound refl
      line_came-IsSplit (omega arith) refl
