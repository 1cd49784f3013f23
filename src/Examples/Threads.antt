-- ===== src/Examples/Threads.antt =====
-- The theorems on the workers, the filler and the settings, at concrete inputs.
use swordfishd.Base.{
  ℕ, ◌+◌, ◌≡◌, refl, Bool, true, false, none, some, List, [], ◌∷◌, ◌++◌, Bytes, codes, crlf, str_eq,
  if◌then◌else◌,
}
use swordfishd.LogLevel.{debug}
use swordfishd.Command.Reference.{reference_splitter}
use swordfishd.Storage.{Storage}
use swordfishd.Tokenizer.{append}
use swordfishd.Tokenizer.Split.{IsSplit}
use swordfishd.Worker.{Environment, Session, Worker, on_read}
use swordfishd.Worker.Loop.{serve_lines, on_read-serve_lines}
use swordfishd.Worker.Replies.{Answers, answered, all_sent, on_read-Answers}
use swordfishd.Worker.Commands.{either}
use swordfishd.Config
use swordfishd.Config.{
  Config, PropertyTree, File, missing, ini, load, reload, storage_expirate_size,
}
use swordfishd.Config.Load.{IsLoaded, load-IsLoaded}
use swordfishd.Config.Sizes.{HasLimits}
use swordfishd.Filler.{Source, Round, Batch}
use swordfishd.Examples.Data.{runtime, storage, stocked-IsValid, formats}

abbrev environment : Environment
environment = record { splitter = reference_splitter; runtime = runtime; formats = formats }

abbrev session : Session
session = record { severity = debug; storage = storage; sent = [] }

abbrev clock : ℕ → ℕ → ℕ × ℕ
clock i j = (6 + i, 7 + i)

abbrev through : ℕ → Bool
through i = true

abbrev request : Bytes
request = codes "t k" ++ crlf ++ codes "log_level INFO" ++ crlf ++ codes "quit" ++ crlf

on_read-serve_lines_example :
    (ls : List Bytes) × (r : Bytes) × IsSplit (append (codes "ge") request) ls r
    × (on_read environment clock through request session (codes "ge")
        ≡ some (serve_lines environment clock through 0 ls r session))
on_read-serve_lines_example =
    on_read-serve_lines environment clock through request (codes "ge") session

on_read-Answers_example :
    (ls : List Bytes) × (r : Bytes) × (x : Worker) × IsSplit (append (codes "ge") request) ls r
    × (on_read environment clock through request session (codes "ge")
        ≡ some (either (all_sent through 0 (answered environment ls)) x))
    × Answers environment ls r session x
on_read-Answers_example =
    on_read-Answers environment clock through request (codes "ge") session stocked-IsValid

-- Only the size of the storage is set.
abbrev tree : PropertyTree
tree = record {
  text = λ p. none;
  word = λ p. if str_eq p (codes "general.storage_size") then some 3 else none;
  port_number = λ p. none;
}

abbrev settings : Config
settings = record { path = codes "a"; tree = tree }

load-IsLoaded_example :
    IsLoaded (ini tree) (codes "b") tree (load (λ p. ini tree) (codes "b") settings)
    × ((load (λ p. ini tree) (codes "b") settings).0.path ≡ codes "b")
    × IsLoaded missing
        (codes "b")
        (load (λ p. ini tree) (codes "b") settings).0.tree
        (reload (λ p. missing) (load (λ p. ini tree) (codes "b") settings).0)
load-IsLoaded_example = load-IsLoaded (λ p. ini tree) (λ p. missing) (codes "b") settings

-- A full storage of 3 bytes with these settings.
abbrev small_storage : Storage
small_storage = record storage { expirate_size = 0 }

settings-HasLimits : HasLimits settings small_storage
unfolding Config.storage_size storage_expirate_size str_eq
settings-HasLimits = record { limit = refl; step = refl }

abbrev source : Source
source = record { get_vals = λ keys vals. keys; is_filler_alive = some false; failed = false }

-- The map is full, so the first round expires its entry.
abbrev round : Round
round = record { source = source; clock = λ i. i; alive = λ t. true }

abbrev batch : Batch
batch = record { keys = codes "z" ∷ []; vals = [] }
