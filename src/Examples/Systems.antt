-- ===== src/Examples/Systems.antt =====
-- The theorems on the steps of the filler, alone and beside the server.
use swordfishd.Base.{
  ◌+◌, arith, ℕ, ◌≡◌, ◌⊎◌, refl, Bool, true, false, some, List, [], ◌∷◌, ◌++◌, codes, crlf, ok, inl,
}
use swordfishd.LogLevel.{debug}
use swordfishd.Command.Reference.{reference_splitter}
use swordfishd.Worker.{Environment}
use swordfishd.Index.{references}
use swordfishd.Storage.{Storage}
use swordfishd.Filler.{Source, Batch, Round, fill_rounds}
use swordfishd.Filler.Rounds.{Holds, BreaksOff, fill_rounds_wait}
use swordfishd.Filler.Ticks.{Reading, at_phase, begins, ended, frees, adds, Thread, ticks}
use swordfishd.Filler.Hang.{IsFull, Waits, never_joins}
use swordfishd.Filler.Leaving.{readings}
use swordfishd.Filler.Shutdown.{shutdown_ends}
use swordfishd.Filler.Pending.{HasRoom, pending}
use swordfishd.Dhashmap.Invariant.{IsValid, same_data-IsValid}
use swordfishd.Index.Footprint.{footprint}
use swordfishd.Dhashmap.Increment.{EndsAt}
use swordfishd.Server.{new_server, accept, came}
use swordfishd.Server.Connections.{Sound}
use swordfishd.System
use swordfishd.System.{System, Event, serves, fills, expires}
use swordfishd.System.Runs.{heard, ComesOut, run-ComesOut}
use swordfishd.Examples.Data.{runtime, storage, stocked, stocked-IsValid, stocked-Balanced, formats}

-- Room for more, and one key in the queue.
abbrev asked : Storage
asked = record storage {
  queue = record { items = codes "n" ∷ []; curr_size = 1 };
  max_storage_size = 100;
}

abbrev library : Source
library = record {
  get_vals = λ ks vs. codes "new" ∷ [];
  is_filler_alive = some true;
  failed = false;
}

abbrev no_batch : Batch
no_batch = record { keys = []; vals = [] }

-- A library that has no answers yet, in two rounds.
abbrev silent_round : Round
silent_round = record {
  source = record library { is_filler_alive = some false };
  clock = λ i. 8;
  alive = λ i. true;
}

fill_rounds_wait_example :
    ((r : Storage × Batch) × (fill_rounds 0 runtime 2
          (silent_round ∷ silent_round ∷ [])
          asked
          no_batch
        ≡ some (ok r))
      × Holds asked no_batch r)
    ⊎ BreaksOff runtime (fill_rounds 0 runtime 2 (silent_round ∷ silent_round ∷ []) asked no_batch)
fill_rounds_wait_example =
    fill_rounds_wait 0 runtime 2 0 (silent_round ∷ silent_round ∷ []) asked no_batch stocked-IsValid
      stocked-Balanced (refl, (refl, tt))

-- The thread stands before an expiry, with one value to add, when `is_alive_` is cleared.
abbrev started_batch : Batch
started_batch = record { keys = codes "n" ∷ []; vals = codes "new" ∷ [] }

asked-HasRoom :
    HasRoom 0 (pending library (frees (codes "n") (codes "new") [] []) started_batch asked) asked
unfolding pending
asked-HasRoom = record {
  expires = omega arith;
  room = omega arith;
  small = omega arith;
  valid = stocked-IsValid;
  balanced = stocked-Balanced;
}

-- What the thread reads behind `Shutdown`.
abbrev last_reads : ℕ → Reading
last_reads i = record { alive = false; source = library; now = 8 + i }

shutdown_ends_example :
    (k : ℕ) × (((c : Batch) × (t : Storage) × (ticks runtime 2
            (readings k last_reads)
            (at_phase (frees (codes "n") (codes "new") [] []) started_batch, asked)
          ≡ ok (at_phase ended c, t))
        × IsValid t.storage)
      ⊎ EndsAt runtime (
          ticks runtime 2
            (readings k last_reads)
            (at_phase (frees (codes "n") (codes "new") [] []) started_batch, asked)))
shutdown_ends_example =
    shutdown_ends runtime 2 library 0 (frees (codes "n") (codes "new") [] []) started_batch asked
      asked-HasRoom last_reads (λ i. (refl, refl))

-- The map keeps 3 bytes, and has lost as many as the limit.
abbrev leaky : Storage
leaky = record storage { storage = record stocked { storage_size = 100 }; max_storage_size = 97 }

leaky-IsFull : IsFull 97 leaky
unfolding footprint references
leaky-IsFull = record {
  lost = omega arith;
  small = omega arith;
  valid = same_data-IsValid stocked _ refl refl refl stocked-IsValid;
  balanced = record { size_is = refl; fits = omega arith };
}

-- Five readings behind `Shutdown`.
abbrev ended_reading : Reading
ended_reading = record { alive = false; source = library; now = 8 }

abbrev five_readings : List Reading
five_readings = ended_reading ∷ ended_reading ∷ ended_reading ∷ ended_reading ∷ ended_reading ∷ []

never_joins_example :
    ((y : Thread × Storage) × (ticks runtime 2 five_readings
          (at_phase (adds (codes "n" ∷ []) (codes "new" ∷ [])) started_batch, leaky)
        ≡ ok y)
      × Waits (codes "n") (codes "new") [] [] y.0.phase)
    ⊎ EndsAt runtime (
        ticks runtime 2 five_readings
          (at_phase (adds (codes "n" ∷ []) (codes "new" ∷ [])) started_batch, leaky))
never_joins_example =
    never_joins runtime 2 97 five_readings (codes "n") (codes "new") [] []
      (adds (codes "n" ∷ []) (codes "new" ∷ [])) started_batch leaky leaky-IsFull (inl refl)

abbrev environment : Environment
environment = record { splitter = reference_splitter; runtime = runtime; formats = formats }

abbrev started : System
started = record { server = new_server debug asked; filler = at_phase begins no_batch }

started-Sound : Sound environment [] started.server
started-Sound = record { valid = stocked-IsValid; one_accept = refl; all_serve = tt }

abbrev reading : Reading
reading = record { alive = true; source = library; now = 8 }

-- The filler takes its key between the two parts of a line, and an expiry comes behind them.
abbrev events : List Event
events =
    serves (accept false)
    ∷ fills reading
    ∷ serves (came 0 (codes "get "))
    ∷ fills reading
    ∷ serves (came 0 (codes "k" ++ crlf))
    ∷ expires
    ∷ []

abbrev through : ℕ → ℕ → Bool
through n i = true

run-ComesOut_example :
    ComesOut environment through
      (heard events [])
      (System.run environment 2 (λ n i j. (6, 7)) through 0 events started)
run-ComesOut_example =
    run-ComesOut environment 2 (λ n i j. (6, 7)) through 0 events [] started started-Sound
