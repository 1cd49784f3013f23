-- ===== src/System.antt =====
-- src/daemon.cpp, `run` with `create_server`: the event loop of the server, the filler's thread and
-- the signal for an expiry, on one storage. A completion is one step, as in `Server`, and so is
-- each access of the filler to the storage; they come in any order.
pub mod Runs
use swordfishd.Base.{ℕ, suc, Bool, Option, none, some, List, [], ◌∷◌, Run, ok, err, ◌>>=◌}
use swordfishd.Storage.{expirate}
use swordfishd.Worker.{Environment}
use swordfishd.Filler.Ticks.{Phase, begins, Reading, Thread, tick}
use swordfishd.Server.{Server, Completion, complete}

-- The server, with the storage, and the thread of the filler.
pub record System : Type 0 where
  pub server : Server
  pub filler : Thread

-- What comes next: a completion, a step of the filler with its readings, or a SIGUSR2.
pub data Event : Type 0 where
  serves : (c : Completion) → Event
  fills : (x : Reading) → Event
  expires : Event

-- A step of the filler, whose `max_fill_size_` is `n`.
unfoldable pub fill_on : Environment → ℕ → Reading → System → Run System
fill_on env n x s = do
  y ← tick env.runtime n x s.filler.phase s.filler.batch s.server.storage
  ok (record s { server = record s.server { storage = y.1 }; filler = y.0 })

-- `Daemon::on_expirate`.
unfoldable pub expire_on : Environment → System → Run System
expire_on env s = do
  t ← expirate env.runtime s.server.storage
  ok (record s { server = record s.server { storage = t } })

-- One event. `clock` and `sends` are those of a completion.
unfoldable pub step :
    Environment → ℕ → (ℕ → ℕ → ℕ × ℕ) → (ℕ → Bool) → Event → System → Option (Run System)
step env n clock sends (serves c) s = elim (complete env clock sends c s.server) [
  | none ↦ none
  | some (err f) ↦ some (err f)
  | some (ok t) ↦ some (ok (record s { server = t }))
]
step env n clock sends (fills x) s = some (fill_on env n x s)
step env n clock sends expires s = some (expire_on env s)

-- Events one after the other, counted from `i`.
unfoldable pub run :
    Environment
    → ℕ
    → (ℕ → ℕ → ℕ → ℕ × ℕ)
    → (ℕ → ℕ → Bool)
    → ℕ
    → List Event
    → System
    → Option (Run System)
run env n clock sends i [] s = some (ok s)
run env n clock sends i (e ∷ es) s = elim (step env n (clock i) (sends i) e s) [
  | none ↦ none
  | some (err f) ↦ some (err f)
  | some (ok t) ↦ run env n clock sends (suc i) es t
]
