-- ===== src/Server.antt =====
-- include/server.hpp and src/server.cpp: the connections of the server. The service completes one
-- handler at a time, of an accept or of a connection's read; those that no connection waits for
-- do not occur. The acceptor and the sockets are the network library's.
pub mod Service
pub mod Restart
pub mod Streams
pub mod Replies
pub mod Connections
use swordfishd.Base.{
  ℕ, zero, suc, ◌+◌, ◌-◌, Bool, Option, none, some, List, [], ◌∷◌, ◌++◌, if◌then◌else◌, get_elem?,
  set_elem, Bytes, Run, ok, err,
}
use swordfishd.LogLevel.{LogLevel}
use swordfishd.Storage.{Storage}
use swordfishd.Worker
use swordfishd.Worker.{Environment, Session, Worker, on_read}

-- What a worker waits for: the next bytes, with what its tokenizer holds, or nothing, because it
-- closed its socket or its read failed.
pub data Waiting : Type 0 where
  bytes_after : (remainder : Bytes) → Waiting
  quit : Waiting
  lost : Waiting

pub record Connection : Type 0 where
  pub sent : List Bytes
  pub waiting : Waiting

-- A worker when its `run` has been called.
abbrev pub new_connection : Connection
new_connection = record { sent = []; waiting = bytes_after [] }

-- The logger's severity and the storage, which the workers share; the workers that run, in the
-- order of their accepts; and how many accepts wait on the socket of the worker behind them.
pub record Server : Type 0 where
  pub severity : LogLevel
  pub storage : Storage
  pub connections : List Connection
  pub accepting : ℕ

-- The constructor.
abbrev pub new_server : LogLevel → Storage → Server
new_server severity storage = record {
  severity = severity;
  storage = storage;
  connections = [];
  accepting = 1;
}

-- `Server::on_accept`.
unfoldable pub on_accept : (error : Bool) → Server → Server
on_accept error s =
    let s₁ = if error then s else record s { connections = s.connections ++ new_connection ∷ [] } in
    record s₁ { accepting = s₁.accepting + 1 }

-- What the service completes: an accept, or a read of the worker `i` with the bytes that came or
-- with an error.
pub data Completion : Type 0 where
  accept : (error : Bool) → Completion
  came : (i : ℕ) (bytes : Bytes) → Completion
  failed : (i : ℕ) → Completion

-- What the handler of the worker `i` leaves.
abbrev pub keep_worker : ℕ → Worker → Server → Server
keep_worker i (Worker.reading w r) s = record s {
  severity = w.severity;
  storage = w.storage;
  connections = set_elem i (record { sent = w.sent; waiting = bytes_after r }) s.connections;
}
keep_worker i (Worker.closed w) s = record s {
  severity = w.severity;
  storage = w.storage;
  connections = set_elem i (record { sent = w.sent; waiting = quit }) s.connections;
}

-- `Worker::on_read` without an error, where the connection waits for it. A write that fails ends
-- the process, and so all connections.
unfoldable pub came_to :
    Environment
    → (ℕ → ℕ → ℕ × ℕ)
    → (ℕ → Bool)
    → ℕ
    → Bytes
    → Connection
    → Server
    → Option (Run Server)
came_to env clock sends i bytes c s = elim c.waiting [
  | quit ↦ some (ok s)
  | lost ↦ some (ok s)
  | bytes_after r ↦
      let w : Session = record { severity = s.severity; storage = s.storage; sent = c.sent } in
      elim (on_read env clock sends bytes w r) [
        | none ↦ none
        | some (err f) ↦ some (err f)
        | some (ok x) ↦ some (ok (keep_worker i x s))
      ]
]

-- `Worker::on_read` with an error, where the connection waits for it: it arms no further read.
unfoldable pub failed_at : ℕ → Connection → Server → Server
failed_at i c s = elim c.waiting [
  | bytes_after r ↦ record s {
    connections = set_elem i (record c { waiting = lost }) s.connections;
  }
  | _ ↦ s
]

-- One completion. The accept that completes waits no longer.
unfoldable pub complete :
    Environment → (ℕ → ℕ → ℕ × ℕ) → (ℕ → Bool) → Completion → Server → Option (Run Server)
complete env clock sends (accept error) s =
    some (ok (on_accept error (record s { accepting = s.accepting - 1 })))
complete env clock sends (came i bytes) s = elim (get_elem? s.connections i) [
  | none ↦ some (ok s)
  | some c ↦ came_to env clock sends i bytes c s
]
complete env clock sends (failed i) s = elim (get_elem? s.connections i) [
  | none ↦ some (ok s)
  | some c ↦ some (ok (failed_at i c s))
]

-- Completions, in the order in which the event loop gives them. `clock n` and
-- `sends n` are those of completion `n`.
unfoldable pub complete_all :
    Environment
    → (ℕ → ℕ → ℕ → ℕ × ℕ)
    → (ℕ → ℕ → Bool)
    → ℕ
    → List Completion
    → Server
    → Option (Run Server)
complete_all env clock sends n [] s = some (ok s)
complete_all env clock sends n (c ∷ cs) s = elim (complete env (clock n) (sends n) c s) [
  | none ↦ none
  | some (err f) ↦ some (err f)
  | some (ok s') ↦ complete_all env clock sends (suc n) cs s'
]
