-- ===== src/Server/Streams.antt =====
-- src/server.cpp and src/worker.cpp, as a specification: the bytes that each client has sent, and
-- what its connection has done with them.
use swordfishd.Base.{
  ◌≡◌, Bool, true, false, List, [], ◌∷◌, ◌++◌, if◌then◌else◌, modify, All, length, Bytes,
}
use swordfishd.Tokenizer.Split.{IsSplit}
use swordfishd.Worker.{Environment}
use swordfishd.Worker.Commands.{IsReply}
use swordfishd.Worker.Replies.{before_quit, has_quit}
use swordfishd.Server.{
  Waiting, bytes_after, quit, lost, Connection, Completion, accept, came, failed,
}

-- What came from a client until its connection failed.
pub record ClientStream : Type 0 where
  pub bytes : Bytes
  pub is_lost : Bool

abbrev pub new_stream : ClientStream
new_stream = record { bytes = []; is_lost = false }

abbrev pub extend : Bytes → ClientStream → ClientStream
extend t s = if s.is_lost then s else record s { bytes = s.bytes ++ t }

abbrev pub lose : ClientStream → ClientStream
lose s = record s { is_lost = true }

-- The streams behind one completion. An accept with an error brings none.
abbrev pub arrive : Completion → List ClientStream → List ClientStream
arrive (accept true) ss = ss
arrive (accept false) ss = ss ++ new_stream ∷ []
arrive (came i t) ss = modify (extend t) i ss
arrive (failed i) ss = modify lose i ss

-- The streams behind some completions.
abbrev pub streams : List Completion → List ClientStream → List ClientStream
streams [] ss = ss
streams (c ∷ cs) ss = streams cs (arrive c ss)

-- A connection waits for more, with the unfinished rest, exactly until a `quit` or a failure.
abbrev pub Waits : Bool → Bool → Bytes → Waiting → Type 0
Waits quits is_lost rest (bytes_after r) = (quits ≡ false) × (is_lost ≡ false) × (r ≡ rest)
Waits quits is_lost rest quit = quits ≡ true
Waits quits is_lost rest lost = is_lost ≡ true

-- The connection has answered the finished lines of its own stream before the first `quit`, each
-- once.
pub record Serves (env : Environment) (c : Connection) (s : ClientStream) : Type 0 where
  pub lines : List Bytes
  pub rest : Bytes
  pub split : IsSplit s.bytes lines rest
  pub one_each : length c.sent ≡ length (before_quit env lines)
  pub are_replies : All IsReply c.sent
  pub waits : Waits (has_quit env lines) s.is_lost rest c.waiting
