-- ===== src/Worker.antt =====
-- src/worker.cpp: a connection, which reads bytes, runs the commands in them and writes replies.
-- The strand runs one handler of a connection at a time. Whether each write goes through is an
-- argument: one that does not throws, and nothing on the way to the thread's end catches.
pub mod Loop
pub mod Commands
pub mod Replies
use swordfishd.Base.{
  ℕ, zero, suc, ◌+◌, Bool, true, false, Option, none, some, List, [], ◌∷◌, ◌++◌, ◌==◌,
  if◌then◌else◌, length, Bytes, codes, crlf, str_eq, empty, Run, ok, err, aborted, ◌>>=◌,
}
use swordfishd.Tokenizer.{Iterator, iterator, increment, equals, end_iterator, append}
use swordfishd.LogLevel.{LogLevel, text2level}
use swordfishd.Command.{Command, Splitter, parse_command, name, argc, at}
use swordfishd.Dhashmap.{Runtime}
use swordfishd.Storage.{Storage, Formats, execute}

-- What a worker calls: the splitter of lines, the map's surroundings, and how numbers are written.
pub record Environment : Type 0 where
  pub splitter : Splitter
  pub runtime : Runtime
  pub formats : Formats

-- What the commands change: the logger's severity, the storage, and the replies written so far.
pub record Session : Type 0 where
  pub severity : LogLevel
  pub storage : Storage
  pub sent : List Bytes

-- A worker waits for bytes, with what the tokenizer holds, or it has closed its socket.
pub data Worker : Type 0 where
  reading : Session → Bytes → Worker
  closed : Session → Worker

abbrev pub end_mark : Bytes
end_mark = codes "END" ++ crlf

abbrev pub replied : Session → Bytes → Session
replied w reply = record w { sent = w.sent ++ reply ∷ [] }

-- `boost::asio::write`, given whether it goes through. The exception that it throws otherwise ends
-- the process.
unfoldable pub write : Bool → Session → Bytes → Run Session
write sent w reply = if sent then ok (replied w reply) else err aborted

-- The branch of `log_level`.
unfoldable pub set_level : Bool → Command → Session → Run Session
unfolding write
set_level sent cmd w = do
  let set = do
    a ← at cmd 0
    write sent (record w { severity = text2level a }) ((codes "OK" ++ crlf) ++ end_mark)
  if argc cmd == 1 then set else write sent w ((codes "ERROR" ++ crlf) ++ end_mark)

-- The branch of the storage's commands.
unfoldable pub run_command : Environment → (ℕ → ℕ × ℕ) → Bool → Command → Session → Run Session
unfolding write
run_command env clock sent cmd w = do
  r ← execute env.runtime env.formats clock cmd [] w.storage
  write sent (record w { storage = r.0 }) (if empty r.1 then end_mark else r.1)

-- The body of the loop of `on_read` for a command other than `quit`.
unfoldable pub respond : Environment → (ℕ → ℕ × ℕ) → Bool → Command → Session → Run Session
respond env clock sent cmd w =
    if str_eq (name cmd) (codes "log_level")
    then set_level sent cmd w
    else run_command env clock sent cmd w

-- The loop of `on_read` from the iterator `it` over the tokenizer's string `s`. The clock and
-- the write are those of each round. `none` means that the fuel ran out.
unfoldable pub serve :
    Environment
    → (ℕ → ℕ → ℕ × ℕ)
    → (ℕ → Bool)
    → ℕ
    → ℕ
    → Bytes
    → Iterator
    → Session
    → Option (Run Worker)
serve env clock sends zero i s it w = none
serve env clock sends (suc fuel) i s it w =
    let cmd = parse_command env.splitter it.token in
    let next = increment s it in
    let rest : Option (Run Worker) = elim (respond env (clock i) (sends i) cmd w) [
      | ok w' ↦ serve env clock sends fuel (suc i) next.0 next.1 w'
      | err f ↦ some (err f)
    ] in
    if equals it end_iterator
    then some (ok (reading w s))
    else if str_eq (name cmd) (codes "quit")
    then some (ok (closed w))
    else rest

-- `on_read` without an error, for the bytes that came.
unfoldable pub on_read :
    Environment → (ℕ → ℕ → ℕ × ℕ) → (ℕ → Bool) → Bytes → Session → Bytes → Option (Run Worker)
on_read env clock sends bytes w remainder =
    let s = append remainder bytes in serve env clock sends (length s + 2) 0 s (iterator s) w
