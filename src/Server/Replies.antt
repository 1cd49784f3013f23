-- ===== src/Server/Replies.antt =====
-- src/worker.cpp, `on_read`: a connection against the bytes of its client, when bytes come and when
-- its read fails.
use mathlib.Core.Path.{ap₂}
use swordfishd.Base.{
  ◌+◌, ◌≡◌, refl, sym, ap, ◌∙◌, inl, inr, true, false, List, [], ◌∷◌, ◌++◌, arith, Bool-cases,
  All-append, length, length-append, Bytes, codes, str_eq,
}
use swordfishd.Command.{parse_command, name}
use swordfishd.Tokenizer.{append, find_first}
use swordfishd.Tokenizer.Split.{IsSplit, IsSplit-append}
use swordfishd.Tokenizer.Loop.{tokens-IsSplit}
use swordfishd.Worker.{Environment, Session, Worker}
use swordfishd.Worker.Commands.{IsReply}
use swordfishd.Worker.Replies.{before_quit, has_quit, session, Answers}
use swordfishd.Server.{bytes_after, quit, lost, Connection, new_connection}
use swordfishd.Server.Streams.{ClientStream, new_stream, extend, lose, Waits, Serves}

-- Lines behind others, of which none or one is a `quit`.
record Behind (env : Environment) (ls ms : List Bytes) : Type 0 where
  quits : has_quit env ls ≡ true → has_quit env (ls ++ ms) ≡ true
  stops : has_quit env ls ≡ true → before_quit env (ls ++ ms) ≡ before_quit env ls
  goes_on : has_quit env ls ≡ false → has_quit env (ls ++ ms) ≡ has_quit env ms
  both :
      has_quit env ls ≡ false
      → before_quit env (ls ++ ms) ≡ before_quit env ls ++ before_quit env ms

lines-Behind : (env : Environment) (ls ms : List Bytes) → Behind env ls ms
unfolding has_quit before_quit
lines-Behind env [] ms = record {
  quits = λ h. cc;
  stops = λ h. cc;
  goes_on = λ h. refl;
  both = λ h. refl;
}
lines-Behind env (l ∷ ls) ms =
    let b = lines-Behind env ls ms in
    elim (Bool-cases (str_eq (name (parse_command env.splitter l)) (codes "quit"))) [
      | inl ends ↦ record {
        quits = rw ends (λ h. refl);
        stops = rw ends (λ h. refl);
        goes_on = rw ends (λ h. cc);
        both = rw ends (λ h. cc);
      }
      | inr other ↦ record {
        quits = rw other b.quits;
        stops = rw other (λ h. ap (◌∷◌ l) (b.stops h));
        goes_on = rw other b.goes_on;
        both = rw other (λ h. ap (◌∷◌ l) (b.both h));
      }
    ]

abbrev pub connection : Worker → Connection
connection (Worker.reading w r) = record { sent = w.sent; waiting = bytes_after r }
connection (Worker.closed w) = record { sent = w.sent; waiting = quit }

extend-lost : (t : Bytes) (s : ClientStream) → s.is_lost ≡ true → extend t s ≡ s
extend-lost t s e = ground (arith, e)

extend-open :
    (t : Bytes) (s : ClientStream)
    → s.is_lost ≡ false
    → extend t s ≡ record s { bytes = s.bytes ++ t }
extend-open t s e = ground (arith, e)

-- What a connection that waits for more leaves behind some bytes.
came-Waits :
    (env : Environment) (ls ms : List Bytes) (q : Bytes) (w : Session) (x : Worker)
    → has_quit env ls ≡ false
    → Answers env ms q w x
    → Waits (has_quit env (ls ++ ms)) false q (connection x).waiting
came-Waits env ls ms q w (Worker.reading w' r) no_quit a =
    ((lines-Behind env ls ms).goes_on no_quit ∙ a.stays_open.0, refl, a.stays_open.1)
came-Waits env ls ms q w (Worker.closed w') no_quit a =
    (lines-Behind env ls ms).goes_on no_quit ∙ a.stays_open

connection-sent : (x : Worker) → (connection x).sent ≡ (session x).sent
connection-sent (Worker.reading w r) = refl
connection-sent (Worker.closed w) = refl

-- The bytes go on behind the rest, and are answered.
pub came-Serves :
    (env : Environment) (t r q : Bytes) (ms : List Bytes) (w : Session) (x : Worker)
    (s : ClientStream)
    → IsSplit (append r t) ms q
    → Answers env ms q w x
    → Serves env (record { sent = w.sent; waiting = bytes_after r }) s
    → Serves env (connection x) (extend t s)
unfolding append
came-Serves env t r q ms w x s split a h =
    let (no_quit, found, same) = h.waits in
    let sent : (connection x).sent ≡ w.sent ++ a.replies = connection-sent x ∙ a.sent_are in
    let behind = lines-Behind env h.lines ms in
    rw (extend-open t s found) (record {
      lines = h.lines ++ ms;
      rest = q;
      split = IsSplit-append t h.split (rw (← same) split);
      one_each =
          rw (sent, behind.both no_quit)
            (length-append w.sent a.replies
              ∙ ap₂ ◌+◌ h.one_each a.one_each
              ∙ sym (length-append (before_quit env h.lines) (before_quit env ms)));
      are_replies = rw sent (All-append IsReply w.sent a.replies a.are_replies h.are_replies);
      waits = rw found (came-Waits env h.lines ms q w x no_quit a);
    })

-- A connection that has quit does nothing with what comes.
pub quit-Serves :
    (env : Environment) (t : Bytes) (sent : List Bytes) (s : ClientStream)
    → Serves env (record { sent = sent; waiting = quit }) s
    → Serves env (record { sent = sent; waiting = quit }) (extend t s)
quit-Serves env t sent s h = elim (Bool-cases s.is_lost) [
  | inl gone ↦ rw (extend-lost t s gone) h
  | inr found ↦
      let (ms, q, ran, split) = tokens-IsSplit (h.rest ++ t) in
      let behind = lines-Behind env h.lines ms in
      rw (extend-open t s found) (record {
        lines = h.lines ++ ms;
        rest = q;
        split = IsSplit-append t h.split split;
        one_each = h.one_each ∙ ap length (sym (behind.stops h.waits));
        are_replies = h.are_replies;
        waits = behind.quits h.waits;
      })
]

pub lost-Serves :
    (env : Environment) (t : Bytes) (sent : List Bytes) (s : ClientStream)
    → Serves env (record { sent = sent; waiting = lost }) s
    → Serves env (record { sent = sent; waiting = lost }) (extend t s)
lost-Serves env t sent s h = rw (extend-lost t s h.waits) h

-- A read that fails ends the connection, if it waits for it.
pub failed-Serves :
    (env : Environment) (sent : List Bytes) (r : Bytes) (s : ClientStream)
    → Serves env (record { sent = sent; waiting = bytes_after r }) s
    → Serves env (record { sent = sent; waiting = lost }) (lose s)
failed-Serves env sent r s h = record {
  lines = h.lines;
  rest = h.rest;
  split = h.split;
  one_each = h.one_each;
  are_replies = h.are_replies;
  waits = refl;
}

pub quit-lose :
    (env : Environment) (sent : List Bytes) (s : ClientStream)
    → Serves env (record { sent = sent; waiting = quit }) s
    → Serves env (record { sent = sent; waiting = quit }) (lose s)
quit-lose env sent s h = record {
  lines = h.lines;
  rest = h.rest;
  split = h.split;
  one_each = h.one_each;
  are_replies = h.are_replies;
  waits = h.waits;
}

pub lost-lose :
    (env : Environment) (sent : List Bytes) (s : ClientStream)
    → Serves env (record { sent = sent; waiting = lost }) s
    → Serves env (record { sent = sent; waiting = lost }) (lose s)
lost-lose env sent s h = record {
  lines = h.lines;
  rest = h.rest;
  split = h.split;
  one_each = h.one_each;
  are_replies = h.are_replies;
  waits = refl;
}

pub new_connection-Serves : (env : Environment) → Serves env new_connection new_stream
unfolding has_quit before_quit
new_connection-Serves env = record {
  lines = [];
  rest = [];
  split = record { joined = refl; lines = tt; rest = unfold find_first in refl };
  one_each = refl;
  are_replies = tt;
  waits = (refl, refl, refl);
}
