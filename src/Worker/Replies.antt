-- ===== src/Worker/Replies.antt =====
-- src/worker.cpp, `on_read`: the replies to the commands in the lines that it finds.
use swordfishd.Base.{
  ℕ, zero, suc, ◌+◌, ◌<◌, ◌≤◌, ◌==◌, ==_iff, ◌≡◌, refl, sym, ap, ◌∙◌, inl, inr, Bool, true, false,
  some, List, [], ◌∷◌, ◌++◌, append_assoc, append-nil, arith, if◌then◌else◌, Bool-cases, All,
  length, Bytes, codes, str_eq, Run, ◌>>=◌, ◌&&◌,
}
use swordfishd.Command.{parse_command, name}
use swordfishd.Dhashmap.Invariant.{IsValid}
use swordfishd.Tokenizer.{append}
use swordfishd.Tokenizer.Split.{IsSplit}
use swordfishd.Worker.{Environment, Session, Worker, reading, closed, on_read}
use swordfishd.Worker.Loop.{serve_lines, on_read-serve_lines}
use swordfishd.Worker.Commands.{IsReply, either, respond-Answered}

-- The commands of some lines, up to the first `quit`.
unfoldable pub before_quit : Environment → List Bytes → List Bytes
before_quit env [] = []
before_quit env (l ∷ ls) =
    let rest = before_quit env ls in
    if str_eq (name (parse_command env.splitter l)) (codes "quit") then [] else l ∷ rest

abbrev pub session : Worker → Session
session (reading w r) = w
session (closed w) = w

-- The worker goes on to read, and keeps `r`, unless one of the lines is a `quit`.
abbrev pub IsOpenUnless : Bool → Bytes → Worker → Type 0
IsOpenUnless quits r (reading w q) = (quits ≡ false) × (q ≡ r)
IsOpenUnless quits r (closed w) = quits ≡ true

unfoldable pub has_quit : Environment → List Bytes → Bool
has_quit env [] = false
has_quit env (l ∷ ls) =
    let rest = has_quit env ls in
    if str_eq (name (parse_command env.splitter l)) (codes "quit") then true else rest

-- What a worker that answers the lines `ls` from the session `w` has done.
pub record Answers (env : Environment) (ls : List Bytes) (r : Bytes) (w : Session) (x : Worker)
    : Type 0 where
  pub replies : List Bytes
  pub sent_are : (session x).sent ≡ w.sent ++ replies
  pub one_each : length replies ≡ length (before_quit env ls)
  pub are_replies : All IsReply replies
  pub stays_open : IsOpenUnless (has_quit env ls) r x
  pub valid : IsValid (session x).storage.storage

-- How many commands of some lines are answered.
abbrev pub answered : Environment → List Bytes → ℕ
answered env ls = length (before_quit env ls)

-- The writes of `n` rounds from the round `i` go through.
unfoldable pub all_sent : (ℕ → Bool) → ℕ → ℕ → Bool
all_sent sends i zero = true
all_sent sends i (suc n) = sends i && all_sent sends (suc i) n

-- A write that does not go through.
pub all_sent-false :
    (sends : ℕ → Bool) (i n : ℕ) → all_sent sends i n ≡ false → (k : ℕ) × (sends k ≡ false)
unfolding all_sent
all_sent-false sends i zero h = absurd (cc)
all_sent-false sends i (suc n) h = elim (Bool-cases (sends i)) [
  | inl sent ↦ all_sent-false sends (suc i) n (rw sent at h)
  | inr unsent ↦ (i, unsent)
]

pub all_sent-unsent :
    (sends : ℕ → Bool) (i n j : ℕ)
    → i ≤ j
    → j < i + n
    → sends j ≡ false
    → all_sent sends i n ≡ false
unfolding all_sent
all_sent-unsent sends i zero j le lt h = absurd (omega arith)
all_sent-unsent sends i (suc n) j le lt h = elim (Bool-cases (i == j)) [
  | inl here ↦ let first : sends i ≡ false = rw ((==_iff i j).0 here) h in rw first
  | inr later ↦
      rw (all_sent-unsent sends (suc i) n j (ground arith) (omega arith) h)
        (elim (sends i) as (λ b. (b && false) ≡ false) [ true ↦ refl | false ↦ refl ])
]

-- A write, and then those of the rounds behind it.
either-bind {ℓ κ} :
    {A : Type ℓ} {B : Type κ} (b c : Bool) (a : A) (x : B) (f : A → Run B)
    → f a ≡ either c x
    → (either b a >>= f) ≡ either (b && c) x
either-bind true c a x f h = h
either-bind false c a x f h = refl

serve_lines-Answers :
    (env : Environment) (clock : ℕ → ℕ → ℕ × ℕ) (sends : ℕ → Bool) (i : ℕ) (ls : List Bytes)
    (r : Bytes) (w : Session)
    → IsValid w.storage.storage
    → (x : Worker) × (serve_lines env clock sends i ls r w
        ≡ either (all_sent sends i (answered env ls)) x)
      × Answers env ls r w x
unfolding serve_lines before_quit has_quit all_sent
serve_lines-Answers env clock sends i [] r w v = (
  reading w r,
  refl,
  record {
    replies = [];
    sent_are = sym (append-nil w.sent);
    one_each = refl;
    are_replies = tt;
    stays_open = (refl, refl);
    valid = v;
  },
)
serve_lines-Answers env clock sends i (l ∷ ls) r w v =
    let cmd = parse_command env.splitter l in
    elim (Bool-cases (str_eq (name cmd) (codes "quit"))) [
      | inl quit ↦ (
        closed w,
        rw quit,
        record {
          replies = [];
          sent_are = sym (append-nil w.sent);
          one_each = rw quit;
          are_replies = tt;
          stays_open = rw quit;
          valid = v;
        },
      )
      | inr other ↦
          let (w', run, a) = respond-Answered env (clock i) (sends i) cmd w v in
          let (x, rest, b) = serve_lines-Answers env clock sends (suc i) ls r w' a.valid in
          (
            x,
            rw (other, run) (either-bind (sends i) _ w' x _ rest),
            record {
              replies = a.reply ∷ b.replies;
              sent_are = b.sent_are ∙ rw (a.sent_is, append_assoc);
              one_each = rw other (ap suc b.one_each);
              are_replies = (a.is_reply, b.are_replies);
              stays_open = rw other b.stays_open;
              valid = b.valid;
            },
          )
    ]

-- On a valid map the handler of a read ends. Where the writes of its replies go through, it ends
-- without a fault and leaves a valid map; every finished line before the first `quit` gets exactly
-- one reply, which ends with "END\r\n"; the worker closes its socket exactly when there is a `quit`,
-- and otherwise keeps the unfinished rest. Where one of these writes does not, the process ends.
pub on_read-Answers :
    (env : Environment) (clock : ℕ → ℕ → ℕ × ℕ) (sends : ℕ → Bool) (bytes remainder : Bytes)
    (w : Session)
    → IsValid w.storage.storage
    → (ls : List Bytes) × (r : Bytes) × (x : Worker) × IsSplit (append remainder bytes) ls r
      × (on_read env clock sends bytes w remainder
          ≡ some (either (all_sent sends 0 (answered env ls)) x))
      × Answers env ls r w x
on_read-Answers env clock sends bytes remainder w v =
    let (ls, r, split, run) = on_read-serve_lines env clock sends bytes remainder w in
    let (x, done, answers) = serve_lines-Answers env clock sends 0 ls r w v in
    (ls, r, x, split, run ∙ ap some done, answers)
