-- ===== src/Worker/Commands.antt =====
-- src/worker.cpp, `on_read`: the reply to one command.
use swordfishd.Base.{
  ℕ, ◌≡◌, refl, ap, ◌∙◌, inl, inr, Bool, List, [], ◌∷◌, ◌++◌, append_assoc, arith, if◌then◌else◌,
  Bool-cases, Bytes, codes, crlf, str_eq, empty, Run, ok, err, aborted,
}
use swordfishd.Command.{Command, name, argc, at}
use swordfishd.LogLevel.{text2level}
use swordfishd.Stats
use swordfishd.Stats.{stat_lines}
use swordfishd.Dhashmap.{get_deleted, get_gets, get_updates}
use swordfishd.Dhashmap.Invariant.{IsValid, same_data-IsValid}
use swordfishd.Storage.{Storage, execute, get_stats, refresh_stats}
use swordfishd.Storage.Reply.{get_val-Replies}
use swordfishd.Worker.{
  Environment, Session, end_mark, replied, write, set_level, run_command, respond,
}

abbrev pub IsReply : Bytes → Type 0
IsReply t = (body : Bytes) × (t ≡ body ++ end_mark)

IsReply-append : (x t : Bytes) → IsReply t → IsReply (x ++ t)
IsReply-append x t (body, e) = (x ++ body, rw (e, append_assoc))

-- How a write ends.
abbrev pub either {ℓ} : {A : Type ℓ} → Bool → A → Run A
either sent a = if sent then ok a else err aborted

-- One command.
pub record Answered (w w' : Session) : Type 0 where
  pub reply : Bytes
  pub is_reply : IsReply reply
  pub sent_is : w'.sent ≡ w.sent ++ reply ∷ []
  pub valid : IsValid w'.storage.storage

replied-Answered :
    (w w' : Session) (body : Bytes)
    → w'.sent ≡ w.sent
    → IsValid w'.storage.storage
    → Answered w (replied w' (body ++ end_mark))
replied-Answered w w' body same v = record {
  reply = body ++ end_mark;
  is_reply = (body, refl);
  sent_is = ap (λ u. u ++ (body ++ end_mark) ∷ []) same;
  valid = v;
}

abbrev refused : Session → Session
refused w = replied w ((codes "ERROR" ++ crlf) ++ end_mark)

set_level-Answered :
    (sent : Bool) (args : List Bytes) (w : Session)
    → IsValid w.storage.storage
    → (w' : Session) × (set_level sent (record { args = args }) w ≡ either sent w') × Answered w w'
unfolding set_level write at argc
set_level-Answered sent [] w v =
    (refused w, refl, replied-Answered w w (codes "ERROR" ++ crlf) refl v)
set_level-Answered sent (c ∷ []) w v =
    (refused w, refl, replied-Answered w w (codes "ERROR" ++ crlf) refl v)
set_level-Answered sent (c ∷ a ∷ []) w v =
    let w' : Session = record w { severity = text2level a } in
    (
      replied w' ((codes "OK" ++ crlf) ++ end_mark),
      refl,
      replied-Answered w w' (codes "OK" ++ crlf) refl v,
    )
set_level-Answered sent (c ∷ a ∷ b ∷ xs) w v =
    (refused w, ground arith, replied-Answered w w (codes "ERROR" ++ crlf) refl v)

stats-IsReply : (show : ℕ → ℕ → Bytes) (now : ℕ) (t : Stats.Stats) → IsReply (Stats.get show now t)
unfolding Stats.get
stats-IsReply show now t = (stat_lines show now t, refl)

refresh_stats-IsValid : (s : Storage) → IsValid s.storage → IsValid (refresh_stats s).storage
unfolding refresh_stats get_deleted get_gets get_updates
refresh_stats-IsValid s v = same_data-IsValid s.storage (refresh_stats s).storage refl refl refl v

-- What `execute` leaves in an empty `result`: nothing, or a reply.
record Executed (r : Storage × Bytes) : Type 0 where
  is_reply : IsReply (if empty r.1 then end_mark else r.1)
  valid : IsValid r.0.storage

IsReply-or_end : (t : Bytes) → IsReply t → IsReply (if empty t then end_mark else t)
IsReply-or_end t h = elim (Bool-cases (empty t)) [
  | inl none_there ↦ rw none_there ([], refl)
  | inr there ↦ rw there h
]

execute-Executed :
    (env : Environment) (clock : ℕ → ℕ × ℕ) (cmd : Command) (s : Storage)
    → IsValid s.storage
    → (r : Storage × Bytes) × (execute env.runtime env.formats clock cmd [] s ≡ ok r) × Executed r
unfolding execute get_stats
execute-Executed env clock cmd s v = elim (Bool-cases (str_eq (name cmd) (codes "stats"))) [
  | inl stats ↦ (
    get_stats env.formats (clock 0).0 s,
    rw stats,
    record {
      is_reply =
          IsReply-or_end _
            (stats-IsReply env.formats.show_uptime (clock 0).0 (refresh_stats s).stats);
      valid = refresh_stats-IsValid s v;
    },
  )
  | inr not_stats ↦ elim (Bool-cases (str_eq (name cmd) (codes "get"))) [
    | inl gets ↦
        let (r, run, replies) = get_val-Replies env.runtime env.formats clock cmd s v in
        (
          (r.0, r.1 ++ end_mark),
          rw (not_stats, gets) (run ∙ ap (λ u. ok (r.0, u)) (append_assoc r.1 (codes "END") crlf)),
          record { is_reply = IsReply-or_end _ (r.1, refl); valid = replies.valid },
        )
    | inr other ↦ (
      (s, []),
      rw (not_stats, other),
      record { is_reply = unfold empty in ([], refl); valid = v },
    )
  ]
]

-- On a valid map a command has one answer: its write goes through, or it ends the process.
pub respond-Answered :
    (env : Environment) (clock : ℕ → ℕ × ℕ) (sent : Bool) (cmd : Command) (w : Session)
    → IsValid w.storage.storage
    → (w' : Session) × (respond env clock sent cmd w ≡ either sent w') × Answered w w'
unfolding respond run_command write
respond-Answered env clock sent cmd w v =
    elim (Bool-cases (str_eq (name cmd) (codes "log_level"))) [
      | inl level ↦
          let (w', run, answered) = set_level-Answered sent cmd.args w v in
          (w', rw level run, answered)
      | inr other ↦
          let (r, run, executed) = execute-Executed env clock cmd w.storage v in
          let w' : Session = record w { storage = r.0 } in
          let reply : Bytes = if empty r.1 then end_mark else r.1 in
          (
            replied w' reply,
            rw (other, run) refl,
            record {
              reply = reply;
              is_reply = executed.is_reply;
              sent_is = refl;
              valid = executed.valid;
            },
          )
    ]
