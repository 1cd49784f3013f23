-- ===== src/Server/Connections.antt =====
-- src/server.cpp and src/worker.cpp: every connection of the server against the bytes of its own
-- client.
use swordfishd.Base.{
  ℕ, suc, ◌<◌, ◌≡◌, refl, sym, ◌∙◌, ◌⊎◌, inl, inr, Bool, Bool-cases, true, false, Option, none,
  some, List, [], ◌∷◌, arith, Option-cases, get_elem?, set_elem, set_elem_same, modify, Beside,
  Beside-snoc, Beside-none, Beside-set, Bytes, Run, ok, err, aborted,
}
use swordfishd.Dhashmap.Invariant.{IsValid}
use swordfishd.Worker.{Environment, Session, Worker}
use swordfishd.Tokenizer.{append}
use swordfishd.Tokenizer.Split.{IsSplit, IsSplit-unique}
use swordfishd.Worker.Replies.{
  session, answered, all_sent, all_sent-false, all_sent-unsent, on_read-Answers,
}
use swordfishd.Server.{
  Waiting, bytes_after, quit, lost, Connection, Server, on_accept, Completion, accept, came, failed,
  keep_worker, came_to, failed_at, complete, complete_all,
}
use swordfishd.Server.Streams.{ClientStream, extend, lose, arrive, streams, Serves}
use swordfishd.Server.Replies.{
  connection, came-Serves, quit-Serves, lost-Serves, failed-Serves, quit-lose, lost-lose,
  new_connection-Serves,
}

-- The state of the server behind its completions.
pub record Sound (env : Environment) (ss : List ClientStream) (s : Server) : Type 0 where
  pub valid : IsValid s.storage.storage
  pub one_accept : s.accepting ≡ 1
  pub all_serve : Beside (Serves env) s.connections ss

-- A connection changes, and the other ones stay.
set-Sound :
    (env : Environment) (f : ClientStream → ClientStream) (i : ℕ) (c c' : Connection)
    (ss : List ClientStream) (s s' : Server)
    → get_elem? s.connections i ≡ some c
    → ((t : ClientStream) → Serves env c t → Serves env c' (f t))
    → IsValid s'.storage.storage
    → s'.accepting ≡ s.accepting
    → s'.connections ≡ set_elem i c' s.connections
    → Sound env ss s
    → Sound env (modify f i ss) s'
set-Sound env f i c c' ss s s' e h v same set a = record {
  valid = v;
  one_accept = same ∙ a.one_accept;
  all_serve = rw set (Beside-set (Serves env) f i c c' s.connections ss e h a.all_serve);
}

-- A connection that does nothing.
idle-Sound :
    (env : Environment) (f : ClientStream → ClientStream) (i : ℕ) (c : Connection)
    (ss : List ClientStream) (s : Server)
    → get_elem? s.connections i ≡ some c
    → ((t : ClientStream) → Serves env c t → Serves env c (f t))
    → Sound env ss s
    → Sound env (modify f i ss) s
idle-Sound env f i c ss s e h a =
    set-Sound env f i c c ss s s e h a.valid refl (sym (set_elem_same i c s.connections e)) a

missing-Sound :
    (env : Environment) (f : ClientStream → ClientStream) (i : ℕ) (ss : List ClientStream)
    (s : Server)
    → get_elem? s.connections i ≡ none
    → Sound env ss s
    → Sound env (modify f i ss) s
missing-Sound env f i ss s e a = rw (Beside-none (Serves env) f i s.connections ss e a.all_serve) a

-- A completion goes well, or one of its writes does not go through, and ends the process.
abbrev pub Completes : Environment → (ℕ → Bool) → List ClientStream → Option (Run Server) → Type 0
Completes env sends ss r =
    ((s' : Server) × (r ≡ some (ok s')) × Sound env ss s')
    ⊎ ((k : ℕ) × (sends k ≡ false) × (r ≡ some (err aborted)))

keep_worker-valid :
    (i : ℕ) (x : Worker) (s : Server) → (keep_worker i x s).storage ≡ (session x).storage
keep_worker-valid i (Worker.reading w r) s = refl
keep_worker-valid i (Worker.closed w) s = refl

keep_worker-accepting :
    (i : ℕ) (x : Worker) (s : Server) → (keep_worker i x s).accepting ≡ s.accepting
keep_worker-accepting i (Worker.reading w r) s = refl
keep_worker-accepting i (Worker.closed w) s = refl

keep_worker-connections :
    (i : ℕ) (x : Worker) (s : Server)
    → (keep_worker i x s).connections ≡ set_elem i (connection x) s.connections
keep_worker-connections i (Worker.reading w r) s = refl
keep_worker-connections i (Worker.closed w) s = refl

came_to-Completes :
    (env : Environment) (clock : ℕ → ℕ → ℕ × ℕ) (sends : ℕ → Bool) (i : ℕ) (t : Bytes)
    (sent : List Bytes) (waiting : Waiting) (ss : List ClientStream) (s : Server)
    → get_elem? s.connections i ≡ some (record { sent = sent; waiting = waiting })
    → Sound env ss s
    → Completes env sends
        (modify (extend t) i ss)
        (came_to env clock sends i t (record { sent = sent; waiting = waiting }) s)
unfolding came_to
came_to-Completes env clock sends i t sent quit ss s e a =
    inl (s, refl, idle-Sound env (extend t) i _ ss s e (quit-Serves env t sent) a)
came_to-Completes env clock sends i t sent lost ss s e a =
    inl (s, refl, idle-Sound env (extend t) i _ ss s e (lost-Serves env t sent) a)
came_to-Completes env clock sends i t sent (bytes_after r) ss s e a =
    let w : Session = record { severity = s.severity; storage = s.storage; sent = sent } in
    let (ls, q, x, split, done, answers) = on_read-Answers env clock sends t r w a.valid in
    elim (Bool-cases (all_sent sends 0 (answered env ls))) [
      | inl through ↦ inl (
        keep_worker i x s,
        rw (came_to, done, through) refl,
        set-Sound env (extend t) i _ (connection x) ss s (keep_worker i x s) e
            (λ u. came-Serves env t r q ls w x u split answers)
            (rw (keep_worker-valid i x s) answers.valid) (keep_worker-accepting i x s)
            (keep_worker-connections i x s) a,
      )
      | inr broken ↦
          let (k, unsent) = all_sent-false sends 0 (answered env ls) broken in
          inr (k, unsent, rw (came_to, done, broken) refl)
    ]

failed_at-Sound :
    (env : Environment) (i : ℕ) (sent : List Bytes) (waiting : Waiting) (ss : List ClientStream)
    (s : Server)
    → get_elem? s.connections i ≡ some (record { sent = sent; waiting = waiting })
    → Sound env ss s
    → Sound env (modify lose i ss) (failed_at i (record { sent = sent; waiting = waiting }) s)
unfolding failed_at
failed_at-Sound env i sent quit ss s e a = idle-Sound env lose i _ ss s e (quit-lose env sent) a
failed_at-Sound env i sent lost ss s e a = idle-Sound env lose i _ ss s e (lost-lose env sent) a
failed_at-Sound env i sent (bytes_after r) ss s e a =
    set-Sound env lose i _ _ ss s _ e (failed-Serves env sent r) a.valid refl refl a

pub complete-Completes :
    (env : Environment) (clock : ℕ → ℕ → ℕ × ℕ) (sends : ℕ → Bool) (c : Completion)
    (ss : List ClientStream) (s : Server)
    → Sound env ss s
    → Completes env sends (arrive c ss) (complete env clock sends c s)
unfolding complete on_accept
complete-Completes env clock sends (accept true) ss s a = inl (
  _,
  refl,
  record { valid = a.valid; one_accept = omega (arith, a.one_accept); all_serve = a.all_serve },
)
complete-Completes env clock sends (accept false) ss s a = inl (
  _,
  refl,
  record {
    valid = a.valid;
    one_accept = omega (arith, a.one_accept);
    all_serve =
        Beside-snoc (Serves env) s.connections ss _ _ a.all_serve (new_connection-Serves env);
  },
)
complete-Completes env clock sends (came i t) ss s a =
    elim (Option-cases (get_elem? s.connections i)) [
      | inl e ↦ inl (s, rw (complete, e) refl, missing-Sound env (extend t) i ss s e a)
      | inr (c, e) ↦
          rw (complete, e) (came_to-Completes env clock sends i t c.sent c.waiting ss s e a)
    ]
complete-Completes env clock sends (failed i) ss s a =
    elim (Option-cases (get_elem? s.connections i)) [
      | inl e ↦ inl (s, rw (complete, e) refl, missing-Sound env lose i ss s e a)
      | inr (c, e) ↦
          inl (
            failed_at i c s,
            rw (complete, e) refl,
            failed_at-Sound env i c.sent c.waiting ss s e a,
          )
    ]

-- In every order in which the accepts and the reads of the connections complete, on a server with a
-- valid map: a write of a reply does not go through and the process ends, or the server goes on
-- without a fault and waits for exactly one accept. There is then one connection for each accept
-- without an error. Each has answered exactly the finished lines of its own client's bytes before
-- the first `quit`, with one reply each that ends with "END\r\n"; it waits for more, with the
-- unfinished rest of these bytes, until a `quit` or a failed read. What the other clients send makes
-- no difference to that.
pub complete_all-Sound :
    (env : Environment) (clock : ℕ → ℕ → ℕ → ℕ × ℕ) (sends : ℕ → ℕ → Bool) (n : ℕ)
    (cs : List Completion) (ss : List ClientStream) (s : Server)
    → Sound env ss s
    → ((s' : Server) × (complete_all env clock sends n cs s ≡ some (ok s'))
        × Sound env (streams cs ss) s')
      ⊎ ((m k : ℕ) × (sends m k ≡ false)
          × (complete_all env clock sends n cs s ≡ some (err aborted)))
unfolding complete_all
complete_all-Sound env clock sends n [] ss s a = inl (s, refl, a)
complete_all-Sound env clock sends n (c ∷ cs) ss s a =
    elim (complete-Completes env (clock n) (sends n) c ss s a) [
      | inr (k, unsent, ends) ↦ inr (n, k, unsent, rw (complete_all, ends))
      | inl (s₁, done, b) ↦
          elim (complete_all-Sound env clock sends (suc n) cs (arrive c ss) s₁ b) [
            | inr (m, k, unsent, ends) ↦ inr (m, k, unsent, rw (complete_all, done) ends)
            | inl (s₂, rest, d) ↦ inl (s₂, rw (complete_all, done) rest, d)
          ]
    ]

-- On a server with a valid map, bytes come to a connection that waits for them, and finish lines of
-- which one before the first `quit` gets a reply that cannot be written: this ends the process, and
-- with it all other connections, whatever else was to complete.
pub lost_client_ends_all :
    (env : Environment) (clock : ℕ → ℕ → ℕ → ℕ × ℕ) (sends : ℕ → ℕ → Bool) (n i k : ℕ)
    (t r q : Bytes) (sent ls : List Bytes) (cs : List Completion) (ss : List ClientStream)
    (s : Server)
    → Sound env ss s
    → get_elem? s.connections i ≡ some (record { sent = sent; waiting = bytes_after r })
    → IsSplit (append r t) ls q
    → k < answered env ls
    → sends n k ≡ false
    → complete_all env clock sends n (came i t ∷ cs) s ≡ some (err aborted)
unfolding complete_all complete came_to
lost_client_ends_all env clock sends n i k t r q sent ls cs ss s a e split lt unsent =
    let w : Session = record { severity = s.severity; storage = s.storage; sent = sent } in
    let (ms, p, x, again, done, answers) = on_read-Answers env (clock n) (sends n) t r w a.valid in
    let same : ms ≡ ls = (IsSplit-unique again split).0 in
    let broken : all_sent (sends n) 0 (answered env ms) ≡ false =
      rw same
        (all_sent-unsent (sends n) 0 (answered env ls) k (omega arith) (omega arith) unsent) in
    let ended : complete env (clock n) (sends n) (came i t) s ≡ some (err aborted) =
      rw (complete, e, came_to, done, broken) refl in
    rw (complete_all, ended)
