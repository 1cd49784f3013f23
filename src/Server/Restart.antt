-- ===== src/Server/Restart.antt =====
-- src/server.cpp with src/daemon.cpp, `on_config`, `create_server` and `reset_server`: which server
-- the handlers of the service are bound to when one server is deleted and the next one runs.
use mathlib.Core.Path.{subst}
use swordfishd.Base.{
  ℕ, ==_iff, sym, ◌<◌, ◌≡◌, ◌≢◌, ◌∙◌, inl, inr, Bool, true, false, List, [], ◌∷◌, arith, ◌==◌,
  if◌then◌else◌, Bool-cases, Run, ok, err, undefined_behaviour, ◌>>=◌,
}
use swordfishd.Server.Service.{Handler, accepted, unbound, calls, Service}

alive-ne-dead : (live : ℕ → Bool) (i j : ℕ) → live i ≡ false → live j ≡ true → (i == j) ≡ false
alive-ne-dead live i j dead alive = elim (Bool-cases (i == j)) [
  | inl same ↦
      let both : live i ≡ true = subst (λ k. live k ≡ true) (sym ((==_iff i j).0 same)) alive in
      absurd (cc)
  | inr other ↦ other
]

module _ (x : Service) where
  -- The constructor, for the server `i`.
  unfoldable pub construct : ℕ → x.State → x.State
  construct i s = x.async_accept i s

  -- The destructor, which is empty but for the members'.
  unfoldable pub destroy : ℕ → x.State → x.State
  destroy i s = x.close i s

  -- `Server::stop`.
  unfoldable pub stop : x.State → x.State
  stop s = x.stop s

  -- A handler of the service, given which servers are there. Both branches of `on_accept` end in the
  -- next accept.
  unfoldable pub handle : (ℕ → Bool) → Handler → x.State → Run x.State
  handle live (accepted i error) s =
      if live i then ok (x.async_accept i s) else err undefined_behaviour
  handle live unbound s = ok s

  unfoldable pub handle_all : (ℕ → Bool) → List Handler → x.State → Run x.State
  handle_all live [] s = ok s
  handle_all live (h ∷ hs) s = do s' ← handle live h s; handle_all live hs s'

  -- `Server::run` with its number of threads, on the handlers that are queued: these threads run the
  -- service, and without them nothing does.
  unfoldable pub run : ℕ → (ℕ → Bool) → x.State → Run x.State
  run workers live s =
      let s' = x.reset s in if workers == 0 then ok s' else handle_all live (x.queued s') s'

  -- From `on_config` to the next `run`, for the server `i` and its successor `j`: `on_config` and
  -- `reset_server` both call `stop`.
  unfoldable pub restart : ℕ → ℕ → ℕ → x.State → Run x.State
  unfolding construct destroy stop
  restart workers i j s = run workers (λ k. k == j) (construct j (destroy i (stop (stop s))))

  -- The service while the server `i` runs: it calls `on_accept`, or does what leaves the accept
  -- of this server as it is.
  pub data Serving (i : ℕ) : x.State → Type 0 where
    started : (s : x.State) → Serving i (construct i s)
    accepts :
        {s u : x.State} (t : x.State) (error : Bool)
        → Serving i s
        → handle (λ k. k == i) (accepted i error) t ≡ ok u
        → Serving i u
    elsewhere :
        {s : x.State} (t : x.State) → Serving i s → x.awaits i t ≡ x.awaits i s → Serving i t

  -- A server that runs has begun an accept.
  Serving-awaits : {i : ℕ} {s : x.State} → Serving i s → x.awaits i s ≡ true
  unfolding construct handle
  Serving-awaits {i} (started s) = x.async_accept_awaits i s
  Serving-awaits {i} {s} (accepts t error r run) =
      let same : x.async_accept i t ≡ s = ground arith in rw (← same) (x.async_accept_awaits i t)
  Serving-awaits (elsewhere t r same) = same ∙ Serving-awaits r

  -- Handlers that are called one after the other reach the one of a deleted server.
  handle_all-stale :
      (live : ℕ → Bool) (i : ℕ) (hs : List Handler) (s : x.State)
      → live i ≡ false
      → calls i hs ≡ true
      → handle_all live hs s ≡ err undefined_behaviour
  unfolding handle_all handle calls
  handle_all-stale live i [] s dead h = cc
  handle_all-stale live i (unbound ∷ hs) s dead h = handle_all-stale live i hs s dead h
  handle_all-stale live i (accepted j e ∷ hs) s dead h = elim (Bool-cases (live j)) [
    | inl alive ↦ rw alive (
        handle_all-stale live i hs (x.async_accept j s) dead
          (ground (arith, alive-ne-dead live i j dead alive)))
    | inr gone ↦ rw gone
  ]

  -- Whatever a server has served, a signal to read the settings again stops it, deletes it and
  -- runs its successor, with one thread at least: the service then calls the cancelled accept of
  -- the deleted server, which the language gives no meaning.
  pub restart_undefined :
      {i : ℕ} {s : x.State} (workers j : ℕ)
      → Serving i s
      → i ≢ j
      → 0 < workers
      → restart workers i j s ≡ err undefined_behaviour
  unfolding restart run destroy stop construct
  restart_undefined {i} {s} workers j r ne threads =
      let stopped = x.stop (x.stop s) in
      let waits : x.awaits i stopped ≡ true =
        x.stop_awaits i (x.stop s) ∙ x.stop_awaits i s ∙ Serving-awaits r in
      let queued =
        x.reset_keeps i _ (x.async_accept_keeps i j _ (x.close_queues i stopped waits)) in
      let some_threads : (workers == 0) ≡ false = ground arith in
      rw some_threads (handle_all-stale (λ k. k == j) i _ _ (ground arith) queued)
