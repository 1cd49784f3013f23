-- ===== src/Daemon.antt =====
-- include/daemon.hpp and src/daemon.cpp: the life of the server's objects over restarts. A pointer
-- is null, or points to an object, or is left behind when its object is deleted.
pub mod Life
pub mod Signals
pub mod Process
use swordfishd.Base.{
  ℕ, ◌+◌, ◌-◌, killed, Bool, true, false, Option, none, some, List, [], ◌∷◌, if◌then◌else◌, Run, ok,
  err, exits, aborted, undefined_behaviour, ◌>>=◌,
}

pub data Handle : Type 0 where
  null live dangling : Handle

pub record Daemon : Type 0 where
  pub done : Bool
  pub storage : Handle
  pub filler : Handle
  pub filler_thread : Handle
  pub server : Handle
  -- how many of the objects that these point to exist
  pub objects : ℕ
  -- SIGSEGV has its default action
  pub segv_default : Bool

-- The constructor, once the settings are read.
abbrev pub new_daemon : Daemon
new_daemon = record {
  done = false;
  storage = null;
  filler = null;
  filler_thread = null;
  server = null;
  objects = 0;
  segv_default = true;
}

-- `if(p) delete p`, which does not clear `p`.
unfoldable pub release : Handle → Run Handle
release null = ok null
release live = ok dangling
release dangling = err undefined_behaviour

-- How many objects that deletes.
abbrev pub freed : Handle → ℕ
freed live = 1
freed _ = 0

-- A call on the object behind a pointer.
unfoldable pub reach : Handle → Run Handle
reach live = ok live
reach _ = err undefined_behaviour

-- `filler_->Shutdown()`, if there is a thread.
unfoldable pub stop_filler : Daemon → Run Handle
unfolding reach
stop_filler d = elim d.filler_thread [ null ↦ ok d.filler | _ ↦ reach d.filler ]

-- `reset_server`.
unfoldable pub reset_server : Daemon → Run Daemon
unfolding release stop_filler
reset_server d = do
  _ ← stop_filler d
  thread ← release d.filler_thread
  server ← release d.server
  filler ← release d.filler
  storage ← release d.storage
  let gone = freed d.filler_thread + (freed d.server + (freed d.filler + freed d.storage))
  ok (record d {
    storage = storage;
    filler = filler;
    filler_thread = thread;
    server = server;
    objects = d.objects - gone;
  })

-- Whether `sigaction` succeeds for each signal.
pub record Sigactions : Type 0 where
  pub term : Bool
  pub int : Bool
  pub usr1 : Bool
  pub usr2 : Bool
  pub segv : Bool

-- How the steps of a start go: whether `general.filler` is set, whether both libraries load,
-- whether the acceptor gets its port, and whether the signal handlers are set.
pub record Start : Type 0 where
  pub has_filler : Bool
  pub storage_configured : Bool
  pub filler_configured : Bool
  pub binds : Bool
  pub sigactions : Sigactions

-- A start ends with the objects, or throws and leaves those that it has.
pub data Started : Type 0 where
  completed : Daemon → Started
  thrown : Daemon → Started

-- `create_server` behind its call of `reset_server`. Both `Configure` end the process on failure.
abbrev pub create_objects : Start → Daemon → Run Started
create_objects start d =
    let d₁ : Daemon = record d { storage = live; objects = d.objects + 1 } in
    let d₂ : Daemon = record d₁ { filler = live; filler_thread = live; objects = d₁.objects + 2 } in
    let d₃ : Daemon = record d₂ { server = live; objects = d₂.objects + 1 } in
    if start.has_filler
    then if start.storage_configured
      then if start.filler_configured
        then if start.binds then ok (completed d₃) else ok (thrown d₂)
        else err exits
      else err exits
    else ok (thrown d₁)

-- `create_server`.
unfoldable pub create_server : Start → Daemon → Run Started
unfolding reset_server
create_server start d = do d' ← reset_server d; create_objects start d'

-- `set_signal_handlers`, which throws at the first signal for which it fails. The last one is
-- SIGSEGV, whose default action is gone then.
unfoldable pub set_signal_handlers : Sigactions → Daemon → Started
set_signal_handlers a d =
    if a.term
    then if a.int
      then if a.usr1
        then if a.usr2
          then if a.segv then completed (record d { segv_default = false }) else thrown d
          else thrown d
        else thrown d
      else thrown d
    else thrown d

-- The signal that stops the event loop; the settings can be read again or not.
pub data Stop : Type 0 where
  exit : Stop
  config : (reloads : Bool) → Stop

-- `on_exit`. The server is running, so its pointer is live.
unfoldable pub on_exit : Daemon → Daemon
on_exit d = record d { done = true }

-- A signal that `signal_handler` is set for, or another one. The settings can be read again or not,
-- and `on_segfault` can give SIGSEGV its default action back or not.
pub data Signal : Type 0 where
  sigterm sigint sigusr2 other : Signal
  sigusr1 : (reloads : Bool) → Signal
  sigsegv : (resets : Bool) → Signal

-- `on_config`, which throws where the settings do not read again.
unfoldable pub on_config : (reloads : Bool) → Daemon → Run Daemon
unfolding reach
on_config reloads d =
    let stopped : Run Daemon = (do _ ← reach d.server; ok d) in
    if reloads then stopped else err aborted

-- `on_expirate`.
unfoldable pub on_expirate : Daemon → Run Daemon
unfolding reach
on_expirate d = do _ ← reach d.storage; ok d

-- `on_segfault`, which gives SIGSEGV its default action back, and throws where this fails.
unfoldable pub on_segfault : (resets : Bool) → Daemon → Run Daemon
on_segfault resets d = if resets then ok (record d { segv_default = true }) else err aborted

-- `dispatch_signal_handler` with the handler that it gives to the service. It tells whether the
-- event loop stops: `on_exit` and `on_config` stop the server, which is its only work. A signal with
-- its default action kills the process.
unfoldable pub on_signal : Signal → Daemon → Run (Daemon × Option Stop)
unfolding reach on_exit on_config on_expirate on_segfault
on_signal sigterm d = do _ ← reach d.server; ok (on_exit d, some exit)
on_signal sigint d = do _ ← reach d.server; ok (on_exit d, some exit)
on_signal (sigusr1 reloads) d = do d' ← on_config reloads d; ok (d', some (config true))
on_signal sigusr2 d = do d' ← on_expirate d; ok (d', none)
on_signal (sigsegv resets) d =
    let handled : Run (Daemon × Option Stop) = (do d' ← on_segfault resets d; ok (d', none)) in
    if d.segv_default then err killed else handled
on_signal other d = ok (d, none)

-- The signals that come while the event loop runs, up to the first that stops it.
unfoldable pub on_signals : List Signal → Daemon → Run (Daemon × Option Stop)
on_signals [] d = ok (d, none)
on_signals (x ∷ xs) d = elim (on_signal x d) [
  | err f ↦ err f
  | ok (d', some stop) ↦ ok (d', some stop)
  | ok (d', none) ↦ on_signals xs d'
]

-- `run` over its rounds, each with its start and its signal. `none` means that the server runs
-- on. A handler that throws, as `on_config` does where the settings do not read, ends the process.
unfoldable pub run : List (Start × Stop) → Daemon → Option (Run Daemon)
unfolding on_exit
run [] d = none
run ((start, stop) ∷ rounds) d = if d.done then some (ok d) else elim (create_server start d) [
  | err f ↦ some (err f)
  | ok (thrown d') ↦ some (ok d')
  | ok (completed d') ↦ elim (set_signal_handlers start.sigactions d') [
    | thrown d'' ↦ some (ok d'')
    | completed d'' ↦ elim stop [
      | exit ↦ some (ok (on_exit d''))
      | config true ↦ run rounds d''
      | config false ↦ some (err aborted)
    ]
  ]
]

-- `main` behind its options: the constructor, `run`, and the destructor.
unfoldable pub life : List (Start × Stop) → Option (Run Daemon)
unfolding reset_server
life rounds = elim (run rounds new_daemon) [
  | none ↦ none
  | some (err f) ↦ some (err f)
  | some (ok d) ↦ some (reset_server d)
]
