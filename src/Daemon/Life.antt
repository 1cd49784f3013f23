-- ===== src/Daemon/Life.antt =====
-- src/daemon.cpp: the pointers over the rounds of `run` and in the destructor.
use swordfishd.Base.{
  ◌≡◌, refl, ap, ◌∙◌, ◌⊎◌, inl, inr, Bool, true, false, ◌&&◌, arith, some, List, [], ◌∷◌, ◌++◌, All,
  ok, err, undefined_behaviour,
}
use swordfishd.Daemon.{
  null, live, dangling, Daemon, new_daemon, Start, Stop, exit, config, completed, thrown,
  Sigactions, set_signal_handlers, release, reach, stop_filler, reset_server, create_server,
  on_exit, run, life,
}

-- All five signal handlers are set.
abbrev pub all_set : Sigactions → Bool
all_set a = a.term && (a.int && (a.usr1 && (a.usr2 && a.segv)))

set-all :
    (a : Sigactions) (d : Daemon)
    → all_set a ≡ true
    → set_signal_handlers a d ≡ completed (record d { segv_default = false })
unfolding set_signal_handlers
set-all a d h = ground arith

-- The start goes through.
pub record Succeeds (start : Start) : Type 0 where
  pub set : start.has_filler ≡ true
  pub storage_loads : start.storage_configured ≡ true
  pub filler_loads : start.filler_configured ≡ true
  pub bound : start.binds ≡ true
  pub handled : all_set start.sigactions ≡ true

-- The start throws: the filler is not set, or the port is taken.
pub data Throws (start : Start) : Type 0 where
  unset : start.has_filler ≡ false → Throws start
  taken :
      start.has_filler ≡ true
      → start.storage_configured ≡ true
      → start.filler_configured ≡ true
      → start.binds ≡ false
      → Throws start

-- The daemon with its four objects.
abbrev fresh : Bool → Daemon
fresh segv_default = record {
  done = false;
  storage = live;
  filler = live;
  filler_thread = live;
  server = live;
  objects = 4;
  segv_default = segv_default;
}

abbrev running : Daemon
running = fresh false

create-Succeeds :
    (start : Start) (d : Daemon)
    → (d ≡ new_daemon) ⊎ (d ≡ running)
    → Succeeds start
    → create_server start d ≡ ok (completed (fresh d.segv_default))
unfolding create_server reset_server release stop_filler reach
create-Succeeds start d (inl e) s = rw (e, s.set, s.storage_loads, s.filler_loads, s.bound)
create-Succeeds start d (inr e) s = rw (e, s.set, s.storage_loads, s.filler_loads, s.bound)

-- A start that throws while objects were there leaves pointers to deleted ones.
thrown_unsafe :
    (start : Start)
    → Throws start
    → (d : Daemon) × (create_server start running ≡ ok (thrown d))
      × (reset_server d ≡ err undefined_behaviour)
unfolding create_server reset_server release stop_filler reach
thrown_unsafe start (unset h) =
    let d : Daemon = record {
      done = false;
      storage = live;
      filler = dangling;
      filler_thread = dangling;
      server = dangling;
      objects = 1;
      segv_default = false;
    } in
    (d, rw h, refl)
thrown_unsafe start (taken a b c h) =
    let d : Daemon = record {
      done = false;
      storage = live;
      filler = live;
      filler_thread = live;
      server = dangling;
      objects = 3;
      segv_default = false;
    } in
    (d, rw (a, b, c, h), refl)

-- A start that throws when nothing was there leaves what the destructor can delete.
thrown_safe :
    (start : Start)
    → Throws start
    → (d : Daemon) × (e : Daemon) × (create_server start new_daemon ≡ ok (thrown d))
      × (reset_server d ≡ ok e)
unfolding create_server reset_server release stop_filler reach
thrown_safe start (unset h) =
    let d : Daemon = record {
      done = false;
      storage = live;
      filler = null;
      filler_thread = null;
      server = null;
      objects = 1;
      segv_default = true;
    } in
    let e : Daemon = record {
      done = false;
      storage = dangling;
      filler = null;
      filler_thread = null;
      server = null;
      objects = 0;
      segv_default = true;
    } in
    (d, e, rw h, refl)
thrown_safe start (taken a b c h) =
    let d : Daemon = record {
      done = false;
      storage = live;
      filler = live;
      filler_thread = live;
      server = null;
      objects = 3;
      segv_default = true;
    } in
    let e : Daemon = record {
      done = false;
      storage = dangling;
      filler = dangling;
      filler_thread = dangling;
      server = null;
      objects = 0;
      segv_default = true;
    } in
    (d, e, rw (a, b, c, h), refl)

-- A round that restarts the server.
abbrev pub IsRestart : Start × Stop → Type 0
IsRestart (start, stop) = Succeeds start × (stop ≡ config true)

restart :
    (round : Start × Stop) (rest : List (Start × Stop)) (d : Daemon)
    → (d ≡ new_daemon) ⊎ (d ≡ running)
    → IsRestart round
    → run (round ∷ rest) d ≡ run rest running
unfolding run
restart (start, stop) rest d h r =
    let not_done : d.done ≡ false = elim h [
      | inl e ↦ ap Daemon.done e
      | inr e ↦ ap Daemon.done e
    ] in
    rw (
      create-Succeeds start d h r.0,
      not_done,
      set-all start.sigactions (fresh d.segv_default) r.0.handled,
      r.1,
    )

run-restarts :
    (pre rest : List (Start × Stop))
    → All IsRestart pre
    → run (pre ++ rest) running ≡ run rest running
run-restarts [] rest a = refl
run-restarts (round ∷ pre) rest a =
    restart round (pre ++ rest) running (inr refl) a.0 ∙ run-restarts pre rest a.1

abbrev pub deleted : Daemon
deleted = record {
  done = true;
  storage = dangling;
  filler = dangling;
  filler_thread = dangling;
  server = dangling;
  objects = 0;
  segv_default = false;
}

last_round :
    (start : Start) (rest : List (Start × Stop)) (d : Daemon)
    → (d ≡ new_daemon) ⊎ (d ≡ running)
    → Succeeds start
    → run ((start, exit) ∷ rest) d ≡ some (ok (on_exit running))
unfolding run
last_round start rest d h s =
    let not_done : d.done ≡ false = elim h [
      | inl e ↦ ap Daemon.done e
      | inr e ↦ ap Daemon.done e
    ] in
    rw (
      create-Succeeds start d h s,
      not_done,
      set-all start.sigactions (fresh d.segv_default) s.handled,
    )

run_ends :
    (pre rest : List (Start × Stop)) (start : Start)
    → All IsRestart pre
    → Succeeds start
    → run (pre ++ (start, exit) ∷ rest) new_daemon ≡ some (ok (on_exit running))
run_ends [] rest start a s = last_round start rest new_daemon (inl refl) s
run_ends (round ∷ pre) rest start a s =
    restart round (pre ++ (start, exit) ∷ rest) new_daemon (inl refl) a.0
    ∙ (run-restarts pre ((start, exit) ∷ rest) a.1 ∙ last_round start rest running (inr refl) s)

-- As far as the daemon's own pointers go: where every start succeeds, the daemon ends after any
-- number of restarts and a signal to exit. No object is left of those that it has made, and none
-- is deleted twice, which would be undefined.
pub life_ends :
    (pre rest : List (Start × Stop)) (start : Start)
    → All IsRestart pre
    → Succeeds start
    → life (pre ++ (start, exit) ∷ rest) ≡ some (ok deleted)
unfolding life reset_server release stop_filler reach on_exit
life_ends pre rest start a s = rw (run_ends pre rest start a s, life)

-- A first start that throws ends the daemon in order.
pub life_first_throw :
    (start : Start) (stop : Stop) (rest : List (Start × Stop))
    → Throws start
    → (d : Daemon) × (life ((start, stop) ∷ rest) ≡ some (ok d))
unfolding life run
life_first_throw start stop rest t =
    let (d, e, made, freed) = thrown_safe start t in (e, rw (made, life, freed))

-- A later start that throws, since the settings that were read again have no filler or the port
-- is taken, makes the destructor use objects that were deleted: `reset_server` clears no pointer.
pub life_undefined :
    (first : Start × Stop) (pre rest : List (Start × Stop)) (start : Start) (stop : Stop)
    → IsRestart first
    → All IsRestart pre
    → Throws start
    → life (first ∷ pre ++ (start, stop) ∷ rest) ≡ some (err undefined_behaviour)
unfolding life
life_undefined first pre rest start stop h a t =
    let (d, made, unsafe) = thrown_unsafe start t in
    let last : run ((start, stop) ∷ rest) running ≡ some (ok d) = unfold run in rw made in
    let all =
      restart first (pre ++ (start, stop) ∷ rest) new_daemon (inl refl) h
      ∙ (run-restarts pre ((start, stop) ∷ rest) a ∙ last) in
    rw (all, life, unsafe)
