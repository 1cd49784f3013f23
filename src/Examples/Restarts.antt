-- ===== src/Examples/Restarts.antt =====
-- The theorems on the daemon's life, at concrete rounds.
use swordfishd.Base.{
  ◌≡◌, refl, true, false, some, List, [], ◌∷◌, ◌++◌, ok, err, undefined_behaviour, arith,
}
use swordfishd.Daemon.{
  Daemon, Start, Sigactions, exit, config, life, live, Signal, sigterm, sigusr2, sigsegv,
}
use swordfishd.Server.Service.{reference_service, fresh_state}
use swordfishd.Server.Restart.{construct, restart, started, restart_undefined}
use swordfishd.Daemon.Life.{Succeeds, unset, deleted, life_ends, life_undefined}

abbrev handled : Sigactions
handled = record { term = true; int = true; usr1 = true; usr2 = true; segv = true }

abbrev good : Start
good = record {
  has_filler = true;
  storage_configured = true;
  filler_configured = true;
  binds = true;
  sigactions = handled;
}

-- The settings have no filler.
abbrev bare : Start
bare = record {
  has_filler = false;
  storage_configured = true;
  filler_configured = true;
  binds = true;
  sigactions = handled;
}

-- The port is taken.
abbrev barred : Start
barred = record {
  has_filler = true;
  storage_configured = true;
  filler_configured = true;
  binds = false;
  sigactions = handled;
}

good-Succeeds : Succeeds good
good-Succeeds = record {
  set = refl;
  storage_loads = refl;
  filler_loads = refl;
  bound = refl;
  handled = refl;
}

life_ends_example : life (((good, config true) ∷ []) ++ (good, exit) ∷ []) ≡ some (ok deleted)
life_ends_example =
    life_ends ((good, config true) ∷ []) [] good (((good-Succeeds, refl)), tt) good-Succeeds

life_undefined_example :
    life (((good, config true) ∷ []) ++ (bare, exit) ∷ []) ≡ some (err undefined_behaviour)
life_undefined_example =
    life_undefined (good, config true) [] [] bare exit (good-Succeeds, refl) tt (unset refl)

-- The daemon when its server runs for the first time, before and behind the signal handlers.
abbrev created : Daemon
created = record {
  done = false;
  storage = live;
  filler = live;
  filler_thread = live;
  server = live;
  objects = 4;
  segv_default = true;
}

abbrev running : Daemon
running = record created { segv_default = false }

abbrev signals : List Signal
signals = sigusr2 ∷ sigsegv true ∷ sigusr2 ∷ sigsegv true ∷ sigterm ∷ []

-- A server that has just begun its first accept.
restart_undefined_example :
    restart reference_service 10 0 1 (construct reference_service 0 fresh_state)
    ≡ err undefined_behaviour
restart_undefined_example =
    restart_undefined reference_service 10 1 (started fresh_state) (omega arith) (omega arith)
