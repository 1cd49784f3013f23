-- ===== src/Daemon/Signals.antt =====
-- src/daemon.cpp, `dispatch_signal_handler`: the signals while the server runs.
use swordfishd.Base.{
  killed, Bool, true, false, Option, none, some, List, [], ◌∷◌, Run, ok, err, aborted,
}
use swordfishd.Daemon.{
  Daemon, Stop, exit, config, Signal, sigterm, sigint, sigusr1, sigusr2, sigsegv, other,
}

-- What ends the event loop: a handler that stops it, one that throws, or a SIGSEGV that has its
-- default action.
pub data End : Type 0 where
  stops : Stop → End
  throws kills : End

-- The end that the first signal that matters makes, and whether SIGSEGV has its default action then.
abbrev pub first_end : Bool → List Signal → Bool × Option End
first_end segv [] = (segv, none)
first_end segv (sigterm ∷ xs) = (segv, some (stops exit))
first_end segv (sigint ∷ xs) = (segv, some (stops exit))
first_end segv (sigusr1 true ∷ xs) = (segv, some (stops (config true)))
first_end segv (sigusr1 false ∷ xs) = (segv, some throws)
first_end segv (sigusr2 ∷ xs) = first_end segv xs
first_end true (sigsegv resets ∷ xs) = (true, some kills)
first_end false (sigsegv true ∷ xs) = first_end true xs
first_end false (sigsegv false ∷ xs) = (false, some throws)
first_end segv (other ∷ xs) = first_end segv xs

-- How the event loop goes on from there, in a daemon with all its objects.
abbrev pub outcome : Daemon → Bool × Option End → Run (Daemon × Option Stop)
outcome d (segv, none) = ok (record d { segv_default = segv }, none)
outcome d (segv, some (stops exit)) = ok (record d { segv_default = segv; done = true }, some exit)
outcome d (segv, some (stops (config reloads))) =
    ok (record d { segv_default = segv }, some (config reloads))
outcome d (segv, some throws) = err aborted
outcome d (segv, some kills) = err killed
