-- ===== src/Options.antt =====
-- src/swordfish.cpp: the options of the program. `getopt_long` is the C library's: what it gives
-- is a list of options with their arguments.
pub mod Last
use swordfishd.Base.{Bool, true, false, List, [], ◌∷◌, if◌then◌else◌, Bytes, empty}

-- What a call of `getopt_long` gives: `d`, `c` with its argument, or anything else.
pub data Given : Type 0 where
  daemon : Given
  config : (path : Bytes) → Given
  help : Given
  unknown : Given

-- `globalArgs_t`.
pub record GlobalArgs : Type 0 where
  pub filename : Bytes
  pub is_daemon : Bool

-- `init_global_args`, on the object that is empty at the start.
abbrev pub init_global_args : GlobalArgs
init_global_args = record { filename = []; is_daemon = false }

-- How the program goes on: it shows its usage and exits, or it runs the daemon.
pub data Outcome : Type 0 where
  shows_usage : Outcome
  runs : GlobalArgs → Outcome

-- The loop of `process_args`.
unfoldable pub process_args : List Given → GlobalArgs → Outcome
process_args [] args = runs args
process_args (daemon ∷ more) args = process_args more (record args { is_daemon = true })
process_args (config path ∷ more) args =
    let rest = process_args more (record args { filename = path }) in
    if empty path then shows_usage else rest
process_args (help ∷ more) args = shows_usage
process_args (unknown ∷ more) args = shows_usage

-- What `main` does behind `process_args`, up to the daemon.
abbrev pub start : Outcome → Outcome
start shows_usage = shows_usage
start (runs args) = if empty args.filename then shows_usage else runs args

-- `main`, up to the daemon.
unfoldable pub main : List Given → Outcome
main given = start (process_args given init_global_args)
