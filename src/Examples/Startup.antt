-- ===== src/Examples/Startup.antt =====
-- The theorems on the start of the program, at concrete inputs.
use swordfishd.Base.{
  length, ltb, ◌≡◌, ◌↔◌, refl, ◌&&◌, true, false, none, List, [], ◌∷◌, All, codes, str_eq, empty,
  if◌then◌else◌,
}
use mathlib.Core.Option.{some}
use swordfishd.Daemon.Process.{
  Process, Became, exited, family, going_on, IsDetached, family-IsDetached,
}
use swordfishd.Config.{Config, PropertyTree, is_log_file}
use swordfishd.Logger.{new_logger, init_logger}
use swordfishd.Logger.Sinks.{IsTidy, Follows, init_logger-Follows}
use swordfishd.Options.{Given, daemon, config, GlobalArgs, main, runs}
use swordfishd.Options.Last.{IsAccepted, last_path, has_daemon, main_iff}

-- The log goes to a file.
abbrev tree : PropertyTree
tree = record {
  text = λ p. if str_eq p (codes "log.file.path") then some (codes "a.log") else none;
  word = λ p. none;
  port_number = λ p. none;
}

abbrev settings : Config
settings = record { path = codes "a"; tree = tree }

new_logger-IsTidy : IsTidy new_logger
new_logger-IsTidy = record {
  text_known = refl;
  syslog_known = refl;
  text_used = refl;
  syslog_used = refl;
}

init_logger-Follows_example :
    Follows settings true (init_logger settings true new_logger).0
    × ((init_logger settings true new_logger).1 ≡ (is_log_file settings && true))
init_logger-Follows_example = init_logger-Follows settings true new_logger new_logger-IsTidy

-- `--config a --daemon --config b`.
abbrev options : List Given
options = config (codes "a") ∷ daemon ∷ config (codes "b") ∷ []

abbrev chosen : GlobalArgs
chosen = record { filename = codes "b"; is_daemon = true }

main_iff_example : (main options ≡ runs chosen) ↔ (
    All IsAccepted options
    × (empty (last_path [] options) ≡ false)
    × (chosen.filename ≡ last_path [] options)
    × (chosen.is_daemon ≡ has_daemon options))
main_iff_example = main_iff options chosen

-- A process in a terminal's session with five open descriptors, and a kernel with eight.
abbrev shell_child : Process
shell_child = record {
  terminal = true;
  leads = false;
  in_root = false;
  umask = 18;
  descriptors = λ n. ltb n 5;
}

family-IsDetached_example :
    ((rest : List Became) × (family true true shell_child ≡ exited 0 ∷ rest))
    × All (IsDetached shell_child) (going_on (family true true shell_child))
    × (length (going_on (family true true shell_child)) ≡ 1)
family-IsDetached_example = family-IsDetached true true shell_child
