-- ===== src/Logger.antt =====
-- include/logger.hpp and src/logger.cpp: the sinks of the log and its filter, and `init_logger` of
-- src/daemon.cpp, which sets both up. The core and the sinks are the logging library's: the state
-- has what the code registers there, without the text formats.
pub mod Sinks
use swordfishd.Base.{
  ℕ, suc, ◌+◌, ◌-◌, Bool, true, false, ◌&&◌, Option, none, some, List, [], ◌∷◌, ◌++◌, leb,
  if◌then◌else◌, Bytes,
}
use swordfishd.LogLevel.{LogLevel, number}
use swordfishd.Config.{Config, is_log_file, is_log_syslog, is_log_stdout, log_file_path, log_level}

-- Where a text backend writes to.
pub data Stream : Type 0 where
  stdout : Stream
  file : (path : Bytes) → Stream

-- The four pointers of `privacy`, of which a sink is always on the backend beside it, the filter of
-- the core, and how many sinks of each kind are in the core.
pub record Logger : Type 0 where
  pub text_backend : Option (List Stream)
  pub syslog_backend : Bool
  pub text_sink : Bool
  pub syslog_sink : Bool
  pub filter : Option LogLevel
  pub core_text : ℕ
  pub core_syslog : ℕ

-- The state when the program starts.
abbrev pub new_logger : Logger
new_logger = record {
  text_backend = none;
  syslog_backend = false;
  text_sink = false;
  syslog_sink = false;
  filter = none;
  core_text = 0;
  core_syslog = 0;
}

-- `logger_set_severity_level`.
unfoldable pub set_severity_level : LogLevel → Logger → Logger
set_severity_level level l = record l { filter = some level }

-- `add_stream`, on a backend that is made where there is none.
abbrev pub add_stream : Stream → Option (List Stream) → Option (List Stream)
add_stream s none = some (s ∷ [])
add_stream s (some ss) = some (ss ++ s ∷ [])

-- `logger_file_sink_init`, given whether `check_file` can open the file.
unfoldable pub file_sink_init : Bool → Bytes → Logger → Logger × Bool
file_sink_init opens path l =
    if opens
    then (record l { text_backend = add_stream (file path) l.text_backend }, true)
    else (l, false)

-- `logger_syslog_sink_init`.
unfoldable pub syslog_sink_init : Logger → Logger
syslog_sink_init l = record l { syslog_backend = true }

-- `logger_stdout_sink_init`.
unfoldable pub stdout_sink_init : Logger → Logger
stdout_sink_init l = record l { text_backend = add_stream stdout l.text_backend }

-- `logger_backends_init_start`.
unfoldable pub backends_init_start : Logger → Logger
backends_init_start l =
    let l₁ =
      if l.text_sink
      then record l { core_text = l.core_text - 1; text_sink = false; text_backend = none }
      else l in
    if l₁.syslog_sink
    then record l₁ { core_syslog = l₁.core_syslog - 1; syslog_sink = false; syslog_backend = false }
    else l₁

abbrev is_set {ℓ} : {A : Type ℓ} → Option A → Bool
is_set none = false
is_set (some a) = true

-- `logger_backends_init_commit`.
unfoldable pub backends_init_commit : Logger → Logger
backends_init_commit l =
    let l₁ =
      if is_set l.text_backend
      then record l { text_sink = true; core_text = l.core_text + 1 }
      else l in
    if l₁.syslog_backend
    then record l₁ { syslog_sink = true; core_syslog = l₁.core_syslog + 1 }
    else l₁

-- `Daemon::init_logger`, with what it keeps in `fl`.
unfoldable pub init_logger : Config → Bool → Logger → Logger × Bool
init_logger cfg opens l =
    let l₁ = backends_init_start l in
    let l₂ = if is_log_syslog cfg then syslog_sink_init l₁ else l₁ in
    let l₃ = if is_log_stdout cfg then stdout_sink_init l₂ else l₂ in
    let r = if is_log_file cfg then file_sink_init opens (log_file_path cfg) l₃ else (l₃, false) in
    (backends_init_commit (set_severity_level (log_level cfg) r.0), r.1)

-- The filter that `logger_set_severity_level` sets, `Severity <= type`.
unfoldable pub passes : Logger → LogLevel → Bool
passes l level = elim l.filter [ none ↦ true | some bound ↦ leb (number level) (number bound) ]
