-- ===== src/Logger/Sinks.antt =====
-- src/logger.cpp and src/daemon.cpp, `init_logger`: which sinks a record of the log reaches.
use swordfishd.Base.{
  ℕ, ◌≡◌, Bool, true, false, ◌&&◌, Option, none, some, List, [], ◌∷◌, ◌++◌, leb, arith,
  if◌then◌else◌, Bytes,
}
use swordfishd.LogLevel.{LogLevel, number}
use swordfishd.Config.{Config, is_log_file, is_log_syslog, is_log_stdout, log_file_path, log_level}
use swordfishd.Logger.{
  Stream, stdout, file, Logger, new_logger, set_severity_level, file_sink_init, syslog_sink_init,
  stdout_sink_init, backends_init_start, backends_init_commit, init_logger, passes, is_set,
}

abbrev pub one_if : Bool → ℕ
one_if true = 1
one_if false = 0

-- Every sink in the core is one that a pointer knows, and every backend has its sink.
pub record IsTidy (l : Logger) : Type 0 where
  pub text_known : l.core_text ≡ one_if l.text_sink
  pub syslog_known : l.core_syslog ≡ one_if l.syslog_sink
  pub text_used : l.text_sink ≡ is_set l.text_backend
  pub syslog_used : l.syslog_sink ≡ l.syslog_backend

-- The streams that the settings ask for, of which a file that does not open is left out.
abbrev pub wanted : Config → Bool → List Stream
wanted cfg opens =
    (if is_log_stdout cfg then stdout ∷ [] else [])
    ++ (if is_log_file cfg && opens then file (log_file_path cfg) ∷ [] else [])

abbrev pub streams : Option (List Stream) → List Stream
streams none = []
streams (some ss) = ss

-- What the settings ask for is what the log has.
pub record Follows (cfg : Config) (opens : Bool) (l : Logger) : Type 0 where
  pub tidy : IsTidy l
  pub text_is : streams l.text_backend ≡ wanted cfg opens
  pub syslog_is : l.syslog_sink ≡ is_log_syslog cfg
  pub filter_is : (level : LogLevel) → passes l level ≡ leb (number level) (number (log_level cfg))

-- `backends_init_start` on a tidy log leaves the log of the start, but for its filter.
start-tidy :
    (l : Logger) → IsTidy l → backends_init_start l ≡ record new_logger { filter = l.filter }
unfolding backends_init_start
start-tidy l t = ground arith

-- What `init_logger` does behind `backends_init_start`, as a function of what it reads.
build : (syslog out to_file opens : Bool) → Bytes → LogLevel → Logger → Logger × Bool
build syslog out to_file opens path bound l₁ =
    let l₂ = if syslog then syslog_sink_init l₁ else l₁ in
    let l₃ = if out then stdout_sink_init l₂ else l₂ in
    let r = if to_file then file_sink_init opens path l₃ else (l₃, false) in
    (backends_init_commit (set_severity_level bound r.0), r.1)

record Built (syslog out to_file opens : Bool) (path : Bytes) (bound : LogLevel) (r : Logger × Bool)
    : Type 0 where
  tidy : IsTidy r.0
  text_is :
      streams r.0.text_backend
      ≡ (if out then stdout ∷ [] else []) ++ (if to_file && opens then file path ∷ [] else [])
  syslog_is : r.0.syslog_sink ≡ syslog
  filter_is : (level : LogLevel) → passes r.0 level ≡ leb (number level) (number bound)
  opened_is : r.1 ≡ (to_file && opens)

build-Built :
    (syslog out to_file opens : Bool) (path : Bytes) (bound : LogLevel) (f : Option LogLevel)
    → Built syslog out to_file opens path bound
        (build syslog out to_file opens path bound (record new_logger { filter = f }))
unfolding build backends_init_commit set_severity_level file_sink_init stdout_sink_init
    syslog_sink_init passes
build-Built syslog out to_file opens path bound f = record {
  tidy = record {
    text_known = ground arith;
    syslog_known = ground arith;
    text_used = ground arith;
    syslog_used = ground arith;
  };
  text_is = ground arith;
  syslog_is = ground arith;
  filter_is = λ level. ground arith;
  opened_is = ground arith;
}

-- `init_logger` on a tidy log, as it is when the program starts and at every restart, leaves no
-- sink of the settings before: the log is tidy, writes to exactly the streams and the syslog that
-- the settings ask for, each once, and passes exactly the records up to the level of the
-- settings. It tells whether a file was asked for and opened.
pub init_logger-Follows :
    (cfg : Config) (opens : Bool) (l : Logger)
    → IsTidy l
    → Follows cfg opens (init_logger cfg opens l).0
      × ((init_logger cfg opens l).1 ≡ (is_log_file cfg && opens))
unfolding init_logger
init_logger-Follows cfg opens l t =
    let b =
      build-Built (is_log_syslog cfg) (is_log_stdout cfg) (is_log_file cfg) opens
        (log_file_path cfg) (log_level cfg) l.filter in
    rw (start-tidy l t) (
      unfold build in
      (
        record {
          tidy = b.tidy;
          text_is = b.text_is;
          syslog_is = b.syslog_is;
          filter_is = b.filter_is;
        },
        b.opened_is,
      ))
