-- ===== src/Config.antt =====
-- include/cfg.hpp and src/cfg.cpp: the settings, read from an ini file. The property tree is
-- boost's: what it has under a path, converted to the type that is asked for, is a parameter.
pub mod Load
pub mod Sizes
use swordfishd.Base.{
  ℕ, ◌/◌, Bool, true, false, Option, none, some, Bytes, codes, str_eq, Run, ok, err, if◌then◌else◌,
}
use swordfishd.LogLevel.{LogLevel, text2level}

-- `get_optional` at three types: nothing where the path is missing or its text does not convert.
pub record PropertyTree : Type 0 where
  pub text : Bytes → Option Bytes
  pub word : Bytes → Option ℕ
  pub port_number : Bytes → Option ℕ

pub record Config : Type 0 where
  pub path : Bytes
  pub tree : PropertyTree

-- `get(path, default)`.
abbrev pub or_default {ℓ} : {A : Type ℓ} → Option A → A → A
or_default (some a) d = a
or_default none d = d

-- How loading can fail.
pub data ConfigFault : Type 0 where
  file_not_found : Bytes → ConfigFault
  ini_error : ConfigFault

-- What a file is: no file, text that is no ini file, or a tree.
pub data File : Type 0 where
  missing : File
  malformed : File
  ini : PropertyTree → File

-- `reload`: the object that it leaves, and the exception that it throws.
unfoldable pub reload : (Bytes → File) → Config → Config × Option ConfigFault
reload files cfg = elim (files cfg.path) [
  | missing ↦ (cfg, some (file_not_found cfg.path))
  | malformed ↦ (cfg, some ini_error)
  | ini t ↦ (record cfg { tree = t }, none)
]

-- `load`, and the constructor on a path, which starts from the empty tree.
unfoldable pub load : (Bytes → File) → Bytes → Config → Config × Option ConfigFault
unfolding reload
load files path cfg = reload files (record cfg { path = path })

unfoldable pub port : Config → ℕ
port cfg = or_default (cfg.tree.port_number (codes "general.port")) 9696

unfoldable pub workers : Config → ℕ
workers cfg = or_default (cfg.tree.word (codes "general.workers")) 3

-- `filler` throws where the path is missing.
unfoldable pub filler : Config → Option Bytes
filler cfg = cfg.tree.text (codes "general.filler")

unfoldable pub filler_function : Config → Bytes
filler_function cfg =
    or_default (cfg.tree.text (codes "general.filler_function")) (codes "get_values_from_outside")

unfoldable pub storage_size : Config → ℕ
storage_size cfg = or_default (cfg.tree.word (codes "general.storage_size")) 1000

unfoldable pub filler_queue_size : Config → ℕ
filler_queue_size cfg = or_default (cfg.tree.word (codes "general.filler_queue_size")) 1048576

unfoldable pub max_fill_size : Config → ℕ
max_fill_size cfg = or_default (cfg.tree.word (codes "general.max_fill_size")) 10

unfoldable pub storage_expirate_size : Config → ℕ
unfolding storage_size
storage_expirate_size cfg =
    or_default (cfg.tree.word (codes "general.storage_expirate_size")) (storage_size cfg / 8)

unfoldable pub storage_ttl : Config → ℕ
storage_ttl cfg = or_default (cfg.tree.word (codes "general.storage_ttl")) 10

unfoldable pub log_level : Config → LogLevel
log_level cfg = text2level (or_default (cfg.tree.text (codes "logging.log_level")) (codes "DEBUG"))

-- A switch is on where its text is "on".
abbrev is_on : Config → Bytes → Bool
is_on cfg path = str_eq (or_default (cfg.tree.text path) (codes "off")) (codes "on")

unfoldable pub is_log_file : Config → Bool
is_log_file cfg = is_on cfg (codes "logging.log_file")

unfoldable pub is_log_syslog : Config → Bool
is_log_syslog cfg = is_on cfg (codes "logging.log_syslog")

unfoldable pub is_log_stdout : Config → Bool
is_log_stdout cfg = is_on cfg (codes "logging.log_stdout")

unfoldable pub log_file_path : Config → Bytes
log_file_path cfg =
    or_default (cfg.tree.text (codes "logging.log_file_path")) (codes "swordfish.log")
