-- ===== src/Stats.antt =====
-- include/stats.hpp and src/stats.cpp: the statistics and the reply that lists them. The time of a
-- reading of the clock is an argument; the text of a duration is boost's, a parameter.
pub mod Setters
use swordfishd.Base.{ℕ, ◌++◌, Bytes, codes, crlf, decimal, uint_add}
use Prim.Native.String.{String}

pub record Stats : Type 0 where
  pub start_time : ℕ
  pub storage_size : ℕ
  pub deleted : ℕ
  pub queue_size : ℕ
  pub gets : ℕ
  pub values_size : ℕ
  pub updates : ℕ

-- `reset`, and the constructor, which only calls it.
unfoldable pub reset : ℕ → Stats
reset now = record {
  start_time = now;
  storage_size = 0;
  deleted = 0;
  queue_size = 0;
  gets = 0;
  values_size = 0;
  updates = 0;
}

-- The setters. Those of counts add.
unfoldable pub set_start_time : Stats → ℕ → Stats
set_start_time s now = record s { start_time = now }

unfoldable pub set_storage_size : Stats → ℕ → Stats
set_storage_size s size = record s { storage_size = size }

unfoldable pub set_values_size : Stats → ℕ → Stats
set_values_size s size = record s { values_size = size }

unfoldable pub set_deleted : Stats → ℕ → Stats
set_deleted s count = record s { deleted = uint_add s.deleted count }

unfoldable pub set_queue_size : Stats → ℕ → Stats
set_queue_size s size = record s { queue_size = size }

unfoldable pub set_gets : Stats → ℕ → Stats
set_gets s count = record s { gets = uint_add s.gets count }

unfoldable pub set_updates : Stats → ℕ → Stats
set_updates s count = record s { updates = uint_add s.updates count }

abbrev stat_line : String → Bytes → Bytes
stat_line label value = codes "STAT " ++ codes label ++ value ++ crlf

-- The lines of `get`.
unfoldable pub stat_lines : (ℕ → ℕ → Bytes) → ℕ → Stats → Bytes
stat_lines show_uptime now s =
    stat_line "uptime " (show_uptime now s.start_time)
    ++ stat_line "storage_size " (decimal s.storage_size)
    ++ stat_line "deleted " (decimal s.deleted)
    ++ stat_line "gets_count " (decimal s.gets)
    ++ stat_line "updates_count " (decimal s.updates)
    ++ stat_line "queue_size " (decimal s.queue_size)
    ++ stat_line "values_size " (decimal s.values_size)

-- `get`: the text that it leaves in `result`.
unfoldable pub get : (ℕ → ℕ → Bytes) → ℕ → Stats → Bytes
get show_uptime now s = stat_lines show_uptime now s ++ (codes "END" ++ crlf)
