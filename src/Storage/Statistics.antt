-- ===== src/Storage/Statistics.antt =====
-- src/storage.cpp, `refresh_stats` and `reset_stats`: where the counts go.
use swordfishd.Base.{ℕ, ◌<◌, ◌≡◌, refl, arith, uint_add, uint_limit, to_uint, length}
use swordfishd.Dhashmap.{get_storage_size, get_values_size, get_deleted, get_gets, get_updates}
use swordfishd.Queue
use swordfishd.Stats
use swordfishd.Stats.{Stats}
use swordfishd.Storage.{Storage, refresh_stats, reset_stats}

-- The erased entries, the look-ups and the updates that the map and the statistics count together.
abbrev pub all_deleted : Storage → ℕ
all_deleted s = uint_add s.stats.deleted s.storage.deleted

abbrev pub all_gets : Storage → ℕ
all_gets s = uint_add s.stats.gets s.storage.gets

abbrev pub all_updates : Storage → ℕ
all_updates s = uint_add s.stats.updates s.storage.updates

-- What the statistics of `t` show of the storage `s` at the time of a refresh.
pub record Shows (s : Storage) (t : Stats) : Type 0 where
  pub storage_size_is : t.storage_size ≡ to_uint s.storage.storage_size
  pub values_size_is : t.values_size ≡ to_uint (length s.storage.values)
  pub queue_size_is : t.queue_size ≡ to_uint (length s.queue.items)
  pub deleted_is : t.deleted ≡ all_deleted s
  pub gets_is : t.gets ≡ all_gets s
  pub updates_is : t.updates ≡ all_updates s

-- A refresh shows the sizes of the moment and the counts that the map and the statistics had
-- together. It keeps the sum of each of the three counts, the entries, the values and the queue.
pub refresh_stats-Shows :
    (s : Storage)
    → Shows s (refresh_stats s).stats
      × (all_deleted (refresh_stats s) ≡ all_deleted s)
      × (all_gets (refresh_stats s) ≡ all_gets s)
      × (all_updates (refresh_stats s) ≡ all_updates s)
      × ((refresh_stats s).storage.keys ≡ s.storage.keys)
      × ((refresh_stats s).storage.values ≡ s.storage.values)
      × ((refresh_stats s).queue ≡ s.queue)
unfolding refresh_stats get_storage_size get_values_size get_deleted get_gets get_updates Queue.size
    Stats.set_storage_size Stats.set_deleted Stats.set_queue_size Stats.set_gets
    Stats.set_values_size Stats.set_updates uint_add
refresh_stats-Shows s = (
  record {
    storage_size_is = refl;
    values_size_is = refl;
    queue_size_is = refl;
    deleted_is = refl;
    gets_is = refl;
    updates_is = refl;
  },
  omega arith,
  omega arith,
  omega arith,
  refl,
  refl,
  refl,
)

-- `reset_stats` sets the time and the three sizes. For counts that fit into 32 bits it keeps the
-- counts of erased entries, look-ups and updates, since it adds 0 to two of them and leaves the
-- third alone.
pub reset_stats_keeps_counts :
    (s : Storage) (now : ℕ)
    → s.stats.deleted < uint_limit
    → s.stats.gets < uint_limit
    → ((reset_stats s now).stats.deleted ≡ s.stats.deleted)
      × ((reset_stats s now).stats.gets ≡ s.stats.gets)
      × ((reset_stats s now).stats.updates ≡ s.stats.updates)
      × ((reset_stats s now).stats.start_time ≡ now)
      × ((reset_stats s now).stats.storage_size ≡ to_uint s.storage.storage_size)
      × ((reset_stats s now).stats.values_size ≡ to_uint (length s.storage.values))
      × ((reset_stats s now).stats.queue_size ≡ to_uint (length s.queue.items))
unfolding reset_stats get_storage_size get_values_size Queue.size Stats.set_storage_size
    Stats.set_deleted Stats.set_queue_size Stats.set_gets Stats.set_values_size Stats.set_start_time
    uint_add
reset_stats_keeps_counts s now h k = (omega arith, omega arith, refl, refl, refl, refl, refl)
