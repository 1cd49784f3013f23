-- ===== src/Config/Sizes.antt =====
-- src/cfg.cpp, `storage_size` and `storage_expirate_size`, with src/storage.cpp, `add_item`:
-- how the sizes of the settings fit each other.
use swordfishd.Base.{ℕ, ◌≤◌, ◌<◌, ◌≡◌, ◌↔◌, ◌∙◌, arith, none, Bytes, codes, to_uint, size_limit}
use swordfishd.Config.{Config, storage_size, storage_expirate_size}
use swordfishd.Dhashmap.{Runtime}
use swordfishd.Storage.{Storage, add_item}
use swordfishd.Storage.Room.{add_item_stuck}

-- The storage has the limits of the settings.
pub record HasLimits (cfg : Config) (s : Storage) : Type 0 where
  pub limit : s.max_storage_size ≡ storage_size cfg
  pub step : s.expirate_size ≡ storage_expirate_size cfg

-- Where the settings have no expiry size, an expiry frees at least one byte exactly for a storage
-- of at least 8 bytes.
pub expirate_size-positive_iff :
    (cfg : Config)
    → cfg.tree.word (codes "general.storage_expirate_size") ≡ none
    → (0 < storage_expirate_size cfg) ↔ (8 ≤ storage_size cfg)
unfolding storage_expirate_size
expirate_size-positive_iff cfg h = rw h (omega arith)

-- Where the settings have no expiry size and a storage size under 8 bytes, `add_item` on a full
-- storage with these limits, whose byte counter fits into 64 bits, does not return, whatever the
-- number of rounds.
pub small_storage_stuck :
    (cfg : Config) (rt : Runtime) (s : Storage) (key val : Bytes) (now fuel : ℕ)
    → cfg.tree.word (codes "general.storage_expirate_size") ≡ none
    → storage_size cfg < 8
    → HasLimits cfg s
    → storage_size cfg ≤ to_uint s.storage.storage_size
    → s.storage.storage_size < size_limit
    → add_item fuel rt s key val now ≡ none
unfolding storage_expirate_size
small_storage_stuck cfg rt s key val now fuel unset small limits full fits =
    add_item_stuck rt key val now fuel s (limits.step ∙ rw unset (omega arith))
      (rw limits.limit full) fits
