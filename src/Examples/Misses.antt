-- ===== src/Examples/Misses.antt =====
-- The theorems on a key that a client misses and on a value that is added, at the storage with one key and an empty queue.
use swordfishd.Base.{
  ◌<◌, ◌+◌, ◌≡◌, refl, true, false, some, [], ◌∷◌, ◌++◌, arith, Bytes, codes, crlf, ok, err,
  undefined_behaviour, ◌⊎◌, str_eq, empty, to_uint,
}
use swordfishd.Command
use swordfishd.Command.{Command}
use swordfishd.Queue.{new_queue}
use swordfishd.Dhashmap.{normalize, get_storage_size}
use swordfishd.Index.{find_key}
use swordfishd.Dhashmap.InsertView.{updated}
use swordfishd.Dhashmap.Lookup.{view}
use swordfishd.Storage.{Storage, get_val, storage_size, add_item}
use swordfishd.Storage.Reply.{part}
use swordfishd.Filler.{Source, Round, Batch, fill_round}
use swordfishd.Filler.Delivery.{add_item_under_limit}
use swordfishd.Filler.Misses.{IsIdle}
use swordfishd.Dhashmap.Invariant.{IsValid}
use swordfishd.Dhashmap.Increment.{Breaks}
use swordfishd.Filler.Fills.{missed_is_filled}
use swordfishd.Examples.Data.{runtime, storage, stocked-IsValid, stocked-Balanced, formats}

abbrev roomy : Storage
roomy = record storage { queue = new_queue; max_storage_size = 100; max_queue_size = 5 }

roomy-IsIdle : IsIdle roomy
unfolding storage_size get_storage_size to_uint
roomy-IsIdle = record {
  valid = stocked-IsValid;
  no_keys = refl;
  has_space = omega arith;
  limit_fits = omega arith;
  takes_key = omega arith;
}

abbrev command : Command
command = record { args = codes "get" ∷ codes "n" ∷ [] }

abbrev library : Source
library = record {
  get_vals = λ ks vs. codes "new" ∷ [];
  is_filler_alive = some true;
  failed = false;
}

abbrev round : Round
round = record { source = library; clock = λ i. 8; alive = λ i. true }

abbrev no_batch : Batch
no_batch = record { keys = []; vals = [] }

missed_is_filled_example :
    (r : Storage) × (t : Storage) × (u : Storage) × (get_val runtime formats
        (λ i. (6, 7))
        command
        roomy
      ≡ ok (r, codes "END" ++ crlf))
    × (fill_round 1 runtime 1 round r no_batch
        ≡ some (ok (t, record { keys = []; vals = codes "new" ∷ [] })))
    × ((j : Bytes) → view t.storage j ≡ updated (view roomy.storage) (codes "n") (codes "new") j)
    × (get_val runtime formats (λ i. (9, 10)) command t
        ≡ ok (u, part formats (codes "n") (some (codes "new")) ++ codes "END" ++ crlf))
unfolding view Command.arguments find_key str_eq normalize empty
missed_is_filled_example =
    missed_is_filled runtime formats (λ i. (6, 7)) (λ i. (9, 10)) command command roomy (codes "n")
      (codes "n") (codes "new") 0 0 round no_batch roomy-IsIdle refl refl refl refl refl refl
      (λ i. refl) refl refl

-- The storage of 3 bytes is full.
add_item_under_limit_example :
    ((add_item 2 runtime storage (codes "n") (codes "xyz") 6 ≡ some (err undefined_behaviour))
      × Breaks runtime)
    ⊎ ((t : Storage) × (add_item 2 runtime storage (codes "n") (codes "xyz") 6 ≡ some (ok t))
        × IsValid t.storage
        × (t.storage.storage_size < 3 + (1 + 3)))
add_item_under_limit_example =
    add_item_under_limit 2 0 runtime storage (codes "n") (codes "xyz") 6 (omega arith) (omega arith)
      (omega arith) (omega arith) stocked-IsValid stocked-Balanced
