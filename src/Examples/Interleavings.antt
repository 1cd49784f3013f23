-- ===== src/Examples/Interleavings.antt =====
-- The theorems on the locks of the map and of the statistics, after some steps of two threads.
use swordfishd.Base.{ℕ, ◌<◌, ◌≡◌, ◌≢◌, ◌⊎◌, refl, Bool, true, some, arith, uint_add, [], ◌∷◌}
use swordfishd.Locks.{
  reading, writing, deleted_fetching, deleted_fetched, holds, Move, update, Threads, turn, init,
  Reach, start, next,
}
use swordfishd.Locks.Exclusion.{IsExclusive, Reach-IsExclusive}
use swordfishd.Locks.Counting.{IsKept, gets-IsKept}
use swordfishd.Locks.Progress.{CanMove, lock_progress}
use swordfishd.Locks.Overlap.{erased_lost, writer_meets_reader}
use swordfishd.Stats.Setters.{
  Object, outside, entered, read, written, Goes, Runs, starts, goes, stage, adds_deleted, apply_all,
  store, setters_in_turn,
}
use swordfishd.Examples.Data.{stats}
use swordfishd.Locks.Reference.{reference_mutex}

abbrev Bench : Type 0
Bench = Threads reference_mutex

abbrev fresh : Bench
fresh = init reference_mutex

-- Thread 0 has loaded the count of erased entries.
abbrev one_loaded : Bench
one_loaded = record {
  shared = fresh.shared;
  place = update (update fresh.place 0 deleted_fetching) 0 (deleted_fetched 0);
}

-- Then thread 1 begins to write.
abbrev both : Bench
both = record {
  shared = record fresh.shared { mutex = true };
  place = update one_loaded.place 1 writing;
}

one_loaded-Reach : Reach 2 one_loaded
one_loaded-Reach =
    next (next start (turn 0 (omega arith) (Move.deleted_begin refl)))
      (turn 0 (omega arith) Move.deleted_fetch)

both-Reach : Reach 2 both
both-Reach = next one_loaded-Reach (turn 1 (omega arith) (Move.write_begin refl))

Reach-IsExclusive_example : IsExclusive 2 both
Reach-IsExclusive_example = Reach-IsExclusive both-Reach

gets-IsKept_example : IsKept both.shared
gets-IsKept_example = gets-IsKept both-Reach

lock_progress_example :
    ((u : Bool) × (reference_mutex.lock_upgradable both.shared.mutex ≡ some u))
    ⊎ ((j : ℕ) × (j < 2)
        × (0 ≢ j)
        × (holds (both.place j) ≡ true)
        × CanMove both.shared (both.place j))
lock_progress_example = lock_progress both-Reach 0 refl

erased_lost_example :
    (t : Bench) × Reach 2 t × (uint_add t.shared.deleted t.shared.deleted_told ≢ t.shared.erased)
unfolding uint_add
erased_lost_example =
    erased_lost both 0 1 both-Reach (omega arith) (omega arith) refl refl (omega arith)

writer_meets_reader_example :
    (t : Bench) × Reach 2 t × (t.place 0 ≡ reading) × (t.place 1 ≡ writing)
writer_meets_reader_example =
    writer_meets_reader reference_mutex 2 0 1 (omega arith) (omega arith) (λ e. omega (arith, e))

-- Statistics that have counted 7 deletions, of which one thread stores the last 3.
abbrev counted : Object reference_mutex
counted = record { mutex = true; stats = record stats { deleted = 7 }; calls = adds_deleted 3 ∷ [] }

stored : Runs reference_mutex stats counted (
    stage
      (stage (stage (λ i. outside) 0 (entered (adds_deleted 3))) 0 (read (adds_deleted 3) stats))
      0
      written)
unfolding store uint_add
stored = goes 0 (goes 0 (goes 0 starts (Goes.enters (adds_deleted 3) refl)) Goes.reads) Goes.stores

setters_in_turn_example : counted.stats ≡ apply_all (adds_deleted 3 ∷ []) stats
setters_in_turn_example = setters_in_turn stored
