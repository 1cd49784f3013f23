-- ===== src/Locks/Progress.antt =====
-- src/dhashmap.cpp: `get` takes the lock of a `write_scoped_lock` while it has that of a
-- `read_scoped_lock`, and the threads get on all the same.
use swordfishd.Base.{ℕ, ◌<◌, ◌≡◌, ◌≢◌, ap, ◌⊎◌, inl, inr, true, false, some, Bool-cases}
use swordfishd.Locks.{
  Mutex, Shared, Place, idle, counting, loaded, counted, between, reading, updating, leaving,
  writing, fetching, fetched, emptied, deleted_fetching, deleted_fetched, holds, Move, Threads,
  Reach,
}
use swordfishd.Locks.Exclusion.{Reach-IsExclusive}

-- A thread can make a step.
abbrev pub CanMove : {x : Mutex} → Shared x → Place → Type 0
CanMove {x} m p = (m' : Shared x) × (q : Place) × Move m p m' q

-- A thread that holds the lock waits for nothing.
holder-CanMove : {x : Mutex} (m : Shared x) (p : Place) → holds p ≡ true → CanMove m p
holder-CanMove m counting h = (_, _, Move.count_load)
holder-CanMove m (loaded k) h = (_, _, Move.count_store)
holder-CanMove m counted h = (_, _, Move.count_end)
holder-CanMove m updating h = (_, _, Move.update_end)
holder-CanMove m writing h = (_, _, Move.write_end)
holder-CanMove m fetching h = (_, _, Move.fetch)
holder-CanMove m (fetched k) h = (_, _, Move.fetch_reset)
holder-CanMove m emptied h = (_, _, Move.fetch_end)
holder-CanMove m idle h = absurd (cc)
holder-CanMove m between h = absurd (cc)
holder-CanMove m reading h = absurd (cc)
holder-CanMove m leaving h = absurd (cc)
holder-CanMove m deleted_fetching h = absurd (cc)
holder-CanMove m (deleted_fetched k) h = absurd (cc)

-- No deadlock: in every state that the threads can reach, a thread that asks for the lock of a
-- `write_scoped_lock`, also under the read lock of `get`, has it granted, or another thread holds
-- that lock and can make its next step.
pub lock_progress :
    {x : Mutex} {n : ℕ} {s : Threads x}
    → Reach n s
    → (i : ℕ) → holds (s.place i) ≡ false
    → ((u : x.State) × (x.lock_upgradable s.shared.mutex ≡ some u))
      ⊎ ((j : ℕ) × (j < n) × (i ≢ j) × (holds (s.place j) ≡ true) × CanMove s.shared (s.place j))
lock_progress {x} {n} {s} r i h = elim (Bool-cases (x.upgradable s.shared.mutex)) [
  | inr open_now ↦ let g = x.granted s.shared.mutex open_now in inl (g.0, g.1)
  | inl taken ↦
      let (j, below, had) = (Reach-IsExclusive r).covered taken in
      inr (
        j,
        below,
        (λ same. cc (ap (λ (k : ℕ). holds (s.place k)) same)),
        had,
        holder-CanMove s.shared (s.place j) had,
      )
]
