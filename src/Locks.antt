-- ===== src/Locks.antt =====
-- include/dhashmap.hpp, `read_scoped_lock` and `write_scoped_lock`, with the sections of
-- src/dhashmap.cpp that they guard: threads that call `get`, `add` or `expirate`, `get_gets` and
-- `get_deleted` on one map, interleaved in any order. An access to a counter is one step.
pub mod Exclusion
pub mod Counting
pub mod Progress
pub mod Overlap
pub mod Reference
use swordfishd.Base.{
  ℕ, suc, ◌+◌, ◌<◌, ◌≡◌, Bool, true, false, Option, none, some, ◌==◌, if◌then◌else◌, uint_add,
}

-- `interprocess_upgradable_mutex`, as far as the two classes use it: `none` means that the call
-- blocks. No thread takes an exclusive lock, so a sharable lock is granted always, and an
-- upgradable one unless another thread has it.
pub record Mutex : Type 1 where
  pub State : Type 0
  pub free : State
  pub lock_sharable : State → Option State
  pub unlock_sharable : State → State
  pub lock_upgradable : State → Option State
  pub unlock_upgradable : State → State
  -- some thread has the upgradable lock
  pub upgradable : State → Bool
  pub free_lem : upgradable free ≡ false
  pub sharable_lem :
      (s : State) → (t : State) × (lock_sharable s ≡ some t) × (upgradable t ≡ upgradable s)
  pub unlock_sharable_lem : (s : State) → upgradable (unlock_sharable s) ≡ upgradable s
  pub granted :
      (s : State)
      → upgradable s ≡ false
      → (t : State) × (lock_upgradable s ≡ some t) × (upgradable t ≡ true)
  pub refused : (s : State) → upgradable s ≡ true → lock_upgradable s ≡ none
  pub unlock_upgradable_lem :
      (s : State) → upgradable s ≡ true → upgradable (unlock_upgradable s) ≡ false

-- The map's mutex and counters, and what an observer has counted: the increments of `gets_`, the
-- entries erased, and the counts that `get_gets` and `get_deleted` have returned.
pub record Shared (x : Mutex) : Type 0 where
  pub mutex : x.State
  pub gets : ℕ
  pub deleted : ℕ
  pub calls : ℕ
  pub erased : ℕ
  pub gets_told : ℕ
  pub deleted_told : ℕ

-- Where a thread stands, with the local variables that are live there.
pub data Place : Type 0 where
  idle : Place
  -- `get`: in `++gets_`, between its two locks, and under its read lock
  counting : Place
  loaded : (k : ℕ) → Place
  counted : Place
  between : Place
  reading : Place
  -- `get`: in `++updates_`, under both locks
  updating : Place
  -- about to give the read lock back
  leaving : Place
  -- in `add` or `expirate`
  writing : Place
  -- `get_gets`
  fetching : Place
  fetched : (k : ℕ) → Place
  emptied : Place
  -- `get_deleted`
  deleted_fetching : Place
  deleted_fetched : (k : ℕ) → Place

-- The thread has the lock of a `write_scoped_lock`.
abbrev pub holds : Place → Bool
holds counting = true
holds (loaded k) = true
holds counted = true
holds updating = true
holds writing = true
holds fetching = true
holds (fetched k) = true
holds emptied = true
holds _ = false

-- One step of one thread.
pub data Move {x : Mutex} (m : Shared x) : Place → Shared x → Place → Type 0 where
  count_begin :
      {u : x.State}
      → x.lock_upgradable m.mutex ≡ some u
      → Move m idle (record m { mutex = u }) counting
  count_load : Move m counting m (loaded m.gets)
  count_store :
      {k : ℕ}
      → Move m (loaded k) (record m { gets = uint_add k 1; calls = uint_add m.calls 1 }) counted
  count_end : Move m counted (record m { mutex = x.unlock_upgradable m.mutex }) between
  read_begin :
      {u : x.State}
      → x.lock_sharable m.mutex ≡ some u
      → Move m between (record m { mutex = u }) reading
  read_end : Move m reading m leaving
  update_begin :
      {u : x.State}
      → x.lock_upgradable m.mutex ≡ some u
      → Move m reading (record m { mutex = u }) updating
  update_end : Move m updating (record m { mutex = x.unlock_upgradable m.mutex }) leaving
  leave : Move m leaving (record m { mutex = x.unlock_sharable m.mutex }) idle
  write_begin :
      {u : x.State}
      → x.lock_upgradable m.mutex ≡ some u
      → Move m idle (record m { mutex = u }) writing
  erase :
      Move m writing
        (record m { deleted = uint_add m.deleted 1; erased = uint_add m.erased 1 })
        writing
  write_end : Move m writing (record m { mutex = x.unlock_upgradable m.mutex }) idle
  fetch_begin :
      {u : x.State}
      → x.lock_upgradable m.mutex ≡ some u
      → Move m idle (record m { mutex = u }) fetching
  fetch : Move m fetching m (fetched m.gets)
  fetch_reset :
      {k : ℕ}
      → Move m (fetched k) (record m { gets = 0; gets_told = uint_add m.gets_told k }) emptied
  fetch_end : Move m emptied (record m { mutex = x.unlock_upgradable m.mutex }) idle
  deleted_begin :
      {u : x.State}
      → x.lock_sharable m.mutex ≡ some u
      → Move m idle (record m { mutex = u }) deleted_fetching
  deleted_fetch : Move m deleted_fetching m (deleted_fetched m.deleted)
  deleted_reset :
      {k : ℕ}
      → Move m
          (deleted_fetched k)
          (record m { deleted = 0; deleted_told = uint_add m.deleted_told k })
          leaving

abbrev pub update : (ℕ → Place) → ℕ → Place → ℕ → Place
update f i p j = if i == j then p else f j

pub record Threads (x : Mutex) : Type 0 where
  pub shared : Shared x
  pub place : ℕ → Place

-- The thread `i` goes to `p`, and leaves `m`.
abbrev pub moved : {x : Mutex} → Threads x → ℕ → Shared x → Place → Threads x
moved s i m p = record { shared = m; place = update s.place i p }

-- A step of one of `n` threads.
pub data Turn {x : Mutex} (n : ℕ) (s : Threads x) : Threads x → Type 0 where
  turn :
      (i : ℕ) {m : Shared x} {p : Place}
      → i < n
      → Move s.shared (s.place i) m p
      → Turn n s (moved s i m p)

abbrev pub init : (x : Mutex) → Threads x
init x = record {
  shared = record {
    mutex = x.free;
    gets = 0;
    deleted = 0;
    calls = 0;
    erased = 0;
    gets_told = 0;
    deleted_told = 0;
  };
  place = λ i. idle;
}

pub data Reach {x : Mutex} (n : ℕ) : Threads x → Type 0 where
  start : Reach n (init x)
  next : {s t : Threads x} → Reach n s → Turn n s t → Reach n t
