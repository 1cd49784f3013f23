-- ===== src/Locks/Overlap.antt =====
-- include/dhashmap.hpp and src/dhashmap.cpp: a `write_scoped_lock` beside a `read_scoped_lock`.
use mathlib.Core.Path.{subst}
use swordfishd.Base.{ℕ, ◌<◌, ◌≡◌, ◌≢◌, refl, sym, ap, ◌∙◌, false, arith, uint_add}
use swordfishd.Locks.{
  Mutex, Shared, Place, idle, reading, leaving, writing, deleted_fetched, Move, update, Threads,
  Turn, turn, Reach, start, next, init,
}
use swordfishd.Locks.Exclusion.{update_self, update_ne}

-- A thread steps from where it is known to stand.
go_from :
    {x : Mutex} {n : ℕ} (s : Threads x) (i : ℕ) {p q : Place} {m : Shared x}
    → i < n
    → s.place i ≡ p
    → Move s.shared p m q
    → Turn n s (record { shared = m; place = update s.place i q })
go_from s i {p} {q} {m} lt e mv = turn i lt (subst (λ r. Move s.shared r m q) (sym e) mv)

-- A thread under the read lock of `get` keeps no writer out: where no thread has the lock of a
-- `write_scoped_lock`, an idle thread can begin `add` or `expirate` while the reader stays.
pub writer_beside_reader :
    {x : Mutex} {n : ℕ} (s : Threads x) (i j : ℕ)
    → j < n
    → s.place i ≡ reading
    → s.place j ≡ idle
    → x.upgradable s.shared.mutex ≡ false
    → (t : Threads x) × Turn n s t × (t.place i ≡ reading) × (t.place j ≡ writing)
writer_beside_reader {x} s i j below reads rests open_now =
    let (u, granted, now) = x.granted s.shared.mutex open_now in
    let apart : j ≢ i = λ same. cc (ap s.place same) in
    (
      record { shared = record s.shared { mutex = u }; place = update s.place j writing },
      go_from s j below rests (Move.write_begin granted),
      update_ne s.place j i writing apart ∙ reads,
      update_self s.place j writing,
    )

-- A step of the thread `i`, which stands at `p`.
record At {x : Mutex} (n i : ℕ) (g : ℕ → Place) (m : Shared x) (p : Place) : Type 0 where
  threads : Threads x
  reached : Reach n threads
  same : threads.shared ≡ m
  stands : threads.place i ≡ p
  others : (k : ℕ) → k ≢ i → threads.place k ≡ g k

steps :
    {x : Mutex} {n i : ℕ} {g : ℕ → Place} {m m' : Shared x} {p q : Place}
    → i < n
    → At n i g m p
    → Move m p m' q
    → At n i g m' q
steps {x} {n} {i} {g} {m} {m'} {p} {q} lt s mv =
    let t = s.threads in
    let mv' : Move t.shared p m' q = subst (λ r. Move r p m' q) (sym s.same) mv in
    record {
      threads = record { shared = m'; place = update t.place i q };
      reached = next s.reached (go_from t i lt s.stands mv');
      same = refl;
      stands = update_self t.place i q;
      others = λ k ne. update_ne t.place i k q (λ e. ne (sym e)) ∙ s.others k ne;
    }

-- Whatever the mutex, of two threads or more any one can come to read the map, in `get`, while any
-- other is in the middle of `add` or `expirate`.
pub writer_meets_reader :
    (x : Mutex) (n i j : ℕ)
    → i < n
    → j < n
    → i ≢ j
    → (t : Threads x) × Reach n t × (t.place i ≡ reading) × (t.place j ≡ writing)
writer_meets_reader x n i j lt below apart =
    let (u, granted, taken) = x.granted x.free x.free_lem in
    let back : x.upgradable (x.unlock_upgradable u) ≡ false = x.unlock_upgradable_lem u taken in
    let (v, shared, same) = x.sharable_lem (x.unlock_upgradable u) in
    let begun : At n i (λ k. idle) (init x).shared idle = record {
      threads = init x;
      reached = start;
      same = refl;
      stands = refl;
      others = λ k ne. refl;
    } in
    let counts = steps lt (steps lt begun (Move.count_begin granted)) Move.count_load in
    let counted_all = steps lt (steps lt counts Move.count_store) Move.count_end in
    let reads = steps lt counted_all (Move.read_begin shared) in
    let s = reads.threads in
    let open_now : x.upgradable s.shared.mutex ≡ false = rw (reads.same) (same ∙ back) in
    let (t, turned, still, writes) =
      writer_beside_reader s i j below reads.stands (reads.others j (λ e. apart (sym e)))
        open_now in
    (t, next reads.reached turned, still, writes)

-- `get_deleted` resets its counter under a read lock: where one thread is between its load and
-- its store and another erases, an erased entry gets lost, in the counter and in what
-- `get_deleted` has returned.
pub erased_lost :
    {x : Mutex} {n : ℕ} (s : Threads x) (i j : ℕ)
    → Reach n s
    → i < n
    → j < n
    → s.place i ≡ deleted_fetched s.shared.deleted
    → s.place j ≡ writing
    → uint_add s.shared.deleted s.shared.deleted_told ≡ s.shared.erased
    → (t : Threads x) × Reach n t
      × (uint_add t.shared.deleted t.shared.deleted_told ≢ t.shared.erased)
unfolding uint_add
erased_lost {x} {n} s i j r lt below loads writes kept =
    let k = s.shared.deleted in
    let m : Shared x = record s.shared {
      deleted = uint_add k 1;
      erased = uint_add s.shared.erased 1;
    } in
    let t : Threads x = record { shared = m; place = update s.place j writing } in
    let apart : j ≢ i = λ same. cc (ap s.place same) in
    let stays : t.place i ≡ deleted_fetched k = update_ne s.place j i writing apart ∙ loads in
    (
      record {
        shared = record m { deleted = 0; deleted_told = uint_add m.deleted_told k };
        place = update t.place i leaving;
      },
      next (next r (go_from s j below writes Move.erase)) (go_from t i lt stays Move.deleted_reset),
      λ same. omega (arith, same, kept),
    )
