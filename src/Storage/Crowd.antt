-- ===== src/Storage/Crowd.antt =====
-- src/storage.cpp, `push_key`, as the threads of `Server::run` call it (src/server.cpp): the test of
-- the queue's size, the push and the store of the size are steps of their own.
use swordfishd.Base.{
  ℕ, zero, suc, ◌+◌, ◌<◌, ◌≤◌, ◌≡◌, refl, ◌∙◌, true, false, some, List, [], ◌∷◌, ltb, arith, length,
  length-set_elem, get_elem?, set_elem, Bytes, uint_limit, to_uint, ltb→lt, to_uint-exact,
}
use swordfishd.Dhashmap.{Dhashmap}
use swordfishd.Queue
use swordfishd.Queue.{Queue}
use swordfishd.Queue.Fifo.{IsValid, length-push, push-IsValid, wait_and_pop-IsValid}
use swordfishd.Stats
use swordfishd.Stats.{Stats}
use swordfishd.Storage.{Storage, queue_size, pop_key}

-- Where a thread stands: outside of `push_key`, behind its test, behind its push.
pub data Place : Type 0 where
  away : Place
  admitted : (key : Bytes) → Place
  pushed : (size : ℕ) → Place

-- A step of a thread.
pub data Move (s : Storage) : Place → Storage → Place → Type 0 where
  admits : (key : Bytes) → ltb (queue_size s) s.max_queue_size ≡ true → Move s away s (admitted key)
  turns_down : ltb (queue_size s) s.max_queue_size ≡ false → Move s away s away
  pushes :
      {key : Bytes}
      → Move s
          (admitted key)
          (record s { queue = (Queue.push s.queue key).0 })
          (pushed (Queue.push s.queue key).1)
  shows :
      {size : ℕ}
      → Move s (pushed size) (record s { stats = Stats.set_queue_size s.stats size }) away
  -- `pop_key`, by the filler
  pops : Move s away (pop_key s).0 away
  -- what the other operations do to the map and to the statistics
  works : (m : Dhashmap) (t : Stats) → Move s away (record s { storage = m; stats = t }) away

-- `n` threads outside of `push_key`.
unfoldable pub all_away : ℕ → List Place
all_away zero = []
all_away (suc n) = away ∷ all_away n

-- What the threads at `ps` can come to from the storage `s₀`.
pub data Comes (s₀ : Storage) (ps : List Place) : Storage → List Place → Type 0 where
  begins : Comes s₀ ps s₀ ps
  steps :
      {s s' : Storage} {qs : List Place} {p q : Place} (i : ℕ)
      → Comes s₀ ps s qs
      → get_elem? qs i ≡ some p
      → Move s p s' q
      → Comes s₀ ps s' (set_elem i q qs)

pub is_admitted : Place → ℕ
is_admitted (admitted key) = 1
is_admitted _ = 0

-- How many of them stand behind the test.
pub between : List Place → ℕ
unfolding is_admitted
between [] = 0
between (p ∷ ps) = is_admitted p + between ps

between-set_elem :
    (i : ℕ) {p : Place} (q : Place) (ps : List Place)
    → get_elem? ps i ≡ some p
    → between (set_elem i q ps) + is_admitted p ≡ between ps + is_admitted q
unfolding between
between-set_elem i q [] e = absurd (cc)
between-set_elem zero {p} q (x ∷ ps) e = let same : x ≡ p = cc in rw same (omega arith)
between-set_elem (suc i) q (x ∷ ps) e = omega (arith, between-set_elem i q ps e)

between-le : (ps : List Place) → between ps ≤ length ps
unfolding between is_admitted
between-le [] = omega arith
between-le (away ∷ ps) = omega (arith, between-le ps)
between-le (admitted key ∷ ps) = omega (arith, between-le ps)
between-le (pushed size ∷ ps) = omega (arith, between-le ps)

between-all_away : (n : ℕ) → between (all_away n) ≡ 0
unfolding between is_admitted all_away
between-all_away zero = refl
between-all_away (suc n) = omega (arith, between-all_away n)

length-all_away : (n : ℕ) → length (all_away n) ≡ n
unfolding all_away
length-all_away zero = refl
length-all_away (suc n) = omega (arith, length-all_away n)

length-wait_and_pop : (q : Queue) → length (Queue.wait_and_pop q).0.items ≤ length q.items
unfolding Queue.wait_and_pop
length-wait_and_pop q = ground arith

-- The state of `n` threads on a queue with a limit.
pub record Within (limit n : ℕ) (s : Storage) (ps : List Place) : Type 0 where
  pub limited : s.max_queue_size ≡ limit
  pub threads : length ps ≡ n
  pub bounded : length s.queue.items + between ps < limit + n
  pub valid : IsValid s.queue

-- A step after which no more keys are in the queue, or behind the test for it, than before.
fewer :
    {limit n : ℕ} (i : ℕ) {s : Storage} (s' : Storage) {p : Place} (q : Place) {ps : List Place}
    → get_elem? ps i ≡ some p
    → Within limit n s ps
    → s'.max_queue_size ≡ s.max_queue_size
    → length s'.queue.items + is_admitted q ≤ length s.queue.items + is_admitted p
    → IsValid s'.queue
    → Within limit n s' (set_elem i q ps)
fewer i s' q {ps} e w same less v = record {
  limited = same ∙ w.limited;
  threads = length-set_elem i q ps ∙ w.threads;
  bounded = omega (arith, w.bounded, between-set_elem i q ps e);
  valid = v;
}

Move-Within :
    (limit n i : ℕ) (s s' : Storage) (p q : Place) (ps : List Place)
    → limit + n ≤ uint_limit
    → get_elem? ps i ≡ some p
    → Within limit n s ps
    → Move s p s' q
    → Within limit n s' (set_elem i q ps)
unfolding is_admitted queue_size pop_key Queue.size
Move-Within limit n i s s' p q ps small e w (admits key room) =
    let change = between-set_elem i q ps e in
    let most = between-le (set_elem i q ps) in
    let same = length-set_elem i q ps in
    let before : to_uint (length s.queue.items) < s.max_queue_size = ltb→lt _ _ room in
    let exact = to_uint-exact (length s.queue.items) (omega (arith, w.bounded)) in
    record {
      limited = w.limited;
      threads = same ∙ w.threads;
      bounded = omega (arith, change, most, same, before, exact, w.limited, w.threads);
      valid = w.valid;
    }
Move-Within limit n i s s' p q ps small e w (turns_down full) =
    fewer i s' q e w refl (omega arith) w.valid
Move-Within limit n i s s' p q ps small e w (pushes {key}) =
    fewer i s' q e w refl (omega (arith, length-push s.queue key))
      (push-IsValid s.queue key w.valid)
Move-Within limit n i s s' p q ps small e w (shows {size}) =
    fewer i s' q e w refl (omega arith) w.valid
Move-Within limit n i s s' p q ps small e w pops =
    fewer i s' q e w refl (omega (arith, length-wait_and_pop s.queue))
      (wait_and_pop-IsValid s.queue w.valid)
Move-Within limit n i s s' p q ps small e w (works m t) =
    fewer i s' q e w refl (omega arith) w.valid

-- Where the limit of the queue and the `n` threads, one at least, add up to 2 ^ 32 at most, threads
-- that push, and a filler that pops, leave less than `n` keys too many in the queue, whenever one
-- looks: the limit and the threads but one, those included that a thread is about to push. The keys
-- stay distinct and the byte count exact modulo 2 ^ 64.
pub Comes-Within :
    {s₀ : Storage} {n : ℕ} {s : Storage} {ps : List Place}
    → s₀.max_queue_size + n ≤ uint_limit
    → 0 < n
    → length s₀.queue.items ≤ s₀.max_queue_size
    → IsValid s₀.queue
    → Comes s₀ (all_away n) s ps
    → Within s₀.max_queue_size n s ps
Comes-Within {s₀} {n} small some_thread fits v begins = record {
  limited = refl;
  threads = length-all_away n;
  bounded = omega (arith, between-all_away n);
  valid = v;
}
Comes-Within {s₀} {n} small some_thread fits v (steps {s} {s'} {qs} {p} {q} i c e mv) =
    Move-Within s₀.max_queue_size n i s s' p q qs small e (Comes-Within small some_thread fits v c)
      mv
