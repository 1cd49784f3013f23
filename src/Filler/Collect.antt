-- ===== src/Filler/Collect.antt =====
-- src/abstract_filler.cpp, `operator ()`: its loop that takes keys, and its test for room.
use swordfishd.Base.{
  ℕ, zero, suc, ◌≤◌, ◌<◌, ◌≡◌, ◌≢◌, ◌↔◌, refl, sym, ap, ◌∙◌, inl, inr, Bool, true, false, not, ◌&&◌,
  List, [], ◌∷◌, ◌++◌, append-nil, append_assoc, arith, ◌==◌, if◌then◌else◌, Bool-cases, length,
  Bytes, empty, size_sub, to_uint, size_limit,
}
use swordfishd.Queue
use swordfishd.Queue.{Queue}
use swordfishd.Dhashmap.{get_storage_size}
use swordfishd.Storage.{Storage, queue_size, pop_key, storage_size}
use swordfishd.Filler.{has_room, collect}

-- The keys that are not empty.
unfoldable pub filled : List Bytes → List Bytes
filled [] = []
filled (x ∷ xs) = let rest = filled xs in if empty x then rest else x ∷ rest

-- What the loop has done with the queue of `s`, with at most `t` keys, from the keys `keys`.
pub record Collected (t : ℕ) (s : Storage) (keys : List Bytes) (r : Storage × List Bytes)
    : Type 0 where
  pub taken : List Bytes
  pub from_front : s.queue.items ≡ taken ++ r.0.queue.items
  pub at_most : length taken ≤ t
  pub kept : r.1 ≡ keys ++ filled taken
  pub map_same : r.0.storage ≡ s.storage
  pub limits_same :
      (r.0.max_storage_size ≡ s.max_storage_size) × (r.0.expirate_size ≡ s.expirate_size)

nothing_taken : (t : ℕ) (s : Storage) (keys : List Bytes) → Collected t s keys (s, keys)
unfolding filled
nothing_taken t s keys = record {
  taken = [];
  from_front = refl;
  at_most = omega arith;
  kept = sym (append-nil keys);
  map_same = refl;
  limits_same = (refl, refl);
}

-- A key leaves the queue's front.
pop_key-front :
    (s : Storage) (x : Bytes) (xs : List Bytes)
    → s.queue.items ≡ x ∷ xs
    → ((pop_key s).0.queue.items ≡ xs) × ((pop_key s).1 ≡ x) × ((pop_key s).0.storage ≡ s.storage)
unfolding pop_key Queue.wait_and_pop
pop_key-front s x xs h = rw h (refl, refl, refl)

pop_key-limits :
    (s : Storage)
    → ((pop_key s).0.max_storage_size ≡ s.max_storage_size)
      × ((pop_key s).0.expirate_size ≡ s.expirate_size)
unfolding pop_key
pop_key-limits s = (refl, refl)

-- A queue with no key has size 0.
items_of_size :
    (s : Storage) (xs : List Bytes)
    → s.queue.items ≡ xs
    → (queue_size s == 0) ≡ false
    → (x : Bytes) × (ys : List Bytes) × (s.queue.items ≡ x ∷ ys)
unfolding queue_size Queue.size to_uint
items_of_size s [] h k = absurd (ground (arith, h))
items_of_size s (x ∷ xs) h k = (x, xs, h)

-- One key, and then those that the rest of the loop takes.
taken_one :
    (t : ℕ) (s : Storage) (keys : List Bytes) (x : Bytes) (xs : List Bytes)
    → s.queue.items ≡ x ∷ xs
    → (r : Storage × List Bytes)
    → Collected t (pop_key s).0 (if empty (pop_key s).1 then keys else keys ++ (pop_key s).1 ∷ []) r
    → Collected (suc t) s keys r
unfolding filled
taken_one t s keys x xs shape r c =
    let (left, first, same) = pop_key-front s x xs shape in
    record {
      taken = x ∷ c.taken;
      from_front = shape ∙ ap (◌∷◌ x) (sym left ∙ c.from_front);
      at_most = omega (arith, c.at_most);
      kept = c.kept ∙ rw first (appended x c.taken);
      map_same = c.map_same ∙ same;
      limits_same =
          (c.limits_same.0 ∙ (pop_key-limits s).0, c.limits_same.1 ∙ (pop_key-limits s).1);
    }
  where
    appended :
        (x : Bytes) (ts : List Bytes)
        → (if empty x then keys else keys ++ x ∷ []) ++ filled ts
          ≡ keys ++ (if empty x then filled ts else x ∷ filled ts)
    appended x ts = elim (Bool-cases (empty x)) [ inl e ↦ rw e | inr e ↦ rw (e, append_assoc) ]

-- The loop takes at most `t` keys, from the front of the queue and in its order. It appends those
-- that are not empty to the keys it had, and it changes neither the map nor the limits.
pub collect-Collected :
    (alive : ℕ → Bool) (k t : ℕ) (s : Storage) (keys : List Bytes)
    → Collected t s keys (collect alive k t s keys)
unfolding collect
collect-Collected alive k zero s keys = nothing_taken zero s keys
collect-Collected alive k (suc t) s keys =
    let go = alive t && (not (queue_size s == 0) && has_room k s) in
    elim (Bool-cases go) [
      | inr stop ↦ rw stop (nothing_taken (suc t) s keys)
      | inl more ↦
          let waiting : (queue_size s == 0) ≡ false = ground arith in
          let (x, xs, shape) = items_of_size s s.queue.items refl waiting in
          let next : Storage = (pop_key s).0 in
          let found : List Bytes =
            if empty (pop_key s).1 then keys else keys ++ (pop_key s).1 ∷ [] in
          rw more (
            taken_one t s keys x xs shape (collect alive k t next found)
              (collect-Collected alive k t next found))
    ]

-- For a limit of 64 bits, the filler's test for room holds exactly when the size differs from the
-- limit: an overfull storage has room too.
pub has_room_iff :
    (k : ℕ) (s : Storage) → k < size_limit → (has_room k s ≡ true) ↔ (k ≢ storage_size s)
unfolding has_room storage_size get_storage_size to_uint size_sub
has_room_iff k s h = ground arith
