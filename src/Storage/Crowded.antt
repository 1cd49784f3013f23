-- ===== src/Storage/Crowded.antt =====
-- src/storage.cpp, `push_key`: what threads do that test the size of the queue before any has pushed.
use mathlib.Core.Path.{subst}
use swordfishd.Base.{
  ◌<◌, ◌≡◌, refl, sym, ◌∙◌, true, arith, List, [], ◌∷◌, ◌++◌, map, append-nil, append_assoc, ltb,
  lt→ltb, length, get_elem?-middle, set_elem-middle, Bytes, uint_limit, to_uint, to_uint-exact,
}
use swordfishd.Queue
use swordfishd.Queue.Fifo.{IsDistinct, fresh_key, push_items}
use swordfishd.Storage.{Storage, queue_size}
use swordfishd.Storage.Crowd.{Place, admitted, pushed, all_away, Move, Comes, begins, steps}

-- A step of the thread behind those of `front`.
steps_at :
    {s₀ s s' : Storage} {ps : List Place} (front back : List Place) {p q : Place}
    → Comes s₀ ps s (front ++ p ∷ back)
    → Move s p s' q
    → Comes s₀ ps s' ((front ++ q ∷ []) ++ back)
steps_at {s₀} {s} {s'} {ps} front back {p} {q} c mv =
    subst (Comes s₀ ps s') (set_elem-middle front p q back ∙ sym (append_assoc front (q ∷ []) back))
      (steps (length front) c (get_elem?-middle front p back) mv)

-- All threads pass the test, each with its key.
admit_all :
    {s₀ s : Storage} {ps : List Place} (front : List Place) (ks : List Bytes)
    → ltb (queue_size s) s.max_queue_size ≡ true
    → Comes s₀ ps s (front ++ all_away (length ks))
    → Comes s₀ ps s (front ++ map admitted ks)
unfolding all_away
admit_all front [] room c = c
admit_all {s₀} {s} {ps} front (k ∷ ks) room c =
    subst (Comes s₀ ps s) (append_assoc front (admitted k ∷ []) (map admitted ks)) (
      admit_all (front ++ admitted k ∷ []) ks room
        (steps_at front (all_away (length ks)) c (Move.admits k room)))

-- All of them push, none of which has its key in the queue yet.
push_all :
    {s₀ : Storage} {ps : List Place} (s : Storage) (front : List Place) (ks : List Bytes)
    → IsDistinct (s.queue.items ++ ks)
    → Comes s₀ ps s (front ++ map admitted ks)
    → (t : Storage) × (qs : List Place) × Comes s₀ ps t qs × (t.queue.items ≡ s.queue.items ++ ks)
push_all s front [] d c = (s, _, c, sym (append-nil s.queue.items))
push_all {s₀} {ps} s front (k ∷ ks) d c =
    let q = (Queue.push s.queue k).0 in
    let grown : q.items ≡ s.queue.items ++ k ∷ [] =
      push_items s.queue k ∙ rw (fresh_key s.queue.items k ks d) refl in
    let same : q.items ++ ks ≡ s.queue.items ++ k ∷ ks =
      rw grown (append_assoc s.queue.items (k ∷ []) ks) in
    let (t, qs, comes, all) =
      push_all (record s { queue = q }) (front ++ pushed (Queue.push s.queue k).1 ∷ []) ks
        (subst IsDistinct (sym same) d) (steps_at front (map admitted ks) c Move.pushes) in
    (t, qs, comes, all ∙ same)

-- The limit of the queue does not hold: where it is below 2 ^ 32 and has room for one more key,
-- threads with keys that are distinct, and not in the queue, can all push: each has tested the size
-- before any has pushed.
pub limit_exceeded :
    (s : Storage) (ks : List Bytes)
    → length s.queue.items < s.max_queue_size
    → s.max_queue_size < uint_limit
    → IsDistinct (s.queue.items ++ ks)
    → (t : Storage) × (qs : List Place) × Comes s (all_away (length ks)) t qs
      × (t.queue.items ≡ s.queue.items ++ ks)
unfolding queue_size Queue.size
limit_exceeded s ks room small d =
    let exact : to_uint (length s.queue.items) ≡ length s.queue.items =
      to_uint-exact (length s.queue.items) (omega (arith, room, small)) in
    let lets : ltb (queue_size s) s.max_queue_size ≡ true = lt→ltb _ _ (rw exact room) in
    push_all s [] ks d (admit_all [] ks lets begins)
