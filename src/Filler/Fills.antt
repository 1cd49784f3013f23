-- ===== src/Filler/Fills.antt =====
-- src/storage.cpp, `get_val`, and src/abstract_filler.cpp, `operator ()`, together: a key that a
-- client misses is filled.
use mathlib.Core.Path.{subst}
use swordfishd.Base.{
  ℕ, zero, suc, ◌<◌, ◌≡◌, refl, ap, ◌∙◌, inl, inr, Bool, true, false, none, some, List, [], ◌∷◌,
  ◌++◌, append-nil, arith, leb, ◌==◌, if◌then◌else◌, Bool-cases, Bytes, codes, crlf, str_eq,
  str_eq_refl, empty, size_sub, to_uint, size_limit, ok,
}
use swordfishd.Command
use swordfishd.Command.{Command}
use swordfishd.Queue
use swordfishd.Dhashmap
use swordfishd.Dhashmap.{Dhashmap, Runtime, Answer, normalize}
use swordfishd.Dhashmap.Invariant.{IsValid}
use swordfishd.Dhashmap.InsertNew.{add-IsValid}
use swordfishd.Dhashmap.InsertView.{is_lost, updated, add-view, add-hooks, is_lost-view}
use swordfishd.Dhashmap.Lookup.{view}
use swordfishd.Storage.{Storage, Formats, add_item, queue_size, pop_key, storage_size, get_val}
use swordfishd.Storage.Reply.{part, get_val-Replies}
use swordfishd.Filler.{
  Round, Batch, has_room, make_room, collect, deliver, answers, fill, fill_round,
}
use swordfishd.Filler.Misses.{IsIdle, Missed-space, get_val-Missed}

collect-none :
    (alive : ℕ → Bool) (limit n : ℕ) (s : Storage) (keys : List Bytes)
    → s.queue.items ≡ []
    → collect alive limit n s keys ≡ (s, keys)
unfolding collect queue_size Queue.size to_uint
collect-none alive limit zero s keys e = refl
collect-none alive limit (suc n) s keys e =
    let stops : (queue_size s == 0) ≡ true = ground (arith, e) in rw (stops) (ground arith)

pop_key-one :
    (s : Storage) (k : Bytes)
    → s.queue.items ≡ k ∷ []
    → ((pop_key s).0.queue.items ≡ []) × ((pop_key s).1 ≡ k) × ((queue_size s == 0) ≡ false)
unfolding pop_key Queue.wait_and_pop queue_size Queue.size to_uint
pop_key-one s k e = ground (arith, e)

-- A round takes the one key that waits, where there is room.
collect-one :
    (alive : ℕ → Bool) (n : ℕ) (s : Storage) (k : Bytes)
    → ((i : ℕ) → alive i ≡ true)
    → s.queue.items ≡ k ∷ []
    → empty k ≡ false
    → has_room s.max_storage_size s ≡ true
    → collect alive s.max_storage_size (suc n) s [] ≡ ((pop_key s).0, k ∷ [])
unfolding collect
collect-one alive n s k lives waits named room =
    let (left, first, some_there) = pop_key-one s k waits in
    let taken : (if empty (pop_key s).1 then [] else [] ++ (pop_key s).1 ∷ []) ≡ k ∷ [] =
      rw (first, named) in
    rw (lives n, some_there, room, taken)
      (collect-none alive s.max_storage_size n (pop_key s).0 (k ∷ []) left)

make_room-nothing :
    (rt : Runtime) (s : Storage)
    → storage_size s < s.max_storage_size
    → s.max_storage_size < size_limit
    → make_room rt s.max_storage_size s ≡ ok s
unfolding make_room size_sub
make_room-nothing rt s room fits =
    let some_left : (size_sub s.max_storage_size (storage_size s) == 0) ≡ false =
      ground (arith, room, fits) in
    rw (some_left)

-- An addition to a storage with room.
add_item-free :
    (fuel : ℕ) (rt : Runtime) (s : Storage) (key val : Bytes) (now : ℕ) (m : Dhashmap)
    → storage_size s < s.max_storage_size
    → Dhashmap.add rt s.storage key val now ≡ ok m
    → add_item (suc fuel) rt s key val now ≡ some (ok (record s { storage = m }))
unfolding add_item storage_size
add_item-free fuel rt s key val now m room run =
    let free : leb s.max_storage_size (Dhashmap.get_storage_size s.storage) ≡ false =
      ground (arith, room) in
    rw (free, run)

pop_key-keeps :
    (s : Storage)
    → ((pop_key s).0.storage ≡ s.storage) × ((pop_key s).0.max_storage_size ≡ s.max_storage_size)
unfolding pop_key
pop_key-keeps s = (refl, refl)

fill-one :
    (fuel : ℕ) (rt : Runtime) (o : Round) (vals : List Bytes) (s : Storage) (k v : Bytes)
    (t : Storage)
    → answers o.source ≡ true
    → o.source.get_vals (k ∷ []) vals ≡ v ∷ []
    → add_item fuel rt s k v (o.clock 0) ≡ some (ok t)
    → fill fuel rt o.clock o.source s (record { keys = k ∷ []; vals = vals })
      ≡ some (ok (t, record { keys = []; vals = v ∷ [] }))
unfolding fill deliver
fill-one fuel rt o vals s k v t answering value added =
    rw (answering, value, added) (ap (λ u. some (ok (t, record { keys = []; vals = u }))) value)

-- A round of the filler with one key, for which the library has a value.
fill_round-one :
    (fuel : ℕ) (rt : Runtime) (n : ℕ) (o : Round) (s : Storage) (b : Batch) (k v : Bytes)
    → b.keys ≡ []
    → ((i : ℕ) → o.alive i ≡ true)
    → answers o.source ≡ true
    → o.source.get_vals (k ∷ []) b.vals ≡ v ∷ []
    → s.queue.items ≡ k ∷ []
    → empty k ≡ false
    → storage_size s < s.max_storage_size
    → s.max_storage_size < size_limit
    → (m : Dhashmap) → Dhashmap.add rt s.storage k v (o.clock 0) ≡ ok m
    → fill_round (suc fuel) rt (suc n) o s b
      ≡ some (ok (record (pop_key s).0 { storage = m }, record { keys = []; vals = v ∷ [] }))
unfolding fill_round storage_size pop_key
fill_round-one fuel rt n o s b k v none_kept lives answering value waits named room fits m run =
    let has : has_room s.max_storage_size s ≡ true =
      unfold has_room size_sub in ground (arith, room, fits) in
    let (map, limit) = pop_key-keeps s in
    let added =
      add_item-free fuel rt (pop_key s).0 k v (o.clock 0) m (rw (map, limit) room) (rw map run) in
    let collected : collect o.alive s.max_storage_size (suc n) s b.keys ≡ ((pop_key s).0, k ∷ []) =
      rw none_kept (collect-one o.alive n s k lives waits named has) in
    rw (fill_round, make_room-nothing rt s room fits, collected)
      (fill-one (suc fuel) rt o b.vals (pop_key s).0 k v _ answering value added)

-- A `get` of one key that the map has.
get_val-value :
    (rt : Runtime) (fmt : Formats) (clock : ℕ → ℕ × ℕ) (cmd : Command) (s : Storage) (x v : Bytes)
    → IsValid s.storage
    → Command.arguments cmd ≡ x ∷ []
    → view s.storage (normalize s.storage.hooks x) ≡ some v
    → (u : Storage) × (get_val rt fmt clock cmd s
        ≡ ok (u, part fmt x (some v) ++ codes "END" ++ crlf))
get_val-value rt fmt clock cmd s x v valid one known =
    let (u, run, replies) = get_val-Replies rt fmt clock cmd s valid in
    let reply : u.1 ≡ part fmt x (some v) =
      replies.reply ∙ rw (one, known) (append-nil (part fmt x (some v))) in
    (u.0, rw (← reply) run)

-- The value of an unknown key is not lost.
add-unknown :
    (rt : Runtime) (m : Dhashmap) (key val : Bytes) (now : ℕ)
    → IsValid m
    → view m key ≡ none
    → (m' : Dhashmap) × (Dhashmap.add rt m key val now ≡ ok m')
      × ((j : Bytes) → view m' j ≡ updated (view m) key val j)
      × (m'.hooks ≡ m.hooks)
      × IsValid m'
add-unknown rt m key val now v absent =
    let (m', run, reads) = add-view rt m key val now v in
    let (n, again, valid) = add-IsValid rt m key val now v in
    let same : n ≡ m' = cc in
    (
      m',
      run,
      λ j. elim (Bool-cases (is_lost m key val)) [
        | inl lost ↦ absurd (is_lost-view m key val lost absent)
        | inr kept ↦ rw kept at (reads j)
      ],
      add-hooks rt m key val now run,
      subst IsValid same valid,
    )

-- On an idle storage a `get` of one key with no value answers with the end mark alone. Where the
-- normalized key is not empty, the filler keeps no keys of the rounds before and is not told to
-- end, and the library leaves one value for it in the vector of values, the next round of the filler
-- sets exactly this value, with no fuel but for one attempt, and keeps no key; and a `get` of any key
-- with the same normalized key then answers with the value.
pub missed_is_filled :
    (rt : Runtime) (fmt : Formats) (clock later : ℕ → ℕ × ℕ) (cmd next : Command) (s : Storage)
    (x y v : Bytes) (fuel n : ℕ) (o : Round) (b : Batch)
    → IsIdle s
    → Command.arguments cmd ≡ x ∷ []
    → Command.arguments next ≡ y ∷ []
    → normalize s.storage.hooks y ≡ normalize s.storage.hooks x
    → view s.storage (normalize s.storage.hooks x) ≡ none
    → empty (normalize s.storage.hooks x) ≡ false
    → b.keys ≡ []
    → ((i : ℕ) → o.alive i ≡ true)
    → answers o.source ≡ true
    → o.source.get_vals (normalize s.storage.hooks x ∷ []) b.vals ≡ v ∷ []
    → (r : Storage) × (t : Storage) × (u : Storage) × (get_val rt fmt clock cmd s
        ≡ ok (r, codes "END" ++ crlf))
      × (fill_round (suc fuel) rt (suc n) o r b
          ≡ some (ok (t, record { keys = []; vals = v ∷ [] })))
      × ((j : Bytes)
          → view t.storage j ≡ updated (view s.storage) (normalize s.storage.hooks x) v j)
      × (get_val rt fmt later next t ≡ ok (u, part fmt y (some v) ++ codes "END" ++ crlf))
missed_is_filled rt fmt clock later cmd next s x y v fuel n o b idle one another alike missing named
      none_kept lives answering value =
    let k = normalize s.storage.hooks x in
    let (r, run, missed) = get_val-Missed rt fmt clock cmd s x idle one missing in
    let (space, fits) = Missed-space s k r idle missed in
    let (m, added, reads, hooks, valid) =
      add-unknown rt r.0.storage k v (o.clock 0) missed.valid (missed.view_same k ∙ missing) in
    let t : Storage = record (pop_key r.0).0 { storage = m } in
    let reads_t : (j : Bytes) → view m j ≡ updated (view s.storage) k v j =
      λ j. reads j ∙ ap (λ o. if str_eq k j then some v else o) (missed.view_same j) in
    let known : view m (normalize m.hooks y) ≡ some v =
      rw (hooks, missed.hooks_same, alike) (reads_t k ∙ rw (str_eq_refl k)) in
    let (u, answered) = get_val-value rt fmt later next t y v valid another known in
    let filled =
      fill_round-one fuel rt n o r.0 b k v none_kept lives answering value missed.waits named space
        fits m added in
    (r.0, t, u, run, filled, reads_t, answered)
