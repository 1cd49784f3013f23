-- ===== src/Storage.antt =====
-- include/storage.hpp and src/storage.cpp: the storage that the workers and the filler share, a map
-- of values, the queue of keys to fill and the statistics. A member function is one step.
pub mod Room
pub mod Increment
pub mod Statistics
pub mod Reply
pub mod Sound
pub mod Calls
pub mod Reloads
pub mod Crowd
pub mod Crowded
use swordfishd.Base.{
  ℕ, zero, suc, ◌+◌, Bool, true, false, Option, none, some, List, [], ◌∷◌, ◌++◌, ltb, leb,
  if◌then◌else◌, length, Bytes, codes, crlf, str_eq, empty, Run, ok, err, ◌>>=◌,
}
use swordfishd.Command
use swordfishd.Command.{Command}
use swordfishd.Queue
use swordfishd.Queue.{Queue}
use swordfishd.Dhashmap
use swordfishd.Dhashmap.{Dhashmap, Runtime, Hooks, Answer, Library}
use swordfishd.Stats
use swordfishd.Stats.{Stats}

pub record Storage : Type 0 where
  pub storage : Dhashmap
  pub queue : Queue
  pub stats : Stats
  pub max_storage_size : ℕ
  pub max_queue_size : ℕ
  pub expirate_size : ℕ

-- How numbers and durations are written: `boost::lexical_cast` and boost's durations.
pub record Formats : Type 0 where
  pub show_size : ℕ → Bytes
  pub show_uptime : ℕ → ℕ → Bytes

-- The constructor.
unfoldable pub new_storage : Hooks → ℕ → ℕ → ℕ → ℕ → ℕ → Storage
new_storage hooks now ttl max_storage_size max_queue_size expirate_size = record {
  storage = Dhashmap.new_dhashmap ttl hooks;
  queue = Queue.new_queue;
  stats = Stats.reset now;
  max_storage_size = max_storage_size;
  max_queue_size = max_queue_size;
  expirate_size = expirate_size;
}

-- `Configure`, given what the dynamic linker has under the path.
unfoldable pub configure : Option Library → Bytes → Storage → Run Storage
configure lib path s = do
  m ← Dhashmap.configure_func lib path s.storage
  ok (record s { storage = m })

-- `expirate`.
unfoldable pub expirate : Runtime → Storage → Run Storage
expirate rt s = do
  r ← Dhashmap.expirate rt s.storage s.expirate_size
  ok (record s { storage = r.0 })

-- The loop of `add_item`, which waits for room, and the addition behind it. `none` means that the
-- fuel ran out.
unfoldable pub add_item : ℕ → Runtime → Storage → Bytes → Bytes → ℕ → Option (Run Storage)
add_item zero rt s key val now = none
add_item (suc fuel) rt s key val now =
    let again : Option (Run Storage) = elim (expirate rt s) [
      | ok s' ↦ add_item fuel rt s' key val now
      | err f ↦ some (err f)
    ] in
    if leb s.max_storage_size (Dhashmap.get_storage_size s.storage)
    then again
    else some (do m ← Dhashmap.add rt s.storage key val now; ok (record s { storage = m }))

-- One round of that loop: an expiry, or the addition, which ends it.
unfoldable pub add_round : Runtime → Storage → Bytes → Bytes → ℕ → Run (Storage × Bool)
add_round rt s key val now =
    let again : Run (Storage × Bool) = (do t ← expirate rt s; ok (t, false)) in
    let added : Run (Storage × Bool) = (do
      m ← Dhashmap.add rt s.storage key val now
      ok (record s { storage = m }, true)) in
    if leb s.max_storage_size (Dhashmap.get_storage_size s.storage) then again else added

-- `reset_stats`.
unfoldable pub reset_stats : Storage → ℕ → Storage
reset_stats s now =
    let t₁ = Stats.set_start_time s.stats now in
    let t₂ = Stats.set_storage_size t₁ (Dhashmap.get_storage_size s.storage) in
    let t₃ = Stats.set_deleted t₂ 0 in
    let t₄ = Stats.set_queue_size t₃ (Queue.size s.queue) in
    let t₅ = Stats.set_gets t₄ 0 in
    record s { stats = Stats.set_values_size t₅ (Dhashmap.get_values_size s.storage) }

-- `queue_size`, `pop_key`, `storage_size`.
unfoldable pub queue_size : Storage → ℕ
queue_size s = Queue.size s.queue

unfoldable pub pop_key : Storage → Storage × Bytes
pop_key s = let r = Queue.wait_and_pop s.queue in (record s { queue = r.0 }, r.1)

unfoldable pub storage_size : Storage → ℕ
storage_size s = Dhashmap.get_storage_size s.storage

-- `push_key`.
unfoldable pub push_key : Storage → Bytes → Storage
push_key s key =
    let r = Queue.push s.queue key in
    if ltb (Queue.size s.queue) s.max_queue_size
    then record s { queue = r.0; stats = Stats.set_queue_size s.stats r.1 }
    else s

-- `refresh_stats`.
unfoldable pub refresh_stats : Storage → Storage
refresh_stats s =
    let t₁ = Stats.set_storage_size s.stats (Dhashmap.get_storage_size s.storage) in
    let (m₁, deleted) = Dhashmap.get_deleted s.storage in
    let t₂ = Stats.set_deleted t₁ deleted in
    let t₃ = Stats.set_queue_size t₂ (Queue.size s.queue) in
    let (m₂, gets) = Dhashmap.get_gets m₁ in
    let t₄ = Stats.set_gets t₃ gets in
    let t₅ = Stats.set_values_size t₄ (Dhashmap.get_values_size m₂) in
    let (m₃, updates) = Dhashmap.get_updates m₂ in
    record s { storage = m₃; stats = Stats.set_updates t₅ updates }

-- `get_stats`.
unfoldable pub get_stats : Formats → ℕ → Storage → Storage × Bytes
get_stats fmt now s = let s' = refresh_stats s in (s', Stats.get fmt.show_uptime now s'.stats)

-- `res_append`.
unfoldable pub res_append : Formats → Bytes → Bytes → Bytes → Bytes
res_append fmt arg value result =
    result
    ++ (codes "VALUE "
        ++ (arg ++ (codes " 0 " ++ (fmt.show_size (length value) ++ (crlf ++ (value ++ crlf))))))

-- One round of the loop of `get_val`, with the answer for its argument.
unfoldable pub after_get : Formats → Storage → Bytes → Bytes → Dhashmap × Answer → Storage × Bytes
after_get fmt s arg res (m, a) =
    let s' = record s { storage = m } in
    (
      if a.fresh then s' else push_key s' a.normalized,
      if empty a.val then res else res_append fmt arg a.val res,
    )

-- The loop of `get_val`. `clock i` gives the two readings of the clock in round `i`.
unfoldable pub get_args :
    Runtime → Formats → (ℕ → ℕ × ℕ) → ℕ → List Bytes → Storage → Bytes → Run (Storage × Bytes)
get_args rt fmt clock i [] s res = ok (s, res)
get_args rt fmt clock i (x ∷ xs) s res = do
  a ← Dhashmap.get rt s.storage x [] (clock i).0 (clock i).1
  let r = after_get fmt s x res a
  get_args rt fmt clock (suc i) xs r.0 r.1

-- `get_val`.
unfoldable pub get_val : Runtime → Formats → (ℕ → ℕ × ℕ) → Command → Storage → Run (Storage × Bytes)
get_val rt fmt clock cmd s = do
  r ← get_args rt fmt clock 0 (Command.arguments cmd) s []
  ok (r.0, r.1 ++ codes "END" ++ crlf)

-- `_do`, with the text that it leaves in `result`.
unfoldable pub execute :
    Runtime → Formats → (ℕ → ℕ × ℕ) → Command → Bytes → Storage → Run (Storage × Bytes)
execute rt fmt clock cmd result s =
    if str_eq (Command.name cmd) (codes "stats")
    then ok (get_stats fmt (clock 0).0 s)
    else if str_eq (Command.name cmd) (codes "get")
    then get_val rt fmt clock cmd s
    else ok (s, result)
