-- ===== src/Filler/Misses.antt =====
-- src/storage.cpp, `get_val`: a key that a client misses.
use swordfishd.Base.{
  ℕ, ◌<◌, ◌≡◌, refl, ap, ◌∙◌, true, false, none, [], ◌∷◌, ◌++◌, arith, Bytes, codes, crlf, empty,
  to_uint, size_limit, ok,
}
use swordfishd.Command
use swordfishd.Command.{Command}
use swordfishd.Queue
use swordfishd.Dhashmap
use swordfishd.Dhashmap.{Dhashmap, Runtime, Answer, normalize}
use swordfishd.Dhashmap.Invariant.{IsValid}
use swordfishd.Dhashmap.Lookup.{view, view-none, Looks, get-Looks}
use swordfishd.Storage.{Storage, Formats, storage_size, push_key, after_get, get_args, get_val}

-- The storage holds valid data, has room for a value and for a key, and no key waits.
pub record IsIdle (s : Storage) : Type 0 where
  pub valid : IsValid s.storage
  pub no_keys : s.queue.items ≡ []
  pub has_space : storage_size s < s.max_storage_size
  pub limit_fits : s.max_storage_size < size_limit
  pub takes_key : 0 < s.max_queue_size

-- What a miss leaves: the key waits alone, and the rest is as it was.
pub record Missed (s : Storage) (k : Bytes) (r : Storage × Bytes) : Type 0 where
  pub reply : r.1 ≡ []
  pub waits : r.0.queue.items ≡ k ∷ []
  pub limit_same : r.0.max_storage_size ≡ s.max_storage_size
  pub size_same : r.0.storage.storage_size ≡ s.storage.storage_size
  pub view_same : (j : Bytes) → view r.0.storage j ≡ view s.storage j
  pub hooks_same : r.0.storage.hooks ≡ s.storage.hooks
  pub valid : IsValid r.0.storage

push_key-only :
    (s : Storage) (k : Bytes)
    → s.queue.items ≡ []
    → 0 < s.max_queue_size
    → (push_key s k).queue.items ≡ k ∷ []
unfolding push_key Queue.push Queue.size Queue.contains to_uint
push_key-only s k none_waits room = ground (arith, none_waits)

push_key-keeps :
    (s : Storage) (k : Bytes)
    → ((push_key s k).max_storage_size ≡ s.max_storage_size) × ((push_key s k).storage ≡ s.storage)
unfolding push_key
push_key-keeps s k = ground arith

after_get-Missed :
    (fmt : Formats) (s : Storage) (x : Bytes) (now : ℕ) (a : Dhashmap × Answer)
    → IsIdle s
    → Looks s.storage x [] now a
    → view s.storage (normalize s.storage.hooks x) ≡ none
    → Missed s (normalize s.storage.hooks x) (after_get fmt s x [] a)
unfolding after_get
after_get-Missed fmt s x now (m, a) idle l missing =
    let k = normalize s.storage.hooks x in
    let s' : Storage = record s { storage = m } in
    let old : a.fresh ≡ false = rw (view-none s.storage k missing) at l.fresh_is in
    let blank : a.val ≡ [] = rw missing at l.val_is in
    let (limit, map) = push_key-keeps s' k in
    let nothing : empty a.val ≡ true = rw blank (unfold empty in refl) in
    rw (old, l.normalized, nothing)
      (record {
        reply = refl;
        waits = push_key-only s' k idle.no_keys idle.takes_key;
        limit_same = limit;
        size_same = ap Dhashmap.storage_size map ∙ l.size_kept;
        view_same = rw map l.view_kept;
        hooks_same = ap Dhashmap.hooks map ∙ l.hooks_kept;
        valid = rw map l.valid;
      })

-- A `get` of one key that misses.
pub get_val-Missed :
    (rt : Runtime) (fmt : Formats) (clock : ℕ → ℕ × ℕ) (cmd : Command) (s : Storage) (x : Bytes)
    → IsIdle s
    → Command.arguments cmd ≡ x ∷ []
    → view s.storage (normalize s.storage.hooks x) ≡ none
    → (r : Storage × Bytes) × (get_val rt fmt clock cmd s ≡ ok (r.0, codes "END" ++ crlf))
      × Missed s (normalize s.storage.hooks x) r
unfolding get_val get_args
get_val-Missed rt fmt clock cmd s x idle one missing =
    let (a, run, looks) = get-Looks rt s.storage x [] (clock 0).0 (clock 0).1 idle.valid in
    let missed = after_get-Missed fmt s x (clock 0).0 a idle looks missing in
    (after_get fmt s x [] a, rw (one, run, missed.reply), missed)

pub Missed-space :
    (s : Storage) (k : Bytes) (r : Storage × Bytes)
    → IsIdle s
    → Missed s k r
    → (storage_size r.0 < r.0.max_storage_size) × (r.0.max_storage_size < size_limit)
unfolding storage_size Dhashmap.get_storage_size
Missed-space s k r idle missed =
    (rw (missed.size_same, missed.limit_same) idle.has_space, rw missed.limit_same idle.limit_fits)
