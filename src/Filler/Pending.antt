-- ===== src/Filler/Pending.antt =====
-- src/abstract_filler.cpp, `operator ()`: what its thread still adds, and a storage with room for it.
use swordfishd.Base.{
  true, leb, empty, ◌++◌, if◌then◌else◌, ◌≤◌, ◌⊎◌, ◌∙◌, leb→le, to_uint, to_uint-exact, ℕ, ◌+◌, ◌<◌,
  ◌≡◌, refl, inl, inr, List, [], ◌∷◌, arith, length, Bytes, ok, uint_limit, size_limit,
}
use swordfishd.Dhashmap
use swordfishd.Dhashmap.{Runtime}
use swordfishd.Dhashmap.Invariant.{IsValid}
use swordfishd.Dhashmap.Expiry.{Balanced, expirate-Erases}
use swordfishd.Dhashmap.InsertNew.{add-IsValid}
use swordfishd.Dhashmap.InsertSize.{lost_bytes, add-Balanced, add-grows}
use swordfishd.Storage.{Storage, expirate, storage_size, pop_key}
use swordfishd.Storage.Increment.{expirate_agrees}
use swordfishd.Dhashmap.Increment.{mended, EndsAt}
use swordfishd.Index.{Entry}
use swordfishd.Storage.Room.{expiry_small, expiry_shrinks, entry_of_footprint}
use swordfishd.Filler.{Source, Batch}
use swordfishd.Filler.Delivery.{batch_bytes, lost_bytes-le}
use swordfishd.Filler.Ticks.{
  Phase, begins, looks, measures, takes, ended, adds, frees, puts, expirate_ok,
}

-- The keys of the thread once it has taken one more.
abbrev pub taken_keys : Batch → Storage → List Bytes
taken_keys b s = if empty (pop_key s).1 then b.keys else b.keys ++ (pop_key s).1 ∷ []

-- The bytes of some keys with the values that the library finds for them.
abbrev pub found_bytes : Source → Batch → List Bytes → ℕ
found_bytes source b keys = batch_bytes keys (source.get_vals keys b.vals)

-- The bytes that a thread can still add. Where it can take one more key, those without it count too.
unfoldable pub pending : Source → Phase → Batch → Storage → ℕ
pending source begins b s = 0
pending source ended b s = 0
pending source (looks t) b s = found_bytes source b b.keys + found_bytes source b (taken_keys b s)
pending source (measures t) b s =
    found_bytes source b b.keys + found_bytes source b (taken_keys b s)
pending source (takes t) b s = found_bytes source b (taken_keys b s)
pending source (adds ks vs) b s = batch_bytes ks vs
pending source (frees k v ks vs) b s = (length k + length v) + batch_bytes ks vs
pending source (puts k v ks vs) b s = (length k + length v) + batch_bytes ks vs
pending source _ b s = found_bytes source b b.keys

-- A storage that has room for some bytes more, besides those that it has lost.
pub record HasRoom (leak bytes : ℕ) (s : Storage) : Type 0 where
  pub expires : 0 < s.expirate_size
  pub room : leak + bytes < s.max_storage_size
  pub small : s.storage.storage_size + bytes < uint_limit
  pub valid : IsValid s.storage
  pub balanced : Balanced leak s.storage

-- There is room for less.
pub less-HasRoom :
    (leak more bytes : ℕ) (s : Storage) → bytes ≤ more → HasRoom leak more s → HasRoom leak bytes s
less-HasRoom leak more bytes s le h = record {
  expires = h.expires;
  room = omega (arith, le, h.room);
  small = omega (arith, le, h.small);
  valid = h.valid;
  balanced = h.balanced;
}

pub pop_key-HasRoom :
    (leak bytes : ℕ) (s : Storage) → HasRoom leak bytes s → HasRoom leak bytes (pop_key s).0
unfolding pop_key
pop_key-HasRoom leak bytes s h = record {
  expires = h.expires;
  room = h.room;
  small = h.small;
  valid = h.valid;
  balanced = h.balanced;
}

-- A full storage keeps an entry.
kept_entry :
    (leak bytes : ℕ) (s : Storage)
    → HasRoom leak bytes s
    → leb s.max_storage_size (storage_size s) ≡ true
    → (e : Entry) × (es : List Entry) × (s.storage.keys ≡ e ∷ es)
unfolding storage_size Dhashmap.get_storage_size
kept_entry leak bytes s h full =
    let exact = to_uint-exact s.storage.storage_size (omega (arith, h.small)) in
    let reached : s.max_storage_size ≤ to_uint s.storage.storage_size = leb→le _ _ full in
    entry_of_footprint s.storage.keys (omega (arith, exact, reached, h.room, h.balanced.size_is))

pub expirate-HasRoom :
    (rt : Runtime) (leak bytes : ℕ) (s : Storage)
    → HasRoom leak bytes s
    → ((t : Storage) × (expirate rt s ≡ ok t)
        × HasRoom leak bytes t
        × (leb s.max_storage_size (storage_size s) ≡ true
            → length t.storage.keys < length s.storage.keys))
      ⊎ EndsAt rt (expirate rt s)
expirate-HasRoom rt leak bytes s h = elim (expirate_agrees rt s) [
  | inr ends ↦ inr ends
  | inl same ↦
      let (r, run, erases, valid, balanced) =
        expirate-Erases (mended rt) s.expirate_size leak s.storage (λ e es. refl) h.valid
          h.balanced in
      let smaller : r.0.storage_size < s.storage.storage_size + 1 =
        expiry_small s.expirate_size leak (s.storage.storage_size + 1) s.storage r erases h.balanced
          balanced (omega arith) in
      inl (
        record s { storage = r.0 },
        same ∙ expirate_ok (mended rt) s r run,
        record {
          expires = h.expires;
          room = h.room;
          small = omega (arith, smaller, h.small);
          valid = valid;
          balanced = balanced;
        },
        λ full.
            let (e, es, shape) = kept_entry leak bytes s h full in
            expiry_shrinks s.expirate_size s.storage r e es h.expires shape erases,
      )
]

pub add-HasRoom :
    (rt : Runtime) (leak bytes : ℕ) (s : Storage) (k v : Bytes) (now : ℕ)
    → HasRoom leak ((length k + length v) + bytes) s
    → (m : Dhashmap.Dhashmap) × (leaked : ℕ) × (Dhashmap.add rt s.storage k v now ≡ ok m)
      × HasRoom leaked bytes (record s { storage = m })
add-HasRoom rt leak bytes s k v now h =
    let fits : s.storage.storage_size + length v + length k < size_limit = omega (arith, h.small) in
    let (m, run, balanced) = add-Balanced rt leak s.storage k v now h.valid h.balanced fits in
    let (m', again, valid) = add-IsValid rt s.storage k v now h.valid in
    let same : m' ≡ m = cc in
    (
      m,
      leak + lost_bytes s.storage k v,
      run,
      record {
        expires = h.expires;
        room = omega (arith, h.room, lost_bytes-le s.storage k v);
        small =
            omega (arith, h.small, add-grows rt leak s.storage k v now h.valid h.balanced fits run);
        valid = rw (← same) valid;
        balanced = balanced;
      },
    )
