-- ===== src/Filler/Delivery.antt =====
-- src/abstract_filler.cpp, `operator ()`: its loop that adds the values.
use swordfishd.Base.{
  ℕ, ◌+◌, ◌≤◌, ◌<◌, ◌≡◌, refl, ◌∙◌, ◌⊎◌, inl, inr, err, undefined_behaviour, some, List, [], ◌∷◌,
  arith, length, Bytes, ok, uint_limit, size_limit,
}
use swordfishd.Dhashmap.{Dhashmap, Runtime}
use swordfishd.Dhashmap.Invariant.{IsValid}
use swordfishd.Dhashmap.Expiry.{Survives, Balanced}
use swordfishd.Dhashmap.InsertNew.{add-IsValid}
use swordfishd.Dhashmap.InsertSize.{lost_bytes, add-Balanced, add-grows}
use swordfishd.Dhashmap.InsertView.{add-length}
use swordfishd.Storage.{Storage, add_item}
use swordfishd.Dhashmap.Increment.{mended, Breaks}
use swordfishd.Storage.Increment.{add_item-agrees}
use swordfishd.Storage.Room.{add_item-Shrinks}

-- The bytes of the keys and values that are added together.
abbrev pub batch_bytes : List Bytes → List Bytes → ℕ
batch_bytes [] vs = 0
batch_bytes (k ∷ ks) [] = 0
batch_bytes (k ∷ ks) (v ∷ vs) = (length k + length v) + batch_bytes ks vs

-- The storage that an addition of `bytes` bytes leaves, with one attempt to spare for each key.
record Adds (leak bytes : ℕ) (s t : Storage) : Type 0 where
  leaked : ℕ
  valid : IsValid t.storage
  balanced : Balanced leaked t.storage
  leaks : leaked ≤ leak + bytes
  grows : t.storage.storage_size ≤ s.storage.storage_size + bytes
  under : t.storage.storage_size < s.max_storage_size + bytes
  longer : length t.storage.keys ≤ length s.storage.keys + 1
  limit_same : t.max_storage_size ≡ s.max_storage_size
  expiry_same : t.expirate_size ≡ s.expirate_size

pub lost_bytes-le :
    (m : Dhashmap) (key val : Bytes) → lost_bytes m key val ≤ length key + length val
lost_bytes-le m key val = ground arith

add_item-Adds :
    (fuel leak : ℕ) (rt : Runtime) (s : Storage) (key val : Bytes) (now : ℕ)
    → Survives rt
    → length s.storage.keys < fuel
    → 0 < s.expirate_size
    → leak < s.max_storage_size
    → s.storage.storage_size + (length key + length val) < uint_limit
    → IsValid s.storage
    → Balanced leak s.storage
    → (t : Storage) × (add_item fuel rt s key val now ≡ some (ok t))
      × Adds leak (length key + length val) s t
add_item-Adds fuel leak rt s key val now alive f h room small v b =
    let (t, x, adds) =
      add_item-Shrinks rt alive key val now fuel leak s f h room (omega (arith, small)) v b in
    let fits : t.storage.storage_size + length val + length key < size_limit =
      omega (arith, small, x.smaller) in
    let (m, run, balanced) = add-Balanced rt leak t.storage key val now x.valid x.balanced fits in
    let (n, again, valid) = add-IsValid rt t.storage key val now x.valid in
    let same : n ≡ m = cc in
    (
      record t { storage = m },
      adds m run,
      record {
        leaked = leak + lost_bytes t.storage key val;
        valid = rw (← same) valid;
        balanced = balanced;
        leaks = omega (arith, lost_bytes-le t.storage key val);
        grows =
            omega (
              arith,
              x.smaller,
              add-grows rt leak t.storage key val now x.valid x.balanced fits run,
            );
        under = omega (
          arith,
          x.room,
          x.limit_same,
          add-grows rt leak t.storage key val now x.valid x.balanced fits run,
        );
        longer = omega (arith, x.fewer, add-length rt t.storage key val now run);
        limit_same = x.limit_same;
        expiry_same = x.expiry_same;
      },
    )

-- A storage that expires at least one byte at a time has a valid map, the bytes that it lost are
-- under its limit, and its byte counter with the new key and value stays in 32 bits. Then, with
-- more fuel than the map has entries, `add_item` ends at an increment of an erased iterator that
-- does not lead to the successor, and is undefined there, or it returns, whatever the counter was
-- before, with a valid map and a counter that is under the limit but for the bytes of this one key
-- and value.
pub add_item_under_limit :
    (fuel leak : ℕ) (rt : Runtime) (s : Storage) (key val : Bytes) (now : ℕ)
    → length s.storage.keys < fuel
    → 0 < s.expirate_size
    → leak < s.max_storage_size
    → s.storage.storage_size + (length key + length val) < uint_limit
    → IsValid s.storage
    → Balanced leak s.storage
    → ((add_item fuel rt s key val now ≡ some (err undefined_behaviour)) × Breaks rt)
      ⊎ ((t : Storage) × (add_item fuel rt s key val now ≡ some (ok t))
          × IsValid t.storage
          × (t.storage.storage_size < s.max_storage_size + (length key + length val)))
add_item_under_limit fuel leak rt s key val now f h room small v b =
    elim (add_item-agrees fuel rt s key val now) [
      | inr ends ↦ inl ends
      | inl same ↦
          let (t, run, adds) =
            add_item-Adds fuel leak (mended rt) s key val now (λ e es. refl) f h room small v b in
          inr (t, same ∙ run, adds.valid, adds.under)
    ]
