-- ===== src/Storage/Room.antt =====
-- src/storage.cpp, `add_item`: the loop that waits for room.
use swordfishd.Base.{
  ℕ, zero, suc, ◌+◌, ◌≤◌, ◌<◌, ◌≡◌, refl, ap, ◌⊎◌, inl, inr, true, none, some, List, [], ◌∷◌, ◌++◌,
  arith, leb, Bool-cases, length, length-append, Bytes, ok, to_uint, to_uint-exact, uint_limit,
  size_limit, size_sub,
}
use swordfishd.Index.{Entry}
use swordfishd.Index.Footprint.{footprint}
use swordfishd.Dhashmap
use swordfishd.Dhashmap.{Dhashmap, Runtime, get_storage_size}
use swordfishd.Dhashmap.Invariant.{IsValid}
use swordfishd.Dhashmap.Expiry.{Survives, Balanced, Erases, expirate-Erases}
use swordfishd.Dhashmap.InsertNew.{add-IsValid}
use swordfishd.Storage.{Storage, expirate, add_item}

-- An expiry of at least one byte erases an entry of a map that has one.
pub expiry_shrinks :
    (limit : ℕ) (m : Dhashmap) (r : Dhashmap × ℕ) (e : Entry) (es : List Entry)
    → 0 < limit
    → m.keys ≡ e ∷ es
    → Erases limit m r
    → length r.0.keys < length m.keys
expiry_shrinks limit m r e es h shape x = shrinks x.dropped x.split x.enough
  where
    shrinks :
        (dropped : List Entry)
        → m.keys ≡ dropped ++ r.0.keys
        → (r.0.keys ≡ []) ⊎ (limit + footprint r.0.keys ≤ footprint m.keys)
        → length r.0.keys < length m.keys
    shrinks (d ∷ ds) split enough = omega (arith, ap length split, length-append ds r.0.keys)
    shrinks [] split (inl gone) = omega (arith, ap length gone, ap length shape)
    shrinks [] split (inr less) = absurd (omega (arith, ap footprint split))

footprint-le-append : (pre post : List Entry) → footprint post ≤ footprint (pre ++ post)
unfolding footprint
footprint-le-append [] post = omega arith
footprint-le-append (e ∷ pre) post = omega (arith, footprint-le-append pre post)

-- The byte counter does not grow in an expiry.
pub expiry_small :
    (limit leak bound : ℕ) (m : Dhashmap) (r : Dhashmap × ℕ)
    → Erases limit m r
    → Balanced leak m
    → Balanced leak r.0
    → m.storage_size < bound
    → r.0.storage_size < bound
expiry_small limit leak bound m r x b c h =
    omega
      (arith, b.size_is, c.size_is, ap footprint x.split, footprint-le-append x.dropped r.0.keys)

-- A map that keeps some bytes has an entry.
pub entry_of_footprint :
    (es : List Entry) → 0 < footprint es → (e : Entry) × (rest : List Entry) × (es ≡ e ∷ rest)
unfolding footprint
entry_of_footprint [] h = absurd (omega arith)
entry_of_footprint (e ∷ es) h = (e, es, refl)

-- What some expiries leave of a storage.
pub record Shrinks (leak : ℕ) (s t : Storage) : Type 0 where
  pub valid : IsValid t.storage
  pub balanced : Balanced leak t.storage
  pub smaller : t.storage.storage_size ≤ s.storage.storage_size
  pub fewer : length t.storage.keys ≤ length s.storage.keys
  pub room : t.storage.storage_size < t.max_storage_size
  pub limit_same : t.max_storage_size ≡ s.max_storage_size
  pub expiry_same : t.expirate_size ≡ s.expirate_size

module _ (rt : Runtime) (alive : Survives rt) (key val : Bytes) (now : ℕ) where
  -- `add_item` expires some entries, and then it adds.
  pub add_item-Shrinks :
      (fuel leak : ℕ) (s : Storage)
      → length s.storage.keys < fuel
      → 0 < s.expirate_size
      → leak < s.max_storage_size
      → s.storage.storage_size < uint_limit
      → IsValid s.storage
      → Balanced leak s.storage
      → (t : Storage) × Shrinks leak s t
        × ((m : Dhashmap)
            → Dhashmap.add rt t.storage key val now ≡ ok m
            → add_item fuel rt s key val now ≡ some (ok (record t { storage = m })))
  unfolding add_item expirate get_storage_size
  add_item-Shrinks zero leak s f h room small v b = elim f [ ]
  add_item-Shrinks (suc fuel) leak s f h room small v b =
      elim (Bool-cases (leb s.max_storage_size (to_uint s.storage.storage_size))) [
        | inr free ↦ (
          s,
          record {
            valid = v;
            balanced = b;
            smaller = omega arith;
            fewer = omega arith;
            room = ground (arith, free, to_uint-exact s.storage.storage_size small);
            limit_same = refl;
            expiry_same = refl;
          },
          λ m run. rw (free, run),
        )
        | inl full ↦
            let (r, run, erases, valid, balanced) =
              expirate-Erases rt s.expirate_size leak s.storage alive v b in
            let (e, es, shape) =
              entry_of_footprint s.storage.keys
                (ground (arith, to_uint-exact s.storage.storage_size, b.size_is)) in
            let fewer = expiry_shrinks s.expirate_size s.storage r e es h shape erases in
            let smaller : r.0.storage_size < s.storage.storage_size + 1 =
              expiry_small s.expirate_size leak (s.storage.storage_size + 1) s.storage r erases b
                balanced (omega arith) in
            let (t, shrinks, adds) =
              add_item-Shrinks fuel leak (record s { storage = r.0 }) (omega (arith, fewer)) h room
                (omega (arith, smaller, small)) valid balanced in
            (
              t,
              record {
                valid = shrinks.valid;
                balanced = shrinks.balanced;
                smaller = omega (arith, smaller, shrinks.smaller);
                fewer = omega (arith, fewer, shrinks.fewer);
                room = shrinks.room;
                limit_same = shrinks.limit_same;
                expiry_same = shrinks.expiry_same;
              },
              λ m added. rw (full, run) (adds m added),
            )
      ]

  -- Where incrementing an erased iterator goes on to its successor, and a valid map lost fewer
  -- bytes than the storage's limit, shows its byte counter in 32 bits, and expires at least one
  -- byte at a time, `add_item` returns with a valid map; with `n` entries it takes at most `n`
  -- rounds of expiry.
  pub add_item_returns :
      (fuel leak : ℕ) (s : Storage)
      → length s.storage.keys < fuel
      → 0 < s.expirate_size
      → leak < s.max_storage_size
      → s.storage.storage_size < uint_limit
      → IsValid s.storage
      → Balanced leak s.storage
      → (s' : Storage) × (add_item fuel rt s key val now ≡ some (ok s')) × IsValid s'.storage
  add_item_returns fuel leak s f h room small v b =
      let (t, shrinks, adds) = add_item-Shrinks fuel leak s f h room small v b in
      let (m, run, valid) = add-IsValid rt t.storage key val now shrinks.valid in
      (record t { storage = m }, adds m run, valid)

-- Where incrementing an erased iterator goes on to its successor, and a valid map lost as many
-- bytes as the storage's limit and shows its byte counter in 32 bits, `add_item` does not return,
-- whatever the number of rounds.
pub add_item_never :
    (rt : Runtime) (alive : Survives rt) (key val : Bytes) (now fuel leak : ℕ) (s : Storage)
    → s.max_storage_size ≤ leak
    → s.storage.storage_size < uint_limit
    → IsValid s.storage
    → Balanced leak s.storage
    → add_item fuel rt s key val now ≡ none
unfolding add_item expirate get_storage_size
add_item_never rt alive key val now zero leak s full small v b = refl
add_item_never rt alive key val now (suc fuel) leak s full small v b =
    let still : leb s.max_storage_size (to_uint s.storage.storage_size) ≡ true =
      ground (arith, to_uint-exact s.storage.storage_size, b.size_is) in
    let (r, run, erases, valid, balanced) =
      expirate-Erases rt s.expirate_size leak s.storage alive v b in
    rw (still, run)
      (add_item_never rt alive key val now fuel leak (record s { storage = r.0 }) full
        (expiry_small s.expirate_size leak uint_limit s.storage r erases b balanced small) valid
        balanced)

expire_keys-nothing :
    (rt : Runtime) (limit : ℕ) (es : List Entry)
    → limit ≡ 0
    → Dhashmap.expire_keys rt limit es 0 0 ≡ ok (es, 0, 0)
unfolding Dhashmap.expire_keys
expire_keys-nothing rt limit [] h = refl
expire_keys-nothing rt limit (e ∷ es) h = rw h

-- An expiry of no bytes frees none, so `add_item` on a full storage does not return.
pub add_item_stuck :
    (rt : Runtime) (key val : Bytes) (now fuel : ℕ) (s : Storage)
    → s.expirate_size ≡ 0
    → s.max_storage_size ≤ to_uint s.storage.storage_size
    → s.storage.storage_size < size_limit
    → add_item fuel rt s key val now ≡ none
unfolding add_item expirate get_storage_size Dhashmap.expirate size_sub
add_item_stuck rt key val now zero s none_freed full fits = refl
add_item_stuck rt key val now (suc fuel) s none_freed full fits =
    let shown : leb s.max_storage_size (to_uint s.storage.storage_size) ≡ true =
      ground (arith, full) in
    let same : size_sub s.storage.storage_size 0 ≡ s.storage.storage_size = omega (arith, fits) in
    let s' : Storage = record s {
      storage = Dhashmap.after_expiry s.storage (s.storage.keys, 0, 0);
    } in
    rw (shown, expire_keys-nothing rt s.expirate_size s.storage.keys none_freed)
      (add_item_stuck rt key val now fuel s' none_freed (rw same full) (rw same fits))
