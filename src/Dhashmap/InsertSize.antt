-- ===== src/Dhashmap/InsertSize.antt =====
-- src/dhashmap.cpp, `add`: the byte counter.
use swordfishd.Base.{
  ℕ, ◌+◌, ◌<◌, ◌≤◌, ◌≡◌, inl, inr, none, some, arith, ◌==◌, if◌then◌else◌, Bool-cases, Option-cases,
  Bytes, ok, size_add-exact, size_sub-exact, size_limit, length,
}
use swordfishd.Index.{Pointer, Entry, new_entry, use_count, find_key, erase_key}
use swordfishd.Index.Keys.{find_key-erase_key}
use swordfishd.Index.Values.{Has}
use swordfishd.Index.Footprint.{
  footprint-insert_key, footprint-erase_key, references-erase_key, footprint-update_ttl,
}
use swordfishd.Dhashmap.{Dhashmap, Runtime, add_shared, add_new, add}
use swordfishd.Dhashmap.Invariant.{IsValid, IsValid-Agrees, All-find_key}
use swordfishd.Dhashmap.Expiry.{Balanced}
use swordfishd.Dhashmap.Insert.{
  item_of, stored, add_result, add_returns, IsStored, stored-IsStored, All-erase_key, All-map,
  references_unmade,
}
use swordfishd.Dhashmap.InsertView.{is_lost}

-- The bytes of a value that `add` counts and no entry keeps.
abbrev pub lost_bytes : Dhashmap → Bytes → Bytes → ℕ
lost_bytes m key val = if is_lost m key val then length val else 0

-- The counter is exact up to `leak`, and counts no more than the new key and value.
record Counts (leak bytes : ℕ) (m m' : Dhashmap) : Type 0 where
  balanced : Balanced leak m'
  grows : m'.storage_size ≤ m.storage_size + bytes

module _ (rt : Runtime) (leak : ℕ) (m : Dhashmap) (key val : Bytes) (now : ℕ) (v : IsValid m)
    (b : Balanced leak m) (room : m.storage_size + length val + length key < size_limit) where
  shared_size :
      (p : Pointer)
      → IsStored m val p
      → Counts leak (length key + length val) m (add_result rt m key val now (some p))
  unfolding add_shared use_count
  shared_size p s = elim (Option-cases (find_key key m.keys)) [
    | inl absent ↦
        let e = new_entry key now p in
        let added = footprint-insert_key rt.index e m.keys absent (IsValid-Agrees m p v s.in_set) in
        let exact = size_add-exact m.storage_size (length key) (omega (arith, room)) in
        rw (absent, add_shared)
          (record {
            balanced = record {
              size_is = ground (arith, added, exact, b.size_is, s.live);
              fits = rw exact (omega (arith, room));
            };
            grows = rw exact (omega arith);
          })
    | inr (e, known) ↦ elim (Bool-cases (e.value.addr == p.addr)) [
      | inl same ↦
          rw (known, add_shared, same)
            (record {
              balanced = record { size_is = b.size_is; fits = b.fits };
              grows = omega arith;
            })
      | inr other ↦
          let x = new_entry key now p in
          let rest = erase_key key m.keys in
          let absent = find_key-erase_key key m.keys v.distinct in
          let held = All-find_key (λ (y : Entry). Has y.value m.values) key e m.keys known v.held in
          let added =
            footprint-insert_key rt.index x rest absent
              (All-erase_key _ key m.keys (IsValid-Agrees m p v s.in_set)) in
          let removed = footprint-erase_key key e m.keys known (IsValid-Agrees m e.value v held) in
          let exact = size_sub-exact m.storage_size (length e.value.text) in
          let kept = references-erase_key key e m.keys p.addr known in
          let others = references-erase_key key e m.keys e.value.addr known in
          let older = v.made e.value held in
          rw (known, add_shared, other)
            (record {
              balanced = record {
                size_is =
                    ground (
                      arith, added, removed, exact, kept, others, older, s.live, b.size_is, b.fits,
                    );
                fits = ground (arith, removed, exact, b.size_is, b.fits, others, older);
              };
              grows = ground (arith, removed, exact, b.size_is, b.fits, others, older);
            })
    ]
  ]

  new_size :
      stored m val ≡ none
      → Counts
          (leak + lost_bytes m key val)
          (length key + length val)
          m
          (add_result rt m key val now none)
  unfolding add_new is_lost
  new_size fresh = elim (Option-cases (find_key key m.keys)) [
    | inl absent ↦
        let e = new_entry key now (item_of m val) in
        let added =
          footprint-insert_key rt.index e m.keys absent
            (All-map _ _ m.keys (λ x h same. absurd (omega (arith, v.made x.value h))) v.held) in
        let exact = size_add-exact m.storage_size (length val + length key) (omega (arith, room)) in
        rw (absent, add_new, is_lost)
          (record {
            balanced = record {
              size_is = ground (arith, added, exact, b.size_is, references_unmade m v);
              fits = rw exact (omega (arith, room));
            };
            grows = rw exact (omega arith);
          })
    | inr (e, known) ↦
        let exact = size_add-exact m.storage_size (length val) (omega (arith, room)) in
        rw (known, add_new, is_lost, fresh)
          (record {
            balanced = record {
              size_is = ground (arith, exact, footprint-update_ttl key now m.keys, b.size_is);
              fits = rw exact (omega (arith, room));
            };
            grows = rw exact (omega arith);
          })
  ]

  add-Counts :
      (m' : Dhashmap) × (add rt m key val now ≡ ok m')
      × Counts (leak + lost_bytes m key val) (length key + length val) m m'
  add-Counts = elim (Option-cases (stored m val)) [
    | inl fresh ↦
        (add_result rt m key val now none, rw (add_returns rt m key val now, fresh), new_size fresh)
    | inr (p, h) ↦
        let none_lost : leak + lost_bytes m key val ≡ leak = unfold is_lost in ground (arith, h) in
        (
          add_result rt m key val now (some p),
          rw (add_returns rt m key val now, h),
          rw none_lost (shared_size p (stored-IsStored m val p v h)),
        )
  ]

  -- On a valid map whose byte counter is the bytes that the index keeps and `leak` more, `add`
  -- keeps it so, where the counter does not wrap; but a value that `add` loses makes the
  -- difference larger by its length.
  pub add-Balanced :
      (m' : Dhashmap) × (add rt m key val now ≡ ok m') × Balanced (leak + lost_bytes m key val) m'
  add-Balanced = let (m', run, counts) = add-Counts in (m', run, counts.balanced)

  -- No more bytes are counted than those of the key and the value.
  pub add-grows :
      {m' : Dhashmap}
      → add rt m key val now ≡ ok m'
      → m'.storage_size ≤ m.storage_size + (length key + length val)
  add-grows {m'} run =
      let (n, again, counts) = add-Counts in let same : n ≡ m' = cc in rw (← same) counts.grows
