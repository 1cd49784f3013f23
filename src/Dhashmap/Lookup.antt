-- ===== src/Dhashmap/Lookup.antt =====
-- src/dhashmap.cpp, `get`, against the map that the entries stand for.
use swordfishd.Base.{
  ℕ, ◌+◌, ◌≡◌, refl, ap, inl, inr, Bool, true, false, Option, none, some, [], arith, ltb,
  if◌then◌else◌, Bool-cases, Option-cases, Bytes, ok, uint_add,
}
use swordfishd.Index.{Pointer, Entry, locks, dhm_hash, search, find_key}
use swordfishd.Index.Refresh.{value_of, find_key-update_ttl, bindings, bindings-update_ttl}
use swordfishd.Index.Footprint.{footprint, footprint-update_ttl}
use swordfishd.Index.Values.{Has, locks_iff, search-none}
use swordfishd.Dhashmap.{
  Dhashmap, Runtime, Answer, normalize, find_value, get_entry, get_found, get,
}
use swordfishd.Dhashmap.Invariant.{
  IsValid, All-find_key, find_key-IsLive, refresh-IsValid, same_data-IsValid,
}

abbrev pub text_of : Option Pointer → Option Bytes
text_of none = none
text_of (some p) = some p.text

-- The map that the state stands for, on normalized keys.
unfoldable pub view : Dhashmap → Bytes → Option Bytes
view m k = text_of (value_of (find_key k m.keys))

pub view-none : (m : Dhashmap) (k : Bytes) → view m k ≡ none → find_key k m.keys ≡ none
unfolding view
view-none m k h = ground arith

-- The pointer of an entry is found in the set.
pub find_value-entry :
    (rt : Runtime) (m : Dhashmap) (k : Bytes) (e : Entry)
    → IsValid m
    → find_key k m.keys ≡ some e
    → (p : Pointer) × (find_value rt m [] e.value ≡ ok (some p))
unfolding find_value dhm_hash
find_value-entry rt m k e v f =
    let live : locks [] m.keys e.value ≡ true =
      ground (arith, locks_iff m.keys e.value, find_key-IsLive k e m.keys f) in
    let held = All-find_key (λ (x : Entry). Has x.value m.values) k e m.keys f v.held in
    elim (Option-cases (search [] m.keys m.values e.value)) [
      | inl missing ↦
          absurd (search-none [] m.keys m.values e.value e.value missing live held live refl)
      | inr (p, found) ↦ (p, rw (live, found))
    ]

abbrev pub is_fresh : Dhashmap → ℕ → Option Entry → Bool
is_fresh m now none = false
is_fresh m now (some e) = ltb now (e.ttl + m.ttl)

abbrev pub is_stale : Dhashmap → ℕ → Option Entry → Bool
is_stale m now none = false
is_stale m now (some e) = if ltb now (e.ttl + m.ttl) then false else true

abbrev pub or_given : Option Bytes → Bytes → Bytes
or_given none val = val
or_given (some t) val = t

-- The answer to a look-up of `key`, and what it changes.
pub record Looks (m : Dhashmap) (key val : Bytes) (now : ℕ) (r : Dhashmap × Answer) : Type 0 where
  pub normalized : r.1.normalized ≡ normalize m.hooks key
  pub val_is : r.1.val ≡ or_given (view m (normalize m.hooks key)) val
  pub fresh_is : r.1.fresh ≡ is_fresh m now (find_key (normalize m.hooks key) m.keys)
  pub view_kept : (j : Bytes) → view r.0 j ≡ view m j
  pub order_kept : bindings r.0.keys ≡ bindings m.keys
  pub gets_is : r.0.gets ≡ uint_add m.gets 1
  pub updates_is : r.0.updates ≡ (
      if is_stale m now (find_key (normalize m.hooks key) m.keys)
      then uint_add m.updates 1
      else m.updates)
  pub footprint_kept : footprint r.0.keys ≡ footprint m.keys
  pub hooks_kept : r.0.hooks ≡ m.hooks
  pub size_kept : r.0.storage_size ≡ m.storage_size
  pub valid : IsValid r.0

get_entry-Looks :
    (m : Dhashmap) (key val : Bytes) (e : Entry) (now later : ℕ)
    → IsValid m
    → find_key (normalize m.hooks key) m.keys ≡ some e
    → Looks m key val now
        (get_entry (record m { gets = uint_add m.gets 1 }) e (normalize m.hooks key) now later)
unfolding get_entry view
get_entry-Looks m key val e now later v f = elim (Bool-cases (ltb now (e.ttl + m.ttl))) [
  | inl fresh ↦ rw fresh (record {
    normalized = refl;
    val_is = rw f;
    fresh_is = rw (f, fresh);
    view_kept = λ j. ap text_of (find_key-update_ttl (normalize m.hooks key) j later m.keys);
    order_kept = bindings-update_ttl (normalize m.hooks key) later m.keys;
    gets_is = refl;
    updates_is = rw (f, fresh);
    footprint_kept = footprint-update_ttl (normalize m.hooks key) later m.keys;
    hooks_kept = refl;
    size_kept = refl;
    valid =
        same_data-IsValid _ _ refl refl refl (refresh-IsValid m (normalize m.hooks key) later v);
  })
  | inr stale ↦ rw stale (record {
    normalized = refl;
    val_is = rw f;
    fresh_is = rw (f, stale);
    view_kept = λ j. refl;
    order_kept = refl;
    gets_is = refl;
    updates_is = rw (f, stale);
    footprint_kept = refl;
    hooks_kept = refl;
    size_kept = refl;
    valid = same_data-IsValid m _ refl refl refl v;
  })
]

-- On a valid map `get` returns. It answers with the text that the map has for the normalized key,
-- or the text it was given, and with true exactly when there is an entry younger than the time to
-- live. It changes no binding and not the order of the entries; it counts the call, counts an
-- update exactly for an entry that is too old, and leaves a valid map with the same balance.
pub get-Looks :
    (rt : Runtime) (m : Dhashmap) (key val : Bytes) (now later : ℕ)
    → IsValid m
    → (r : Dhashmap × Answer) × (get rt m key val now later ≡ ok r) × Looks m key val now r
unfolding get get_found
get-Looks rt m key val now later v = elim (Option-cases (find_key (normalize m.hooks key) m.keys)) [
  | inl f ↦ (
    (
      record m { gets = uint_add m.gets 1 },
      record { fresh = false; val = val; normalized = normalize m.hooks key },
    ),
    rw (f, get_found),
    record {
      normalized = refl;
      val_is = unfold view in rw f;
      fresh_is = rw f;
      view_kept = unfold view in λ j. refl;
      order_kept = refl;
      gets_is = refl;
      updates_is = rw f;
      footprint_kept = refl;
      hooks_kept = refl;
      size_kept = refl;
      valid = same_data-IsValid m _ refl refl refl v;
    },
  )
  | inr (e, f) ↦
      let counted = same_data-IsValid m (record m { gets = uint_add m.gets 1 }) refl refl refl v in
      let (p, run) = find_value-entry rt (record m { gets = uint_add m.gets 1 }) _ e counted f in
      (_, rw (f, get_found, run), get_entry-Looks m key val e now later v f)
]
