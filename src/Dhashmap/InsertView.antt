-- ===== src/Dhashmap/InsertView.antt =====
-- src/dhashmap.cpp, `add`, against the map that the entries stand for.
use swordfishd.Index.Lengths.{length-insert_key, length-erase_key, length-update_ttl}
use swordfishd.Base.{
  ◌≤◌, ◌+◌, length, ◌≢◌, sym, ℕ, ◌≡◌, ap, ◌∙◌, inl, inr, Bool, true, false, not, Option, none, some,
  arith, ◌==◌, ◌&&◌, if◌then◌else◌, Bool-cases, Option-cases, Bytes, str_eq, str_eq_iff, ok,
}
use swordfishd.Index.{Pointer, Entry, find_key, erase_key, new_entry}
use swordfishd.Index.Keys.{find_key-insert_key, find_key-erase_key, find_key-erase_key_ne}
use swordfishd.Index.Refresh.{find_key-update_ttl}
use swordfishd.Index.Values.{Has}
use swordfishd.Dhashmap.{Dhashmap, Runtime, add_shared, add_new, add}
use swordfishd.Dhashmap.Invariant.{IsValid, All-find_key}
use swordfishd.Dhashmap.Lookup.{view, text_of}
use swordfishd.Dhashmap.Insert.{item_of, stored, add_result, add_returns, IsStored, stored-IsStored}

abbrev lost : Option Entry → Option Pointer → Bool
lost none o = false
lost (some e) none = true
lost (some e) (some p) = false

abbrev is_lost_key : Option Entry → Bool
is_lost_key none = false
is_lost_key (some e) = true

-- The key is known and the value is not stored: the case in which `add` loses the value.
unfoldable pub is_lost : Dhashmap → Bytes → Bytes → Bool
is_lost m key val = lost (find_key key m.keys) (stored m val)

-- What the map should be after the value of a key is set.
abbrev pub updated : (Bytes → Option Bytes) → Bytes → Bytes → Bytes → Option Bytes
updated f key val j = if str_eq key j then some val else f j

add_shared-view :
    (rt : Runtime) (m : Dhashmap) (key val : Bytes) (now : ℕ) (p : Pointer)
    → IsValid m
    → IsStored m val p
    → stored m val ≡ some p
    → (j : Bytes) → view (add_result rt m key val now (some p)) j ≡ updated (view m) key val j
unfolding view add_shared
add_shared-view rt m key val now p v s h j = elim (Option-cases (find_key key m.keys)) [
  | inl absent ↦
      let found = find_key-insert_key rt.index (new_entry key now p) m.keys j absent in
      rw (absent, add_shared, found, ← s.has_text) (ground arith)
  | inr (e, known) ↦ elim (Bool-cases (e.value.addr == p.addr)) [
    | inl same ↦
        let held = All-find_key (λ (x : Entry). Has x.value m.values) key e m.keys known v.held in
        let one : e.value ≡ p = v.by_addr e.value p held s.in_set (ground arith) in
        rw (known, add_shared, same) (ground (arith, str_eq_iff key j, s.has_text))
    | inr other ↦
        let erased = find_key-erase_key key m.keys v.distinct in
        let found =
          find_key-insert_key rt.index (new_entry key now p) (erase_key key m.keys) j erased in
        rw (known, add_shared, other, found)
          (ground (arith, find_key-erase_key_ne key j m.keys, s.has_text))
  ]
]

add_new-view :
    (rt : Runtime) (m : Dhashmap) (key val : Bytes) (now : ℕ) (j : Bytes)
    → view (add_result rt m key val now none) j
      ≡ (if not (is_lost_key (find_key key m.keys)) && str_eq key j then some val else view m j)
unfolding view add_new
add_new-view rt m key val now j = elim (Option-cases (find_key key m.keys)) [
  | inl absent ↦
      let found =
        find_key-insert_key rt.index (new_entry key now (item_of m val)) m.keys j absent in
      rw (absent, add_new, found) (ground arith)
  | inr (e, known) ↦ rw (known, add_new) (ap text_of (find_key-update_ttl key j now m.keys))
]

-- On a valid map `add` returns, and afterwards the map has the new value under its key and what
-- it had under every other key, but for one case: a known key with a value that no key has yet
-- keeps its old value.
pub add-view :
    (rt : Runtime) (m : Dhashmap) (key val : Bytes) (now : ℕ)
    → IsValid m
    → (m' : Dhashmap) × (add rt m key val now ≡ ok m')
      × ((j : Bytes)
          → view m' j ≡ (if is_lost m key val then view m j else updated (view m) key val j))
unfolding is_lost
add-view rt m key val now v = elim (Option-cases (stored m val)) [
  | inl fresh ↦ (
    add_result rt m key val now none,
    rw (add_returns rt m key val now, fresh),
    λ j. add_new-view rt m key val now j ∙ lost_none (find_key key m.keys) (stored m val) j fresh,
  )
  | inr (p, h) ↦ (
    add_result rt m key val now (some p),
    rw (add_returns rt m key val now, h),
    λ j.
        add_shared-view rt m key val now p v (stored-IsStored m val p v h) h j
        ∙ lost_some (find_key key m.keys) (stored m val) p j h,
  )
]
  where
    lost_none :
        (f : Option Entry) (o : Option Pointer) (j : Bytes)
        → o ≡ none
        → (if not (is_lost_key f) && str_eq key j then some val else view m j)
          ≡ (if lost f o then view m j else updated (view m) key val j)
    lost_none f o j e = ground arith

    lost_some :
        (f : Option Entry) (o : Option Pointer) (p : Pointer) (j : Bytes)
        → o ≡ some p
        → updated (view m) key val j ≡ (if lost f o then view m j else updated (view m) key val j)
    lost_some f o p j e = ground arith

add_result-hooks :
    (rt : Runtime) (m : Dhashmap) (key val : Bytes) (now : ℕ) (o : Option Pointer)
    → (add_result rt m key val now o).hooks ≡ m.hooks
unfolding add_shared add_new
add_result-hooks rt m key val now none = ground arith
add_result-hooks rt m key val now (some p) = ground arith

-- A value is lost for a known key only.
pub is_lost-view : (m : Dhashmap) (key val : Bytes) → is_lost m key val ≡ true → view m key ≢ none
unfolding is_lost view
is_lost-view m key val h = ground arith

pub add-hooks :
    (rt : Runtime) (m : Dhashmap) (key val : Bytes) (now : ℕ) {m' : Dhashmap}
    → add rt m key val now ≡ ok m'
    → m'.hooks ≡ m.hooks
add-hooks rt m key val now {m'} run =
    let result : add_result rt m key val now (stored m val) ≡ m' =
      cc (add_returns rt m key val now) in
    ap Dhashmap.hooks (sym result) ∙ add_result-hooks rt m key val now (stored m val)

add_result-length :
    (rt : Runtime) (m : Dhashmap) (key val : Bytes) (now : ℕ) (o : Option Pointer)
    → length (add_result rt m key val now o).keys ≤ length m.keys + 1
unfolding add_shared add_new
add_result-length rt m key val now none = elim (Option-cases (find_key key m.keys)) [
  | inl absent ↦ rw (absent, add_new) (length-insert_key rt.index _ m.keys)
  | inr (e, known) ↦ rw (known, add_new) (omega (arith, length-update_ttl key now m.keys))
]
add_result-length rt m key val now (some p) = elim (Option-cases (find_key key m.keys)) [
  | inl absent ↦ rw (absent, add_shared) (length-insert_key rt.index _ m.keys)
  | inr (e, known) ↦ elim (Bool-cases (e.value.addr == p.addr)) [
    | inl same ↦ rw (known, add_shared, same) (omega arith)
    | inr other ↦
        rw (known, add_shared, other)
          (omega (
            arith,
            length-insert_key rt.index (new_entry key now p) (erase_key key m.keys),
            length-erase_key key m.keys,
          ))
  ]
]

-- At most one entry is new.
pub add-length :
    (rt : Runtime) (m : Dhashmap) (key val : Bytes) (now : ℕ) {m' : Dhashmap}
    → add rt m key val now ≡ ok m'
    → length m'.keys ≤ length m.keys + 1
add-length rt m key val now {m'} run =
    let result : add_result rt m key val now (stored m val) ≡ m' =
      cc (add_returns rt m key val now) in
    rw (← result) (add_result-length rt m key val now (stored m val))
