-- ===== src/Cache/Placed.antt =====
-- src/dhashmap.cpp: `add` and `expirate` on the plain list of keys, while the clock never goes
-- back.
use swordfishd.Base.{
  ℕ, suc, ◌≤◌, ◌≡◌, refl, ap, sym, ◌∙◌, inl, inr, true, false, none, some, Option, List, [], ◌∷◌,
  ◌++◌, arith, ltb, ◌==◌, if◌then◌else◌, Bool-cases, Option-cases, All, Bytes, str_eq, str_eq_iff,
  ok, length, size_add,
}
use swordfishd.Index.{
  Pointer, Entry, new_entry, use_count, find_key, erase_key, update_ttl, TtlIndex, insert_key,
}
use swordfishd.Index.Keys.{find_key-erase_key}
use swordfishd.Dhashmap.{Dhashmap, Runtime, add_shared, add_new, expire_keys}
use swordfishd.Dhashmap.Invariant.{IsValid, All-find_key, IsValid-Agrees}
use swordfishd.Dhashmap.Insert.{
  add_result, stored, stored-IsStored, stored-none, All-insert_key, All-erase_key, All-map, item_of,
}
use swordfishd.Dhashmap.Expiry.{Survives}
use swordfishd.Cache.Notes.{add_note, expire_notes, has_text, entry_bytes}
use swordfishd.Cache.Alike.{
  note, notes, find_note-notes, remove-notes, touch-notes, Alike, IsValid-Held, Held-SameObject,
  use_count-notes, IsLive-has_text, has_text-All,
}

-- No entry has a time after `t`.
abbrev pub Past : ℕ → List Entry → Type 0
Past t = All (λ (e : Entry). e.ttl ≤ t)

pub Past-mono : (t u : ℕ) (es : List Entry) → t ≤ u → Past t es → Past u es
Past-mono t u es le past = All-map _ _ es (λ e h. omega arith) past

pub update_ttl-Past :
    (t u : ℕ) (k : Bytes) (es : List Entry) → t ≤ u → Past t es → Past u (update_ttl k u es)
unfolding update_ttl
update_ttl-Past t u k [] le past = tt
update_ttl-Past t u k (e ∷ es) le past = elim (Bool-cases (str_eq e.key k)) [
  | inl hit ↦ rw hit (omega arith, Past-mono t u es le past.1)
  | inr miss ↦ rw miss (omega arith, update_ttl-Past t u k es le past.1)
]

notes-append : (xs ys : List Entry) → notes (xs ++ ys) ≡ notes xs ++ notes ys
notes-append [] ys = refl
notes-append (x ∷ xs) ys = ap (◌∷◌ (note x)) (notes-append xs ys)

-- A new entry goes to the end.
insert_key-notes :
    (ix : TtlIndex) (e : Entry) (es : List Entry)
    → find_key e.key es ≡ none
    → Past e.ttl es
    → notes (insert_key ix e es) ≡ notes es ++ note e ∷ []
unfolding insert_key
insert_key-notes ix e es absent past =
    rw (absent, insert_key, ix.place_last e es past) (notes-append es (e ∷ []))

module _ (rt : Runtime) (m : Dhashmap) (key val : Bytes) (now : ℕ) where
  module _ (v : IsValid m) (past : Past now m.keys) where
    add_shared-notes :
        (p : Pointer)
        → stored m val ≡ some p
        → notes (add_result rt m key val now (some p)).keys ≡ add_note key val now (notes m.keys)
    unfolding add_shared add_note
    add_shared-notes p found =
        let s = stored-IsStored m val p v found in
        let here : has_text val (notes m.keys) ≡ true =
          rw s.has_text at (IsLive-has_text p m.keys (IsValid-Agrees m p v s.in_set) s.live) in
        elim (Option-cases (find_key key m.keys)) [
          | inl absent ↦
              rw (absent, add_shared, find_note-notes key m.keys, absent, add_note)
                (insert_key-notes rt.index (new_entry key now p) m.keys absent past ∙ rw s.has_text)
          | inr (e, known) ↦
              let held = All-find_key _ key e m.keys known (IsValid-Held m v) in
              let at_p : Entry = new_entry key now p in
              let same : (e.value.addr == p.addr) ≡ str_eq e.value.text val = ground (
                arith,
                Held-SameObject m at_p e v (s.in_set, s.live) held,
                str_eq_iff e.value.text val,
                s.has_text,
              ) in
              elim (Bool-cases (str_eq e.value.text val)) [
                | inl hit ↦
                    rw
                      (
                        known,
                        add_shared,
                        same,
                        hit,
                        find_note-notes key m.keys,
                        known,
                        add_note,
                        hit,
                      )
                      refl
                | inr miss ↦
                    rw
                      (
                        known,
                        add_shared,
                        same,
                        miss,
                        find_note-notes key m.keys,
                        known,
                        add_note,
                        miss,
                        here,
                        remove-notes key m.keys,
                      )
                      (insert_key-notes rt.index at_p (erase_key key m.keys)
                          (find_key-erase_key key m.keys v.distinct)
                          (All-erase_key _ key m.keys past)
                        ∙ rw s.has_text)
              ]
        ]

    add_new-notes :
        stored m val ≡ none
        → notes (add_result rt m key val now none).keys ≡ add_note key val now (notes m.keys)
    unfolding add_new add_note
    add_new-notes missing = elim (Option-cases (find_key key m.keys)) [
      | inl absent ↦
          rw (absent, add_new, find_note-notes key m.keys, absent, add_note)
            (insert_key-notes rt.index (new_entry key now (item_of m val)) m.keys absent past)
      | inr (e, known) ↦
          let held = All-find_key _ key e m.keys known (IsValid-Held m v) in
          let other : str_eq e.value.text val ≡ false =
            ground (
              arith,
              stored-none m val e.value missing held.0 held.1,
              str_eq_iff e.value.text val,
            ) in
          let nowhere : has_text val (notes m.keys) ≡ false =
            elim (Bool-cases (has_text val (notes m.keys))) [
              | inl found ↦
                  let (x, h, text_is) = has_text-All _ val m.keys (IsValid-Held m v) found in
                  absurd (stored-none m val x.value missing h.0 h.1 text_is)
              | inr absent ↦ absent
            ] in
          rw
            (
              known,
              add_new,
              find_note-notes key m.keys,
              known,
              add_note,
              other,
              nowhere,
              touch-notes key now m.keys,
            )
            refl
    ]

    pub add_result-notes :
        (o : Option Pointer)
        → stored m val ≡ o
        → notes (add_result rt m key val now o).keys ≡ add_note key val now (notes m.keys)
    add_result-notes none e = add_new-notes e
    add_result-notes (some p) e = add_shared-notes p e

  pub add_result-Past :
      (o : Option Pointer)
      → IsValid m
      → Past now m.keys
      → Past now (add_result rt m key val now o).keys
  unfolding add_shared add_new
  add_result-Past none v past = elim (Option-cases (find_key key m.keys)) [
    | inl absent ↦
        rw (absent, add_new) (All-insert_key _ rt.index _ m.keys absent (omega arith) past)
    | inr (e, known) ↦ rw (known, add_new) (update_ttl-Past now now key m.keys (omega arith) past)
  ]
  add_result-Past (some p) v past = elim (Option-cases (find_key key m.keys)) [
    | inl absent ↦
        rw (absent, add_shared) (All-insert_key _ rt.index _ m.keys absent (omega arith) past)
    | inr (e, known) ↦ elim (Bool-cases (e.value.addr == p.addr)) [
      | inl same ↦ rw (known, add_shared, same) past
      | inr other ↦
          rw (known, add_shared, other)
            (All-insert_key _ rt.index _ (erase_key key m.keys)
              (find_key-erase_key key m.keys v.distinct) (omega arith)
              (All-erase_key _ key m.keys past))
    ]
  ]

  pub add_result-ttl : (o : Option Pointer) → (add_result rt m key val now o).ttl ≡ m.ttl
  unfolding add_shared add_new
  add_result-ttl none = ground arith
  add_result-ttl (some p) = ground arith

-- The first loop of `expirate` erases the entries that the list erases.
pub expire_keys-notes :
    (rt : Runtime) (limit : ℕ)
    → Survives rt
    → (es : List Entry) (bytes n : ℕ) {r : List Entry × ℕ × ℕ} → Alike es
    → expire_keys rt limit es bytes n ≡ ok r
    → notes r.0 ≡ expire_notes limit (notes es) bytes
unfolding expire_keys expire_notes
expire_keys-notes rt limit alive [] bytes n {r} a run = ground arith
expire_keys-notes rt limit alive (e ∷ es) bytes n {r} a run = elim (Bool-cases (ltb bytes limit)) [
  | inr stop ↦ rw stop (let same : (e ∷ es) ≡ r.0 = ground arith in ap notes (sym same))
  | inl more ↦
      let key_bytes = size_add bytes (length e.key) in
      let counted : ℕ =
        if use_count [] (e ∷ es) e.value.addr == 1
        then size_add key_bytes (length e.value.text)
        else key_bytes in
      let same : counted ≡ entry_bytes (note e) (notes es) bytes =
        rw (use_count-notes e es a.0) (ground arith) in
      let rest : expire_keys rt limit es counted (suc n) ≡ ok r = rw (more, alive e es) at run in
      rw (more, ← same) (expire_keys-notes rt limit alive es counted (suc n) a.1 rest)
]
