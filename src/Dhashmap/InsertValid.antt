-- ===== src/Dhashmap/InsertValid.antt =====
-- src/dhashmap.cpp, `add` with a value that is stored: the invariant on its branches.
use swordfishd.Base.{
  ℕ, ◌≡◌, ◌≢◌, sym, inl, inr, false, none, some, List, [], ◌∷◌, arith, ◌==◌, if◌then◌else◌,
  Bool-cases, All, Bytes,
}
use swordfishd.Index.{
  Pointer, Entry, new_entry, references, use_count, find_key, erase_key, erase_value, insert_key,
}
use swordfishd.Index.Keys.{find_key-erase_key, insert_key-HasKeys, erase_key-HasKeys}
use swordfishd.Index.Values.{Has, IsLive, erase_value-Has, Has-erase_value}
use swordfishd.Index.Footprint.{references-insert_key, references-erase_key}
use swordfishd.Dhashmap.{Dhashmap, Runtime, add_shared}
use swordfishd.Dhashmap.Invariant.{IsValid, All-find_key, find_key-IsLive}
use swordfishd.Dhashmap.Insert.{
  allocated, All-insert_key, All-erase_key, All-map, All-both, All-IsLive,
}

module _ (rt : Runtime) (m : Dhashmap) (key : Bytes) (now : ℕ) (v : IsValid m) where
  module _ (p : Pointer) (in_set : Has p m.values) (live : IsLive m.keys p) where
    -- A new key for a stored value.
    pub shared_new_key-IsValid :
        find_key key m.keys ≡ none
        → IsValid (add_shared rt (allocated m) m.next_addr p key now none)
    unfolding add_shared
    shared_new_key-IsValid absent =
        let e = new_entry key now p in
        let old = λ (q : Pointer) (l : IsLive (insert_key rt.index e m.keys) q).
          let l' : IsLive m.keys q =
            ground (arith, references-insert_key rt.index e m.keys q.addr absent) in
          l' in
        record {
          distinct = insert_key-HasKeys rt.index e m.keys v.distinct absent;
          held = All-insert_key (λ x. Has x.value m.values) rt.index e m.keys absent in_set v.held;
          one_copy = λ q r hq hr lq lr. v.one_copy q r hq hr (old q lq) (old r lr);
          by_addr = v.by_addr;
          made = λ q h. omega (arith, v.made q h);
        }

    -- Another stored value for a known key.
    module _ (e : Entry) (known : find_key key m.keys ≡ some e)
        (other : e.value.addr ≢ p.addr) where
      rest : List Entry
      rest = erase_key key m.keys

      still : List Pointer
      still =
          if use_count (p.addr ∷ m.next_addr ∷ []) m.keys e.value.addr == 1
          then erase_value (p.addr ∷ m.next_addr ∷ []) m.keys m.values e.value
          else m.values

      still-Has : (q : Pointer) → Has q still → Has q m.values
      unfolding still
      still-Has q h =
          elim (Bool-cases (use_count (p.addr ∷ m.next_addr ∷ []) m.keys e.value.addr == 1)) [
            | inl last ↦ erase_value-Has _ m.keys m.values e.value q (rw last at h)
            | inr more ↦ rw more at h
          ]

      -- A live pointer other than the erased entry's stays in the set.
      Has-still :
          (q : Pointer)
          → Has q m.values
          → IsLive m.keys q
          → (references e.value.addr rest ≡ 0 → q.addr ≢ e.value.addr)
          → Has q still
      unfolding still rest use_count
      Has-still q h l ne =
          let held = All-find_key (λ (x : Entry). Has x.value m.values) key e m.keys known v.held in
          elim (Bool-cases (use_count (p.addr ∷ m.next_addr ∷ []) m.keys e.value.addr == 1)) [
            | inr more ↦ rw more h
            | inl last ↦
                let alone : references e.value.addr (erase_key key m.keys) ≡ 0 =
                  ground (arith, references-erase_key key e m.keys e.value.addr known) in
                rw last (
                  Has-erase_value (p.addr ∷ m.next_addr ∷ []) m.keys m.values e.value q h λ same.
                    ne alone
                      (v.one_copy q e.value h held l (find_key-IsLive key e m.keys known) same.1))
          ]

      rest-Has : All (λ (x : Entry). Has x.value still) rest
      unfolding rest
      rest-Has =
          All-map _ _ (erase_key key m.keys)
            (λ x h.
              Has-still x.value h.0
                (omega (arith, h.1, references-erase_key key e m.keys x.value.addr known))
                (λ none_left same. absurd (clash x.value e.value h.1 same none_left)))
            (All-both _ _ (erase_key key m.keys)
              (All-erase_key (λ x. Has x.value m.values) key m.keys v.held)
              (All-IsLive (erase_key key m.keys)))
        where
          clash :
              (q r : Pointer)
              → IsLive (erase_key key m.keys) q
              → q.addr ≡ r.addr
              → references r.addr (erase_key key m.keys) ≡ 0
              → ⊥
          clash q r l same none_left = ground arith

      pub shared_known_key-IsValid :
          IsValid (add_shared rt (allocated m) m.next_addr p key now (some e))
      unfolding add_shared rest still
      shared_known_key-IsValid =
          let x = new_entry key now p in
          let absent = find_key-erase_key key m.keys v.distinct in
          let differ : e.value.addr == p.addr ≡ false = ground arith in
          let old = λ (q : Pointer) (l : IsLive (insert_key rt.index x rest) q).
            let l' : IsLive m.keys q = ground (
              arith,
              references-insert_key rt.index x rest q.addr absent,
              references-erase_key key e m.keys q.addr known,
            ) in
            l' in
          rw differ (record {
            distinct =
                insert_key-HasKeys rt.index x rest (erase_key-HasKeys key m.keys v.distinct) absent;
            held =
                All-insert_key (λ y. Has y.value still) rt.index x rest absent
                  (Has-still p in_set live (λ _ same. other (sym same))) rest-Has;
            one_copy = λ q r hq hr lq lr.
                v.one_copy q r (still-Has q hq) (still-Has r hr) (old q lq) (old r lr);
            by_addr = λ q r hq hr. v.by_addr q r (still-Has q hq) (still-Has r hr);
            made = λ q h. omega (arith, v.made q (still-Has q h));
          })
