-- ===== src/Dhashmap/InsertNew.antt =====
-- src/dhashmap.cpp, `add` with a value that is not stored, and `add` as a whole.
use swordfishd.Base.{
  ℕ, suc, ◌<◌, ◌≡◌, ◌≢◌, refl, sym, ap, ◌∙◌, inl, inr, none, some, List, ◌∷◌, arith, ◌==◌,
  Bool-cases, Option-cases, Bytes, ok,
}
use swordfishd.Index.{Pointer, Entry, new_entry, find_key, update_ttl, insert_key}
use swordfishd.Index.Keys.{insert_key-HasKeys}
use swordfishd.Index.Refresh.{references-update_ttl, update_ttl-HasKeys, update_ttl-All}
use swordfishd.Index.Values.{Has, IsLive}
use swordfishd.Index.Footprint.{references-insert_key}
use swordfishd.Dhashmap.{Dhashmap, Runtime, add_shared, add_new, add}
use swordfishd.Dhashmap.Invariant.{IsValid}
use swordfishd.Dhashmap.Insert.{
  item_of, allocated, stored, add_result, add_returns, stored-IsStored, stored-none, All-insert_key,
  All-map, references_unmade,
}
use swordfishd.Dhashmap.InsertValid.{shared_new_key-IsValid, shared_known_key-IsValid}

-- A state with a new object in its set, whose entries hold old objects and perhaps the new one.
module _ (m : Dhashmap) (val : Bytes) (v : IsValid m) where
  with_item-by_addr :
      (p q : Pointer)
      → Has p (item_of m val ∷ m.values)
      → Has q (item_of m val ∷ m.values)
      → p.addr ≡ q.addr
      → p ≡ q
  with_item-by_addr p q (inl a) (inl b) e = sym a ∙ b
  with_item-by_addr p q (inl a) (inr b) e = absurd (ground (arith, v.made q b))
  with_item-by_addr p q (inr a) (inl b) e = absurd (ground (arith, v.made p a))
  with_item-by_addr p q (inr a) (inr b) e = v.by_addr p q a b e

  with_item-made : (p : Pointer) → Has p (item_of m val ∷ m.values) → p.addr < suc m.next_addr
  with_item-made p (inl a) = ground arith
  with_item-made p (inr a) = omega (arith, v.made p a)

  with_item-one_copy :
      (es : List Entry)
      → ((q : Pointer) → IsLive es q → q.addr ≢ m.next_addr → IsLive m.keys q)
      → ((q : Pointer)
          → Has q m.values
          → IsLive m.keys q
          → IsLive es (item_of m val)
          → q.text ≢ val)
      → (p q : Pointer) → Has p (item_of m val ∷ m.values)
      → Has q (item_of m val ∷ m.values)
      → IsLive es p
      → IsLive es q
      → p.text ≡ q.text
      → p.addr ≡ q.addr
  with_item-one_copy es old ne p q (inl a) (inl b) lp lq e =
      ap (λ (x : Pointer). x.addr) (sym a ∙ b)
  with_item-one_copy es old ne p q (inl a) (inr b) lp lq e =
      absurd (ne q b (old q lq (unmade q b)) (ground arith) (ground arith))
    where
      unmade : (x : Pointer) → Has x m.values → x.addr ≢ m.next_addr
      unmade x h = λ same. omega (arith, v.made x h)
  with_item-one_copy es old ne p q (inr a) (inl b) lp lq e =
      absurd (ne p a (old p lp (unmade p a)) (ground arith) (ground arith))
    where
      unmade : (x : Pointer) → Has x m.values → x.addr ≢ m.next_addr
      unmade x h = λ same. omega (arith, v.made x h)
  with_item-one_copy es old ne p q (inr a) (inr b) lp lq e =
      v.one_copy p q a b (old p lp (unmade p a)) (old q lq (unmade q b)) e
    where
      unmade : (x : Pointer) → Has x m.values → x.addr ≢ m.next_addr
      unmade x h = λ same. omega (arith, v.made x h)

module _ (rt : Runtime) (m : Dhashmap) (key val : Bytes) (now : ℕ) (v : IsValid m) where
  new_known_key-IsValid :
      (e : Entry) → IsValid (add_new rt (allocated m) (item_of m val) key now (some e))
  unfolding add_new
  new_known_key-IsValid e = record {
    distinct = update_ttl-HasKeys key now m.keys v.distinct;
    held =
        update_ttl-All (λ p. Has p (item_of m val ∷ m.values)) key now m.keys
          (All-map _ _ m.keys (λ x h. inr h) v.held);
    one_copy =
        with_item-one_copy m val v (update_ttl key now m.keys)
          (λ q l _. rw references-update_ttl at l)
          (λ q h l here. absurd (
            omega
              (arith, references-update_ttl key now m.next_addr m.keys, references_unmade m v)));
    by_addr = with_item-by_addr m val v;
    made = with_item-made m val v;
  }

  new_key-IsValid :
      find_key key m.keys ≡ none
      → stored m val ≡ none
      → IsValid (add_new rt (allocated m) (item_of m val) key now none)
  unfolding add_new
  new_key-IsValid absent fresh =
      let e = new_entry key now (item_of m val) in
      record {
        distinct = insert_key-HasKeys rt.index e m.keys v.distinct absent;
        held =
            All-insert_key (λ x. Has x.value (item_of m val ∷ m.values)) rt.index e m.keys absent
              (inl refl) (All-map _ _ m.keys (λ x h. inr h) v.held);
        one_copy =
            with_item-one_copy m val v (insert_key rt.index e m.keys)
              (λ q l ne. ground (arith, references-insert_key rt.index e m.keys q.addr absent))
              (λ q h l _. stored-none m val q fresh h l);
        by_addr = with_item-by_addr m val v;
        made = with_item-made m val v;
      }

  unchanged-IsValid : IsValid (allocated m)
  unchanged-IsValid = record {
    distinct = v.distinct;
    held = v.held;
    one_copy = v.one_copy;
    by_addr = v.by_addr;
    made = λ p h. omega (arith, v.made p h);
  }

  shared-IsValid :
      (p : Pointer) → stored m val ≡ some p → IsValid (add_result rt m key val now (some p))
  shared-IsValid p h =
      let s = stored-IsStored m val p v h in
      elim (Option-cases (find_key key m.keys)) [
        | inl absent ↦ rw absent (shared_new_key-IsValid rt m key now v p s.in_set s.live absent)
        | inr (e, known) ↦ elim (Bool-cases (e.value.addr == p.addr)) [
          | inl same ↦ rw known (unfold add_shared in rw same unchanged-IsValid)
          | inr other ↦
              rw known
                (shared_known_key-IsValid rt m key now v p s.in_set s.live e known (ground arith))
        ]
      ]

  -- On a valid map `add` returns and leaves a valid map.
  pub add-IsValid : (m' : Dhashmap) × (add rt m key val now ≡ ok m') × IsValid m'
  add-IsValid = elim (Option-cases (stored m val)) [
    | inr (p, h) ↦ (
      add_result rt m key val now (some p),
      rw (add_returns rt m key val now, h),
      shared-IsValid p h,
    )
    | inl fresh ↦ elim (Option-cases (find_key key m.keys)) [
      | inl absent ↦ (
        add_new rt (allocated m) (item_of m val) key now none,
        rw (add_returns rt m key val now, fresh, absent),
        new_key-IsValid absent fresh,
      )
      | inr (e, known) ↦ (
        add_new rt (allocated m) (item_of m val) key now (some e),
        rw (add_returns rt m key val now, fresh, known),
        new_known_key-IsValid e,
      )
    ]
  ]
