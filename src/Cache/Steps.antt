-- ===== src/Cache/Steps.antt =====
-- src/dhashmap.cpp: each call on the map against the specification.
use swordfishd.Base.{
  ℕ, suc, ◌≡◌, refl, sym, ap, ◌∙◌, ◌⊎◌, inl, inr, Option, none, List, [], ◌∷◌, ◌++◌, ltb,
  Bool-cases, Bytes, str_eq, str_eq_iff, ok, ◌==◌, if◌then◌else◌, size_add, length,
}
use mathlib.Core.Path.{subst}
use swordfishd.Index.{Entry, find_key, use_count}
use swordfishd.Index.Keys.{HasKeys}
use swordfishd.Index.Refresh.{value_of}
use swordfishd.Dhashmap
use swordfishd.Dhashmap.{Dhashmap, Runtime, Hooks, add_shared, add_new, expire_keys, after_expiry}
use swordfishd.Dhashmap.Invariant.{IsValid, suffix-IsValid, same_data-IsValid}
use swordfishd.Dhashmap.InsertView.{is_lost, add-view, add-hooks, is_lost-view}
use swordfishd.Dhashmap.InsertNew.{add-IsValid}
use swordfishd.Dhashmap.Lookup.{view, text_of, get-Looks}
use swordfishd.Dhashmap.Expiry.{Survives}
use swordfishd.Cache.{Call, add, get, expirate, Seen, nothing, value, perform, Allows}

-- One call.
pub record Refines (rt : Runtime) (m : Dhashmap) (c : Call) : Type 0 where
  pub after : Dhashmap
  pub seen : Seen
  pub runs : perform rt c m ≡ ok (after, seen)
  pub allowed : Allows m.hooks (view m) c (view after) seen
  pub hooks_same : after.hooks ≡ m.hooks
  pub valid : IsValid after

add-Refines :
    (rt : Runtime) (m : Dhashmap) (key val : Bytes) (now : ℕ)
    → IsValid m
    → Refines rt m (add key val now)
unfolding perform
add-Refines rt m key val now v =
    let (m', run, reads) = add-view rt m key val now v in
    let (n, again, valid) = add-IsValid rt m key val now v in
    let same : n ≡ m' = cc in
    record {
      after = m';
      seen = nothing;
      runs = rw run;
      allowed = elim (Bool-cases (is_lost m key val)) [
        | inl lost ↦ inr (is_lost-view m key val lost, λ j. rw lost at (reads j))
        | inr kept ↦ inl (λ j. rw kept at (reads j))
      ];
      hooks_same = add-hooks rt m key val now run;
      valid = subst IsValid same valid;
    }

get-Refines :
    (rt : Runtime) (m : Dhashmap) (key : Bytes) (now later : ℕ)
    → IsValid m
    → Refines rt m (get key now later)
unfolding perform
get-Refines rt m key now later v =
    let (r, run, looks) = get-Looks rt m key [] now later v in
    record {
      after = r.0;
      seen = value key r.1.val;
      runs = rw run;
      allowed = (looks.view_kept, refl, looks.val_is);
      hooks_same = looks.hooks_kept;
      valid = looks.valid;
    }

-- The first loop of an expiry drops entries from the front.
pub expire_keys-drops :
    (rt : Runtime) (limit : ℕ)
    → Survives rt
    → (es : List Entry) (bytes n : ℕ)
    → (r : List Entry × ℕ × ℕ) × (pre : List Entry) × (expire_keys rt limit es bytes n ≡ ok r)
      × (es ≡ pre ++ r.0)
unfolding expire_keys
expire_keys-drops rt limit alive [] bytes n = (([], bytes, n), [], refl, refl)
expire_keys-drops rt limit alive (e ∷ es) bytes n = elim (Bool-cases (ltb bytes limit)) [
  | inr stop ↦ ((e ∷ es, bytes, n), [], rw stop, refl)
  | inl more ↦
      let key_bytes = size_add bytes (length e.key) in
      let counted : ℕ =
        if use_count [] (e ∷ es) e.value.addr == 1
        then size_add key_bytes (length e.value.text)
        else key_bytes in
      let (r, pre, run, split) = expire_keys-drops rt limit alive es counted (suc n) in
      (r, e ∷ pre, rw (more, alive e es) run, ap (◌∷◌ e) split)
]

-- A key that is found behind dropped entries was found before.
find_key-suffix :
    (pre post : List Entry) (j : Bytes)
    → HasKeys (pre ++ post)
    → (find_key j post ≡ find_key j (pre ++ post)) ⊎ (find_key j post ≡ none)
unfolding find_key
find_key-suffix [] post j h = inl refl
find_key-suffix (e ∷ pre) post j h = elim (Bool-cases (str_eq e.key j)) [
  | inr other ↦ rw other (find_key-suffix pre post j h.1)
  | inl hit ↦
      let gone : find_key j (pre ++ post) ≡ none = rw (sym ((str_eq_iff e.key j).0 hit)) h.0 in
      inr (elim (find_key-suffix pre post j h.1) [
        | inl same ↦ same ∙ gone
        | inr none_there ↦ none_there
      ])
]

expirate-Refines :
    (rt : Runtime) (m : Dhashmap) (limit : ℕ)
    → Survives rt
    → IsValid m
    → Refines rt m (expirate limit)
unfolding perform Dhashmap.expirate view
expirate-Refines rt m limit alive v =
    let (r, pre, run, split) = expire_keys-drops rt limit alive m.keys 0 0 in
    let distinct : HasKeys (pre ++ r.0) = subst HasKeys split v.distinct in
    record {
      after = after_expiry m r;
      seen = nothing;
      runs = rw run;
      allowed = λ j. elim (find_key-suffix pre r.0 j distinct) [
        | inl same ↦
            inl
              (ap (λ (o : Option Entry). text_of (value_of o)) (same ∙ ap (find_key j) (sym split)))
        | inr gone ↦ inr (ap (λ (o : Option Entry). text_of (value_of o)) gone)
      ];
      hooks_same = refl;
      valid =
          same_data-IsValid _ (after_expiry m r) refl refl refl (suffix-IsValid m pre r.0 split v);
    }

pub perform-Refines :
    (rt : Runtime) (m : Dhashmap) (c : Call) → Survives rt → IsValid m → Refines rt m c
perform-Refines rt m (add key val now) alive v = add-Refines rt m key val now v
perform-Refines rt m (get key now later) alive v = get-Refines rt m key now later v
perform-Refines rt m (expirate limit) alive v = expirate-Refines rt m limit alive v
