-- ===== src/Dhashmap/Increment.antt =====
-- src/dhashmap.cpp, `expirate`: the increment of the iterator whose element is erased. The container
-- gives it no meaning, so a call can end there, or goes on as if it led to the successor.
use swordfishd.Base.{
  ℕ, suc, ◌+◌, ◌<◌, ◌≡◌, refl, ap, ◌⊎◌, inl, inr, true, false, List, [], ◌∷◌, ◌++◌, arith, ltb,
  ltb→lt, Bool-cases, Run, ok, err, undefined_behaviour, ◌>>=◌, Bytes, size_limit,
}
use swordfishd.Index.{Entry}
use swordfishd.Index.Footprint.{footprint}
use swordfishd.Dhashmap.{
  Dhashmap, Runtime, expire_keys, expirate, add, add_shared, add_new, get, find_value,
}
use swordfishd.Dhashmap.Invariant.{IsValid}
use swordfishd.Dhashmap.Expiry.{Balanced, Erases, expirate-Erases, next_bytes, next_bytes_exact}

-- The same surroundings, but for an increment that always leads to the successor.
abbrev pub mended : Runtime → Runtime
mended rt = record rt { survives = λ e es. true }

-- Some increment has no meaning.
abbrev pub Breaks : Runtime → Type 0
Breaks rt = (e : Entry) × (es : List Entry) × (rt.survives e es ≡ false)

-- A call ends at such an increment.
abbrev pub EndsAt {ℓ} : {T : Type ℓ} → Runtime → Run T → Type ℓ
EndsAt rt r = (r ≡ err undefined_behaviour) × Breaks rt

pub bind-agrees :
    {S T : Type 0} (rt : Runtime) (r s : Run S) (f g : S → Run T)
    → (r ≡ s) ⊎ EndsAt rt r
    → ((x : S) → (f x ≡ g x) ⊎ EndsAt rt (f x))
    → ((r >>= f) ≡ (s >>= g)) ⊎ EndsAt rt (r >>= f)
bind-agrees rt r s f g (inr (e, b)) h = inr (rw e refl, b)
bind-agrees rt (err how) s f g (inl e) h = inl (rw (← e) refl)
bind-agrees rt (ok x) s f g (inl e) h = rw (← e) (h x)

expire_keys-agrees :
    (rt : Runtime) (limit : ℕ) (es : List Entry) (bytes n : ℕ)
    → (expire_keys rt limit es bytes n ≡ expire_keys (mended rt) limit es bytes n)
      ⊎ EndsAt rt (expire_keys rt limit es bytes n)
unfolding expire_keys
expire_keys-agrees rt limit [] bytes n = inl refl
expire_keys-agrees rt limit (e ∷ es) bytes n = elim (Bool-cases (ltb bytes limit)) [
  | inr stop ↦ rw stop (inl refl)
  | inl more ↦ elim (Bool-cases (rt.survives e es)) [
    | inr breaks ↦ rw (more, breaks) (inr (refl, (e, es, breaks)))
    | inl leads ↦ rw (more, leads) (expire_keys-agrees rt limit es _ (suc n))
  ]
]

pub expirate-agrees :
    (rt : Runtime) (m : Dhashmap) (limit : ℕ)
    → (expirate rt m limit ≡ expirate (mended rt) m limit) ⊎ EndsAt rt (expirate rt m limit)
unfolding expirate
expirate-agrees rt m limit =
    bind-agrees rt (expire_keys rt limit m.keys 0 0) _ _ _ (expire_keys-agrees rt limit m.keys 0 0)
      (λ x. inl refl)

pub add_same :
    (rt : Runtime) (m : Dhashmap) (k v : Bytes) (now : ℕ)
    → add rt m k v now ≡ add (mended rt) m k v now
unfolding add add_shared add_new find_value
add_same rt m k v now = refl

pub get_same :
    (rt : Runtime) (m : Dhashmap) (k v : Bytes) (now later : ℕ)
    → get rt m k v now later ≡ get (mended rt) m k v now later
unfolding get find_value
get_same rt m k v now later = refl

-- Where the loop that erases ends at an increment: behind an entry that has to go, since the ones
-- before it free fewer bytes than the limit.
pub record BreaksAt (rt : Runtime) (limit bytes : ℕ) (keys : List Entry) : Type 0 where
  pub front : List Entry
  pub erased : Entry
  pub back : List Entry
  pub split : keys ≡ front ++ erased ∷ back
  pub needed : bytes + footprint keys < limit + footprint (erased ∷ back)
  pub breaks : rt.survives erased back ≡ false

expire_keys-BreaksAt :
    (rt : Runtime) (limit : ℕ) (es : List Entry) (bytes n : ℕ)
    → bytes + footprint es < size_limit
    → (expire_keys rt limit es bytes n ≡ expire_keys (mended rt) limit es bytes n)
      ⊎ ((expire_keys rt limit es bytes n ≡ err undefined_behaviour) × BreaksAt rt limit bytes es)
unfolding expire_keys
expire_keys-BreaksAt rt limit [] bytes n h = inl refl
expire_keys-BreaksAt rt limit (e ∷ es) bytes n h = elim (Bool-cases (ltb bytes limit)) [
  | inr stop ↦ rw stop (inl refl)
  | inl more ↦ elim (Bool-cases (rt.survives e es)) [
    | inr breaks ↦
        rw (more, breaks)
          (inr (
            refl,
            record {
              front = [];
              erased = e;
              back = es;
              split = refl;
              needed = omega (arith, ltb→lt bytes limit more);
              breaks = breaks;
            },
          ))
    | inl leads ↦
        let exact = next_bytes_exact bytes e es h in
        elim (expire_keys-BreaksAt rt limit es (next_bytes bytes e es) (suc n)
          (omega (arith, exact, h))) [
            | inl same ↦ rw (more, leads) (inl same)
            | inr (ends, x) ↦
                rw (more, leads)
                  (inr (
                    ends,
                    record {
                      front = e ∷ x.front;
                      erased = x.erased;
                      back = x.back;
                      split = ap (◌∷◌ e) x.split;
                      needed = omega (arith, exact, x.needed);
                      breaks = x.breaks;
                    },
                  ))
          ]
  ]
]

-- `expirate` on a valid map with an exact byte counter ends in one of two ways. It returns: it has
-- then erased the first entries of the order index, as few as free `limit` bytes, or all where that
-- is not enough; it keeps the invariant and the balance of the byte counter, and counts the erased
-- entries. Or it is undefined, which it is only behind an entry that has to go, whose iterator does
-- not lead to its successor once it is erased.
pub expirate_outcome :
    (rt : Runtime) (limit leak : ℕ) (m : Dhashmap)
    → IsValid m
    → Balanced leak m
    → ((r : Dhashmap × ℕ) × (expirate rt m limit ≡ ok r)
        × Erases limit m r
        × IsValid r.0
        × Balanced leak r.0)
      ⊎ ((expirate rt m limit ≡ err undefined_behaviour) × BreaksAt rt limit 0 m.keys)
unfolding expirate
expirate_outcome rt limit leak m v b =
    elim (expire_keys-BreaksAt rt limit m.keys 0 0 (omega (arith, b.size_is, b.fits))) [
      | inr (ends, x) ↦ inr (rw (expirate, ends) refl, x)
      | inl same ↦
          let (r, run, erases, valid, balanced) =
            expirate-Erases (mended rt) limit leak m (λ e es. refl) v b in
          inl (r, rw (expirate, same) run, erases, valid, balanced)
    ]
