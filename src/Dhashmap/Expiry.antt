-- ===== src/Dhashmap/Expiry.antt =====
-- src/dhashmap.cpp, `expirate`: which entries it erases, and what it counts.
use native.Mathlib.Nat.{zero-add}
use swordfishd.Base.{
  ℕ, suc, ◌+◌, ◌≤◌, ◌<◌, ◌≡◌, refl, ap, ◌∙◌, ◌⊎◌, inl, inr, true, List, [], ◌∷◌, ◌++◌, arith, ◌==◌,
  ltb, ltb→lt, if◌then◌else◌, Bool-cases, ok, length, size_limit, size_add, size_sub,
  size_add-exact, size_sub-exact, uint_add,
}
use swordfishd.Index.{Entry, references, use_count, sweep}
use swordfishd.Index.Footprint.{footprint}
use swordfishd.Dhashmap.{Dhashmap, Runtime, expire_keys, expirate, after_expiry}
use swordfishd.Dhashmap.Invariant.{IsValid, suffix-IsValid, same_data-IsValid}

-- Incrementing the erased iterator goes on to its successor.
abbrev pub Survives : Runtime → Type 0
Survives rt = (e : Entry) (es : List Entry) → rt.survives e es ≡ true

-- The last entry that was erased was erased with fewer than `limit` bytes counted before it.
abbrev pub IsNeeded : ℕ → ℕ → List Entry → List Entry → List Entry → Type 0
IsNeeded limit bytes es dropped left =
    (dropped ≡ [])
    ⊎ ((pre : List Entry) × (e : Entry) × (dropped ≡ pre ++ e ∷ [])
        × (bytes + footprint es < limit + footprint (e ∷ left)))

-- From `bytes` counted and `n` erased, over the entries `es`.
pub record Expired (limit : ℕ) (es : List Entry) (bytes n : ℕ) (r : List Entry × ℕ × ℕ)
    : Type 0 where
  pub dropped : List Entry
  pub split : es ≡ dropped ++ r.0
  pub counted : r.2 ≡ n + length dropped
  pub freed : r.1 + footprint r.0 ≡ bytes + footprint es
  pub enough : (r.0 ≡ []) ⊎ (limit ≤ r.1)
  pub needed : IsNeeded limit bytes es dropped r.0

IsNeeded-cons :
    (limit bytes more : ℕ) (e : Entry) (es dropped left : List Entry)
    → bytes < limit
    → es ≡ dropped ++ left
    → more + footprint es ≡ bytes + footprint (e ∷ es)
    → IsNeeded limit more es dropped left
    → IsNeeded limit bytes (e ∷ es) (e ∷ dropped) left
IsNeeded-cons limit bytes more e es dropped left lt split eq (inl none_left) =
    inr ([], e, ap (◌∷◌ e) none_left, rw (split, none_left) (omega arith))
IsNeeded-cons limit bytes more e es dropped left lt split eq (inr (pre, last, shape, few)) =
    inr (e ∷ pre, last, ap (◌∷◌ e) shape, omega arith)

-- The bytes that the loop has counted behind an entry.
abbrev pub next_bytes : ℕ → Entry → List Entry → ℕ
next_bytes bytes e es =
    let key_bytes = size_add bytes (length e.key) in
    if use_count [] (e ∷ es) e.value.addr == 1
    then size_add key_bytes (length e.value.text)
    else key_bytes

pub next_bytes_exact :
    (bytes : ℕ) (e : Entry) (es : List Entry)
    → bytes + footprint (e ∷ es) < size_limit
    → next_bytes bytes e es + footprint es ≡ bytes + footprint (e ∷ es)
unfolding footprint use_count references
next_bytes_exact bytes e es h = ground (
  arith,
  size_add-exact bytes (length e.key),
  size_add-exact (bytes + length e.key) (length e.value.text),
)

module _ (rt : Runtime) (alive : Survives rt) (limit : ℕ) where
  pub expire_keys-Expired :
      (es : List Entry) (bytes n : ℕ)
      → bytes + footprint es < size_limit
      → (r : List Entry × ℕ × ℕ) × (expire_keys rt limit es bytes n ≡ ok r)
        × Expired limit es bytes n r
  unfolding expire_keys footprint use_count references
  expire_keys-Expired [] bytes n h = (
    ([], bytes, n),
    refl,
    record {
      dropped = [];
      split = refl;
      counted = omega arith;
      freed = refl;
      enough = inl refl;
      needed = inl refl;
    },
  )
  expire_keys-Expired (e ∷ es) bytes n h = elim (Bool-cases (ltb bytes limit)) [
    | inr stop ↦ (
      (e ∷ es, bytes, n),
      rw stop,
      record {
        dropped = [];
        split = refl;
        counted = omega arith;
        freed = refl;
        enough = inr (ground arith);
        needed = inl refl;
      },
    )
    | inl more ↦
        let next = next_bytes bytes e es in
        let exact : next + footprint es ≡ bytes + footprint (e ∷ es) =
          next_bytes_exact bytes e es h in
        let (r, run, x) = expire_keys-Expired es next (suc n) (rw exact h) in
        (
          r,
          rw (more, alive e es) run,
          record {
            dropped = e ∷ x.dropped;
            split = ap (◌∷◌ e) x.split;
            counted = omega (arith, x.counted);
            freed = x.freed ∙ exact;
            enough = x.enough;
            needed =
                IsNeeded-cons limit bytes next e es x.dropped r.0 (ltb→lt bytes limit more) x.split
                  exact x.needed;
          },
        )
  ]

-- The byte counter covers what the index keeps, and `leak` bytes more.
pub record Balanced (leak : ℕ) (m : Dhashmap) : Type 0 where
  pub size_is : m.storage_size ≡ footprint m.keys + leak
  pub fits : m.storage_size < size_limit

pub record Erases (limit : ℕ) (m : Dhashmap) (r : Dhashmap × ℕ) : Type 0 where
  pub dropped : List Entry
  pub split : m.keys ≡ dropped ++ r.0.keys
  pub swept : r.0.values ≡ sweep r.0.keys m.values
  pub counted : r.1 ≡ uint_add m.deleted (length dropped)
  pub enough : (r.0.keys ≡ []) ⊎ (limit + footprint r.0.keys ≤ footprint m.keys)
  pub needed : IsNeeded limit 0 m.keys dropped r.0.keys

module _ (limit leak : ℕ) (m : Dhashmap) (v : IsValid m) (b : Balanced leak m) where
  after_expiry-Erases :
      (r : List Entry × ℕ × ℕ)
      → Expired limit m.keys 0 0 r
      → Erases limit m (after_expiry m r, (after_expiry m r).deleted)
        × IsValid (after_expiry m r)
        × Balanced leak (after_expiry m r)
  after_expiry-Erases (left, bytes, n) x =
      let size : size_sub m.storage_size bytes ≡ footprint left + leak =
        size_sub-exact m.storage_size bytes (omega (arith, b.size_is, x.freed)) b.fits
        ∙ omega (arith, b.size_is, x.freed) in
      (
        record {
          dropped = x.dropped;
          split = x.split;
          swept = refl;
          counted = ap (uint_add m.deleted) x.counted ∙ ap (uint_add m.deleted) (zero-add _);
          enough = enough_left x.enough x.freed;
          needed = x.needed;
        },
        same_data-IsValid _ (after_expiry m (left, bytes, n)) refl refl refl
            (suffix-IsValid m x.dropped left x.split v),
        record { size_is = size; fits = rw size (omega (arith, b.size_is, b.fits, x.freed)) },
      )
    where
      enough_left :
          (left ≡ []) ⊎ (limit ≤ bytes)
          → bytes + footprint left ≡ 0 + footprint m.keys
          → (left ≡ []) ⊎ (limit + footprint left ≤ footprint m.keys)
      enough_left (inl e) f = inl e
      enough_left (inr h) f = inr (omega arith)

-- Where incrementing an erased iterator goes on to its successor, `expirate` on a valid map with
-- an exact byte counter returns. It erases the first entries of the order index, as few as free
-- `limit` bytes, or all where that is not enough. It keeps the invariant and the balance of the
-- byte counter, and counts the erased entries.
pub expirate-Erases :
    (rt : Runtime) (limit leak : ℕ) (m : Dhashmap)
    → Survives rt
    → IsValid m
    → Balanced leak m
    → (r : Dhashmap × ℕ) × (expirate rt m limit ≡ ok r)
      × Erases limit m r
      × IsValid r.0
      × Balanced leak r.0
unfolding expirate
expirate-Erases rt limit leak m alive v b =
    let (r, run, x) =
      expire_keys-Expired rt alive limit m.keys 0 0 (omega (arith, b.size_is, b.fits)) in
    let (erases, valid, balanced) = after_expiry-Erases limit leak m v b r x in
    ((after_expiry m r, (after_expiry m r).deleted), rw run, erases, valid, balanced)
