-- ===== src/Filler/Leaving.antt =====
-- src/abstract_filler.cpp, `operator ()` once `is_alive_` is false: the steps that end the loop of
-- `add_item`, and the loop that adds.
use swordfishd.Base.{
  true, leb, ◌≤◌, ◌⊎◌, ◌∙◌, Run, ◌>>=◌, ℕ, zero, suc, ◌+◌, ◌<◌, ◌≡◌, refl, inl, inr, Bool-cases,
  false, List, [], ◌∷◌, arith, length, Bytes, ok,
}
use swordfishd.Dhashmap.{Runtime}
use swordfishd.Dhashmap.Invariant.{IsValid}
use swordfishd.Storage.{Storage, expirate, storage_size}
use swordfishd.Dhashmap.Increment.{EndsAt}
use swordfishd.Filler.{Source, Batch}
use swordfishd.Filler.Delivery.{batch_bytes}
use swordfishd.Filler.Ticks.{
  Phase, begins, ended, adds, frees, puts, Reading, Thread, at_phase, tick, ticks,
}
use swordfishd.Filler.Pending.{HasRoom, expirate-HasRoom, add-HasRoom}

-- A reading behind `Shutdown`.
abbrev pub Stopped : Source → Reading → Type 0
Stopped source x = (x.source ≡ source) × (x.alive ≡ false)

-- The first readings of a stream.
unfoldable pub readings : ℕ → (ℕ → Reading) → List Reading
readings zero reads = []
readings (suc k) reads = reads 0 ∷ readings k (λ i. reads (suc i))

module _ (rt : Runtime) (n : ℕ) (source : Source) where
  -- Some steps bring the thread to its end, with a valid map, or meet an increment of an erased
  -- iterator that does not lead to the successor.
  abbrev pub Finishes : Run (Thread × Storage) → Type 0
  Finishes r =
      ((b : Batch) × (t : Storage) × (r ≡ ok (at_phase ended b, t)) × IsValid t.storage)
      ⊎ EndsAt rt r

  -- Whatever the thread reads, its first steps do so.
  abbrev pub Ends : Phase → Batch → Storage → Type 0
  Ends p b s =
      (reads : ℕ → Reading)
      → ((i : ℕ) → Stopped source (reads i))
      → (k : ℕ) × Finishes (ticks rt n (readings k reads) (at_phase p b, s))

  -- A step, with the end behind it.
  pub tick-Ends :
      (p : Phase) (b : Batch) (s : Storage)
      → ((x : Reading)
          → Stopped source x
          → ((q : Phase) × (c : Batch) × (t : Storage) × (tick rt n x p b s ≡ ok (at_phase q c, t))
              × Ends q c t)
            ⊎ EndsAt rt (tick rt n x p b s))
      → Ends p b s
  unfolding ticks readings
  tick-Ends p b s h reads so = elim (h (reads 0) (so 0)) [
    | inr (ends, b) ↦ (1, inr (rw (ticks, ends) refl, b))
    | inl (q, c, t, run, rest) ↦
        let (k, done) = rest (λ i. reads (suc i)) (λ i. so (suc i)) in (suc k, rw (ticks, run) done)
  ]

  pub ended-Ends : (b : Batch) (s : Storage) → IsValid s.storage → Ends ended b s
  unfolding ticks readings
  ended-Ends b s v reads so = (0, inl (b, s, refl, v))

  pub begins-Ends : (b : Batch) (s : Storage) → IsValid s.storage → Ends begins b s
  unfolding tick
  begins-Ends b s v =
      tick-Ends begins b s (λ x so. inl (ended, b, s, rw (so.1) refl, ended-Ends b s v))

  pub puts-Ends :
      (leak : ℕ) (k v : Bytes) (ks vs : List Bytes) (b : Batch) (s : Storage)
      → HasRoom leak ((length k + length v) + batch_bytes ks vs) s
      → ((leaked : ℕ) (t : Storage) → HasRoom leaked (batch_bytes ks vs) t → Ends (adds ks vs) b t)
      → Ends (puts k v ks vs) b s
  unfolding tick
  puts-Ends leak k v ks vs b s h next = tick-Ends (puts k v ks vs) b s (λ x so.
      let (m, leaked, run, h') = add-HasRoom rt leak (batch_bytes ks vs) s k v x.now h in
      inl (
        adds ks vs,
        b,
        record s { storage = m },
        rw run refl,
        next leaked (record s { storage = m }) h',
      ))

  -- An expiry, with the end behind it.
  pub expiry-Ends :
      (p q : Phase) (leak bytes : ℕ) (b : Batch) (s : Storage)
      → ((x : Reading) → tick rt n x p b s ≡ (do t ← expirate rt s; ok (at_phase q b, t)))
      → HasRoom leak bytes s
      → ((t : Storage)
          → HasRoom leak bytes t
          → (leb s.max_storage_size (storage_size s) ≡ true
              → length t.storage.keys < length s.storage.keys)
          → Ends q b t)
      → Ends p b s
  expiry-Ends p q leak bytes b s is h next = tick-Ends p b s (λ x so.
      elim (expirate-HasRoom rt leak bytes s h) [
        | inr (ends, broken) ↦ inr (is x ∙ rw ends refl, broken)
        | inl (t, run, h', fewer) ↦ inl (q, b, t, is x ∙ rw run refl, next t h' fewer)
      ])

  -- A round of the loop of `add_item`.
  wait-Ends :
      (leak : ℕ) (k v : Bytes) (ks vs : List Bytes) (b : Batch) (s : Storage)
      → HasRoom leak ((length k + length v) + batch_bytes ks vs) s
      → ((leaked : ℕ) (t : Storage) → HasRoom leaked (batch_bytes ks vs) t → Ends (adds ks vs) b t)
      → ((t : Storage)
          → HasRoom leak ((length k + length v) + batch_bytes ks vs) t
          → length t.storage.keys < length s.storage.keys
          → Ends (adds (k ∷ ks) (v ∷ vs)) b t)
      → Ends (adds (k ∷ ks) (v ∷ vs)) b s
  unfolding tick
  wait-Ends leak k v ks vs b s h next again =
      elim (Bool-cases (leb s.max_storage_size (storage_size s))) [
        | inr room ↦
            tick-Ends (adds (k ∷ ks) (v ∷ vs)) b s (λ x so.
              inl (puts k v ks vs, b, s, rw room refl, puts-Ends leak k v ks vs b s h next))
        | inl full ↦ tick-Ends (adds (k ∷ ks) (v ∷ vs)) b s (λ x so. inl (
          frees k v ks vs,
          b,
          s,
          rw full refl,
          expiry-Ends (frees k v ks vs) (adds (k ∷ ks) (v ∷ vs)) leak
              ((length k + length v) + batch_bytes ks vs) b s (λ x. refl) h
              (λ t h' fewer. again t h' (fewer full)),
        ))
      ]

  -- The whole loop, with at most `m` entries to erase.
  waits-Ends :
      (m leak : ℕ) (k v : Bytes) (ks vs : List Bytes) (b : Batch) (s : Storage)
      → length s.storage.keys ≤ m
      → HasRoom leak ((length k + length v) + batch_bytes ks vs) s
      → ((leaked : ℕ) (t : Storage) → HasRoom leaked (batch_bytes ks vs) t → Ends (adds ks vs) b t)
      → Ends (adds (k ∷ ks) (v ∷ vs)) b s
  waits-Ends zero leak k v ks vs b s few h next =
      wait-Ends leak k v ks vs b s h next (λ t h' fewer. absurd (omega (arith, few, fewer)))
  waits-Ends (suc m) leak k v ks vs b s few h next =
      wait-Ends leak k v ks vs b s h next
        (λ t h' fewer. waits-Ends m leak k v ks vs b t (omega (arith, few, fewer)) h' next)

  pub adds-Ends :
      (leak : ℕ) (ks vs : List Bytes) (b : Batch) (s : Storage)
      → HasRoom leak (batch_bytes ks vs) s
      → Ends (adds ks vs) b s
  unfolding tick
  adds-Ends leak [] vs b s h =
      tick-Ends (adds [] vs) b s
        (λ x so. inl (begins, record b { keys = [] }, s, refl, begins-Ends _ s h.valid))
  adds-Ends leak (k ∷ ks) [] b s h =
      tick-Ends (adds (k ∷ ks) []) b s
        (λ x so. inl (begins, record b { keys = [] }, s, refl, begins-Ends _ s h.valid))
  adds-Ends leak (k ∷ ks) (v ∷ vs) b s h =
      waits-Ends (length s.storage.keys) leak k v ks vs b s (omega arith) h
        (λ leaked t h'. adds-Ends leaked ks vs b t h')
