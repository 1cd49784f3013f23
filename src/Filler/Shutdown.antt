-- ===== src/Filler/Shutdown.antt =====
-- src/abstract_filler.cpp, `Shutdown` and `operator ()`: what the thread still does once `is_alive_`
-- is false, up to the end that `join` waits for.
use swordfishd.Base.{
  ◌==◌, size_sub, ◌⊎◌, ℕ, zero, suc, ◌+◌, ◌≡◌, refl, inl, inr, Bool-cases, ◌&&◌, ◌∷◌, ltb, arith,
  length, ok,
}
use swordfishd.Dhashmap.{Runtime}
use swordfishd.Dhashmap.Invariant.{IsValid}
use swordfishd.Storage.{Storage, storage_size, pop_key, queue_size}
use swordfishd.Dhashmap.Increment.{EndsAt}
use swordfishd.Filler.{Source, Batch, answers, has_room}
use swordfishd.Filler.Delivery.{batch_bytes}
use swordfishd.Filler.Ticks.{
  Phase, begins, heads, looks, measures, takes, clears, asks, ended, collects, adds, frees, puts,
  Reading, at_phase, tick, ticks,
}
use swordfishd.Filler.Pending.{
  taken_keys, found_bytes, pending, HasRoom, less-HasRoom, pop_key-HasRoom,
}
use swordfishd.Filler.Leaving.{
  Stopped, readings, Ends, puts-Ends, tick-Ends, ended-Ends, begins-Ends, expiry-Ends, adds-Ends,
}

module _ (rt : Runtime) (n : ℕ) (source : Source) where
  asks-Ends :
      (leak : ℕ) (b : Batch) (s : Storage)
      → HasRoom leak (batch_bytes b.keys (source.get_vals b.keys b.vals)) s
      → Ends rt n source asks b s
  unfolding tick
  asks-Ends leak b s h = elim (Bool-cases (ltb 0 (length b.keys) && answers source)) [
    | inr silent ↦
        tick-Ends rt n source asks b s
          (λ x so. inl (begins, b, s, rw (so.0, silent) refl, begins-Ends rt n source b s h.valid))
    | inl asked ↦
        let vals = source.get_vals b.keys b.vals in
        tick-Ends rt n source asks b s (λ x so. inl (
          adds b.keys vals,
          record b { vals = vals },
          s,
          rw (so.0, asked) refl,
          adds-Ends rt n source leak b.keys vals (record b { vals = vals }) s h,
        ))
  ]

  collects-Ends :
      (leak t : ℕ) (b : Batch) (s : Storage)
      → HasRoom leak (batch_bytes b.keys (source.get_vals b.keys b.vals)) s
      → Ends rt n source (collects t) b s
  unfolding tick
  collects-Ends leak zero b s h =
      tick-Ends rt n source (collects zero) b s
        (λ x so. inl (asks, b, s, refl, asks-Ends leak b s h))
  collects-Ends leak (suc t) b s h =
      tick-Ends rt n source (collects (suc t)) b s
        (λ x so. inl (asks, b, s, rw (so.1) refl, asks-Ends leak b s h))

  takes-Ends :
      (leak t : ℕ) (b : Batch) (s : Storage)
      → HasRoom leak (found_bytes source b (taken_keys b s)) s
      → Ends rt n source (takes t) b s
  unfolding tick
  takes-Ends leak t b s h =
      let c : Batch = record b { keys = taken_keys b s } in
      tick-Ends rt n source (takes t) b s (λ x so. inl (
        collects t,
        c,
        (pop_key s).0,
        refl,
        collects-Ends leak t c (pop_key s).0 (pop_key-HasRoom leak _ s h),
      ))

  measures-Ends :
      (leak t : ℕ) (b : Batch) (s : Storage)
      → HasRoom leak (found_bytes source b b.keys + found_bytes source b (taken_keys b s)) s
      → Ends rt n source (measures t) b s
  unfolding tick
  measures-Ends leak t b s h = elim (Bool-cases (has_room s.max_storage_size s)) [
    | inl room ↦ tick-Ends rt n source (measures t) b s (λ x so. inl (
      takes t,
      b,
      s,
      rw room refl,
      takes-Ends leak t b s (less-HasRoom leak _ _ s (omega arith) h),
    ))
    | inr full ↦ tick-Ends rt n source (measures t) b s (λ x so.
        inl
          (asks, b, s, rw full refl, asks-Ends leak b s (less-HasRoom leak _ _ s (omega arith) h)))
  ]

  looks-Ends :
      (leak t : ℕ) (b : Batch) (s : Storage)
      → HasRoom leak (found_bytes source b b.keys + found_bytes source b (taken_keys b s)) s
      → Ends rt n source (looks t) b s
  unfolding tick
  looks-Ends leak t b s h = elim (Bool-cases (queue_size s == 0)) [
    | inl none_there ↦ tick-Ends rt n source (looks t) b s (λ x so. inl (
      asks,
      b,
      s,
      rw none_there refl,
      asks-Ends leak b s (less-HasRoom leak _ _ s (omega arith) h),
    ))
    | inr some_there ↦
        tick-Ends rt n source (looks t) b s
          (λ x so. inl (measures t, b, s, rw some_there refl, measures-Ends leak t b s h))
  ]

  clears-Ends :
      (leak : ℕ) (b : Batch) (s : Storage)
      → HasRoom leak (found_bytes source b b.keys) s
      → Ends rt n source clears b s
  unfolding tick
  clears-Ends leak b s h =
      expiry-Ends rt n source clears (collects n) leak (found_bytes source b b.keys) b s (λ x. refl)
        h (λ t h' fewer. collects-Ends leak n b t h')

  heads-Ends :
      (leak : ℕ) (b : Batch) (s : Storage)
      → HasRoom leak (found_bytes source b b.keys) s
      → Ends rt n source heads b s
  unfolding tick
  heads-Ends leak b s h = elim (Bool-cases (size_sub s.max_storage_size (storage_size s) == 0)) [
    | inl full ↦
        tick-Ends rt n source heads b s
          (λ x so. inl (clears, b, s, rw full refl, clears-Ends leak b s h))
    | inr room ↦
        tick-Ends rt n source heads b s
          (λ x so. inl (collects n, b, s, rw room refl, collects-Ends leak n b s h))
  ]

  -- Wherever the filler's thread stands when `Shutdown` clears `is_alive_`, and whatever it then reads from the clock, its first steps bring it to its end, with a valid map,
  -- or they meet an increment of an erased iterator that does not lead to the successor, and are
  -- undefined there. For that, the storage expires at least one byte at a time, the bytes that it
  -- lost and those that the thread can still add stay under its limit, and its byte counter with
  -- them in 32 bits. Nothing else changes the storage in between, and the library stays the same.
  pub shutdown_ends :
      (leak : ℕ) (p : Phase) (b : Batch) (s : Storage)
      → HasRoom leak (pending source p b s) s
      → (reads : ℕ → Reading) → ((i : ℕ) → Stopped source (reads i))
      → (k : ℕ) × (((c : Batch) × (t : Storage) × (ticks rt n (readings k reads) (at_phase p b, s)
              ≡ ok (at_phase ended c, t))
            × IsValid t.storage)
          ⊎ EndsAt rt (ticks rt n (readings k reads) (at_phase p b, s)))
  unfolding pending
  shutdown_ends leak begins b s h = begins-Ends rt n source b s h.valid
  shutdown_ends leak ended b s h = ended-Ends rt n source b s h.valid
  shutdown_ends leak heads b s h = heads-Ends leak b s h
  shutdown_ends leak clears b s h = clears-Ends leak b s h
  shutdown_ends leak asks b s h = asks-Ends leak b s h
  shutdown_ends leak (collects t) b s h = collects-Ends leak t b s h
  shutdown_ends leak (looks t) b s h = looks-Ends leak t b s h
  shutdown_ends leak (measures t) b s h = measures-Ends leak t b s h
  shutdown_ends leak (takes t) b s h = takes-Ends leak t b s h
  shutdown_ends leak (adds ks vs) b s h = adds-Ends rt n source leak ks vs b s h
  shutdown_ends leak (frees k v ks vs) b s h =
      expiry-Ends rt n source (frees k v ks vs) (adds (k ∷ ks) (v ∷ vs)) leak
        ((length k + length v) + batch_bytes ks vs) b s (λ x. unfold tick in refl) h
        (λ t h' fewer. adds-Ends rt n source leak (k ∷ ks) (v ∷ vs) b t h')
  shutdown_ends leak (puts k v ks vs) b s h =
      puts-Ends rt n source leak k v ks vs b s h
        (λ leaked t h'. adds-Ends rt n source leaked ks vs b t h')
