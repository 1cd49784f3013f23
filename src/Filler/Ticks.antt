-- ===== src/Filler/Ticks.antt =====
-- src/abstract_filler.cpp, `operator ()` with `add_item` of src/storage.cpp: the filler's thread one
-- access to the storage at a time, so that other threads can run between any two.
use swordfishd.Base.{
  ℕ, zero, suc, ◌≡◌, ◌⊎◌, ◌∙◌, refl, Bool, ◌&&◌, List, [], ◌∷◌, ◌++◌, ltb, leb, ◌==◌, if◌then◌else◌,
  Bool-cases, inl, inr, length, Bytes, empty, size_sub, Run, ok, ◌>>=◌,
}
use swordfishd.Dhashmap
use swordfishd.Dhashmap.{Runtime}
use swordfishd.Dhashmap.Invariant.{IsValid}
use swordfishd.Dhashmap.InsertNew.{add-IsValid}
use swordfishd.Dhashmap.Increment.{mended, EndsAt}
use swordfishd.Storage.Increment.{expirate_agrees}
use swordfishd.Storage.{Storage, expirate, queue_size, pop_key, storage_size}
use swordfishd.Storage.Sound.{expirate_returns}
use swordfishd.Filler.{Source, Batch, has_room, answers}

-- Where the thread stands: at the head of the outer loop; before the test for room there, and the
-- expiry; in the loop that takes keys, with at most `t` to go, at its four accesses; before the
-- call of the library; in the loop that adds, at the test of `add_item`, at the expiry behind it,
-- and at the addition; and behind all.
pub data Phase : Type 0 where
  begins heads clears asks ended : Phase
  collects looks measures takes : (t : ℕ) → Phase
  adds : (keys vals : List Bytes) → Phase
  frees puts : (key val : Bytes) (keys vals : List Bytes) → Phase

-- The thread with its local vectors.
pub record Thread : Type 0 where
  pub phase : Phase
  pub batch : Batch

-- What a step reads from its surroundings: `is_alive`, the library and the clock.
pub record Reading : Type 0 where
  pub alive : Bool
  pub source : Source
  pub now : ℕ

-- The thread goes on to another place.
abbrev pub at_phase : Phase → Batch → Thread
at_phase p b = record { phase = p; batch = b }

-- One step. `n` is `max_fill_size_`.
unfoldable pub tick : Runtime → ℕ → Reading → Phase → Batch → Storage → Run (Thread × Storage)
tick rt n x begins b s = ok (at_phase (if x.alive then heads else ended) b, s)
tick rt n x heads b s =
    let full = size_sub s.max_storage_size (storage_size s) == 0 in
    ok (at_phase (if full then clears else collects n) b, s)
tick rt n x clears b s = do s' ← expirate rt s; ok (at_phase (collects n) b, s')
tick rt n x (collects zero) b s = ok (at_phase asks b, s)
tick rt n x (collects (suc t)) b s = ok (at_phase (if x.alive then looks t else asks) b, s)
tick rt n x (looks t) b s = ok (at_phase (if queue_size s == 0 then asks else measures t) b, s)
tick rt n x (measures t) b s =
    ok (at_phase (if has_room s.max_storage_size s then takes t else asks) b, s)
tick rt n x (takes t) b s =
    let r = pop_key s in
    let taken = if empty r.1 then b.keys else b.keys ++ r.1 ∷ [] in
    ok (at_phase (collects t) (record b { keys = taken }), r.0)
tick rt n x asks b s =
    let vals = x.source.get_vals b.keys b.vals in
    if ltb 0 (length b.keys) && answers x.source
    then ok (at_phase (adds b.keys vals) (record b { vals = vals }), s)
    else ok (at_phase begins b, s)
tick rt n x (adds (k ∷ ks) (v ∷ vs)) b s =
    let next =
      if leb s.max_storage_size (storage_size s) then frees k v ks vs else puts k v ks vs in
    ok (at_phase next b, s)
tick rt n x (adds _ _) b s = ok (at_phase begins (record b { keys = [] }), s)
tick rt n x (frees k v ks vs) b s = do
  s' ← expirate rt s
  ok (at_phase (adds (k ∷ ks) (v ∷ vs)) b, s')
tick rt n x (puts k v ks vs) b s = do
  m ← Dhashmap.add rt s.storage k v x.now
  ok (at_phase (adds ks vs) b, record s { storage = m })
tick rt n x ended b s = ok (at_phase ended b, s)

pub expirate_ok :
    (rt : Runtime) (s : Storage) (r : Dhashmap.Dhashmap × ℕ)
    → Dhashmap.expirate rt s.storage s.expirate_size ≡ ok r
    → expirate rt s ≡ ok (record s { storage = r.0 })
unfolding expirate
expirate_ok rt s r run = rw run refl

-- Steps one after the other.
unfoldable pub ticks : Runtime → ℕ → List Reading → Thread × Storage → Run (Thread × Storage)
ticks rt n [] y = ok y
ticks rt n (x ∷ xs) y = do z ← tick rt n x y.0.phase y.0.batch y.1; ticks rt n xs z

pub expirate-IsValid :
    (rt : Runtime) (s : Storage)
    → IsValid s.storage
    → ((t : Storage) × (expirate rt s ≡ ok t) × IsValid t.storage) ⊎ EndsAt rt (expirate rt s)
expirate-IsValid rt s v = elim (expirate_agrees rt s) [
  | inr ends ↦ inr ends
  | inl same ↦
      let (r, run, hooks, valid) =
        expirate_returns (mended rt) s.storage s.expirate_size (λ e es. refl) v in
      inl (record s { storage = r.0 }, same ∙ expirate_ok (mended rt) s r run, valid)
]

-- A step returns, on a valid map, and leaves one, or it ends at an increment.
abbrev pub Steps : Runtime → Run (Thread × Storage) → Type 0
Steps rt r = ((y : Thread × Storage) × (r ≡ ok y) × IsValid y.1.storage) ⊎ EndsAt rt r

expiry-Steps :
    (rt : Runtime) (p : Phase) (b : Batch) (s : Storage)
    → IsValid s.storage
    → Steps rt (do s' ← expirate rt s; ok (at_phase p b, s'))
expiry-Steps rt p b s v = elim (expirate-IsValid rt s v) [
  | inl (t, run, valid) ↦ inl ((at_phase p b, t), rw run refl, valid)
  | inr (ends, b) ↦ inr (rw ends refl, b)
]

pub tick-Steps :
    (rt : Runtime) (n : ℕ) (x : Reading) (p : Phase) (b : Batch) (s : Storage)
    → IsValid s.storage
    → Steps rt (tick rt n x p b s)
unfolding tick pop_key
tick-Steps rt n x begins b s v = inl (_, refl, v)
tick-Steps rt n x heads b s v = inl (_, refl, v)
tick-Steps rt n x clears b s v = expiry-Steps rt (collects n) b s v
tick-Steps rt n x (collects zero) b s v = inl (_, refl, v)
tick-Steps rt n x (collects (suc t)) b s v = inl (_, refl, v)
tick-Steps rt n x (looks t) b s v = inl (_, refl, v)
tick-Steps rt n x (measures t) b s v = inl (_, refl, v)
tick-Steps rt n x (takes t) b s v = inl (_, refl, v)
tick-Steps rt n x asks b s v = elim (Bool-cases (ltb 0 (length b.keys) && answers x.source)) [
  | inl goes ↦
      let vals = x.source.get_vals b.keys b.vals in
      inl ((at_phase (adds b.keys vals) (record b { vals = vals }), s), rw goes refl, v)
  | inr stops ↦ inl ((at_phase begins b, s), rw stops refl, v)
]
tick-Steps rt n x (adds (k ∷ ks) (u ∷ us)) b s v = inl (_, refl, v)
tick-Steps rt n x (adds [] us) b s v = inl (_, refl, v)
tick-Steps rt n x (adds (k ∷ ks) []) b s v = inl (_, refl, v)
tick-Steps rt n x (frees k u ks us) b s v = expiry-Steps rt (adds (k ∷ ks) (u ∷ us)) b s v
tick-Steps rt n x (puts k u ks us) b s v =
    let (m, run, valid) = add-IsValid rt s.storage k u x.now v in
    inl ((at_phase (adds ks us) b, record s { storage = m }), rw run refl, valid)
tick-Steps rt n x ended b s v = inl (_, refl, v)
