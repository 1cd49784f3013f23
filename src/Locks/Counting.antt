-- ===== src/Locks/Counting.antt =====
-- src/dhashmap.cpp, `++gets_` in `get` and the reset in `get_gets`, each a load and a store under
-- the lock of a `write_scoped_lock`.
use swordfishd.Base.{
  ℕ, ◌≡◌, refl, ◌∙◌, inl, inr, true, Option, none, some, arith, ◌==◌, Bool-cases, uint_add,
}
use swordfishd.Locks.{
  Mutex, Shared, Place, idle, counting, loaded, counted, between, reading, updating, leaving,
  writing, fetching, fetched, emptied, deleted_fetching, deleted_fetched, holds, Move, update,
  Threads, turn, Reach, start, next,
}
use swordfishd.Locks.Exclusion.{IsExclusive, Reach-IsExclusive}

-- The value of `gets_` that a thread has loaded.
abbrev knows : Place → Option ℕ
knows (loaded k) = some k
knows (fetched k) = some k
knows _ = none

knows-holds : (p : Place) (k : ℕ) → knows p ≡ some k → holds p ≡ true
knows-holds (loaded j) k h = refl
knows-holds (fetched j) k h = refl
knows-holds idle k h = cc
knows-holds counting k h = cc
knows-holds counted k h = cc
knows-holds between k h = cc
knows-holds reading k h = cc
knows-holds updating k h = cc
knows-holds leaving k h = cc
knows-holds writing k h = cc
knows-holds fetching k h = cc
knows-holds emptied k h = cc
knows-holds deleted_fetching k h = cc
knows-holds (deleted_fetched j) k h = cc

-- Every call of `get` is counted once: in the counter, or in what `get_gets` has returned.
abbrev pub IsKept : {x : Mutex} → Shared x → Type 0
IsKept m = uint_add m.gets m.gets_told ≡ m.calls

record IsCounted {x : Mutex} (s : Threads x) : Type 0 where
  known : (i k : ℕ) → knows (s.place i) ≡ some k → s.shared.gets ≡ k
  kept : IsKept s.shared

-- What a step does with the counter: nothing, or it stores under the lock.
data Effect {x : Mutex} (m m' : Shared x) (p q : Place) : Type 0 where
  quiet : m'.gets ≡ m.gets → IsKept m' → ((k : ℕ) → knows q ≡ some k → m.gets ≡ k) → Effect m m' p q
  stores : holds p ≡ true → IsKept m' → knows q ≡ none → Effect m m' p q

Move-Effect :
    {x : Mutex} {m m' : Shared x} {p q : Place}
    → Move m p m' q
    → ((k : ℕ) → knows p ≡ some k → m.gets ≡ k)
    → IsKept m
    → Effect m m' p q
unfolding uint_add
Move-Effect (Move.count_begin h) f c = quiet refl c (λ k e. cc)
Move-Effect Move.count_load f c = quiet refl c (λ k e. cc)
Move-Effect (Move.count_store {k}) f c = let e = f k refl in stores refl (omega (arith, e, c)) refl
Move-Effect Move.count_end f c = quiet refl c (λ k e. cc)
Move-Effect (Move.read_begin h) f c = quiet refl c (λ k e. cc)
Move-Effect Move.read_end f c = quiet refl c (λ k e. cc)
Move-Effect (Move.update_begin h) f c = quiet refl c (λ k e. cc)
Move-Effect Move.update_end f c = quiet refl c (λ k e. cc)
Move-Effect Move.leave f c = quiet refl c (λ k e. cc)
Move-Effect (Move.write_begin h) f c = quiet refl c (λ k e. cc)
Move-Effect Move.erase f c = quiet refl c (λ k e. cc)
Move-Effect Move.write_end f c = quiet refl c (λ k e. cc)
Move-Effect (Move.fetch_begin h) f c = quiet refl c (λ k e. cc)
Move-Effect Move.fetch f c = quiet refl c (λ k e. cc)
Move-Effect (Move.fetch_reset {k}) f c = let e = f k refl in stores refl (omega (arith, e, c)) refl
Move-Effect Move.fetch_end f c = quiet refl c (λ k e. cc)
Move-Effect (Move.deleted_begin h) f c = quiet refl c (λ k e. cc)
Move-Effect Move.deleted_fetch f c = quiet refl c (λ k e. cc)
Move-Effect Move.deleted_reset f c = quiet refl c (λ k e. cc)

Effect-IsCounted :
    {x : Mutex} (n i : ℕ) (s : Threads x) (m : Shared x) (p : Place)
    → IsExclusive n s
    → IsCounted s
    → Effect s.shared m (s.place i) p
    → IsCounted (record { shared = m; place = update s.place i p })
Effect-IsCounted n i s m p e c (quiet same kept new) = record {
  known = λ j k h. elim (Bool-cases (i == j)) [
    | inl self ↦ same ∙ new k (rw self at h)
    | inr other ↦ same ∙ c.known j k (rw other at h)
  ];
  kept = kept;
}
Effect-IsCounted n i s m p e c (stores had kept new) = record {
  known = λ j k h. elim (Bool-cases (i == j)) [
    | inl self ↦ let h' : knows p ≡ some k = rw self at h in absurd (cc)
    | inr other ↦
        let h' : knows (s.place j) ≡ some k = rw other at h in
        let both = e.unique i j had (knows-holds (s.place j) k h') in absurd (ground arith)
  ];
  kept = kept;
}

Reach-IsCounted : {x : Mutex} {n : ℕ} {s : Threads x} → Reach n s → IsCounted s
unfolding uint_add
Reach-IsCounted start = record { known = λ i k h. cc; kept = omega arith }
Reach-IsCounted {n = n} (next {s = s} r (turn i {m} {p} lt mv)) =
    let c = Reach-IsCounted r in
    Effect-IsCounted n i s m p (Reach-IsExclusive r) c (Move-Effect mv (c.known i) c.kept)

-- No call of `get` is lost or counted twice: in every state that the threads can reach, the
-- counter and what `get_gets` has returned add up to the calls, modulo 2 ^ 32.
pub gets-IsKept : {x : Mutex} {n : ℕ} {s : Threads x} → Reach n s → IsKept s.shared
gets-IsKept r = (Reach-IsCounted r).kept
