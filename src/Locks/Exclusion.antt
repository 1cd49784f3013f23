-- ===== src/Locks/Exclusion.antt =====
-- include/dhashmap.hpp, `write_scoped_lock`: no two threads have its lock at a time.
use swordfishd.Base.{
  ℕ, ◌<◌, ◌≡◌, ◌≢◌, refl, sym, ap, ◌∙◌, inl, inr, true, false, some, arith, ◌==◌, Bool-cases,
}
use swordfishd.Locks.{Mutex, Shared, Place, holds, Move, update, Threads, turn, Reach, start, next}

-- The lock of a `write_scoped_lock` is taken exactly while one thread holds it.
pub record IsExclusive {x : Mutex} (n : ℕ) (s : Threads x) : Type 0 where
  pub unique : (i j : ℕ) → holds (s.place i) ≡ true → holds (s.place j) ≡ true → i ≡ j
  pub held : (i : ℕ) → holds (s.place i) ≡ true → x.upgradable s.shared.mutex ≡ true
  pub covered : x.upgradable s.shared.mutex ≡ true → (i : ℕ) × (i < n) × (holds (s.place i) ≡ true)

-- What a step does with the lock: it takes it, gives it back, or leaves it alone.
data Effect (x : Mutex) (u v : x.State) (p q : Place) : Type 0 where
  takes : x.lock_upgradable u ≡ some v → holds q ≡ true → Effect x u v p q
  gives : holds p ≡ true → holds q ≡ false → v ≡ x.unlock_upgradable u → Effect x u v p q
  keeps : holds q ≡ holds p → x.upgradable v ≡ x.upgradable u → Effect x u v p q

sharable_same :
    (x : Mutex) (s : x.State) {t : x.State}
    → x.lock_sharable s ≡ some t
    → x.upgradable t ≡ x.upgradable s
sharable_same x s {t} h =
    let (u, granted, same) = x.sharable_lem s in let e : u ≡ t = cc in rw (← e) same

pub upgradable_lock :
    (x : Mutex) (s : x.State) {t : x.State}
    → x.lock_upgradable s ≡ some t
    → (x.upgradable s ≡ false) × (x.upgradable t ≡ true)
upgradable_lock x s {t} h = elim (Bool-cases (x.upgradable s)) [
  | inl taken ↦ let none_there = x.refused s taken in absurd (cc)
  | inr is_free ↦
      let (u, granted, now) = x.granted s is_free in let e : u ≡ t = cc in (is_free, rw (← e) now)
]

Move-Effect :
    {x : Mutex} {m m' : Shared x} {p q : Place} → Move m p m' q → Effect x m.mutex m'.mutex p q
Move-Effect (Move.count_begin h) = takes h refl
Move-Effect Move.count_load = keeps refl refl
Move-Effect Move.count_store = keeps refl refl
Move-Effect Move.count_end = gives refl refl refl
Move-Effect {x} {m} (Move.read_begin h) = keeps refl (sharable_same x m.mutex h)
Move-Effect Move.read_end = keeps refl refl
Move-Effect (Move.update_begin h) = takes h refl
Move-Effect Move.update_end = gives refl refl refl
Move-Effect {x} {m} Move.leave = keeps refl (x.unlock_sharable_lem m.mutex)
Move-Effect (Move.write_begin h) = takes h refl
Move-Effect Move.erase = keeps refl refl
Move-Effect Move.write_end = gives refl refl refl
Move-Effect (Move.fetch_begin h) = takes h refl
Move-Effect Move.fetch = keeps refl refl
Move-Effect Move.fetch_reset = keeps refl refl
Move-Effect Move.fetch_end = gives refl refl refl
Move-Effect {x} {m} (Move.deleted_begin h) = keeps refl (sharable_same x m.mutex h)
Move-Effect Move.deleted_fetch = keeps refl refl
Move-Effect Move.deleted_reset = keeps refl refl

pub update_self : (f : ℕ → Place) (i : ℕ) (p : Place) → update f i p i ≡ p
update_self f i p = ground arith

pub update_ne : (f : ℕ → Place) (i j : ℕ) (p : Place) → i ≢ j → update f i p j ≡ f j
update_ne f i j p h = ground arith

holds-update_same :
    (f : ℕ → Place) (i : ℕ) (p : Place)
    → holds p ≡ holds (f i)
    → (a : ℕ) → holds (update f i p a) ≡ holds (f a)
holds-update_same f i p h a = elim (Bool-cases (i == a)) [
  | inl same ↦ let here : i ≡ a = ground arith in rw same (h ∙ ap (λ (j : ℕ). holds (f j)) here)
  | inr other ↦ rw other
]

Effect-IsExclusive :
    {x : Mutex} (n i : ℕ) (s : Threads x) (m : Shared x) (p : Place)
    → i < n
    → Effect x s.shared.mutex m.mutex (s.place i) p
    → IsExclusive n s
    → IsExclusive n (record { shared = m; place = update s.place i p })
Effect-IsExclusive {x} n i s m p lt (takes h q) e =
    let (before, after) = upgradable_lock x s.shared.mutex h in
    let others = λ (j : ℕ). e.held j in
    record {
      unique = λ a b. ground (arith, e.held a, e.held b);
      held = λ a k. after;
      covered = λ u. (i, lt, ground arith);
    }
Effect-IsExclusive {x} n i s m p lt (gives had q v) e =
    let after : x.upgradable m.mutex ≡ false =
      rw v (x.unlock_upgradable_lem s.shared.mutex (e.held i had)) in
    record {
      unique = λ a b. ground (arith, e.unique a b, e.unique i a, e.unique i b);
      held = λ a k. ground (arith, e.unique i a);
      covered = λ u. absurd (cc);
    }
Effect-IsExclusive {x} n i s m p lt (keeps same v) e =
    let as_before = holds-update_same s.place i p same in
    record {
      unique = λ a b h k. e.unique a b (sym (as_before a) ∙ h) (sym (as_before b) ∙ k);
      held = λ a k. v ∙ e.held a (sym (as_before a) ∙ k);
      covered = λ u. let (j, below, k) = e.covered (sym v ∙ u) in (j, below, as_before j ∙ k);
    }

-- In every state that the threads can reach, no two threads hold the lock of a `write_scoped_lock`,
-- and the mutex has it taken exactly while one thread does.
pub Reach-IsExclusive : {x : Mutex} {n : ℕ} {s : Threads x} → Reach n s → IsExclusive n s
Reach-IsExclusive {x} start = record {
  unique = λ a b h k. cc;
  held = λ a k. cc;
  covered = λ u. absurd (cc (x.free_lem));
}
Reach-IsExclusive {x} {n} (next {s = s} r (turn i {m} {p} lt mv)) =
    Effect-IsExclusive n i s m p lt (Move-Effect mv) (Reach-IsExclusive r)
