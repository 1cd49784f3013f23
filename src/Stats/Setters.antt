-- ===== src/Stats/Setters.antt =====
-- include/stats.hpp, its two lock classes, and the setters of src/stats.cpp as threads run them:
-- each takes the `write_scoped_lock`, and `+=` loads the counter and stores it in another step.
use swordfishd.Base.{
  ℕ, ◌≡◌, refl, ap, inl, inr, Bool, true, false, some, List, [], ◌∷◌, arith, ◌==◌, if◌then◌else◌,
  Bool-cases, uint_add,
}
use swordfishd.Locks.{Mutex}
use swordfishd.Locks.Exclusion.{upgradable_lock}
use swordfishd.Stats
use swordfishd.Stats.{Stats}

-- A call of a setter, with its reading of the clock.
pub data Setter : Type 0 where
  sets_start_time : (now : ℕ) → Setter
  sets_storage_size : (size : ℕ) → Setter
  sets_values_size : (size : ℕ) → Setter
  sets_queue_size : (size : ℕ) → Setter
  adds_deleted : (count : ℕ) → Setter
  adds_gets : (count : ℕ) → Setter
  adds_updates : (count : ℕ) → Setter
  resets : (now : ℕ) → Setter

-- The call as one step.
abbrev pub apply : Setter → Stats → Stats
apply (sets_start_time now) s = Stats.set_start_time s now
apply (sets_storage_size size) s = Stats.set_storage_size s size
apply (sets_values_size size) s = Stats.set_values_size s size
apply (sets_queue_size size) s = Stats.set_queue_size s size
apply (adds_deleted count) s = Stats.set_deleted s count
apply (adds_gets count) s = Stats.set_gets s count
apply (adds_updates count) s = Stats.set_updates s count
apply (resets now) s = Stats.reset now

-- What it stores, given the statistics at its load. An assignment uses nothing that it loaded.
unfoldable pub store : Setter → Stats → Stats → Stats
store (adds_deleted count) seen s = record s { deleted = uint_add seen.deleted count }
store (adds_gets count) seen s = record s { gets = uint_add seen.gets count }
store (adds_updates count) seen s = record s { updates = uint_add seen.updates count }
store c seen s = apply c s

-- Where a thread stands: outside, behind the lock, behind the load, behind the store.
pub data Stage : Type 0 where
  outside : Stage
  entered : (c : Setter) → Stage
  read : (c : Setter) (seen : Stats) → Stage
  written : Stage

abbrev pub within : Stage → Bool
within outside = false
within _ = true

-- The object, with the calls that have stored, the last one first.
pub record Object (x : Mutex) : Type 0 where
  pub mutex : x.State
  pub stats : Stats
  pub calls : List Setter

pub data Goes {x : Mutex} (o : Object x) : Stage → Object x → Stage → Type 0 where
  enters :
      {u : x.State} (c : Setter)
      → x.lock_upgradable o.mutex ≡ some u
      → Goes o outside (record o { mutex = u }) (entered c)
  reads : {c : Setter} → Goes o (entered c) o (read c o.stats)
  stores :
      {c : Setter} {seen : Stats}
      → Goes o
          (read c seen)
          (record o { stats = store c seen o.stats; calls = c ∷ o.calls })
          written
  exits : Goes o written (record o { mutex = x.unlock_upgradable o.mutex }) outside

abbrev pub stage : (ℕ → Stage) → ℕ → Stage → ℕ → Stage
stage f i c j = if i == j then c else f j

-- What threads can come to, from statistics `s₀`.
pub data Runs (x : Mutex) (s₀ : Stats) : Object x → (ℕ → Stage) → Type 0 where
  starts : Runs x s₀ (record { mutex = x.free; stats = s₀; calls = [] }) (λ i. outside)
  goes :
      {o o' : Object x} {f : ℕ → Stage} {c : Stage} (i : ℕ)
      → Runs x s₀ o f
      → Goes o (f i) o' c
      → Runs x s₀ o' (stage f i c)

-- The calls one after the other, the last one first in the list.
abbrev pub apply_all : List Setter → Stats → Stats
apply_all [] s = s
apply_all (c ∷ cs) s = apply c (apply_all cs s)

-- What a load saw is still there.
abbrev IsCurrent : Stats → Stage → Type 0
IsCurrent s (read c seen) = seen ≡ s
IsCurrent s _ = Unit

record Ordered {x : Mutex} (s₀ : Stats) (o : Object x) (f : ℕ → Stage) : Type 0 where
  unique : (i j : ℕ) → within (f i) ≡ true → within (f j) ≡ true → i ≡ j
  held : (i : ℕ) → within (f i) ≡ true → x.upgradable o.mutex ≡ true
  current : (i : ℕ) → IsCurrent o.stats (f i)
  in_turn : o.stats ≡ apply_all o.calls s₀

store-apply : (c : Setter) (s : Stats) → store c s s ≡ apply c s
unfolding store Stats.set_deleted Stats.set_gets Stats.set_updates
store-apply (sets_start_time now) s = refl
store-apply (sets_storage_size size) s = refl
store-apply (sets_values_size size) s = refl
store-apply (sets_queue_size size) s = refl
store-apply (adds_deleted count) s = refl
store-apply (adds_gets count) s = refl
store-apply (adds_updates count) s = refl
store-apply (resets now) s = refl

-- A thread that is outside has loaded nothing.
IsCurrent-outside : (s : Stats) (c : Stage) → within c ≡ false → IsCurrent s c
IsCurrent-outside s outside h = tt
IsCurrent-outside s (entered c) h = tt
IsCurrent-outside s (read c seen) h = absurd (cc)
IsCurrent-outside s written h = tt

IsCurrent-stage :
    (s : Stats) (f : ℕ → Stage) (i : ℕ) (c : Stage)
    → IsCurrent s c
    → ((a : ℕ) → (i == a) ≡ false → IsCurrent s (f a))
    → (a : ℕ) → IsCurrent s (stage f i c a)
IsCurrent-stage s f i c here there a = elim (Bool-cases (i == a)) [
  | inl same ↦ rw same here
  | inr other ↦ rw other (there a other)
]

Goes-Ordered :
    {x : Mutex} (s₀ : Stats) (i : ℕ) (o o' : Object x) (f : ℕ → Stage) (p c : Stage)
    → f i ≡ p
    → Ordered s₀ o f
    → Goes o p o' c
    → Ordered s₀ o' (stage f i c)
Goes-Ordered {x} s₀ i o o' f p c at k (Goes.enters d h) =
    let (before, after) = upgradable_lock x o.mutex h in
    record {
      unique = λ a b. ground (arith, k.held a, k.held b);
      held = λ a w. after;
      current = IsCurrent-stage o.stats f i (entered d) tt (λ a other. k.current a);
      in_turn = k.in_turn;
    }
Goes-Ordered {x} s₀ i o o' f p c at k Goes.reads = record {
  unique = λ a b. ground (arith, at, k.unique a b, k.unique i a, k.unique i b);
  held = λ a w. ground (arith, at, k.held a, k.held i);
  current = IsCurrent-stage o.stats f i _ refl (λ a other. k.current a);
  in_turn = k.in_turn;
}
Goes-Ordered {x} s₀ i o o' f p c at k (Goes.stores {c = d} {seen = seen}) =
    let mine : within (f i) ≡ true = rw at in
    let same : seen ≡ o.stats = rw at at (k.current i) in
    record {
      unique = λ a b. ground (arith, at, k.unique a b, k.unique i a, k.unique i b);
      held = λ a w. k.held i mine;
      current =
          IsCurrent-stage _ f i written tt
            (λ a other. IsCurrent-outside _ (f a) (ground (arith, mine, k.unique i a)));
      in_turn = rw (same, store-apply d o.stats) (ap (apply d) k.in_turn);
    }
Goes-Ordered {x} s₀ i o o' f p c at k Goes.exits =
    let mine : within (f i) ≡ true = rw at in
    let others : (a : ℕ) → (i == a) ≡ false → within (f a) ≡ false =
      λ a other. ground (arith, mine, k.unique i a) in
    record {
      unique = λ a b. ground (arith, others a, others b);
      held = λ a w. absurd (ground (arith, others a));
      current = IsCurrent-stage o.stats f i outside tt (λ a other. k.current a);
      in_turn = k.in_turn;
    }

Runs-Ordered :
    {x : Mutex} {s₀ : Stats} {o : Object x} {f : ℕ → Stage} → Runs x s₀ o f → Ordered s₀ o f
Runs-Ordered starts = record {
  unique = λ a b h w. absurd (cc);
  held = λ a h. absurd (cc);
  current = λ a. tt;
  in_turn = refl;
}
Runs-Ordered {x} {s₀} (goes {o = o} {o' = o'} {f = f} {c = c} i r g) =
    Goes-Ordered s₀ i o o' f (f i) c refl (Runs-Ordered r) g

-- Whatever threads call the setters, and however their loads and stores interleave: the statistics
-- are those that the calls that have stored make one after the other, each in one step, in the
-- order of their stores. No addition is lost.
pub setters_in_turn :
    {x : Mutex} {s₀ : Stats} {o : Object x} {f : ℕ → Stage}
    → Runs x s₀ o f
    → o.stats ≡ apply_all o.calls s₀
setters_in_turn r = (Runs-Ordered r).in_turn
