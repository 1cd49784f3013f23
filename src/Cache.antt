-- ===== src/Cache.antt =====
-- include/dhashmap.hpp, as an abstract specification: what the clients of the map rely on, stated
-- on a function from keys to values. The map may forget: when it expires, and in the one case in
-- which `add` keeps the old value of a known key.
pub mod Increment
pub mod Steps
pub mod Runs
pub mod Notes
pub mod Alike
pub mod Placed
pub mod Replay
use swordfishd.Base.{
  ℕ, ◌≡◌, ◌≢◌, ◌⊎◌, Bool, true, false, Option, none, some, List, [], ◌∷◌, Bytes, str_eq, Run, ok,
  err, ◌>>=◌, if◌then◌else◌,
}
use swordfishd.Dhashmap
use swordfishd.Dhashmap.{Dhashmap, Runtime, Hooks, normalize}
use swordfishd.Dhashmap.Lookup.{or_given}
use swordfishd.Dhashmap.InsertView.{updated}

-- A call on the map, with its readings of the clock.
pub data Call : Type 0 where
  add : (key val : Bytes) (now : ℕ) → Call
  get : (key : Bytes) (now later : ℕ) → Call
  expirate : (limit : ℕ) → Call

-- What a call lets its caller see: nothing, or the value that `get` leaves in an empty string.
pub data Seen : Type 0 where
  nothing : Seen
  value : (key val : Bytes) → Seen

-- A call on the map as the code has it.
unfoldable pub perform : Runtime → Call → Dhashmap → Run (Dhashmap × Seen)
perform rt (add key val now) m = do m' ← Dhashmap.add rt m key val now; ok (m', nothing)
perform rt (get key now later) m = do
  r ← Dhashmap.get rt m key [] now later
  ok (r.0, value key r.1.val)
perform rt (expirate limit) m = do r ← Dhashmap.expirate rt m limit; ok (r.0, nothing)

unfoldable pub perform_all : Runtime → List Call → Dhashmap → Run (Dhashmap × List Seen)
perform_all rt [] m = ok (m, [])
perform_all rt (c ∷ calls) m = do
  r ← perform rt c m
  s ← perform_all rt calls r.0
  ok (s.0, r.1 ∷ s.1)

abbrev pub Contents : Type 0
Contents = Bytes → Option Bytes

-- What a call may do to the contents `f`, and what it may let its caller see.
abbrev pub Allows : Hooks → Contents → Call → Contents → Seen → Type 0
Allows h f (add key val now) g nothing =
    ((j : Bytes) → g j ≡ updated f key val j) ⊎ ((f key ≢ none) × ((j : Bytes) → g j ≡ f j))
Allows h f (get key now later) g (value k v) =
    ((j : Bytes) → g j ≡ f j) × (k ≡ key) × (v ≡ or_given (f (normalize h key)) [])
Allows h f (expirate limit) g nothing = (j : Bytes) → (g j ≡ f j) ⊎ (g j ≡ none)
Allows h f _ g _ = ⊥

-- A run of the specification.
pub data Trace (h : Hooks) : Contents → List Call → Contents → List Seen → Type 0 where
  done : {f : Contents} → Trace h f [] f []
  next :
      {f g k : Contents} {c : Call} {calls : List Call} {seen : Seen} {all : List Seen}
      → Allows h f c g seen
      → Trace h g calls k all
      → Trace h f (c ∷ calls) k (seen ∷ all)
