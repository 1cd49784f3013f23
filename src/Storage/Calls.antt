-- ===== src/Storage/Calls.antt =====
-- src/storage.cpp: the calls that the workers and the filler make on one storage, in any order.
use swordfishd.Base.{
  ℕ, ◌≡◌, refl, ◌⊎◌, inl, inr, Option, none, some, List, [], ◌∷◌, All, Bytes, Run, ok, err, ◌>>=◌,
  Run-cases, Bool-cases, leb, if◌then◌else◌, suc,
}
use swordfishd.Command
use swordfishd.Command.{Command}
use swordfishd.Dhashmap.{Runtime, Hooks, normalize}
use swordfishd.Dhashmap
use swordfishd.Dhashmap.Increment.{EndsAt}
use swordfishd.Storage.{
  Storage, Formats, get_val, pop_key, get_stats, add_item, add_round, expirate, reset_stats,
}
use swordfishd.Storage.Sound.{
  IsSound, IsMeant, get_val-IsSound, pop_key-IsSound, expirate-IsSound, add_round-IsSound,
  get_stats-IsSound, reset_stats-IsSound,
}

-- A call, with its readings of the clock; of `add_item` one round of its loop, so that other calls
-- can come between two.
pub data Call : Type 0 where
  asks : (cmd : Command) (clock : ℕ → ℕ × ℕ) → Call
  asks_stats : (now : ℕ) → Call
  resets_stats : (now : ℕ) → Call
  takes : Call
  tries : (key val : Bytes) (now : ℕ) → Call
  expires : Call

-- A call as the code has it, with the key that it takes from the queue.
unfoldable pub perform : Runtime → Formats → Call → Storage → Run (Storage × Option Bytes)
perform rt fmt (asks cmd clock) s = do r ← get_val rt fmt clock cmd s; ok (r.0, none)
perform rt fmt (asks_stats now) s = ok ((get_stats fmt now s).0, none)
perform rt fmt (resets_stats now) s = ok (reset_stats s now, none)
perform rt fmt takes s = ok ((pop_key s).0, some (pop_key s).1)
perform rt fmt (tries key val now) s = do r ← add_round rt s key val now; ok (r.0, none)
perform rt fmt expires s = do t ← expirate rt s; ok (t, none)

unfoldable pub perform_all :
    Runtime → Formats → List Call → Storage → Run (Storage × List (Option Bytes))
perform_all rt fmt [] s = ok (s, [])
perform_all rt fmt (c ∷ calls) s = do
  r ← perform rt fmt c s
  t ← perform_all rt fmt calls r.0
  ok (t.0, r.1 ∷ t.1)

-- `add_item` runs rounds of its loop until one adds.
pub add_item_rounds :
    (fuel : ℕ) (rt : Runtime) (s : Storage) (key val : Bytes) (now : ℕ)
    → add_item (suc fuel) rt s key val now ≡ (elim (add_round rt s key val now) [
      | err f ↦ some (err f)
      | ok r ↦ if r.1 then some (ok r.0) else add_item fuel rt r.0 key val now
    ])
unfolding add_item add_round
add_item_rounds fuel rt s key val now =
    elim (Bool-cases (leb s.max_storage_size (Dhashmap.get_storage_size s.storage))) [
      | inl full ↦ elim (Run-cases (expirate rt s)) [
        | inl (f, fails) ↦ rw (full, fails) refl
        | inr (t, freed) ↦ rw (full, freed) refl
      ]
      | inr room ↦ elim (Run-cases (Dhashmap.add rt s.storage key val now)) [
        | inl (f, fails) ↦ rw (room, fails) refl
        | inr (m, put) ↦ rw (room, put) refl
      ]
    ]

module _ (P : Bytes → Type 0) (h : Hooks) where
  -- The keys that a client asks for have the property once they are normalized.
  abbrev pub IsAsking : Call → Type 0
  IsAsking (asks cmd clock) = All (λ x. P (normalize h x)) (Command.arguments cmd)
  IsAsking _ = Unit

  perform-IsSound :
      (rt : Runtime) (fmt : Formats) (c : Call) (s : Storage)
      → IsAsking c
      → IsSound P h s
      → ((r : Storage × Option Bytes) × (perform rt fmt c s ≡ ok r)
          × IsSound P h r.0
          × IsMeant P h r.1)
        ⊎ EndsAt rt (perform rt fmt c s)
  unfolding perform
  perform-IsSound rt fmt (asks cmd clock) s p k =
      let (r, run, sound) = get_val-IsSound P h rt fmt clock cmd s p k in
      inl ((r.0, none), rw run refl, sound, tt)
  perform-IsSound rt fmt (asks_stats now) s p k =
      inl (_, refl, get_stats-IsSound P h fmt now s k, tt)
  perform-IsSound rt fmt (resets_stats now) s p k =
      inl (_, refl, reset_stats-IsSound P h s now k, tt)
  perform-IsSound rt fmt takes s p k =
      let (sound, taken) = pop_key-IsSound P h s k in inl (_, refl, sound, taken)
  perform-IsSound rt fmt (tries key val now) s p k =
      elim (add_round-IsSound P h rt s key val now k) [
        | inr (ends, b) ↦ inr (rw ends refl, b)
        | inl (r, run, sound) ↦ inl ((r.0, none), rw run refl, sound, tt)
      ]
  perform-IsSound rt fmt expires s p k = elim (expirate-IsSound P h rt s k) [
    | inr (ends, b) ↦ inr (rw ends refl, b)
    | inl (t, run, sound) ↦ inl ((t, none), rw run refl, sound, tt)
  ]

  -- On a storage whose map and queue are valid, with no more keys in the queue than its limit, which
  -- is below 2 ^ 32, and where every key in the queue has some property, over any sequence of calls
  -- of the workers and the filler, of which the clients' ask for keys that have this property once
  -- they are normalized, and `add_item` is given by the rounds of its loop: all calls return and
  -- none stops the program, the storage is such a storage again, and every key that the filler
  -- takes, but the empty one of an empty queue, has the property; so the filler fills what was
  -- asked for. Or an increment of an erased iterator does not lead to the successor, and the run is
  -- undefined there.
  pub perform_all-IsSound :
      (rt : Runtime) (fmt : Formats) (calls : List Call) (s : Storage)
      → All IsAsking calls
      → IsSound P h s
      → ((r : Storage × List (Option Bytes)) × (perform_all rt fmt calls s ≡ ok r)
          × IsSound P h r.0
          × All (IsMeant P h) r.1)
        ⊎ EndsAt rt (perform_all rt fmt calls s)
  unfolding perform_all
  perform_all-IsSound rt fmt [] s p k = inl ((s, []), refl, k, tt)
  perform_all-IsSound rt fmt (c ∷ calls) s p k = elim (perform-IsSound rt fmt c s p.0 k) [
    | inr (ends, b) ↦ inr (rw ends refl, b)
    | inl (r, run, sound, taken) ↦ elim (perform_all-IsSound rt fmt calls r.0 p.1 sound) [
      | inr (ends, b) ↦ inr (rw (run, perform_all, ends) refl, b)
      | inl (t, rest, sound', all) ↦
          inl ((t.0, r.1 ∷ t.1), rw (run, perform_all, rest) refl, sound', (taken, all))
    ]
  ]
