-- ===== src/System/Runs.antt =====
-- src/daemon.cpp, `run`: the connections of the server, whatever the filler and the signals do
-- between their completions.
use swordfishd.Base.{
  ℕ, suc, ◌≡◌, refl, ◌⊎◌, inl, inr, Bool, false, some, List, [], ◌∷◌, Run, ok, err, aborted,
  undefined_behaviour, Option,
}
use swordfishd.Dhashmap.Invariant.{IsValid}
use swordfishd.Dhashmap.Increment.{Breaks, EndsAt}
use swordfishd.Storage.{Storage}
use swordfishd.Worker.{Environment}
use swordfishd.Filler.Ticks.{Reading, tick-Steps, expirate-IsValid}
use swordfishd.Server.{Server}
use swordfishd.Server.Streams.{ClientStream, arrive}
use swordfishd.Server.Connections.{Sound, complete-Completes}
use swordfishd.System.{System, Event, serves, fills, expires, fill_on, expire_on, step, run}

-- What the clients have sent behind some events.
unfoldable pub heard : List Event → List ClientStream → List ClientStream
heard [] ss = ss
heard (serves c ∷ es) ss = heard es (arrive c ss)
heard (fills x ∷ es) ss = heard es ss
heard (expires ∷ es) ss = heard es ss

storage-Sound :
    (env : Environment) (ss : List ClientStream) (s : Server) (t : Storage)
    → IsValid t.storage
    → Sound env ss s
    → Sound env ss (record s { storage = t })
storage-Sound env ss s t v a = record {
  valid = v;
  one_accept = a.one_accept;
  all_serve = a.all_serve;
}

-- Where a step goes on, it leaves the system sound.
abbrev GoesOn : Environment → List ClientStream → Run System → Type 0
GoesOn env ss r = ((t : System) × (r ≡ ok t) × Sound env ss t.server) ⊎ EndsAt env.runtime r

fill_on-GoesOn :
    (env : Environment) (n : ℕ) (x : Reading) (ss : List ClientStream) (s : System)
    → Sound env ss s.server
    → GoesOn env ss (fill_on env n x s)
unfolding fill_on
fill_on-GoesOn env n x ss s a =
    elim (tick-Steps env.runtime n x s.filler.phase s.filler.batch s.server.storage a.valid) [
      | inr (ends, b) ↦ inr (rw ends refl, b)
      | inl (y, goes, v) ↦ inl (
        record s { server = record s.server { storage = y.1 }; filler = y.0 },
        rw goes refl,
        storage-Sound env ss s.server y.1 v a,
      )
    ]

expire_on-GoesOn :
    (env : Environment) (ss : List ClientStream) (s : System)
    → Sound env ss s.server
    → GoesOn env ss (expire_on env s)
unfolding expire_on
expire_on-GoesOn env ss s a = elim (expirate-IsValid env.runtime s.server.storage a.valid) [
  | inr (ends, b) ↦ inr (rw ends refl, b)
  | inl (t, goes, v) ↦ inl (
    record s { server = record s.server { storage = t } },
    rw goes refl,
    storage-Sound env ss s.server t v a,
  )
]

-- How a run of events comes out.
abbrev pub ComesOut :
    Environment → (ℕ → ℕ → Bool) → List ClientStream → Option (Run System) → Type 0
ComesOut env sends ss r =
    ((s : System) × (r ≡ some (ok s)) × Sound env ss s.server)
    ⊎ (((m k : ℕ) × (sends m k ≡ false) × (r ≡ some (err aborted)))
        ⊎ ((r ≡ some (err undefined_behaviour)) × Breaks env.runtime))

-- In every order of completions, steps of the filler and signals for an expiry, from a system that
-- is sound, as a new one with a valid map is, one of three things comes out. A reply cannot be
-- written, which ends the process. Or an increment of an erased iterator does not lead to the
-- successor, and the run is undefined there. Or the system goes on without a fault and is sound
-- again: its map is valid, it waits for exactly one accept, and each connection has answered
-- exactly the finished lines of its own client's bytes before the first `quit`, with one reply each
-- that ends with "END\r\n". What the filler does, be it that it waits for ever in `add_item`, and
-- the expiries make no difference to how many lines are answered.
pub run-ComesOut :
    (env : Environment) (n : ℕ) (clock : ℕ → ℕ → ℕ → ℕ × ℕ) (sends : ℕ → ℕ → Bool) (i : ℕ)
    (es : List Event) (ss : List ClientStream) (s : System)
    → Sound env ss s.server
    → ComesOut env sends (heard es ss) (run env n clock sends i es s)
unfolding run step heard
run-ComesOut env n clock sends i [] ss s a = inl (s, refl, a)
run-ComesOut env n clock sends i (serves c ∷ es) ss s a =
    elim (complete-Completes env (clock i) (sends i) c ss s.server a) [
      | inr (k, unsent, ends) ↦ inr (inl (i, k, unsent, rw (run, ends)))
      | inl (t, done, b) ↦
          rw (run, done)
            (run-ComesOut env n clock sends (suc i) es (arrive c ss) (record s { server = t }) b)
    ]
run-ComesOut env n clock sends i (fills x ∷ es) ss s a = elim (fill_on-GoesOn env n x ss s a) [
  | inr (ends, b) ↦ inr (inr (rw (run, ends) refl, b))
  | inl (t, goes, d) ↦ rw (run, goes) (run-ComesOut env n clock sends (suc i) es ss t d)
]
run-ComesOut env n clock sends i (expires ∷ es) ss s a = elim (expire_on-GoesOn env ss s a) [
  | inr (ends, b) ↦ inr (inr (rw (run, ends) refl, b))
  | inl (t, goes, d) ↦ rw (run, goes) (run-ComesOut env n clock sends (suc i) es ss t d)
]
