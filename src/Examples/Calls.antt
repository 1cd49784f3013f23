-- ===== src/Examples/Calls.antt =====
-- The theorems on sequences of calls on a map, at four calls.
use swordfishd.Base.{◌≡◌, ◌⊎◌, List, [], ◌∷◌, codes, ok, arith}
use swordfishd.Dhashmap.{Dhashmap, new_dhashmap}
use swordfishd.Dhashmap.Increment.{EndsAt}
use swordfishd.Dhashmap.Invariant.{IsValid}
use swordfishd.Cache.{Call, add, get, expirate, Seen, perform_all}
use swordfishd.Cache.Runs.{AnswersFrom, perform_all-AnswersFrom}
use swordfishd.Cache.Notes.{replay}
use swordfishd.Cache.Alike.{notes}
use swordfishd.Cache.Replay.{perform_all-replay}
use swordfishd.Examples.Data.{runtime, hooks}

abbrev calls : List Call
calls = add (codes "k") (codes "v") 1 ∷ get (codes "k") 2 3 ∷ expirate 1 ∷ get (codes "k") 4 5 ∷ []

perform_all-replay_example :
    EndsAt runtime (perform_all runtime calls (new_dhashmap 10 hooks))
    ⊎ ((m : Dhashmap) × (perform_all runtime calls (new_dhashmap 10 hooks)
          ≡ ok (m, (replay hooks 10 calls []).1))
        × (notes m.keys ≡ (replay hooks 10 calls []).0))
perform_all-replay_example = perform_all-replay runtime hooks 10 calls (omega arith)

perform_all-AnswersFrom_example :
    EndsAt runtime (perform_all runtime calls (new_dhashmap 10 hooks))
    ⊎ ((r : Dhashmap × List Seen) × (perform_all runtime calls (new_dhashmap 10 hooks) ≡ ok r)
        × IsValid r.0
        × AnswersFrom hooks [] calls r.1)
perform_all-AnswersFrom_example = perform_all-AnswersFrom runtime 10 hooks calls
