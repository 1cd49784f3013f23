-- ===== src/Examples/Maps.antt =====
-- The theorems on the map at the map with one key.
use swordfishd.Base.{
  ℕ, ◌+◌, ◌≡◌, [], arith, Bytes, codes, ok, err, undefined_behaviour, ◌⊎◌, if◌then◌else◌,
}
use swordfishd.Dhashmap.{Dhashmap, Answer, add, get, expirate}
use swordfishd.Dhashmap.Invariant.{IsValid}
use swordfishd.Dhashmap.InsertView.{is_lost, updated, add-view}
use swordfishd.Dhashmap.InsertSize.{lost_bytes, add-Balanced}
use swordfishd.Dhashmap.Lookup.{view, Looks, get-Looks}
use swordfishd.Dhashmap.Expiry.{Balanced, Erases}
use swordfishd.Dhashmap.Increment.{BreaksAt, expirate_outcome}
use swordfishd.Examples.Data.{runtime, stocked, stocked-IsValid, stocked-Balanced}

-- A second value for the key "k".
add-view_example :
    (m' : Dhashmap) × (add runtime stocked (codes "k") (codes "w") 6 ≡ ok m')
    × ((j : Bytes)
        → view m' j ≡ (
            if is_lost stocked (codes "k") (codes "w")
            then view stocked j
            else updated (view stocked) (codes "k") (codes "w") j))
add-view_example = add-view runtime stocked (codes "k") (codes "w") 6 stocked-IsValid

add-Balanced_example :
    (m' : Dhashmap) × (add runtime stocked (codes "k") (codes "w") 6 ≡ ok m')
    × Balanced (0 + lost_bytes stocked (codes "k") (codes "w")) m'
add-Balanced_example =
    add-Balanced runtime 0 stocked (codes "k") (codes "w") 6 stocked-IsValid stocked-Balanced
      (omega arith)

get-Looks_example :
    (r : Dhashmap × Answer) × (get runtime stocked (codes "k") [] 8 9 ≡ ok r)
    × Looks stocked (codes "k") [] 8 r
get-Looks_example = get-Looks runtime stocked (codes "k") [] 8 9 stocked-IsValid

expirate_outcome_example :
    ((r : Dhashmap × ℕ) × (expirate runtime stocked 1 ≡ ok r)
      × Erases 1 stocked r
      × IsValid r.0
      × Balanced 0 r.0)
    ⊎ ((expirate runtime stocked 1 ≡ err undefined_behaviour) × BreaksAt runtime 1 0 stocked.keys)
expirate_outcome_example = expirate_outcome runtime 1 0 stocked stocked-IsValid stocked-Balanced
