-- ===== src/Examples/Pushes.antt =====
-- The theorems on threads that push keys, with two threads and room for one key.
use swordfishd.Base.{◌≡◌, refl, List, [], ◌∷◌, ◌++◌, arith, codes, to_uint, str_eq}
use swordfishd.Queue
use swordfishd.Queue.Fifo.{IsValid}
use swordfishd.Queue.{contains}
use swordfishd.Storage.{Storage, queue_size}
use swordfishd.Storage.Crowd.{
  Place, admitted, all_away, Move, Comes, begins, steps, Within, Comes-Within,
}
use swordfishd.Storage.Crowded.{limit_exceeded}
use swordfishd.Examples.Data.{storage}

abbrev narrow : Storage
narrow = record storage { max_queue_size = 3 }

narrow-IsValid : IsValid narrow.queue
unfolding contains str_eq
narrow-IsValid = record { distinct = (refl, (refl, tt)); counted = refl }

-- Both threads pass the test.
both_pass : Comes narrow (all_away 2) narrow (admitted (codes "x") ∷ admitted (codes "y") ∷ [])
unfolding all_away queue_size Queue.size to_uint
both_pass =
    steps 1 (steps 0 begins refl (Move.admits (codes "x") refl)) refl (Move.admits (codes "y") refl)

Comes-Within_example : Within 3 2 narrow (admitted (codes "x") ∷ admitted (codes "y") ∷ [])
Comes-Within_example =
    Comes-Within (omega arith) (omega arith) (omega arith) narrow-IsValid both_pass

limit_exceeded_example :
    (t : Storage) × (qs : List Place) × Comes narrow (all_away 2) t qs
    × (t.queue.items ≡ narrow.queue.items ++ (codes "x" ∷ codes "y" ∷ []))
unfolding contains str_eq
limit_exceeded_example =
    limit_exceeded narrow (codes "x" ∷ codes "y" ∷ []) (omega arith) (omega arith)
      (refl, (refl, (refl, (refl, tt))))
