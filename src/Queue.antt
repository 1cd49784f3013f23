-- ===== src/Queue.antt =====
-- include/queue.hpp and src/queue.cpp: the keys that wait to be filled. Every method holds the
-- mutex from its first line to its last read of the state, so a call is one step on the state.
pub mod Fifo
use swordfishd.Base.{
  ℕ, Bool, true, false, ◌||◌, List, [], ◌∷◌, ◌++◌, if◌then◌else◌, length, Bytes, str_eq, empty,
  to_uint, size_add, size_sub,
}

pub record Queue : Type 0 where
  pub items : List Bytes
  pub curr_size : ℕ

-- The constructor.
abbrev pub new_queue : Queue
new_queue = record { items = []; curr_size = 0 }

-- `std::find(begin(), end(), data) != end()`.
unfoldable pub contains : List Bytes → Bytes → Bool
contains [] d = false
contains (x ∷ xs) d = str_eq x d || contains xs d

-- `push`: the new state, and the size that it returns.
unfoldable pub push : Queue → Bytes → Queue × ℕ
push q d =
    let q' =
      if contains q.items d
      then q
      else record { items = q.items ++ d ∷ []; curr_size = size_add q.curr_size (length d) } in
    (q', to_uint (length q'.items))

-- `empty`.
unfoldable pub is_empty : Queue → Bool
is_empty q = elim q.items [ [] ↦ true | x ∷ xs ↦ false ]

-- `wait_and_pop`: the new state, and what it leaves in `data`.
unfoldable pub wait_and_pop : Queue → Queue × Bytes
wait_and_pop q = elim q.items [
  | [] ↦ (q, [])
  | x ∷ xs ↦ (record { items = xs; curr_size = size_sub q.curr_size (length x) }, x)
]

-- `size`.
unfoldable pub size : Queue → ℕ
size q = to_uint (length q.items)

-- `size_b`.
unfoldable pub size_b : Queue → ℕ
size_b q = to_uint q.curr_size
