-- ===== src/Queue/Fifo.antt =====
-- src/queue.cpp: the order of the keys, the absence of duplicates, and the byte counter of the
-- queue.
use swordfishd.Base.{
  ℕ, zero, suc, ◌+◌, ◌%◌, ◌≤◌, ◌≡◌, refl, ap, sym, ◌∙◌, inl, inr, true, false, ◌||◌, List, [], ◌∷◌,
  ◌++◌, append-nil, append_assoc, arith, if◌then◌else◌, Bool-cases, length, length-append, Bytes,
  str_eq, str_eq_iff, size_limit, size_add, size_sub,
}
use swordfishd.Queue.{Queue, new_queue, contains, push, wait_and_pop}

-- The bytes of all keys.
abbrev pub total : List Bytes → ℕ
total [] = 0
total (x ∷ xs) = length x + total xs

-- No key stands twice.
abbrev pub IsDistinct : List Bytes → Type 0
IsDistinct [] = Unit
IsDistinct (x ∷ xs) = (contains xs x ≡ false) × IsDistinct xs

pub record IsValid (q : Queue) : Type 0 where
  pub distinct : IsDistinct q.items
  pub counted : q.curr_size ≡ total q.items % size_limit

total-append : (xs ys : List Bytes) → total (xs ++ ys) ≡ total xs + total ys
total-append [] ys = omega arith
total-append (x ∷ xs) ys = omega (arith, total-append xs ys)

pub contains-append :
    (xs ys : List Bytes) (d : Bytes) → contains (xs ++ ys) d ≡ (contains xs d || contains ys d)
unfolding contains
contains-append [] ys d = refl
contains-append (x ∷ xs) ys d = ground (arith, contains-append xs ys d)

str_eq_symm : (a b : Bytes) → str_eq a b ≡ str_eq b a
str_eq_symm a b = ground (arith, str_eq_iff a b, str_eq_iff b a)

-- A key behind others is none of them.
pub fresh_key :
    (xs : List Bytes) (d : Bytes) (ys : List Bytes)
    → IsDistinct (xs ++ d ∷ ys)
    → contains xs d ≡ false
unfolding contains
fresh_key [] d ys h = refl
fresh_key (x ∷ xs) d ys h =
    ground (arith, contains-append xs (d ∷ ys) x, str_eq_symm x d, fresh_key xs d ys h.1, h.0)

IsDistinct-append :
    (xs : List Bytes) (d : Bytes)
    → IsDistinct xs
    → contains xs d ≡ false
    → IsDistinct (xs ++ d ∷ [])
unfolding contains
IsDistinct-append [] d h k = (refl, tt)
IsDistinct-append (x ∷ xs) d h k = (
  ground (arith, contains-append xs (d ∷ []) x, str_eq_symm x d),
  IsDistinct-append xs d h.1 (ground arith),
)

pub push-IsValid : (q : Queue) (d : Bytes) → IsValid q → IsValid (push q d).0
unfolding push size_add
push-IsValid q d v = elim (Bool-cases (contains q.items d)) [
  | inl h ↦ rw (h, push) v
  | inr h ↦
      rw (h, push)
        (record {
          distinct = IsDistinct-append q.items d v.distinct h;
          counted = rw (total-append q.items (d ∷ []), v.counted) (omega arith);
        })
]

pop-IsValid : (q : Queue) (xs : List Bytes) → q.items ≡ xs → IsValid q → IsValid (wait_and_pop q).0
unfolding wait_and_pop size_sub
pop-IsValid q [] e v = rw (e, wait_and_pop) v
pop-IsValid q (x ∷ xs) e v =
    rw (e, wait_and_pop)
      (record { distinct = (rw e at v.distinct).1; counted = rw v.counted (rw e (omega arith)) })

pub wait_and_pop-IsValid : (q : Queue) → IsValid q → IsValid (wait_and_pop q).0
wait_and_pop-IsValid q v = pop-IsValid q q.items refl v

pub data Call : Type 0 where
  pushes : (key : Bytes) → Call
  pops : Call

abbrev pub after : List Call → Queue → Queue
after [] q = q
after (pushes d ∷ cs) q = after cs (push q d).0
after (pops ∷ cs) q = after cs (wait_and_pop q).0

-- Over any calls of `push` and `wait_and_pop` the keys of the queue stay distinct, and its byte
-- count stays exact modulo 2 ^ 64.
pub after-IsValid : (cs : List Call) (q : Queue) → IsValid q → IsValid (after cs q)
after-IsValid [] q v = v
after-IsValid (pushes d ∷ cs) q v = after-IsValid cs (push q d).0 (push-IsValid q d v)
after-IsValid (pops ∷ cs) q v = after-IsValid cs (wait_and_pop q).0 (wait_and_pop-IsValid q v)

pub push_all : Queue → List Bytes → Queue
push_all q [] = q
push_all q (d ∷ ds) = push_all (push q d).0 ds

pub pop_many : ℕ → Queue → List Bytes
pop_many zero q = []
pop_many (suc n) q = (wait_and_pop q).1 ∷ pop_many n (wait_and_pop q).0

-- The keys of `ys` that are not among `xs`.
pub without : List Bytes → List Bytes → List Bytes
without xs [] = []
without xs (y ∷ ys) = let rest = without xs ys in if contains xs y then rest else y ∷ rest

-- The specification: each key at its first place.
pub firsts : List Bytes → List Bytes
firsts [] = []
firsts (d ∷ ds) = d ∷ without (d ∷ []) (firsts ds)

without-without :
    (xs : List Bytes) (d : Bytes) (ys : List Bytes)
    → without xs (without (d ∷ []) ys) ≡ without (xs ++ d ∷ []) ys
unfolding without contains
without-without xs d [] = refl
without-without xs d (y ∷ ys) =
    ground (arith, contains-append xs (d ∷ []) y, without-without xs d ys)

without_held :
    (xs : List Bytes) (d : Bytes) (ys : List Bytes)
    → contains xs d ≡ true
    → without (xs ++ d ∷ []) ys ≡ without xs ys
unfolding without contains
without_held xs d [] h = refl
without_held xs d (y ∷ ys) h =
    ground (arith, contains-append xs (d ∷ []) y, str_eq_iff d y, without_held xs d ys h)

without_nil : (ys : List Bytes) → without [] ys ≡ ys
unfolding without contains
without_nil [] = refl
without_nil (y ∷ ys) = ap (◌∷◌ y) (without_nil ys)

pub push_items :
    (q : Queue) (d : Bytes)
    → (push q d).0.items ≡ (if contains q.items d then q.items else q.items ++ d ∷ [])
unfolding push
push_items q d = ground arith

pub length-push : (q : Queue) (key : Bytes) → length (push q key).0.items ≤ length q.items + 1
length-push q key = elim (Bool-cases (contains q.items key)) [
  | inl old ↦ rw (push_items q key, old) (omega arith)
  | inr fresh ↦ rw (push_items q key, fresh) (omega (arith, length-append q.items (key ∷ [])))
]

push_all_items :
    (q : Queue) (ds : List Bytes) → (push_all q ds).items ≡ q.items ++ without q.items (firsts ds)
unfolding push_all firsts without
push_all_items q [] = sym (append-nil q.items)
push_all_items q (d ∷ ds) = elim (Bool-cases (contains q.items d)) [
  | inl h ↦
      rw (h, push_all_items (push q d).0 ds, push_items q d, h)
        (ap (◌++◌ q.items)
          (sym (without-without q.items d (firsts ds) ∙ without_held q.items d (firsts ds) h)))
  | inr h ↦
      rw (h, push_all_items (push q d).0 ds, push_items q d, h)
        (rw (append_assoc, without-without q.items d (firsts ds)))
]

pop_many_items : (xs : List Bytes) (q : Queue) → q.items ≡ xs → pop_many (length xs) q ≡ xs
unfolding pop_many wait_and_pop
pop_many_items [] q e = refl
pop_many_items (x ∷ xs) q e = rw (e, wait_and_pop) (ap (◌∷◌ x) (pop_many_items xs _ refl))

-- Keys come out of a queue that was empty in the order of their first push, each once.
pub pop_many-push_all :
    (ds : List Bytes) → pop_many (length (firsts ds)) (push_all new_queue ds) ≡ firsts ds
pop_many-push_all ds =
    pop_many_items (firsts ds) (push_all new_queue ds)
      (push_all_items new_queue ds ∙ without_nil (firsts ds))
