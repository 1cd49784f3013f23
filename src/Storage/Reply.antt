-- ===== src/Storage/Reply.antt =====
-- src/storage.cpp, `get_val`: the reply, and the keys that it asks the filler for.
use mathlib.Core.Path.{ap₂, subst}
use swordfishd.Base.{
  ℕ, suc, ◌≡◌, refl, sym, ap, ◌∙◌, ◌⊎◌, inl, inr, true, Option, none, some, List, [], ◌∷◌, ◌++◌,
  append_assoc, append-nil, arith, ltb, leb, if◌then◌else◌, Bool-cases, All, Bytes, codes, crlf,
  str_eq_refl, empty, ok,
}
use swordfishd.Command
use swordfishd.Command.{Command}
use swordfishd.Queue.{Queue, contains, push, size}
use swordfishd.Queue.Fifo.{contains-append}
use swordfishd.Dhashmap.{Dhashmap, Runtime, Answer, normalize}
use swordfishd.Dhashmap.Invariant.{IsValid}
use swordfishd.Dhashmap.Lookup.{view, view-none, or_given, Looks, get-Looks}
use swordfishd.Storage.{Storage, Formats, push_key, res_append, after_get, get_args, get_val}

-- The part of a reply for one argument: the value that the map has under the normalized key, under
-- the name that the client gave. Keys with no value, or an empty one, have no part.
abbrev pub part : Formats → Bytes → Option Bytes → Bytes
part fmt arg none = []
part fmt arg (some t) = if empty t then [] else res_append fmt arg t []

abbrev pub parts : Formats → Dhashmap → List Bytes → Bytes
parts fmt m [] = []
parts fmt m (x ∷ xs) = part fmt x (view m (normalize m.hooks x)) ++ parts fmt m xs

-- The key waits in the queue, or the queue is full.
abbrev pub IsAsked : Storage → Bytes → Type 0
IsAsked s k = (contains s.queue.items k ≡ true) ⊎ (leb s.max_queue_size (size s.queue) ≡ true)

contains-push :
    (q : Queue) (k j : Bytes) → contains q.items j ≡ true → contains (push q k).0.items j ≡ true
unfolding push
contains-push q k j h = ground (arith, contains-append q.items (k ∷ []) j)

contains-push_self : (q : Queue) (k : Bytes) → contains (push q k).0.items k ≡ true
unfolding push contains
contains-push_self q k = ground (arith, contains-append q.items (k ∷ []) k, str_eq_refl k)

push_key-IsAsked : (s : Storage) (k : Bytes) → IsAsked (push_key s k) k
unfolding push_key
push_key-IsAsked s k = elim (Bool-cases (ltb (size s.queue) s.max_queue_size)) [
  | inl room ↦ rw room (inl (contains-push_self s.queue k))
  | inr full ↦ rw full (inr (ground arith))
]

push_key_keeps : (s : Storage) (k j : Bytes) → IsAsked s j → IsAsked (push_key s k) j
unfolding push_key
push_key_keeps s k j a = elim (Bool-cases (ltb (size s.queue) s.max_queue_size)) [
  | inr full ↦ rw full a
  | inl room ↦ rw room (kept room a)
]
  where
    kept :
        ltb (size s.queue) s.max_queue_size ≡ true
        → IsAsked s j
        → (contains (push s.queue k).0.items j ≡ true)
          ⊎ (leb s.max_queue_size (size (push s.queue k).0) ≡ true)
    kept room (inl h) = inl (contains-push s.queue k j h)
    kept room (inr h) = absurd (ground arith)

push_key_same :
    (s : Storage) (k : Bytes)
    → ((push_key s k).storage ≡ s.storage) × ((push_key s k).max_queue_size ≡ s.max_queue_size)
unfolding push_key
push_key_same s k = ground arith

-- What the loop over the arguments does, from the reply `res`.
pub record Replies (fmt : Formats) (s : Storage) (xs : List Bytes) (res : Bytes)
    (r : Storage × Bytes) : Type 0 where
  pub reply : r.1 ≡ res ++ parts fmt s.storage xs
  pub asked :
      All
        (λ x.
          view s.storage (normalize s.storage.hooks x) ≡ none
          → IsAsked r.0 (normalize s.storage.hooks x))
        xs
  pub keeps : (j : Bytes) → IsAsked s j → IsAsked r.0 j
  pub view_kept : (j : Bytes) → view r.0.storage j ≡ view s.storage j
  pub valid : IsValid r.0.storage

-- One round.
record OneArgument (fmt : Formats) (s : Storage) (x res : Bytes) (r : Storage × Bytes)
    : Type 0 where
  reply : r.1 ≡ res ++ part fmt x (view s.storage (normalize s.storage.hooks x))
  asked :
      view s.storage (normalize s.storage.hooks x) ≡ none
      → IsAsked r.0 (normalize s.storage.hooks x)
  keeps : (j : Bytes) → IsAsked s j → IsAsked r.0 j
  view_kept : (j : Bytes) → view r.0.storage j ≡ view s.storage j
  hooks_kept : r.0.storage.hooks ≡ s.storage.hooks
  valid : IsValid r.0.storage

-- The reply for an answer, in terms of the map.
answer_part :
    (fmt : Formats) (x res : Bytes) (o : Option Bytes) (val : Bytes)
    → val ≡ or_given o []
    → (if empty val then res else res_append fmt x val res) ≡ res ++ part fmt x o
unfolding empty res_append
answer_part fmt x res none val e = rw e (sym (append-nil res))
answer_part fmt x res (some []) val e = rw e (sym (append-nil res))
answer_part fmt x res (some (c ∷ t)) val e = rw e

after_get-OneArgument :
    (fmt : Formats) (s : Storage) (x res : Bytes) (now : ℕ) (a : Dhashmap × Answer)
    → Looks s.storage x [] now a
    → OneArgument fmt s x res (after_get fmt s x res a)
unfolding after_get
after_get-OneArgument fmt s x res now (m, a) l = elim (Bool-cases a.fresh) [
  | inl fresh ↦ rw fresh (record {
    reply = answer_part fmt x res _ a.val l.val_is;
    asked = λ missing. absurd (never fresh missing);
    keeps = λ j h. h;
    view_kept = l.view_kept;
    hooks_kept = l.hooks_kept;
    valid = l.valid;
  })
  | inr old ↦
      let s' = record s { storage = m } in
      let same = (push_key_same s' a.normalized).0 in
      rw old (record {
        reply = answer_part fmt x res _ a.val l.val_is;
        asked = λ missing. rw (← l.normalized) (push_key-IsAsked s' a.normalized);
        keeps = λ j h. push_key_keeps s' a.normalized j h;
        view_kept = λ j. rw same (l.view_kept j);
        hooks_kept = rw same l.hooks_kept;
        valid = rw same l.valid;
      })
]
  where
    never : a.fresh ≡ true → view s.storage (normalize s.storage.hooks x) ≡ none → ⊥
    never fresh missing =
        let absent = view-none s.storage (normalize s.storage.hooks x) missing in
        cc (rw absent at l.fresh_is)

parts_congr :
    (fmt : Formats) (m n : Dhashmap) (xs : List Bytes)
    → ((j : Bytes) → view m j ≡ view n j)
    → m.hooks ≡ n.hooks
    → parts fmt m xs ≡ parts fmt n xs
parts_congr fmt m n [] h k = refl
parts_congr fmt m n (x ∷ xs) h k =
    ap₂ (λ o t. part fmt x o ++ t) (ap (λ g. view m (normalize g x)) k ∙ h (normalize n.hooks x))
      (parts_congr fmt m n xs h k)

IsAsked-before :
    (m n : Dhashmap) (t : Storage) (xs : List Bytes)
    → ((j : Bytes) → view m j ≡ view n j)
    → m.hooks ≡ n.hooks
    → All (λ x. view m (normalize m.hooks x) ≡ none → IsAsked t (normalize m.hooks x)) xs
    → All (λ x. view n (normalize n.hooks x) ≡ none → IsAsked t (normalize n.hooks x)) xs
IsAsked-before m n t [] h k all = tt
IsAsked-before m n t (x ∷ xs) h k all = (
  λ missing.
      subst (λ g. IsAsked t (normalize g x)) k
        (all.0 (ap (λ g. view m (normalize g x)) k ∙ h (normalize n.hooks x) ∙ missing)),
  IsAsked-before m n t xs h k all.1,
)

join_rounds :
    (fmt : Formats) (s : Storage) (x : Bytes) (xs : List Bytes) (res : Bytes)
    (p r : Storage × Bytes)
    → OneArgument fmt s x res p
    → Replies fmt p.0 xs p.1 r
    → Replies fmt s (x ∷ xs) res r
join_rounds fmt s x xs res p r b c = record {
  reply =
      c.reply
      ∙ ap₂ ◌++◌ b.reply (parts_congr fmt p.0.storage s.storage xs b.view_kept b.hooks_kept)
      ∙ append_assoc res _ _;
  asked = (
    λ missing. c.keeps _ (b.asked missing),
    IsAsked-before p.0.storage s.storage r.0 xs b.view_kept b.hooks_kept c.asked,
  );
  keeps = λ j h. c.keeps j (b.keeps j h);
  view_kept = λ j. c.view_kept j ∙ b.view_kept j;
  valid = c.valid;
}

get_args-Replies :
    (rt : Runtime) (fmt : Formats) (clock : ℕ → ℕ × ℕ) (xs : List Bytes) (i : ℕ) (s : Storage)
    (res : Bytes)
    → IsValid s.storage
    → (r : Storage × Bytes) × (get_args rt fmt clock i xs s res ≡ ok r) × Replies fmt s xs res r
unfolding get_args
get_args-Replies rt fmt clock [] i s res v = (
  (s, res),
  refl,
  record {
    reply = sym (append-nil res);
    asked = tt;
    keeps = λ j h. h;
    view_kept = λ j. refl;
    valid = v;
  },
)
get_args-Replies rt fmt clock (x ∷ xs) i s res v =
    let (a, run, looks) = get-Looks rt s.storage x [] (clock i).0 (clock i).1 v in
    let b = after_get-OneArgument fmt s x res (clock i).0 a looks in
    let next = after_get fmt s x res a in
    let (r, rest, c) = get_args-Replies rt fmt clock xs (suc i) next.0 next.1 b.valid in
    (r, rw run rest, join_rounds fmt s x xs res next r b c)

-- On a valid map `get` returns. Its reply has, in the order of the arguments, the values that the
-- map had under the normalized keys, and the end mark. It changes no value and leaves a valid
-- map, and every key with no value then waits in the queue, unless the queue is full.
pub get_val-Replies :
    (rt : Runtime) (fmt : Formats) (clock : ℕ → ℕ × ℕ) (cmd : Command) (s : Storage)
    → IsValid s.storage
    → (r : Storage × Bytes) × (get_val rt fmt clock cmd s ≡ ok (r.0, r.1 ++ codes "END" ++ crlf))
      × Replies fmt s (Command.arguments cmd) [] r
unfolding get_val
get_val-Replies rt fmt clock cmd s v =
    let (r, run, c) = get_args-Replies rt fmt clock (Command.arguments cmd) 0 s [] v in
    (r, rw run, c)
