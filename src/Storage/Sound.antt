-- ===== src/Storage/Sound.antt =====
-- src/storage.cpp: each member function that the workers and the filler call keeps the map and the
-- queue in order.
use swordfishd.Base.{
  ℕ, suc, ◌≤◌, ◌<◌, ◌≡◌, refl, ap, sym, ◌∙◌, ◌⊎◌, inl, inr, Bool, true, false, Option, none, some,
  List, [], ◌∷◌, ◌++◌, arith, ltb, leb, Bool-cases, length, All, All-append, Bytes, codes, crlf, ok,
  >>=-eq-ok, uint_limit, to_uint-exact,
}
use mathlib.Core.Path.{subst}
use swordfishd.Command
use swordfishd.Command.{Command}
use swordfishd.Queue
use swordfishd.Queue.{Queue}
use swordfishd.Queue.Fifo
use swordfishd.Queue.Fifo.{length-push, push-IsValid, wait_and_pop-IsValid, push_items}
use swordfishd.Dhashmap
use swordfishd.Dhashmap.{Dhashmap, Runtime, Hooks, Answer, normalize, get_storage_size}
use swordfishd.Dhashmap.Invariant.{IsValid, same_data-IsValid}
use swordfishd.Dhashmap.InsertNew.{add-IsValid}
use swordfishd.Dhashmap.InsertView.{add-hooks}
use swordfishd.Dhashmap.Lookup.{get-Looks}
use swordfishd.Dhashmap.Expiry.{Survives}
use swordfishd.Dhashmap.Increment.{mended, EndsAt, expirate-agrees}
use swordfishd.Cache
use swordfishd.Cache.Steps.{perform-Refines}
use swordfishd.Storage.{
  Storage, Formats, get_args, get_val, after_get, push_key, pop_key, get_stats, refresh_stats,
  add_round, expirate, reset_stats,
}

push-All :
    (P : Bytes → Type 0) (q : Queue) (key : Bytes)
    → P key
    → All P q.items
    → All P (Queue.push q key).0.items
push-All P q key p all = elim (Bool-cases (Queue.contains q.items key)) [
  | inl old ↦ rw (push_items q key, old) all
  | inr fresh ↦ rw (push_items q key, fresh) (All-append P q.items (key ∷ []) (p, tt) all)
]

-- What is left in the queue, and what is taken.
pop-All :
    (P : Bytes → Type 0) (q : Queue) (items : List Bytes)
    → q.items ≡ items
    → All P items
    → All P (Queue.wait_and_pop q).0.items
      × (length (Queue.wait_and_pop q).0.items ≤ length items)
      × (((Queue.wait_and_pop q).1 ≡ []) ⊎ P (Queue.wait_and_pop q).1)
unfolding Queue.wait_and_pop
pop-All P q [] e all = rw (e, Queue.wait_and_pop, e) (tt, omega arith, inl refl)
pop-All P q (x ∷ xs) e all = rw (e, Queue.wait_and_pop) (all.1, omega arith, inr all.0)

-- An expiry of the map returns.
pub expirate_returns :
    (rt : Runtime) (m : Dhashmap) (limit : ℕ)
    → Survives rt
    → IsValid m
    → (r : Dhashmap × ℕ) × (Dhashmap.expirate rt m limit ≡ ok r)
      × (r.0.hooks ≡ m.hooks)
      × IsValid r.0
unfolding Cache.perform
expirate_returns rt m limit alive v =
    let x = perform-Refines rt m (Cache.expirate limit) alive v in
    let (r, run, same) = >>=-eq-ok (Dhashmap.expirate rt m limit) _ x.runs in
    let after : r.0 ≡ x.after = cc in
    (r, run, ap Dhashmap.hooks after ∙ x.hooks_same, subst IsValid (sym after) x.valid)

module _ (P : Bytes → Type 0) (h : Hooks) where
  -- The keys in the queue have the property `P`.
  pub record IsSound (s : Storage) : Type 0 where
    pub valid : IsValid s.storage
    pub in_order : Queue.Fifo.IsValid s.queue
    pub bounded : length s.queue.items ≤ s.max_queue_size
    pub fits : s.max_queue_size < uint_limit
    pub meant : All P s.queue.items
    pub hooks_are : s.storage.hooks ≡ h

  -- The map is another one.
  pub map-IsSound :
      (s : Storage) (m : Dhashmap)
      → m.hooks ≡ s.storage.hooks
      → IsValid m
      → IsSound s
      → IsSound (record s { storage = m })
  map-IsSound s m same v k = record {
    valid = v;
    in_order = k.in_order;
    bounded = k.bounded;
    fits = k.fits;
    meant = k.meant;
    hooks_are = same ∙ k.hooks_are;
  }

  push_key-IsSound : (s : Storage) (key : Bytes) → P key → IsSound s → IsSound (push_key s key)
  unfolding push_key Queue.size
  push_key-IsSound s key p k = elim (Bool-cases (ltb (Queue.size s.queue) s.max_queue_size)) [
    | inr full ↦ rw (full, push_key) k
    | inl space ↦
        rw (space, push_key)
          (record {
            valid = k.valid;
            in_order = push-IsValid s.queue key k.in_order;
            bounded =
                let few : length s.queue.items < s.max_queue_size =
                  ground (arith, space, k.bounded, k.fits, to_uint-exact (length s.queue.items)) in
                omega (arith, length-push s.queue key, few);
            fits = k.fits;
            meant = push-All P s.queue key p k.meant;
            hooks_are = k.hooks_are;
          })
  ]

  after_get-IsSound :
      (fmt : Formats) (s : Storage) (x res : Bytes) (r : Dhashmap × Answer)
      → r.0.hooks ≡ s.storage.hooks
      → IsValid r.0
      → P r.1.normalized
      → IsSound s
      → IsSound (after_get fmt s x res r).0
  unfolding after_get
  after_get-IsSound fmt s x res (m, a) same v p k = elim (Bool-cases a.fresh) [
    | inl young ↦ rw young (map-IsSound s m same v k)
    | inr old ↦ rw old (push_key-IsSound _ a.normalized p (map-IsSound s m same v k))
  ]

  get_args-IsSound :
      (rt : Runtime) (fmt : Formats) (clock : ℕ → ℕ × ℕ) (i : ℕ) (xs : List Bytes) (s : Storage)
      (res : Bytes)
      → All (λ x. P (normalize h x)) xs
      → IsSound s
      → (r : Storage × Bytes) × (get_args rt fmt clock i xs s res ≡ ok r) × IsSound r.0
  unfolding get_args
  get_args-IsSound rt fmt clock i [] s res p k = ((s, res), refl, k)
  get_args-IsSound rt fmt clock i (x ∷ xs) s res p k =
      let (a, run, looks) = get-Looks rt s.storage x [] (clock i).0 (clock i).1 k.valid in
      let named : P a.1.normalized =
        subst P (ap (λ g. normalize g x) (sym k.hooks_are) ∙ sym looks.normalized) p.0 in
      let next = after_get-IsSound fmt s x res a looks.hooks_kept looks.valid named k in
      let (r, rest, sound) =
        get_args-IsSound rt fmt clock (suc i) xs (after_get fmt s x res a).0
          (after_get fmt s x res a).1 p.1 next in
      (r, rw (run, rest), sound)

  pub get_val-IsSound :
      (rt : Runtime) (fmt : Formats) (clock : ℕ → ℕ × ℕ) (cmd : Command) (s : Storage)
      → All (λ x. P (normalize h x)) (Command.arguments cmd)
      → IsSound s
      → (r : Storage × Bytes) × (get_val rt fmt clock cmd s ≡ ok r) × IsSound r.0
  unfolding get_val
  get_val-IsSound rt fmt clock cmd s p k =
      let (r, run, sound) = get_args-IsSound rt fmt clock 0 (Command.arguments cmd) s [] p k in
      ((r.0, r.1 ++ codes "END" ++ crlf), rw run, sound)

  -- The key that is taken is empty, since there is none, or has the property.
  abbrev pub IsMeant : Option Bytes → Type 0
  IsMeant none = Unit
  IsMeant (some key) = (key ≡ []) ⊎ P key

  pub pop_key-IsSound :
      (s : Storage) → IsSound s → IsSound (pop_key s).0 × IsMeant (some (pop_key s).1)
  unfolding pop_key
  pop_key-IsSound s k =
      let (meant, fewer, taken) = pop-All P s.queue s.queue.items refl k.meant in
      (
        record {
          valid = k.valid;
          in_order = wait_and_pop-IsValid s.queue k.in_order;
          bounded = omega (arith, fewer, k.bounded);
          fits = k.fits;
          meant = meant;
          hooks_are = k.hooks_are;
        },
        taken,
      )

  pub get_stats-IsSound :
      (fmt : Formats) (now : ℕ) (s : Storage) → IsSound s → IsSound (get_stats fmt now s).0
  unfolding get_stats refresh_stats Dhashmap.get_deleted Dhashmap.get_gets Dhashmap.get_updates
  get_stats-IsSound fmt now s k = record {
    valid = same_data-IsValid s.storage _ refl refl refl k.valid;
    in_order = k.in_order;
    bounded = k.bounded;
    fits = k.fits;
    meant = k.meant;
    hooks_are = k.hooks_are;
  }

  pub reset_stats-IsSound : (s : Storage) (now : ℕ) → IsSound s → IsSound (reset_stats s now)
  unfolding reset_stats
  reset_stats-IsSound s now k = record {
    valid = k.valid;
    in_order = k.in_order;
    bounded = k.bounded;
    fits = k.fits;
    meant = k.meant;
    hooks_are = k.hooks_are;
  }

  pub expirate-IsSound :
      (rt : Runtime) (s : Storage)
      → IsSound s
      → ((t : Storage) × (expirate rt s ≡ ok t) × IsSound t) ⊎ EndsAt rt (expirate rt s)
  unfolding expirate
  expirate-IsSound rt s k = elim (expirate-agrees rt s.storage s.expirate_size) [
    | inr (ends, b) ↦ inr (rw (expirate, ends) refl, b)
    | inl same ↦
        let (r, run, hooks, valid) =
          expirate_returns (mended rt) s.storage s.expirate_size (λ e es. refl) k.valid in
        inl (
          record s { storage = r.0 },
          rw (expirate, same, run) refl,
          map-IsSound s r.0 hooks valid k,
        )
  ]

  -- One round of the loop of `add_item`.
  pub add_round-IsSound :
      (rt : Runtime) (s : Storage) (key val : Bytes) (now : ℕ)
      → IsSound s
      → ((r : Storage × Bool) × (add_round rt s key val now ≡ ok r) × IsSound r.0)
        ⊎ EndsAt rt (add_round rt s key val now)
  unfolding add_round
  add_round-IsSound rt s key val now k =
      elim (Bool-cases (leb s.max_storage_size (get_storage_size s.storage))) [
        | inr room ↦
            let (m, run, valid) = add-IsValid rt s.storage key val now k.valid in
            inl (
              (record s { storage = m }, true),
              rw (room, run) refl,
              map-IsSound s m (add-hooks rt s.storage key val now run) valid k,
            )
        | inl full ↦ elim (expirate-IsSound rt s k) [
          | inl (t, run, sound) ↦ inl ((t, false), rw (full, run) refl, sound)
          | inr (ends, b) ↦ inr (rw (full, ends) refl, b)
        ]
      ]
