-- ===== src/Filler/Rounds.antt =====
-- src/abstract_filler.cpp, `Configure`, and a round of `operator ()`.
use mathlib.Core.Path.{subst}
use swordfishd.Base.{
  ℕ, ◌<◌, ◌≡◌, refl, sym, ◌⊎◌, inl, inr, true, false, ◌&&◌, ◌||◌, Option, none, some, List, [], ◌∷◌,
  ◌++◌, append-nil, append_assoc, ap, ◌∙◌, All, arith, ltb, ◌==◌, Bool-cases, length, Bytes, empty,
  size_sub, Run, ok, err, exits, undefined_behaviour,
}
use swordfishd.Queue.{Queue}
use swordfishd.Dhashmap.{Runtime}
use swordfishd.Dhashmap.Invariant.{IsValid}
use swordfishd.Dhashmap.Expiry.{Balanced, expirate-Erases}
use swordfishd.Dhashmap.Increment.{mended, Breaks, EndsAt}
use swordfishd.Storage.{Storage, storage_size}
use swordfishd.Storage.Increment.{expirate_agrees}
use swordfishd.Filler.Ticks.{expirate_ok}
use swordfishd.Filler.{
  Source, Filler, is_missing, configure, make_room, collect, answers, fill, fill_round, Batch,
  Round, fill_rounds,
}
use swordfishd.Filler.Collect.{Collected, collect-Collected, filled}

-- The filler can run: it has its library, and takes at least one key in a round.
pub record IsReady (source : Source) (f : Filler) : Type 0 where
  pub configured : f.configured ≡ true
  pub loaded : f.source ≡ some source
  pub takes : 0 < f.max_fill_size

-- What configuring with what the linker has ends in.
abbrev pub Configures : Option Source → ℕ → Filler → Run Filler → Type 0
Configures none size f r = r ≡ err exits
Configures (some source) size f r =
    (((source.failed || is_missing source) ≡ true) × (r ≡ err exits))
    ⊎ (((source.failed || is_missing source) ≡ false)
        × ((g : Filler) × (r ≡ ok g) × IsReady source g))

-- With two names that are not empty, configuring ends the process where the library or one of its
-- two functions is missing, and else makes the filler ready, also for a size of 0.
pub configure-Configures :
    (lib : Option Source) (path function : Bytes) (size : ℕ) (f : Filler)
    → (empty path || empty function) ≡ false
    → Configures lib size f (configure lib path function size f)
unfolding configure
configure-Configures none path function size f named = rw named
configure-Configures (some source) path function size f named =
    elim (Bool-cases (source.failed || is_missing source)) [
      | inl failed ↦ rw (named, failed) (inl (refl, refl))
      | inr loaded ↦
          rw (named, loaded)
            (inr
              (refl, (_, refl, record { configured = refl; loaded = refl; takes = ground arith })))
    ]

make_room-returns :
    (rt : Runtime) (k leak : ℕ) (s : Storage)
    → IsValid s.storage
    → Balanced leak s.storage
    → ((t : Storage) × (make_room rt k s ≡ ok t)
        × IsValid t.storage
        × Balanced leak t.storage
        × (t.queue ≡ s.queue))
      ⊎ EndsAt rt (make_room rt k s)
unfolding make_room
make_room-returns rt k leak s v b = elim (Bool-cases (size_sub k (storage_size s) == 0)) [
  | inr room ↦ inl (s, rw room, v, b, refl)
  | inl full ↦ elim (expirate_agrees rt s) [
    | inr (ends, broken) ↦ inr (rw full ends, broken)
    | inl same ↦
        let (r, run, erases, valid, balanced) =
          expirate-Erases (mended rt) s.expirate_size leak s.storage (λ e es. refl) v b in
        inl (
          record s { storage = r.0 },
          rw full (same ∙ expirate_ok (mended rt) s r run),
          valid,
          balanced,
          refl,
        )
  ]
]

-- The rounds end at an increment of an erased iterator that does not lead to the successor.
abbrev pub BreaksOff : Runtime → Option (Run (Storage × Batch)) → Type 0
BreaksOff rt r = (r ≡ some (err undefined_behaviour)) × Breaks rt

-- A round in which the library has no answers.
fill_round-Collected :
    (fuel : ℕ) (rt : Runtime) (n leak : ℕ) (o : Round) (s : Storage) (b : Batch)
    → IsValid s.storage
    → Balanced leak s.storage
    → answers o.source ≡ false
    → ((t : Storage) × (r : Storage × Batch) × (fill_round fuel rt n o s b ≡ some (ok r))
        × (t.queue ≡ s.queue)
        × Collected n t b.keys (r.0, r.1.keys)
        × IsValid r.0.storage
        × Balanced leak r.0.storage)
      ⊎ BreaksOff rt (fill_round fuel rt n o s b)
unfolding fill_round fill
fill_round-Collected fuel rt n leak o s b v bal silent =
    elim (make_room-returns rt s.max_storage_size leak s v bal) [
      | inr (ends, broken) ↦ inr (rw (ends, fill_round) refl, broken)
      | inl (t, run, valid, balanced, queue) ↦
          let r = collect o.alive s.max_storage_size n t b.keys in
          let done = collect-Collected o.alive s.max_storage_size n t b.keys in
          let no_answer : (ltb 0 (length r.1) && answers o.source) ≡ false =
            ground (arith, silent) in
          inl (
            t,
            (r.0, record b { keys = r.1 }),
            rw (run, fill_round, no_answer, fill),
            queue,
            done,
            subst IsValid (sym done.map_same) valid,
            subst (Balanced leak) (sym done.map_same) balanced,
          )
    ]

-- What some rounds have taken from the queue, and keep.
pub record Holds (s : Storage) (b : Batch) (r : Storage × Batch) : Type 0 where
  pub taken : List Bytes
  pub from_front : s.queue.items ≡ taken ++ r.0.queue.items
  pub kept : r.1.keys ≡ b.keys ++ filled taken
  pub valid : IsValid r.0.storage

filled-append : (xs ys : List Bytes) → filled (xs ++ ys) ≡ filled xs ++ filled ys
unfolding filled
filled-append [] ys = refl
filled-append (x ∷ xs) ys = elim (Bool-cases (empty x)) [
  | inl blank ↦ rw blank (filled-append xs ys)
  | inr named ↦ rw named (ap (◌∷◌ x) (filled-append xs ys))
]

-- A round, with the rounds behind it.
Collected-Holds :
    (n : ℕ) (s t : Storage) (b : Batch) (r q : Storage × Batch)
    → t.queue ≡ s.queue
    → Collected n t b.keys (r.0, r.1.keys)
    → Holds r.0 r.1 q
    → Holds s b q
Collected-Holds n s t b r q queue done holds = record {
  taken = done.taken ++ holds.taken;
  from_front =
      ap Queue.items (sym queue)
      ∙ done.from_front
      ∙ ap (◌++◌ done.taken) holds.from_front
      ∙ sym (append_assoc done.taken holds.taken q.0.queue.items);
  kept =
      holds.kept
      ∙ ap (λ ks. ks ++ filled holds.taken) done.kept
      ∙ append_assoc b.keys (filled done.taken) (filled holds.taken)
      ∙ ap (◌++◌ b.keys) (sym (filled-append done.taken holds.taken));
  valid = holds.valid;
}

-- While the library never has answers, any number of rounds on a valid map with an exact byte
-- counter loses no key, with no fuel: the rounds return and leave a valid map, and the keys that
-- they take from the queue's front are kept in order, but for the empty ones, behind those of the
-- rounds before. Or they end at an increment of an erased iterator that does not lead to the
-- successor, and are undefined there.
pub fill_rounds_wait :
    (fuel : ℕ) (rt : Runtime) (n leak : ℕ) (os : List Round) (s : Storage) (b : Batch)
    → IsValid s.storage
    → Balanced leak s.storage
    → All (λ o. answers o.source ≡ false) os
    → ((r : Storage × Batch) × (fill_rounds fuel rt n os s b ≡ some (ok r)) × Holds s b r)
      ⊎ BreaksOff rt (fill_rounds fuel rt n os s b)
unfolding fill_rounds filled
fill_rounds_wait fuel rt n leak [] s b v bal silent = inl (
  (s, b),
  refl,
  record { taken = []; from_front = refl; kept = sym (append-nil b.keys); valid = v },
)
fill_rounds_wait fuel rt n leak (o ∷ os) s b v bal silent =
    elim (fill_round-Collected fuel rt n leak o s b v bal silent.0) [
      | inr (ends, broken) ↦ inr (rw (fill_rounds, ends) refl, broken)
      | inl (t, r, run, queue, done, valid, balanced) ↦
          elim (fill_rounds_wait fuel rt n leak os r.0 r.1 valid balanced silent.1) [
            | inr (ends, broken) ↦ inr (rw (fill_rounds, run) ends, broken)
            | inl (q, rest, holds) ↦
                inl (q, rw (fill_rounds, run) rest, Collected-Holds n s t b r q queue done holds)
          ]
    ]
