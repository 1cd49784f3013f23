-- ===== src/Filler/Hang.antt =====
-- src/storage.cpp, `add_item`, in the filler's thread: the loop that waits for room does not read
-- `is_alive_`, and so neither does the thread while it is in there.
use swordfishd.Base.{
  ℕ, ◌<◌, ◌≤◌, ◌≡◌, ◌∙◌, refl, ◌⊎◌, inl, inr, true, List, [], ◌∷◌, leb, le→leb, arith, Bytes, ok,
  uint_limit, to_uint-exact,
}
use swordfishd.Dhashmap
use swordfishd.Dhashmap.{Runtime}
use swordfishd.Dhashmap.Invariant.{IsValid}
use swordfishd.Dhashmap.Expiry.{Balanced, expirate-Erases}
use swordfishd.Storage.{Storage, expirate, storage_size}
use swordfishd.Dhashmap.Increment.{mended, EndsAt}
use swordfishd.Storage.Increment.{expirate_agrees}
use swordfishd.Storage.Room.{expiry_small}
use swordfishd.Filler.{Batch}
use swordfishd.Filler.Ticks.{
  Phase, adds, frees, Reading, Thread, at_phase, tick, ticks, expirate_ok,
}

-- A storage that lost as many bytes as its limit.
pub record IsFull (leak : ℕ) (s : Storage) : Type 0 where
  pub lost : s.max_storage_size ≤ leak
  pub small : s.storage.storage_size < uint_limit
  pub valid : IsValid s.storage
  pub balanced : Balanced leak s.storage

no_room : (leak : ℕ) (s : Storage) → IsFull leak s → leb s.max_storage_size (storage_size s) ≡ true
unfolding storage_size Dhashmap.get_storage_size
no_room leak s f =
    let exact = to_uint-exact s.storage.storage_size f.small in
    le→leb _ _ (rw exact (omega (arith, f.lost, f.balanced.size_is)))

expirate-IsFull :
    (rt : Runtime) (leak : ℕ) (s : Storage)
    → IsFull leak s
    → ((t : Storage) × (expirate rt s ≡ ok t) × IsFull leak t) ⊎ EndsAt rt (expirate rt s)
expirate-IsFull rt leak s f = elim (expirate_agrees rt s) [
  | inr ends ↦ inr ends
  | inl same ↦
      let (r, run, erases, valid, balanced) =
        expirate-Erases (mended rt) s.expirate_size leak s.storage (λ e es. refl) f.valid
          f.balanced in
      inl (
        record s { storage = r.0 },
        same ∙ expirate_ok (mended rt) s r run,
        record {
          lost = f.lost;
          small =
              expiry_small s.expirate_size leak uint_limit s.storage r erases f.balanced balanced
                f.small;
          valid = valid;
          balanced = balanced;
        },
      )
]

-- The thread is in the loop, with the key `k` and the value `v` to add.
abbrev pub Waits : (k v : Bytes) (ks vs : List Bytes) → Phase → Type 0
Waits k v ks vs p = (p ≡ adds (k ∷ ks) (v ∷ vs)) ⊎ (p ≡ frees k v ks vs)

-- A thread in the loop of `add_item` that waits for room never leaves it, on a storage that lost
-- as many bytes as its limit, with a valid map that shows its byte counter in 32 bits: whatever
-- number of steps it makes and whatever it could read there, as that `is_alive_` is false, it waits
-- to add the same value, or it has met an increment of an erased iterator that does not lead to
-- the successor, and is undefined. The `join` of a `reset_server` waits for it.
pub never_joins :
    (rt : Runtime) (n leak : ℕ) (xs : List Reading) (k v : Bytes) (ks vs : List Bytes) (p : Phase)
    (b : Batch) (s : Storage)
    → IsFull leak s
    → Waits k v ks vs p
    → ((y : Thread × Storage) × (ticks rt n xs (at_phase p b, s) ≡ ok y)
        × Waits k v ks vs y.0.phase)
      ⊎ EndsAt rt (ticks rt n xs (at_phase p b, s))
unfolding ticks tick
never_joins rt n leak [] k v ks vs p b s f w = inl ((at_phase p b, s), refl, w)
never_joins rt n leak (x ∷ xs) k v ks vs p b s f (inl tests) =
    rw (tests, no_room leak s f)
      (never_joins rt n leak xs k v ks vs (frees k v ks vs) b s f (inr refl))
never_joins rt n leak (x ∷ xs) k v ks vs p b s f (inr expires) =
    elim (expirate-IsFull rt leak s f) [
      | inr (ends, broken) ↦ rw (expires, ends) (inr (refl, broken))
      | inl (t, freed, f') ↦
          rw (expires, freed)
            (never_joins rt n leak xs k v ks vs (adds (k ∷ ks) (v ∷ vs)) b t f' (inl refl))
    ]
