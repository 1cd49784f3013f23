-- ===== src/Storage/Increment.antt =====
-- src/storage.cpp, `expirate` and `add_item`: where they end at the increment of an erased iterator.
use swordfishd.Base.{
  ℕ, zero, suc, ◌≡◌, refl, ◌⊎◌, inl, inr, some, Bytes, Bool-cases, leb, err, undefined_behaviour,
  Run-cases,
}
use swordfishd.Dhashmap
use swordfishd.Dhashmap.{Runtime}
use swordfishd.Dhashmap.Increment.{mended, Breaks, EndsAt, bind-agrees, expirate-agrees, add_same}
use swordfishd.Storage.{Storage, expirate, add_item}

pub expirate_agrees :
    (rt : Runtime) (s : Storage)
    → (expirate rt s ≡ expirate (mended rt) s) ⊎ EndsAt rt (expirate rt s)
unfolding expirate
expirate_agrees rt s =
    bind-agrees rt (Dhashmap.expirate rt s.storage s.expirate_size) _ _ _
      (expirate-agrees rt s.storage s.expirate_size) (λ r. inl refl)

pub add_item-agrees :
    (fuel : ℕ) (rt : Runtime) (s : Storage) (key val : Bytes) (now : ℕ)
    → (add_item fuel rt s key val now ≡ add_item fuel (mended rt) s key val now)
      ⊎ ((add_item fuel rt s key val now ≡ some (err undefined_behaviour)) × Breaks rt)
unfolding add_item
add_item-agrees zero rt s key val now = inl refl
add_item-agrees (suc fuel) rt s key val now =
    elim (Bool-cases (leb s.max_storage_size (Dhashmap.get_storage_size s.storage))) [
      | inr room ↦ inl (rw (room, add_same rt s.storage key val now) refl)
      | inl full ↦ elim (expirate_agrees rt s) [
        | inr (ends, b) ↦ inr (rw (full, ends) refl, b)
        | inl same ↦ elim (Run-cases (expirate (mended rt) s)) [
          | inl (f, fails) ↦ inl (rw (full, same, fails) refl)
          | inr (t, freed) ↦ rw (full, same, freed) (add_item-agrees fuel rt t key val now)
        ]
      ]
    ]
