-- ===== src/Storage/Reloads.antt =====
-- src/daemon.cpp, `create_server`, and src/dhashmap.cpp, `configure_func`: the storages that a daemon
-- makes at its start and at each restart, which share the static pointers of the map.
use swordfishd.Base.{
  ℕ, ◌≡◌, ◌⊎◌, refl, inl, inr, Bool, true, false, not, Option, none, some, List, [], ◌∷◌, ◌&&◌,
  ◌||◌, arith, Bytes, empty, Run, ok, err, exits, ◌>>=◌, Bool-cases, Option-cases, All, length,
}
use swordfishd.Dhashmap.{Hooks, Library, new_dhashmap, configure_func, configure_with}
use swordfishd.Storage.{Storage, new_storage, configure}

-- The settings of a start that the storage takes, with the library that the linker finds then.
pub record Setting : Type 0 where
  pub now : ℕ
  pub ttl : ℕ
  pub max_storage_size : ℕ
  pub max_queue_size : ℕ
  pub expirate_size : ℕ
  pub path : Bytes
  pub library : Option Library

-- The storage of a start: the constructor and `Configure`.
unfoldable pub make_storage : Hooks → Setting → Run Storage
make_storage hooks s =
    configure s.library s.path
      (new_storage hooks s.now s.ttl s.max_storage_size s.max_queue_size s.expirate_size)

-- The storages of some starts, one after the other.
unfoldable pub make_storages : Hooks → List Setting → Run (List Storage)
make_storages hooks [] = ok []
make_storages hooks (x ∷ xs) = do
  s ← make_storage hooks x
  ss ← make_storages s.storage.hooks xs
  ok (s ∷ ss)

-- A library is there and the linker reports no error, or none is wanted.
abbrev pub loads : Setting → Bool
loads s = empty s.path || elim s.library [ none ↦ false | some lib ↦ not lib.failed ]

-- The static pointers at the start of the process.
abbrev pub unset : Hooks
unset = record { custom_hash = none; normalize_key = none }

abbrev both : (Bytes → ℕ) → (Bytes → Bytes) → Hooks
both f g = record { custom_hash = some f; normalize_key = some g }

-- The outcome of one start that finds the pointers set.
data Made (h : Hooks) (r : Run Storage) (b : Bool) : Type 0 where
  made : (s : Storage) → r ≡ ok s → s.storage.hooks ≡ h → b ≡ true → Made h r b
  ended : r ≡ err exits → b ≡ false → Made h r b

make_storage-Made :
    (f : Bytes → ℕ) (g : Bytes → Bytes) (x : Setting)
    → Made (both f g) (make_storage (both f g) x) (loads x)
unfolding make_storage configure configure_func configure_with new_storage new_dhashmap
make_storage-Made f g x = elim (Bool-cases (empty x.path)) [
  | inl blank ↦ rw blank (made _ refl refl refl)
  | inr named ↦ elim (Option-cases x.library) [
    | inl lacks ↦ rw (named, lacks) (ended refl refl)
    | inr (lib, found) ↦ elim (Bool-cases lib.failed) [
      | inl fails ↦ rw (named, found, fails) (ended refl refl)
      | inr works ↦ rw (named, found, works) (made _ refl refl refl)
    ]
  ]
]

-- All of some starts load.
unfoldable pub all_load : List Setting → Bool
all_load [] = true
all_load (x ∷ xs) = loads x && all_load xs

-- The storages of some starts, in each of which `get` and `add` use the two functions.
abbrev pub Kept : (Bytes → ℕ) → (Bytes → Bytes) → Hooks → List Setting → Type 0
Kept f g hooks xs =
    (ss : List Storage) × (make_storages hooks xs ≡ ok ss)
    × (length ss ≡ length xs)
    × All (λ s. s.storage.hooks ≡ both f g) ss

-- A start that sets the pointers, before others.
start-Kept :
    (f : Bytes → ℕ) (g : Bytes → Bytes) (hooks : Hooks) (x : Setting) (xs : List Setting)
    (s : Storage)
    → make_storage hooks x ≡ ok s
    → s.storage.hooks ≡ both f g
    → (Kept f g (both f g) xs × (all_load xs ≡ true))
      ⊎ ((make_storages (both f g) xs ≡ err exits) × (all_load xs ≡ false))
    → (Kept f g hooks (x ∷ xs) × (all_load xs ≡ true))
      ⊎ ((make_storages hooks (x ∷ xs) ≡ err exits) × (all_load xs ≡ false))
unfolding make_storages
start-Kept f g hooks x xs s now same (inl ((ss, rest, long, all), goes)) =
    inl ((s ∷ ss, rw (make_storages, now, same, rest) refl, omega (arith, long), (same, all)), goes)
start-Kept f g hooks x xs s now same (inr (rest, ends)) =
    inr (rw (make_storages, now, same, rest) refl, ends)

make_storages-Kept :
    (f : Bytes → ℕ) (g : Bytes → Bytes) (xs : List Setting)
    → (Kept f g (both f g) xs × (all_load xs ≡ true))
      ⊎ ((make_storages (both f g) xs ≡ err exits) × (all_load xs ≡ false))
unfolding make_storages all_load
make_storages-Kept f g [] = inl (([], refl, refl, tt), refl)
make_storages-Kept f g (x ∷ xs) = elim (make_storage-Made f g x) [
  | made s now same does ↦
      rw does (start-Kept f g (both f g) x xs s now same (make_storages-Kept f g xs))
  | ended now does ↦ inr (rw (make_storages, now) refl, rw does refl)
]

-- A first start that finds both functions in its library.
make_storage-first :
    (x : Setting) (lib : Library) (f : Bytes → ℕ) (g : Bytes → Bytes)
    → empty x.path ≡ false
    → x.library ≡ some lib
    → lib.failed ≡ false
    → lib.custom_hash ≡ some f
    → lib.normalize_key ≡ some g
    → (s : Storage) × (make_storage unset x ≡ ok s) × (s.storage.hooks ≡ both f g)
unfolding make_storage configure configure_func configure_with new_storage new_dhashmap
make_storage-first x lib f g named found works hashes normalizes =
    let s = new_storage unset x.now x.ttl x.max_storage_size x.max_queue_size x.expirate_size in
    let m = record s.storage { hooks = both f g; lib_handle = true; configured = true } in
    (record s { storage = m }, rw (named, found, works, hashes, normalizes) refl, refl)

-- Where the first start of a process loads a library with both functions, the storages of all its
-- restarts use the functions of this library, whatever libraries the settings of the restarts name
-- and whatever functions these have. The restarts go through exactly if each library that they name
-- is found and the linker reports no error; if not, the process exits.
pub first_library_stays :
    (x : Setting) (xs : List Setting) (lib : Library) (f : Bytes → ℕ) (g : Bytes → Bytes)
    → empty x.path ≡ false
    → x.library ≡ some lib
    → lib.failed ≡ false
    → lib.custom_hash ≡ some f
    → lib.normalize_key ≡ some g
    → (Kept f g unset (x ∷ xs) × (all_load xs ≡ true))
      ⊎ ((make_storages unset (x ∷ xs) ≡ err exits) × (all_load xs ≡ false))
first_library_stays x xs lib f g named found works hashes normalizes =
    let (s, now, same) = make_storage-first x lib f g named found works hashes normalizes in
    start-Kept f g unset x xs s now same (make_storages-Kept f g xs)
