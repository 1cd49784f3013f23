-- ===== src/Dhashmap.antt =====
-- include/dhashmap.hpp and src/dhashmap.cpp: the double hash map, from keys to shared values.
-- The time of each reading of the clock is an argument. A method is one step on the state.
pub mod Invariant
pub mod Insert
pub mod InsertSize
pub mod InsertNew
pub mod InsertValid
pub mod InsertView
pub mod Lookup
pub mod Expiry
pub mod Increment
use swordfishd.Base.{
  ℕ, suc, ◌+◌, Bool, true, false, not, Option, none, some, List, [], ◌∷◌, ◌++◌, ltb, ◌==◌, ◌&&◌,
  ◌||◌, if◌then◌else◌, length, Bytes, empty, Run, ok, err, aborted, exits, undefined_behaviour,
  ◌>>=◌, uint_add, to_uint, size_add, size_sub,
}
use swordfishd.Index.{
  Pointer, Entry, new_entry, references, use_count, locks, dhm_hash, search, erase_value, sweep,
  find_key, erase_key, update_ttl, TtlIndex, insert_key,
}

-- The static pointers to functions of the loaded library.
pub record Hooks : Type 0 where
  pub custom_hash : Option (Bytes → ℕ)
  pub normalize_key : Option (Bytes → Bytes)

pub record Dhashmap : Type 0 where
  pub ttl : ℕ
  pub keys : List Entry
  pub values : List Pointer
  pub deleted : ℕ
  pub gets : ℕ
  pub updates : ℕ
  pub configured : Bool
  pub storage_size : ℕ
  pub lib_handle : Bool
  pub hooks : Hooks
  -- the address of the next object that `new` makes
  pub next_addr : ℕ

-- What the surroundings decide: the ordered index, the default hash of texts, and whether the
-- freed tree node still leads to its successor when `expirate` increments the erased iterator.
pub record Runtime : Type 0 where
  pub index : TtlIndex
  pub default_hash : Bytes → ℕ
  pub survives : Entry → List Entry → Bool

-- The constructor.
unfoldable pub new_dhashmap : ℕ → Hooks → Dhashmap
new_dhashmap ttl hooks = record {
  ttl = ttl;
  keys = [];
  values = [];
  deleted = 0;
  gets = 0;
  updates = 0;
  configured = false;
  storage_size = 0;
  lib_handle = false;
  hooks = hooks;
  next_addr = 0;
}

-- What `dlopen` and `dlsym` give for a library: its two functions, and whether `dlerror` is set.
pub record Library : Type 0 where
  pub custom_hash : Option (Bytes → ℕ)
  pub normalize_key : Option (Bytes → Bytes)
  pub failed : Bool

-- A pointer that is already set is kept.
abbrev keep {ℓ} : {A : Type ℓ} → Option A → Option A → Option A
keep (some a) b = some a
keep none b = b

abbrev is_null {ℓ} : {A : Type ℓ} → Option A → Bool
is_null none = true
is_null (some a) = false

-- `configure_func` behind its test for an empty path.
unfoldable pub configure_with : Option Library → Dhashmap → Run Dhashmap
configure_with none m = err exits
configure_with (some lib) m =
    let custom = keep m.hooks.custom_hash lib.custom_hash in
    let normalize = keep m.hooks.normalize_key lib.normalize_key in
    if lib.failed || (is_null normalize || is_null custom)
    then err exits
    else ok (record m {
      hooks = record { custom_hash = custom; normalize_key = normalize };
      lib_handle = true;
      configured = true;
    })

-- `configure_func`, given what the dynamic linker has under the path.
unfoldable pub configure_func : Option Library → Bytes → Dhashmap → Run Dhashmap
unfolding configure_with
configure_func lib path m = if empty path then ok m else configure_with lib m

-- The key as `get` looks it up.
unfoldable pub normalize : Hooks → Bytes → Bytes
normalize h k = elim h.normalize_key [ some f ↦ f k | none ↦ k ]

-- `values_.find`, which hashes its argument first.
unfoldable pub find_value : Runtime → Dhashmap → List ℕ → Pointer → Run (Option Pointer)
unfolding search dhm_hash
find_value rt m locals x = do
  _ ← dhm_hash rt.default_hash m.hooks.custom_hash locals m.keys x
  ok (search locals m.keys m.values x)

-- What `get` returns and leaves in its reference parameters.
pub record Answer : Type 0 where
  pub fresh : Bool
  pub val : Bytes
  pub normalized : Bytes

-- `get` once the entry of the key is found, behind the check of `values_`.
unfoldable pub get_entry : Dhashmap → Entry → Bytes → ℕ → ℕ → Dhashmap × Answer
get_entry m e key now later =
    if ltb now (e.ttl + m.ttl)
    then (
      record m { keys = update_ttl key later m.keys },
      record { fresh = true; val = e.value.text; normalized = key },
    )
    else (
      record m { updates = uint_add m.updates 1 },
      record { fresh = false; val = e.value.text; normalized = key },
    )

unfoldable pub get_found :
    Runtime → Dhashmap → Option Entry → Bytes → Bytes → ℕ → ℕ → Run (Dhashmap × Answer)
unfolding get_entry
get_found rt m none key val now later =
    ok (m, record { fresh = false; val = val; normalized = key })
get_found rt m (some e) key val now later = do
  r ← find_value rt m [] e.value
  elim r [ some v ↦ ok (get_entry m e key now later) | none ↦ err aborted ]

-- `get`, with the two readings of the clock.
unfoldable pub get : Runtime → Dhashmap → Bytes → Bytes → ℕ → ℕ → Run (Dhashmap × Answer)
unfolding get_found normalize
get rt m key val now later =
    let m' = record m { gets = uint_add m.gets 1 } in
    let k = normalize m.hooks key in get_found rt m' (find_key k m'.keys) k val now later

-- The branches of `add` for a value that is stored already.
unfoldable pub add_shared : Runtime → Dhashmap → ℕ → Pointer → Bytes → ℕ → Option Entry → Dhashmap
add_shared rt m item found key now none = record m {
  keys = insert_key rt.index (new_entry key now found) m.keys;
  storage_size = size_add m.storage_size (length key);
}
add_shared rt m item found key now (some e) =
    let last = use_count (found.addr ∷ item ∷ []) m.keys e.value.addr == 1 in
    if e.value.addr == found.addr then m else record m {
      keys = insert_key rt.index (new_entry key now found) (erase_key key m.keys);
      values =
          if last then erase_value (found.addr ∷ item ∷ []) m.keys m.values e.value else m.values;
      storage_size = if last then size_sub m.storage_size (length e.value.text) else m.storage_size;
    }

-- The branches of `add` for a value that is not stored.
unfoldable pub add_new : Runtime → Dhashmap → Pointer → Bytes → ℕ → Option Entry → Dhashmap
add_new rt m item key now (some e) = record m {
  keys = update_ttl key now m.keys;
  values = item ∷ m.values;
  storage_size = size_add m.storage_size (length item.text);
}
add_new rt m item key now none = record m {
  values = item ∷ m.values;
  keys = insert_key rt.index (new_entry key now item) m.keys;
  storage_size = size_add m.storage_size (length item.text + length key);
}

-- `add`. It returns true always. The branch that finds a pointer and cannot lock it goes on to
-- use the null pointer that the lock gave.
unfoldable pub add : Runtime → Dhashmap → Bytes → Bytes → ℕ → Run Dhashmap
unfolding add_shared add_new
add rt m key val now =
    let item : Pointer = record { addr = m.next_addr; text = val } in
    let m' = record m { next_addr = suc m.next_addr } in
    do
      r ← find_value rt m' (item.addr ∷ []) item
      elim r [
        | some found ↦
            if locks (item.addr ∷ []) m'.keys found
            then ok (add_shared rt m' item.addr found key now (find_key key m'.keys))
            else err undefined_behaviour
        | none ↦ ok (add_new rt m' item key now (find_key key m'.keys))
      ]

-- The first loop of `expirate`: the entries left, the bytes counted, the entries erased.
unfoldable pub expire_keys : Runtime → ℕ → List Entry → ℕ → ℕ → Run (List Entry × ℕ × ℕ)
expire_keys rt limit [] bytes n = ok ([], bytes, n)
expire_keys rt limit (e ∷ es) bytes n =
    let key_bytes = size_add bytes (length e.key) in
    let bytes' =
      if use_count [] (e ∷ es) e.value.addr == 1
      then size_add key_bytes (length e.value.text)
      else key_bytes in
    let rest = expire_keys rt limit es bytes' (suc n) in
    if ltb bytes limit
    then if rt.survives e es then rest else err undefined_behaviour
    else ok (e ∷ es, bytes, n)

-- The rest of `expirate`, after its first loop.
abbrev pub after_expiry : Dhashmap → List Entry × ℕ × ℕ → Dhashmap
after_expiry m (left, bytes, n) = record m {
  keys = left;
  values = sweep left m.values;
  deleted = uint_add m.deleted n;
  storage_size = size_sub m.storage_size bytes;
}

-- `expirate`: the new state, and the count that it returns.
unfoldable pub expirate : Runtime → Dhashmap → ℕ → Run (Dhashmap × ℕ)
unfolding expire_keys sweep
expirate rt m limit = do
  r ← expire_keys rt limit m.keys 0 0
  ok (after_expiry m r, (after_expiry m r).deleted)

-- The sizes for the statistics.
unfoldable pub get_storage_size : Dhashmap → ℕ
get_storage_size m = to_uint m.storage_size

unfoldable pub get_keys_size : Dhashmap → ℕ
get_keys_size m = to_uint (length m.keys)

unfoldable pub get_values_size : Dhashmap → ℕ
get_values_size m = to_uint (length m.values)

-- The counters for the statistics, each reset by the call that reads it.
unfoldable pub get_deleted : Dhashmap → Dhashmap × ℕ
get_deleted m = (record m { deleted = 0 }, m.deleted)

unfoldable pub get_gets : Dhashmap → Dhashmap × ℕ
get_gets m = (record m { gets = 0 }, m.gets)

unfoldable pub get_updates : Dhashmap → Dhashmap × ℕ
get_updates m = (record m { updates = 0 }, m.updates)
