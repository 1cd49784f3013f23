-- ===== src/Filler.antt =====
-- include/abstract_filler.hpp and src/abstract_filler.cpp: the thread that fills the storage. It
-- takes keys from the queue, asks a loaded library for their values, and adds these. Another
-- thread ends it by clearing `is_alive_`: each reading of the flag is an argument.
pub mod Collect
pub mod Rounds
pub mod Delivery
pub mod Misses
pub mod Fills
pub mod Ticks
pub mod Pending
pub mod Leaving
pub mod Shutdown
pub mod Hang
use swordfishd.Base.{
  ℕ, zero, suc, ◌+◌, Bool, true, false, not, ◌&&◌, ◌||◌, Option, none, some, List, [], ◌∷◌, ◌++◌,
  ltb, ◌==◌, if◌then◌else◌, length, Bytes, empty, size_sub, Run, ok, err, exits, ◌>>=◌,
}
use swordfishd.Dhashmap.{Runtime}
use swordfishd.Storage.{Storage, expirate, add_item, queue_size, pop_key, storage_size}

-- What `dlopen` and `dlsym` give: the two functions, of which the second can be missing, and
-- whether `dlerror` is set for another reason than that. The first has the keys, and changes the
-- vector of values.
pub record Source : Type 0 where
  pub get_vals : (keys vals : List Bytes) → List Bytes
  pub is_filler_alive : Option Bool
  pub failed : Bool

pub record Filler : Type 0 where
  pub is_alive : Bool
  pub configured : Bool
  pub max_fill_size : ℕ
  pub source : Option Source

-- The constructor.
abbrev pub new_filler : Filler
new_filler = record { is_alive = true; configured = false; max_fill_size = 0; source = none }

-- `Shutdown`.
unfoldable pub shutdown : Filler → Filler
shutdown f = record f { is_alive = false }

-- The library has no function that says whether it can answer.
abbrev pub is_missing : Source → Bool
is_missing source = elim source.is_filler_alive [ none ↦ true | some b ↦ false ]

-- `Configure` behind its test for empty names. A missing symbol sets `dlerror`, as another failure
-- does, and `Configure` reads that behind the second `dlsym`.
configure_with : Option Source → ℕ → Filler → Run Filler
configure_with none size f = err exits
configure_with (some source) size f =
    if source.failed || is_missing source
    then err exits
    else ok (record f {
      configured = true;
      max_fill_size = if size == 0 then 10 else size;
      source = some source;
    })

-- `Configure`, given what the dynamic linker has.
unfoldable pub configure : Option Source → Bytes → Bytes → ℕ → Filler → Run Filler
unfolding configure_with
configure source path function size f =
    if empty path || empty function then ok f else configure_with source size f

-- `k - storage_size() > 0`, a subtraction of `size_t`.
unfoldable pub has_room : ℕ → Storage → Bool
has_room k s = ltb 0 (size_sub k (storage_size s))

-- The expiry at the head of a round.
unfoldable pub make_room : Runtime → ℕ → Storage → Run Storage
make_room rt k s = if size_sub k (storage_size s) == 0 then expirate rt s else ok s

-- The loop that takes keys, `t` times at most.
unfoldable pub collect : (ℕ → Bool) → ℕ → ℕ → Storage → List Bytes → Storage × List Bytes
collect alive k zero s keys = (s, keys)
collect alive k (suc t) s keys =
    let r = pop_key s in
    let taken = if empty r.1 then keys else keys ++ r.1 ∷ [] in
    let rest = collect alive k t r.0 taken in
    if alive t && (not (queue_size s == 0) && has_room k s) then rest else (s, keys)

-- The loop that adds the values, which ends at the end of the shorter list. `clock i` is the
-- reading for the `i`th value. `none` means that an `add_item` ran out of fuel.
unfoldable pub deliver :
    ℕ → Runtime → (ℕ → ℕ) → ℕ → List Bytes → List Bytes → Storage → Option (Run Storage)
deliver fuel rt clock i (k ∷ ks) (v ∷ vs) s = elim (add_item fuel rt s k v (clock i)) [
  | none ↦ none
  | some (err f) ↦ some (err f)
  | some (ok s') ↦ deliver fuel rt clock (suc i) ks vs s'
]
deliver fuel rt clock i _ _ s = some (ok s)

-- The library says that it can answer, or the pointer to its function is null.
abbrev pub answers : Source → Bool
answers source = elim source.is_filler_alive [ none ↦ true | some b ↦ b ]

-- The local vectors `keys` and `vals` of `operator ()`, which outlive a round.
pub record Batch : Type 0 where
  pub keys : List Bytes
  pub vals : List Bytes

-- The rest of a round: the values are added and the keys cleared, or the thread sleeps.
unfoldable pub fill :
    ℕ → Runtime → (ℕ → ℕ) → Source → Storage → Batch → Option (Run (Storage × Batch))
fill fuel rt clock source s b =
    let vals = source.get_vals b.keys b.vals in
    let added : Option (Run (Storage × Batch)) = elim (deliver fuel rt clock 0 b.keys vals s) [
      | none ↦ none
      | some (err f) ↦ some (err f)
      | some (ok s') ↦ some (ok (s', record { keys = []; vals = vals }))
    ] in
    if ltb 0 (length b.keys) && answers source then added else some (ok (s, b))

-- What the surroundings give in one round: the library, which can answer otherwise each time, the
-- readings of the clock, and those of `is_alive` in the inner loop.
pub record Round : Type 0 where
  pub source : Source
  pub clock : ℕ → ℕ
  pub alive : ℕ → Bool

-- One round of the loop of `operator ()`.
unfoldable pub fill_round :
    ℕ → Runtime → ℕ → Round → Storage → Batch → Option (Run (Storage × Batch))
fill_round fuel rt max_fill_size o s b = elim (make_room rt s.max_storage_size s) [
  | err f ↦ some (err f)
  | ok s₁ ↦
      let r = collect o.alive s.max_storage_size max_fill_size s₁ b.keys in
      fill fuel rt o.clock o.source r.0 (record b { keys = r.1 })
]

-- The loop of `operator ()`, over the rounds for which `is_alive` holds.
unfoldable pub fill_rounds :
    ℕ → Runtime → ℕ → List Round → Storage → Batch → Option (Run (Storage × Batch))
fill_rounds fuel rt max_fill_size [] s b = some (ok (s, b))
fill_rounds fuel rt max_fill_size (o ∷ os) s b = elim (fill_round fuel rt max_fill_size o s b) [
  | none ↦ none
  | some (err f) ↦ some (err f)
  | some (ok r) ↦ fill_rounds fuel rt max_fill_size os r.0 r.1
]

-- `operator ()`.
unfoldable pub operate : ℕ → Runtime → List Round → Filler → Storage → Option (Run Storage)
operate fuel rt os f s =
    let filled : Option (Run Storage) =
      elim (fill_rounds fuel rt f.max_fill_size os s (record { keys = []; vals = [] })) [
        | none ↦ none
        | some (err e) ↦ some (err e)
        | some (ok r) ↦ some (ok r.0)
      ] in
    if f.configured then filled else some (err exits)
