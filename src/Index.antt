-- ===== src/Index.antt =====
-- include/dhashmap.hpp, the types: values behind shared and weak pointers, the index `keys_` of
-- keys and the set `values_` of weak pointers.
-- A value object is never written after it is made, so a pointer is the object's address together
-- with its text. A weak pointer is the same address; it locks while some strong pointer has it.
pub mod Keys
pub mod Values
pub mod Refresh
pub mod Footprint
pub mod Reference
pub mod Lengths
use swordfishd.Base.{
  ℕ, suc, ◌+◌, ◌≤◌, ◌≡◌, Bool, true, false, Option, none, some, List, [], ◌∷◌, ◌++◌, ltb, ◌==◌,
  if◌then◌else◌, All, Bytes, str_eq, Run, ok, err, aborted, ◌&&◌, ◌>>=◌,
}

-- `map_item_type` and `set_item_type`.
pub record Pointer : Type 0 where
  pub addr : ℕ
  pub text : Bytes

-- `key_type_struct`.
pub record Entry : Type 0 where
  pub key : Bytes
  pub ttl : ℕ
  pub value : Pointer

-- The constructor of `key_type_struct`, run at time `now`.
abbrev pub new_entry : Bytes → ℕ → Pointer → Entry
new_entry key now value = record { key = key; ttl = now; value = value }

-- The number of entries that hold an address.
unfoldable pub references : ℕ → List Entry → ℕ
references a [] = 0
references a (e ∷ es) = (if e.value.addr == a then 1 else 0) + references a es

-- `use_count()` of an address that the entries and the local strong pointers hold.
unfoldable pub use_count : List ℕ → List Entry → ℕ → ℕ
use_count [] es a = references a es
use_count (x ∷ xs) es a = (if x == a then 1 else 0) + use_count xs es a

-- `lock()` succeeds.
unfoldable pub locks : List ℕ → List Entry → Pointer → Bool
unfolding use_count
locks locals es p = ltb 0 (use_count locals es p.addr)

-- `dhm_equal_to`.
unfoldable pub dhm_equal_to : List ℕ → List Entry → Pointer → Pointer → Bool
unfolding locks
dhm_equal_to locals es x y = locks locals es x && locks locals es y && str_eq x.text y.text

-- `dhm_hash`: the loaded hash function or the default one, and `abort()` on an expired pointer.
unfoldable pub dhm_hash : (Bytes → ℕ) → Option (Bytes → ℕ) → List ℕ → List Entry → Pointer → Run ℕ
unfolding locks
dhm_hash default custom locals es x =
    if locks locals es x
    then ok (elim custom [ some f ↦ f x.text | none ↦ default x.text ])
    else err aborted

-- `normalized_hash`, by which the index of the keys finds them.
unfoldable pub normalized_hash : (Bytes → ℕ) → Option (Bytes → Bytes) → Bytes → ℕ
normalized_hash default normalize x = default (elim normalize [ some f ↦ f x | none ↦ x ])

-- The element of the set that is equal to `x`.
unfoldable pub search : List ℕ → List Entry → List Pointer → Pointer → Option Pointer
unfolding dhm_equal_to
search locals es [] x = none
search locals es (v ∷ vs) x = if dhm_equal_to locals es x v then some v else search locals es vs x

-- `values_.erase(x)`.
unfoldable pub erase_value : List ℕ → List Entry → List Pointer → Pointer → List Pointer
unfolding dhm_equal_to
erase_value locals es [] x = []
erase_value locals es (v ∷ vs) x =
    if dhm_equal_to locals es x v then vs else v ∷ erase_value locals es vs x

-- The second loop of `expirate`, which erases the expired pointers.
unfoldable pub sweep : List Entry → List Pointer → List Pointer
unfolding locks
sweep es [] = []
sweep es (v ∷ vs) = let rest = sweep es vs in if locks [] es v then v ∷ rest else rest

-- `find` of the hashed index. Its hash is a function of the key, so it finds by equality of keys.
unfoldable pub find_key : Bytes → List Entry → Option Entry
find_key k [] = none
find_key k (e ∷ es) = if str_eq e.key k then some e else find_key k es

-- `erase` at the entry of a key.
unfoldable pub erase_key : Bytes → List Entry → List Entry
erase_key k [] = []
erase_key k (e ∷ es) = if str_eq e.key k then es else e ∷ erase_key k es

-- `update_ttl()` on the entry of a key. The member is mutable: the entry stays where it is.
unfoldable pub update_ttl : Bytes → ℕ → List Entry → List Entry
update_ttl k now [] = []
update_ttl k now (e ∷ es) =
    if str_eq e.key k then record e { ttl = now } ∷ es else e ∷ update_ttl k now es

-- Insertion into the index ordered by `ttl_`: it adds one entry, moves no other, and puts an entry
-- with the latest time last. Elsewhere the place depends on the tree, since `update_ttl` changes
-- times in it.
pub record TtlIndex : Type 0 where
  pub place : Entry → List Entry → List Entry
  pub place_splits :
      (e : Entry) (es : List Entry)
      → (pre : List Entry) × (post : List Entry) × (es ≡ pre ++ post)
        × (place e es ≡ pre ++ e ∷ post)
  pub place_last :
      (e : Entry) (es : List Entry) → All (λ x. x.ttl ≤ e.ttl) es → place e es ≡ es ++ e ∷ []

-- `keys_.insert`: the hashed index refuses a second entry of a key.
unfoldable pub insert_key : TtlIndex → Entry → List Entry → List Entry
unfolding find_key
insert_key ix e es = elim (find_key e.key es) [ none ↦ ix.place e es | some x ↦ es ]
