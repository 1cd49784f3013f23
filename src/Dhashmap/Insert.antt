-- ===== src/Dhashmap/Insert.antt =====
-- src/dhashmap.cpp, `add`: which branch it takes.
use mathlib.Core.Path.{subst}
use swordfishd.Base.{
  ◌++◌, ℕ, suc, ◌≤◌, ◌<◌, ◌≡◌, ◌≢◌, refl, inl, inr, true, Option, none, some, List, [], ◌∷◌, arith,
  ltb, Bool-cases, Option-cases, All, Bytes, str_eq, ok,
}
use swordfishd.Index.{
  Pointer, Entry, references, use_count, locks, dhm_hash, search, find_key, erase_key, TtlIndex,
  insert_key,
}
use swordfishd.Index.Values.{Has, IsLive, search-Finds, search-none}
use swordfishd.Dhashmap.{Dhashmap, Runtime, find_value, add_shared, add_new, add}
use swordfishd.Dhashmap.Invariant.{IsValid}

-- The object that `add` makes for a value.
abbrev pub item_of : Dhashmap → Bytes → Pointer
item_of m val = record { addr = m.next_addr; text = val }

abbrev pub allocated : Dhashmap → Dhashmap
allocated m = record m { next_addr = suc m.next_addr }

-- The live object of the set that has the text of a value.
unfoldable pub stored : Dhashmap → Bytes → Option Pointer
stored m val = search (m.next_addr ∷ []) m.keys m.values (item_of m val)

abbrev pub add_result : Runtime → Dhashmap → Bytes → Bytes → ℕ → Option Pointer → Dhashmap
add_result rt m key val now (some found) =
    add_shared rt (allocated m) m.next_addr found key now (find_key key m.keys)
add_result rt m key val now none =
    add_new rt (allocated m) (item_of m val) key now (find_key key m.keys)

pub add_returns :
    (rt : Runtime) (m : Dhashmap) (key val : Bytes) (now : ℕ)
    → add rt m key val now ≡ ok (add_result rt m key val now (stored m val))
unfolding add find_value dhm_hash stored locks
add_returns rt m key val now =
    let here : ltb 0 (use_count (m.next_addr ∷ []) m.keys m.next_addr) ≡ true =
      unfold use_count in ground arith in
    elim (Option-cases (search (m.next_addr ∷ []) m.keys m.values (item_of m val))) [
      | inl missing ↦ rw (here, missing)
      | inr (p, found) ↦
          let f = search-Finds (m.next_addr ∷ []) m.keys m.values (item_of m val) p found in
          rw (here, found) (rw f.lockable)
    ]

-- What is known of a stored value.
pub record IsStored (m : Dhashmap) (val : Bytes) (p : Pointer) : Type 0 where
  pub in_set : Has p m.values
  pub live : IsLive m.keys p
  pub has_text : p.text ≡ val

pub stored-IsStored :
    (m : Dhashmap) (val : Bytes) (p : Pointer)
    → IsValid m
    → stored m val ≡ some p
    → IsStored m val p
unfolding stored locks use_count
stored-IsStored m val p v h =
    let f = search-Finds (m.next_addr ∷ []) m.keys m.values (item_of m val) p h in
    record {
      in_set = f.in_set;
      live = ground (arith, f.lockable, v.made p f.in_set);
      has_text = f.same_text;
    }

-- No live object has the text of a value that is not stored.
pub stored-none :
    (m : Dhashmap) (val : Bytes) (p : Pointer)
    → stored m val ≡ none
    → Has p m.values
    → IsLive m.keys p
    → p.text ≢ val
unfolding stored locks use_count
stored-none m val p h in_set live =
    search-none (m.next_addr ∷ []) m.keys m.values (item_of m val) p h (ground arith) in_set
      (ground arith)

-- Predicates on the entries of a changed index.
pub All-insert_key {ℓ} :
    (P : Entry → Type ℓ) (ix : TtlIndex) (e : Entry) (es : List Entry)
    → find_key e.key es ≡ none
    → P e
    → All P es
    → All P (insert_key ix e es)
unfolding insert_key
All-insert_key P ix e es k h all =
    let (pre, post, split, placed) = ix.place_splits e es in
    rw (k, insert_key, placed) (All-middle pre post (subst (All P) split all))
  where
    All-middle : (pre post : List Entry) → All P (pre ++ post) → All P (pre ++ e ∷ post)
    All-middle [] post a = (h, a)
    All-middle (x ∷ pre) post a = (a.0, All-middle pre post a.1)

pub All-erase_key {ℓ} :
    (P : Entry → Type ℓ) (k : Bytes) (es : List Entry) → All P es → All P (erase_key k es)
unfolding erase_key
All-erase_key P k [] all = all
All-erase_key P k (e ∷ es) all = elim (Bool-cases (str_eq e.key k)) [
  | inl hit ↦ rw hit all.1
  | inr miss ↦ rw miss (all.0, All-erase_key P k es all.1)
]

pub All-map {ℓ κ} :
    (P : Entry → Type ℓ) (Q : Entry → Type κ) (es : List Entry)
    → ((e : Entry) → P e → Q e)
    → All P es
    → All Q es
All-map P Q [] f all = tt
All-map P Q (e ∷ es) f all = (f e all.0, All-map P Q es f all.1)

pub All-both {ℓ κ} :
    (P : Entry → Type ℓ) (Q : Entry → Type κ) (es : List Entry)
    → All P es
    → All Q es
    → All (λ e. P e × Q e) es
All-both P Q [] a b = tt
All-both P Q (e ∷ es) a b = ((a.0, b.0), All-both P Q es a.1 b.1)

IsLive-in :
    (es all : List Entry)
    → ((a : ℕ) → references a es ≤ references a all)
    → All (λ (e : Entry). IsLive all e.value) es
unfolding references
IsLive-in [] all le = tt
IsLive-in (e ∷ es) all le =
    (ground (arith, le e.value.addr), IsLive-in es all (λ a. omega (arith, le a)))

-- Every entry holds its own object.
pub All-IsLive : (es : List Entry) → All (λ (e : Entry). IsLive es e.value) es
All-IsLive es = IsLive-in es es (λ a. omega arith)

references_below :
    (n : ℕ) (es : List Entry) → All (λ (e : Entry). e.value.addr < n) es → references n es ≡ 0
unfolding references
references_below n [] all = refl
references_below n (e ∷ es) all = ground (arith, references_below n es all.1)

-- No entry holds an address that is still to be given out.
pub references_unmade : (m : Dhashmap) → IsValid m → references m.next_addr m.keys ≡ 0
references_unmade m v =
    references_below m.next_addr m.keys (All-map _ _ m.keys (λ e h. v.made e.value h) v.held)
