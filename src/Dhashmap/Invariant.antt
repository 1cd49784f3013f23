-- ===== src/Dhashmap/Invariant.antt =====
-- include/dhashmap.hpp, the invariant: distinct keys, every key's value in the set of values,
-- and in the set one live object for each text.
use mathlib.Core.Path.{subst}
use swordfishd.Base.{ℕ, ◌≤◌, ◌<◌, ◌≡◌, ap, some, List, [], ◌∷◌, ◌++◌, arith, All, Bytes}
use swordfishd.Index.{Pointer, Entry, references, sweep, find_key, update_ttl}
use swordfishd.Index.Keys.{HasKeys, find_key-Located}
use swordfishd.Index.Refresh.{update_ttl-HasKeys, update_ttl-All, references-update_ttl}
use swordfishd.Index.Values.{Has, IsLive, sweep-Has, Has-sweep}
use swordfishd.Index.Footprint.{Agrees, references-append}
use swordfishd.Dhashmap.{Dhashmap, Hooks, new_dhashmap}

pub record IsValid (m : Dhashmap) : Type 0 where
  pub distinct : HasKeys m.keys
  pub held : All (λ (e : Entry). Has e.value m.values) m.keys
  pub one_copy :
      (p q : Pointer)
      → Has p m.values
      → Has q m.values
      → IsLive m.keys p
      → IsLive m.keys q
      → p.text ≡ q.text
      → p.addr ≡ q.addr
  pub by_addr : (p q : Pointer) → Has p m.values → Has q m.values → p.addr ≡ q.addr → p ≡ q
  pub made : (p : Pointer) → Has p m.values → p.addr < m.next_addr

pub new_dhashmap-IsValid : (ttl : ℕ) (hooks : Hooks) → IsValid (new_dhashmap ttl hooks)
unfolding new_dhashmap
new_dhashmap-IsValid ttl hooks = record {
  distinct = tt;
  held = tt;
  one_copy = λ p q h. absurd h;
  by_addr = λ p q h. absurd h;
  made = λ p h. absurd h;
}

pub All-Located {ℓ} :
    (P : Entry → Type ℓ) (pre : List Entry) (e : Entry) (post : List Entry)
    → All P (pre ++ e ∷ post)
    → P e
All-Located P [] e post h = h.0
All-Located P (x ∷ pre) e post h = All-Located P pre e post h.1

-- A property of all entries holds of the one that a key finds.
pub All-find_key {ℓ} :
    (P : Entry → Type ℓ) (k : Bytes) (e : Entry) (es : List Entry)
    → find_key k es ≡ some e
    → All P es
    → P e
All-find_key P k e es f h =
    let l = find_key-Located k e es f in All-Located P l.pre e l.post (subst (All P) l.split h)

-- An entry's object is live.
pub find_key-IsLive :
    (k : Bytes) (e : Entry) (es : List Entry) → find_key k es ≡ some e → IsLive es e.value
unfolding find_key references
find_key-IsLive k e [] f = cc
find_key-IsLive k e (x ∷ xs) f = ground (arith, find_key-IsLive k e xs)

held-Agrees :
    (p : Pointer) (vs : List Pointer) (es : List Entry)
    → ((q r : Pointer) → Has q vs → Has r vs → q.addr ≡ r.addr → q ≡ r)
    → Has p vs
    → All (λ (e : Entry). Has e.value vs) es
    → Agrees p es
held-Agrees p vs [] unique h k = tt
held-Agrees p vs (e ∷ es) unique h k = (
  λ same. ap (λ (q : Pointer). q.text) (unique e.value p k.0 h same),
  held-Agrees p vs es unique h k.1,
)

-- Entries with one address have one text.
pub IsValid-Agrees : (m : Dhashmap) (p : Pointer) → IsValid m → Has p m.values → Agrees p m.keys
IsValid-Agrees m p v h = held-Agrees p m.values m.keys v.by_addr h v.held

-- Refreshing the time of a key keeps the invariant.
pub refresh-IsValid :
    (m : Dhashmap) (k : Bytes) (now : ℕ)
    → IsValid m
    → IsValid (record m { keys = update_ttl k now m.keys })
refresh-IsValid m k now v = record {
  distinct = update_ttl-HasKeys k now m.keys v.distinct;
  held = update_ttl-All (λ p. Has p m.values) k now m.keys v.held;
  one_copy = λ p q hp hq lp lq.
      v.one_copy p q hp hq (rw references-update_ttl at lp) (rw references-update_ttl at lq);
  by_addr = v.by_addr;
  made = v.made;
}

-- A state that differs in counters only.
pub same_data-IsValid :
    (m m' : Dhashmap)
    → m'.keys ≡ m.keys
    → m'.values ≡ m.values
    → m'.next_addr ≡ m.next_addr
    → IsValid m
    → IsValid m'
same_data-IsValid m m' ek ev en v = record {
  distinct = rw ek v.distinct;
  held = rw (ek, ev) v.held;
  one_copy = rw (ek, ev) v.one_copy;
  by_addr = rw ev v.by_addr;
  made = rw (ev, en) v.made;
}

HasKeys-suffix : (pre post : List Entry) → HasKeys (pre ++ post) → HasKeys post
HasKeys-suffix [] post h = h
HasKeys-suffix (x ∷ pre) post h = HasKeys-suffix pre post h.1

pub All-suffix {ℓ} : (P : Entry → Type ℓ) (pre post : List Entry) → All P (pre ++ post) → All P post
All-suffix P [] post h = h
All-suffix P (x ∷ pre) post h = All-suffix P pre post h.1

held_live :
    (vs : List Pointer) (es all : List Entry)
    → ((a : ℕ) → references a es ≤ references a all)
    → All (λ (e : Entry). Has e.value vs) es
    → All (λ (e : Entry). Has e.value (sweep all vs)) es
unfolding references
held_live vs [] all le h = tt
held_live vs (e ∷ es) all le h = (
  Has-sweep all vs e.value h.0 (ground (arith, le e.value.addr)),
  held_live vs es all (λ a. omega (arith, le a)) h.1,
)

-- Dropping entries from the front of the index, and sweeping the set, keeps the invariant.
pub suffix-IsValid :
    (m : Dhashmap) (pre post : List Entry)
    → m.keys ≡ pre ++ post
    → IsValid m
    → IsValid (record m { keys = post; values = sweep post m.values })
suffix-IsValid m pre post e v =
    let in_old =
      λ (p : Pointer) (h : Has p (sweep post m.values)). (sweep-Has post m.values p h).0 in
    let live_old = λ (p : Pointer) (h : IsLive post p).
      let l : IsLive m.keys p =
        omega (arith, ap (references p.addr) e, references-append p.addr pre post) in
      l in
    record {
      distinct = HasKeys-suffix pre post (subst HasKeys e v.distinct);
      held =
          held_live m.values post post (λ a. omega arith)
            (All-suffix _ pre post (subst (All (λ (x : Entry). Has x.value m.values)) e v.held));
      one_copy = λ p q hp hq lp lq.
          v.one_copy p q (in_old p hp) (in_old q hq) (live_old p lp) (live_old q lq);
      by_addr = λ p q hp hq. v.by_addr p q (in_old p hp) (in_old q hq);
      made = λ p h. v.made p (in_old p h);
    }
