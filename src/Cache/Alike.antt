-- ===== src/Cache/Alike.antt =====
-- include/dhashmap.hpp: the entries of the index as a plain list, and why a shared object can be
-- read off from equal texts.
use swordfishd.Base.{
  ℕ, ◌≡◌, ◌↔◌, refl, ap, inl, inr, true, false, none, some, Option, List, [], ◌∷◌, map, arith, ◌==◌,
  if◌then◌else◌, Bool-cases, All, Bytes, str_eq, str_eq_iff,
}
use swordfishd.Index.{Pointer, Entry, references, use_count, find_key, erase_key, update_ttl}
use swordfishd.Index.Values.{Has, IsLive}
use swordfishd.Index.Footprint.{Agrees}
use swordfishd.Dhashmap.{Dhashmap}
use swordfishd.Dhashmap.Invariant.{IsValid}
use swordfishd.Dhashmap.Insert.{All-both, All-map, All-IsLive}
use swordfishd.Cache.Notes.{Note, find_note, remove, touch, has_text}

abbrev pub note : Entry → Note
note e = record { key = e.key; text = e.value.text; time = e.ttl }

abbrev pub notes : List Entry → List Note
notes = map note

abbrev pub note_of : Option Entry → Option Note
note_of none = none
note_of (some e) = some (note e)

pub find_note-notes :
    (k : Bytes) (es : List Entry) → find_note k (notes es) ≡ note_of (find_key k es)
unfolding find_note find_key
find_note-notes k [] = refl
find_note-notes k (e ∷ es) = ground (arith, find_note-notes k es)

pub remove-notes : (k : Bytes) (es : List Entry) → remove k (notes es) ≡ notes (erase_key k es)
unfolding remove erase_key
remove-notes k [] = refl
remove-notes k (e ∷ es) = ground (arith, remove-notes k es)

pub touch-notes :
    (k : Bytes) (now : ℕ) (es : List Entry) → touch k now (notes es) ≡ notes (update_ttl k now es)
unfolding touch update_ttl
touch-notes k now [] = refl
touch-notes k now (e ∷ es) = ground (arith, touch-notes k now es)

-- Two objects of the entries are one exactly if they have one text.
abbrev pub SameObject : Entry → Entry → Type 0
SameObject e x = (x.value.addr ≡ e.value.addr) ↔ (x.value.text ≡ e.value.text)

abbrev pub Alike : List Entry → Type 0
Alike [] = Unit
Alike (e ∷ es) = All (SameObject e) es × Alike es

abbrev Held : Dhashmap → Entry → Type 0
Held m e = Has e.value m.values × IsLive m.keys e.value

pub Held-SameObject :
    (m : Dhashmap) (e x : Entry) → IsValid m → Held m e → Held m x → SameObject e x
Held-SameObject m e x v h k = (
  λ same. ap (λ (p : Pointer). p.text) (v.by_addr x.value e.value k.0 h.0 same),
  v.one_copy x.value e.value k.0 h.0 k.1 h.1,
)

Held-Alike : (m : Dhashmap) (es : List Entry) → IsValid m → All (Held m) es → Alike es
Held-Alike m [] v h = tt
Held-Alike m (e ∷ es) v h =
    (All-map _ _ es (λ x k. Held-SameObject m e x v h.0 k) h.1, Held-Alike m es v h.1)

pub IsValid-Held : (m : Dhashmap) → IsValid m → All (Held m) m.keys
IsValid-Held m v = All-both _ _ m.keys v.held (All-IsLive m.keys)

pub IsValid-Alike : (m : Dhashmap) → IsValid m → Alike m.keys
IsValid-Alike m v = Held-Alike m m.keys v (IsValid-Held m v)

-- An object that no later entry holds has a text that no later entry has.
has_text-references :
    (e : Entry) (es : List Entry)
    → All (SameObject e) es
    → has_text e.value.text (notes es) ≡ (if references e.value.addr es == 0 then false else true)
unfolding has_text references
has_text-references e [] h = refl
has_text-references e (x ∷ es) h =
    ground (arith, has_text-references e es h.1, h.0, str_eq_iff x.value.text e.value.text)

pub use_count-notes :
    (e : Entry) (es : List Entry)
    → All (SameObject e) es
    → (use_count [] (e ∷ es) e.value.addr == 1)
      ≡ (if has_text e.value.text (notes es) then false else true)
unfolding use_count references
use_count-notes e es h = rw (has_text-references e es h) (ground arith)

-- A live object's text stands in the list.
pub IsLive-has_text :
    (p : Pointer) (es : List Entry) → Agrees p es → IsLive es p → has_text p.text (notes es) ≡ true
unfolding has_text references
IsLive-has_text p [] h l = absurd (omega arith)
IsLive-has_text p (e ∷ es) h l =
    ground (arith, h.0, IsLive-has_text p es h.1, str_eq_iff e.value.text p.text)

-- A text that stands in the list is that of an entry.
pub has_text-All {ℓ} :
    (P : Entry → Type ℓ) (t : Bytes) (es : List Entry)
    → All P es
    → has_text t (notes es) ≡ true
    → (e : Entry) × P e × (e.value.text ≡ t)
unfolding has_text
has_text-All P t [] h k = cc
has_text-All P t (e ∷ es) h k = elim (Bool-cases (str_eq e.value.text t)) [
  | inl hit ↦ (e, h.0, (str_eq_iff e.value.text t).0 hit)
  | inr miss ↦ has_text-All P t es h.1 (ground arith)
]
