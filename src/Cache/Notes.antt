-- ===== src/Cache/Notes.antt =====
-- include/dhashmap.hpp, as a plain list: keys with their texts and times in the order in which
-- they expire. No pointers, no set of values, no tree: a text is shared when it stands twice.
use swordfishd.Base.{
  ℕ, ◌+◌, Bool, false, ◌||◌, Option, none, some, List, [], ◌∷◌, ◌++◌, ltb, if◌then◌else◌, length,
  Bytes, str_eq, size_add,
}
use swordfishd.Dhashmap.{Hooks, normalize}
use swordfishd.Cache.{Call, add, get, expirate, Seen, nothing, value}

pub record Note : Type 0 where
  pub key : Bytes
  pub text : Bytes
  pub time : ℕ

unfoldable pub find_note : Bytes → List Note → Option Note
find_note k [] = none
find_note k (n ∷ ns) = if str_eq n.key k then some n else find_note k ns

unfoldable pub remove : Bytes → List Note → List Note
remove k [] = []
remove k (n ∷ ns) = if str_eq n.key k then ns else n ∷ remove k ns

unfoldable pub touch : Bytes → ℕ → List Note → List Note
touch k now [] = []
touch k now (n ∷ ns) = if str_eq n.key k then record n { time = now } ∷ ns else n ∷ touch k now ns

-- A text stands under some key.
unfoldable pub has_text : Bytes → List Note → Bool
has_text t [] = false
has_text t (n ∷ ns) = str_eq n.text t || has_text t ns

-- A new key goes to the end, and so does a known key that is given the text of another one. A
-- known key that is given a new text keeps its place and its old text.
unfoldable pub add_note : Bytes → Bytes → ℕ → List Note → List Note
add_note key val now ns =
    let last = record { key = key; text = val; time = now } ∷ [] in
    elim (find_note key ns) [
      | none ↦ ns ++ last
      | some n ↦
          if str_eq n.text val
          then ns
          else if has_text val ns
          then remove key ns ++ last
          else touch key now ns
    ]

-- A young entry is touched where it stands.
unfoldable pub get_note : ℕ → Bytes → ℕ → ℕ → List Note → List Note
get_note ttl key now later ns = elim (find_note key ns) [
  | none ↦ ns
  | some n ↦ if ltb now (n.time + ttl) then touch key later ns else ns
]

-- The bytes of an entry: its key, and its text if that stands under no later key.
abbrev pub entry_bytes : Note → List Note → ℕ → ℕ
entry_bytes n ns bytes =
    let key_bytes = size_add bytes (length n.key) in
    if has_text n.text ns then key_bytes else size_add key_bytes (length n.text)

-- The first entries go until `limit` bytes are counted.
unfoldable pub expire_notes : ℕ → List Note → ℕ → List Note
expire_notes limit [] bytes = []
expire_notes limit (n ∷ ns) bytes =
    let rest = expire_notes limit ns (entry_bytes n ns bytes) in
    if ltb bytes limit then rest else n ∷ ns

abbrev pub text_or_empty : Option Note → Bytes
text_or_empty none = []
text_or_empty (some n) = n.text

-- A call on the list, with what it shows.
abbrev pub call_notes : Hooks → ℕ → Call → List Note → List Note × Seen
call_notes h ttl (add key val now) ns = (add_note key val now ns, nothing)
call_notes h ttl (get key now later) ns = (
  get_note ttl (normalize h key) now later ns,
  value key (text_or_empty (find_note (normalize h key) ns)),
)
call_notes h ttl (expirate limit) ns = (expire_notes limit ns 0, nothing)

unfoldable pub replay : Hooks → ℕ → List Call → List Note → List Note × List Seen
replay h ttl [] ns = (ns, [])
replay h ttl (c ∷ calls) ns =
    let r = call_notes h ttl c ns in let s = replay h ttl calls r.0 in (s.0, r.1 ∷ s.1)
