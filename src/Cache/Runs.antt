-- ===== src/Cache/Runs.antt =====
-- src/dhashmap.cpp: any sequence of calls against the specification, and what it implies.
use swordfishd.Base.{
  ℕ, ◌≡◌, refl, sym, ap, ◌∙◌, ◌⊎◌, inl, inr, none, some, List, [], ◌∷◌, arith, Bool-cases,
  Option-cases, Bytes, str_eq, str_eq_iff, ok,
}
use mathlib.Core.Path.{subst}
use swordfishd.Dhashmap.{Dhashmap, Runtime, Hooks, new_dhashmap, normalize}
use swordfishd.Dhashmap.Invariant.{IsValid, new_dhashmap-IsValid}
use swordfishd.Dhashmap.Lookup.{view}
use swordfishd.Dhashmap.Expiry.{Survives}
use swordfishd.Index.{find_key}
use swordfishd.Cache.{
  Call, add, get, expirate, Seen, nothing, value, perform_all, Contents, Allows, Trace, done, next,
}
use swordfishd.Cache.Increment.{perform_all-agrees}
use swordfishd.Cache.Steps.{perform-Refines}
use swordfishd.Dhashmap.Increment.{mended, EndsAt}

perform_all-Trace :
    (rt : Runtime) (calls : List Call) (m : Dhashmap)
    → Survives rt
    → IsValid m
    → (r : Dhashmap × List Seen) × (perform_all rt calls m ≡ ok r)
      × Trace m.hooks (view m) calls (view r.0) r.1
      × IsValid r.0
unfolding perform_all
perform_all-Trace rt [] m alive v = ((m, []), refl, done, v)
perform_all-Trace rt (c ∷ calls) m alive v =
    let x = perform-Refines rt m c alive v in
    let (r, run, trace, valid) = perform_all-Trace rt calls x.after alive x.valid in
    let same : Trace m.hooks (view x.after) calls (view r.0) r.1 =
      subst (λ h. Trace h (view x.after) calls (view r.0) r.1) x.hooks_same trace in
    ((r.0, x.seen ∷ r.1), rw (x.runs, run), next x.allowed same, valid)

abbrev pub no_contents : Contents
no_contents k = none

view-new : (ttl : ℕ) (hooks : Hooks) → view (new_dhashmap ttl hooks) ≡ no_contents
unfolding view new_dhashmap find_key
view-new ttl hooks = refl

-- One of the calls adds the value under the key.
abbrev pub IsAdded : Bytes → Bytes → List Call → Type 0
IsAdded k v [] = ⊥
IsAdded k v (add key val now ∷ calls) = ((key ≡ k) × (val ≡ v)) ⊎ IsAdded k v calls
IsAdded k v (get key now later ∷ calls) = IsAdded k v calls
IsAdded k v (expirate limit ∷ calls) = IsAdded k v calls

-- An answer of `get` is empty, or one of the calls before it added it.
abbrev pub IsAnswer : Hooks → List Call → Seen → Type 0
IsAnswer h calls nothing = Unit
IsAnswer h calls (value key val) = (val ≡ []) ⊎ IsAdded (normalize h key) val calls

-- Each call, behind those of `past`, shows such an answer.
abbrev pub AnswersFrom : Hooks → List Call → List Call → List Seen → Type 0
AnswersFrom h past [] [] = Unit
AnswersFrom h past (c ∷ calls) (s ∷ all) = IsAnswer h past s × AnswersFrom h (c ∷ past) calls all
AnswersFrom h past _ _ = ⊥

IsAdded-here :
    (k v : Bytes) (c : Call) (calls : List Call) → IsAdded k v (c ∷ []) → IsAdded k v (c ∷ calls)
IsAdded-here k v (add key val now) calls (inl h) = inl h
IsAdded-here k v (add key val now) calls (inr h) = elim h [ ]
IsAdded-here k v (get key now later) calls h = elim h [ ]
IsAdded-here k v (expirate limit) calls h = elim h [ ]

IsAdded-later :
    (k v : Bytes) (c : Call) (calls : List Call) → IsAdded k v calls → IsAdded k v (c ∷ calls)
IsAdded-later k v (add key val now) calls h = inr h
IsAdded-later k v (get key now later) calls h = h
IsAdded-later k v (expirate limit) calls h = h

-- What a call leaves in the contents was there, or the call added it.
source_before :
    (h : Hooks) (f g : Contents) (c : Call) (seen : Seen) (k v : Bytes)
    → Allows h f c g seen
    → g k ≡ some v
    → (f k ≡ some v) ⊎ IsAdded k v (c ∷ [])
source_before h f g (add key val now) nothing k v (inl set) e = elim (Bool-cases (str_eq key k)) [
  | inl same ↦ inr (inl ((str_eq_iff key k).0 same, ground (arith, set k)))
  | inr other ↦ inl (ground (arith, set k))
]
source_before h f g (add key val now) nothing k v (inr (known, same)) e = inl (sym (same k) ∙ e)
source_before h f g (get key now later) (value a b) k v (same, p, q) e = inl (sym (same k) ∙ e)
source_before h f g (expirate limit) nothing k v forgets e = elim (forgets k) [
  | inl same ↦ inl (sym same ∙ e)
  | inr gone ↦ absurd (cc)
]
source_before h f g (add key val now) (value a b) k v none_such e = elim none_such [ ]
source_before h f g (get key now later) nothing k v none_such e = elim none_such [ ]
source_before h f g (expirate limit) (value a b) k v none_such e = elim none_such [ ]

-- All contents have been added.
abbrev pub HasSources : Contents → List Call → Type 0
HasSources f past = (k v : Bytes) → f k ≡ some v → IsAdded k v past

call-HasSources :
    (h : Hooks) (f g : Contents) (c : Call) (seen : Seen) (past : List Call)
    → Allows h f c g seen
    → HasSources f past
    → HasSources g (c ∷ past)
call-HasSources h f g c seen past a had k v e = elim (source_before h f g c seen k v a e) [
  | inl before ↦ IsAdded-later k v c past (had k v before)
  | inr added ↦ IsAdded-here k v c past added
]

seen-IsAnswer :
    (h : Hooks) (f g : Contents) (c : Call) (seen : Seen) (past : List Call)
    → Allows h f c g seen
    → HasSources f past
    → IsAnswer h past seen
seen-IsAnswer h f g c nothing past a had = tt
seen-IsAnswer h f g (get key now later) (value a b) past (same, p, q) had =
    elim (Option-cases (f (normalize h key))) [
      | inl missing ↦ inl (rw missing at q)
      | inr (t, held) ↦ inr (rw p (had (normalize h key) b (held ∙ ap some (sym (rw held at q)))))
    ]
seen-IsAnswer h f g (add key val now) (value a b) past none_such had = elim none_such [ ]
seen-IsAnswer h f g (expirate limit) (value a b) past none_such had = elim none_such [ ]

Trace-AnswersFrom :
    {h : Hooks} {f g : Contents} {calls : List Call} {all : List Seen}
    → (past : List Call) → HasSources f past
    → Trace h f calls g all
    → AnswersFrom h past calls all
Trace-AnswersFrom past had done = tt
Trace-AnswersFrom {h} {f} past had (next {g = m} {c = c} {seen = seen} a t) = (
  seen-IsAnswer h f m c seen past a had,
  Trace-AnswersFrom (c ∷ past) (call-HasSources h f m c seen past a had) t,
)

new-AnswersFrom :
    (ttl : ℕ) (hooks : Hooks) (calls : List Call) (r : Dhashmap × List Seen)
    → Trace hooks (view (new_dhashmap ttl hooks)) calls (view r.0) r.1
    → AnswersFrom hooks [] calls r.1
new-AnswersFrom ttl hooks calls r trace =
    Trace-AnswersFrom [] (λ k v e. absurd (cc))
      (subst (λ f. Trace hooks f calls (view r.0) r.1) (view-new ttl hooks) trace)

-- Whatever the clock reads, any sequence of calls on a new map ends at an increment of an erased
-- iterator that does not lead to the successor, and is undefined there, or it returns and leaves a
-- valid map. Then whatever a `get` answers is empty, or one of the calls before it added exactly
-- this value under the normalized key: the map invents no value and gives none to another key.
pub perform_all-AnswersFrom :
    (rt : Runtime) (ttl : ℕ) (hooks : Hooks) (calls : List Call)
    → EndsAt rt (perform_all rt calls (new_dhashmap ttl hooks))
      ⊎ ((r : Dhashmap × List Seen) × (perform_all rt calls (new_dhashmap ttl hooks) ≡ ok r)
          × IsValid r.0
          × AnswersFrom hooks [] calls r.1)
unfolding new_dhashmap
perform_all-AnswersFrom rt ttl hooks calls =
    let m = new_dhashmap ttl hooks in
    elim (perform_all-agrees rt calls m) [
      | inr ends ↦ inl ends
      | inl same ↦
          let (r, run, trace, valid) =
            perform_all-Trace (mended rt) calls m (λ e es. refl) (new_dhashmap-IsValid ttl hooks) in
          inr (r, same ∙ run, valid, new-AnswersFrom ttl hooks calls r trace)
    ]
