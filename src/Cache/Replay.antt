-- ===== src/Cache/Replay.antt =====
-- src/dhashmap.cpp: while the clock never goes back, the map is the plain list of Notes.
use mathlib.Core.Path.{subst}
use swordfishd.Base.{
  ℕ, ◌+◌, ◌≤◌, ◌≡◌, ◌⊎◌, refl, ap, ◌∙◌, inl, inr, List, [], ◌∷◌, ltb, Bool-cases, Option-cases,
  Bytes, ok, uint_add,
}
use swordfishd.Index.{find_key, update_ttl}
use swordfishd.Dhashmap
use swordfishd.Dhashmap.{
  Dhashmap, Runtime, Hooks, Answer, new_dhashmap, normalize, get_entry, get_found, after_expiry,
}
use swordfishd.Dhashmap.Invariant.{IsValid, All-suffix, new_dhashmap-IsValid, same_data-IsValid}
use swordfishd.Dhashmap.Insert.{add_result, stored, add_returns}
use swordfishd.Dhashmap.Lookup.{find_value-entry}
use swordfishd.Dhashmap.Increment.{mended, EndsAt}
use swordfishd.Cache.Increment.{perform_all-agrees}
use swordfishd.Dhashmap.Expiry.{Survives}
use swordfishd.Cache.{Call, add, get, expirate, Seen, perform, perform_all}
use swordfishd.Cache.Notes.{Note, get_note, call_notes, replay}
use swordfishd.Cache.Alike.{notes, find_note-notes, touch-notes, IsValid-Alike}
use swordfishd.Cache.Steps.{perform-Refines, expire_keys-drops}
use swordfishd.Cache.Placed.{
  Past, Past-mono, update_ttl-Past, add_result-notes, add_result-Past, add_result-ttl,
  expire_keys-notes,
}

-- The last reading of the clock in a call.
abbrev pub end_of : ℕ → Call → ℕ
end_of t (add key val now) = now
end_of t (get key now later) = later
end_of t (expirate limit) = t

-- The readings of the clock that the calls store never go back, from time `t` on.
abbrev pub IsForward : ℕ → List Call → Type 0
IsForward t [] = Unit
IsForward t (c ∷ calls) = (t ≤ end_of t c) × IsForward (end_of t c) calls

pub record Mirrors (h : Hooks) (ttl t : ℕ) (ns : List Note) (m : Dhashmap) : Type 0 where
  pub notes_are : notes m.keys ≡ ns
  pub hooks_are : m.hooks ≡ h
  pub ttl_is : m.ttl ≡ ttl
  pub past : Past t m.keys
  pub valid : IsValid m

-- A call on the map is the call on the list, with what both show.
record Follows (rt : Runtime) (t : ℕ) (c : Call) (m : Dhashmap) : Type 0 where
  after : Dhashmap
  runs : perform rt c m ≡ ok (after, (call_notes m.hooks m.ttl c (notes m.keys)).1)
  notes_are : notes after.keys ≡ (call_notes m.hooks m.ttl c (notes m.keys)).0
  ttl_is : after.ttl ≡ m.ttl
  past : Past (end_of t c) after.keys

add-Follows :
    (rt : Runtime) (t : ℕ) (key val : Bytes) (now : ℕ) (m : Dhashmap)
    → t ≤ now
    → IsValid m
    → Past t m.keys
    → Follows rt t (add key val now) m
unfolding perform
add-Follows rt t key val now m le v past =
    let earlier = Past-mono t now m.keys le past in
    record {
      after = add_result rt m key val now (stored m val);
      runs = rw (add_returns rt m key val now);
      notes_are = add_result-notes rt m key val now v earlier (stored m val) refl;
      ttl_is = add_result-ttl rt m key val now (stored m val);
      past = add_result-Past rt m key val now (stored m val) v earlier;
    }

get-Follows :
    (rt : Runtime) (t : ℕ) (key : Bytes) (now later : ℕ) (m : Dhashmap)
    → t ≤ later
    → IsValid m
    → Past t m.keys
    → Follows rt t (get key now later) m
unfolding perform Dhashmap.get get_found get_entry get_note
get-Follows rt t key now later m le v past =
    let k = normalize m.hooks key in
    elim (Option-cases (find_key k m.keys)) [
      | inl f ↦ record {
        after = record m { gets = uint_add m.gets 1 };
        runs = rw (f, get_found, find_note-notes k m.keys, f);
        notes_are = rw (find_note-notes k m.keys, f, get_note) refl;
        ttl_is = refl;
        past = Past-mono t later m.keys le past;
      }
      | inr (e, f) ↦
          let m' = record m { gets = uint_add m.gets 1 } in
          let (p, run) = find_value-entry rt m' k e (same_data-IsValid m m' refl refl refl v) f in
          elim (Bool-cases (ltb now (e.ttl + m.ttl))) [
            | inl fresh ↦ record {
              after = record m' { keys = update_ttl k later m.keys };
              runs = rw (f, get_found, run, fresh, find_note-notes k m.keys, f);
              notes_are =
                  rw (find_note-notes k m.keys, f, get_note, fresh, touch-notes k later m.keys)
                    refl;
              ttl_is = refl;
              past = update_ttl-Past t later k m.keys le past;
            }
            | inr stale ↦ record {
              after = record m' { updates = uint_add m.updates 1 };
              runs = rw (f, get_found, run, stale, find_note-notes k m.keys, f);
              notes_are = rw (find_note-notes k m.keys, f, get_note, stale) refl;
              ttl_is = refl;
              past = Past-mono t later m.keys le past;
            }
          ]
    ]

expirate-Follows :
    (rt : Runtime) (t limit : ℕ) (m : Dhashmap)
    → Survives rt
    → IsValid m
    → Past t m.keys
    → Follows rt t (expirate limit) m
unfolding perform Dhashmap.expirate
expirate-Follows rt t limit m alive v past =
    let (r, pre, run, split) = expire_keys-drops rt limit alive m.keys 0 0 in
    record {
      after = after_expiry m r;
      runs = rw run;
      notes_are = expire_keys-notes rt limit alive m.keys 0 0 (IsValid-Alike m v) run;
      ttl_is = refl;
      past = All-suffix _ pre r.0 (subst (Past t) split past);
    }

perform-Follows :
    (rt : Runtime) (t : ℕ) (c : Call) (m : Dhashmap)
    → Survives rt
    → t ≤ end_of t c
    → IsValid m
    → Past t m.keys
    → Follows rt t c m
perform-Follows rt t (add key val now) m alive le v past = add-Follows rt t key val now m le v past
perform-Follows rt t (get key now later) m alive le v past =
    get-Follows rt t key now later m le v past
perform-Follows rt t (expirate limit) m alive le v past = expirate-Follows rt t limit m alive v past

perform_all-Mirrors :
    (rt : Runtime) (h : Hooks) (ttl t : ℕ) (calls : List Call) (ns : List Note) (m : Dhashmap)
    → Survives rt
    → IsForward t calls
    → Mirrors h ttl t ns m
    → (m' : Dhashmap) × (perform_all rt calls m ≡ ok (m', (replay h ttl calls ns).1))
      × (notes m'.keys ≡ (replay h ttl calls ns).0)
unfolding perform_all replay
perform_all-Mirrors rt h ttl t [] ns m alive forward x = (m, refl, x.notes_are)
perform_all-Mirrors rt h ttl t (c ∷ calls) ns m alive forward x =
    let f = perform-Follows rt t c m alive forward.0 x.valid x.past in
    let r = perform-Refines rt m c alive x.valid in
    let one : r.after ≡ f.after = cc (r.runs, f.runs) in
    let step : call_notes m.hooks m.ttl c (notes m.keys) ≡ call_notes h ttl c ns =
      rw (x.hooks_are, x.ttl_is, x.notes_are) refl in
    let next : Mirrors h ttl (end_of t c) (call_notes h ttl c ns).0 f.after = record {
      notes_are = f.notes_are ∙ ap (λ p. p.0) step;
      hooks_are = subst (λ (n : Dhashmap). n.hooks ≡ h) one (r.hooks_same ∙ x.hooks_are);
      ttl_is = f.ttl_is ∙ x.ttl_is;
      past = f.past;
      valid = subst IsValid one r.valid;
    } in
    let (m', run, same) =
      perform_all-Mirrors rt h ttl (end_of t c) calls (call_notes h ttl c ns).0 f.after alive
        forward.1 next in
    let runs : perform rt c m ≡ ok (f.after, (call_notes h ttl c ns).1) =
      f.runs ∙ ap (λ (p : List Note × Seen). ok (f.after, p.1)) step in
    (m', rw (runs, run), same)

-- The same where every increment of an erased iterator leads to its successor.
replay_mended :
    (rt : Runtime) (h : Hooks) (ttl : ℕ) (calls : List Call)
    → Survives rt
    → IsForward 0 calls
    → (m : Dhashmap) × (perform_all rt calls (new_dhashmap ttl h)
        ≡ ok (m, (replay h ttl calls []).1))
      × (notes m.keys ≡ (replay h ttl calls []).0)
unfolding new_dhashmap
replay_mended rt h ttl calls alive forward =
    perform_all-Mirrors rt h ttl 0 calls [] (new_dhashmap ttl h) alive forward (record {
      notes_are = refl;
      hooks_are = refl;
      ttl_is = refl;
      past = tt;
      valid = new_dhashmap-IsValid ttl h;
    })

-- Where the readings of the clock that the calls store never go back, any sequence of calls on a
-- new map ends at an increment of an erased iterator that does not lead to the successor, and is
-- undefined there, or it returns. Then it shows its callers what the same calls on a plain list of
-- keys, texts and times show, and leaves entries with the keys, the texts, the times and the order
-- of that list. In the list a new key goes to the end, a call of `get` moves no key, and an expiry
-- takes keys from the front.
pub perform_all-replay :
    (rt : Runtime) (h : Hooks) (ttl : ℕ) (calls : List Call)
    → IsForward 0 calls
    → EndsAt rt (perform_all rt calls (new_dhashmap ttl h))
      ⊎ ((m : Dhashmap) × (perform_all rt calls (new_dhashmap ttl h)
            ≡ ok (m, (replay h ttl calls []).1))
          × (notes m.keys ≡ (replay h ttl calls []).0))
perform_all-replay rt h ttl calls forward =
    elim (perform_all-agrees rt calls (new_dhashmap ttl h)) [
      | inr ends ↦ inl ends
      | inl same ↦
          let (m, run, all) = replay_mended (mended rt) h ttl calls (λ e es. refl) forward in
          inr (m, same ∙ run, all)
    ]
