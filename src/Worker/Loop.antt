-- ===== src/Worker/Loop.antt =====
-- src/worker.cpp, `on_read`: its loop, against the lines of the stream.
use swordfishd.Base.{
  ℕ, zero, suc, ◌+◌, ◌≡◌, refl, inl, inr, Bool, Option, some, List, [], ◌∷◌, arith, if◌then◌else◌,
  Bool-cases, Option-cases, length, Bytes, codes, str_eq, Run, ok, err, ◌>>=◌,
}
use swordfishd.Tokenizer.{
  Iterator, iterator, increment, equals, end_iterator, append, tokens_from, tokens,
}
use swordfishd.Tokenizer.Split.{IsSplit}
use swordfishd.Tokenizer.Loop.{tokens-IsSplit}
use swordfishd.Command.{parse_command, name}
use swordfishd.Worker.{Environment, Session, Worker, reading, closed, respond, serve, on_read}

-- The lines of a stream and its rest, as commands: each is answered, up to the first `quit`.
unfoldable pub serve_lines :
    Environment → (ℕ → ℕ → ℕ × ℕ) → (ℕ → Bool) → ℕ → List Bytes → Bytes → Session → Run Worker
serve_lines env clock sends i [] r w = ok (reading w r)
serve_lines env clock sends i (l ∷ ls) r w =
    let cmd = parse_command env.splitter l in
    let rest : Run Worker = (do
      w' ← respond env (clock i) (sends i) cmd w
      serve_lines env clock sends (suc i) ls r w') in
    if str_eq (name cmd) (codes "quit") then ok (closed w) else rest

some_bind {ℓ κ} :
    {A : Type ℓ} {B : Type κ} (f : A → Option (Run B)) (g : A → Run B)
    → ((a : A) → f a ≡ some (g a))
    → (x : Run A)
    → (elim x as (λ y. Option (Run B)) [ ok a ↦ f a | err e ↦ some (err e) ]) ≡ some (x >>= g)
some_bind f g h (ok a) = h a
some_bind f g h (err e) = refl

serve-tokens_from :
    (env : Environment) (clock : ℕ → ℕ → ℕ × ℕ) (sends : ℕ → Bool) (fuel i : ℕ) (s : Bytes)
    (it : Iterator) (w : Session) (ls : List Bytes) (r : Bytes)
    → tokens_from fuel s it ≡ some (ls, r)
    → serve env clock sends fuel i s it w ≡ some (serve_lines env clock sends i ls r w)
unfolding tokens_from serve serve_lines
serve-tokens_from env clock sends zero i s it w ls r h = absurd cc
serve-tokens_from env clock sends (suc fuel) i s it w ls r h =
    elim (Bool-cases (equals it end_iterator)) [
      | inl at_end ↦
          let no_lines : [] ≡ ls = ground (arith, at_end) in
          let rest : s ≡ r = ground (arith, at_end) in rw (at_end, ← no_lines, ← rest)
      | inr inside ↦
          let next = increment s it in
          elim (Option-cases (tokens_from fuel next.0 next.1)) [
            | inl none_left ↦ absurd (ground (arith, inside))
            | inr ((ms, q), run) ↦
                let lines : it.token ∷ ms ≡ ls = ground (arith, inside, run) in
                let rest : q ≡ r = ground (arith, inside, run) in
                let quits = str_eq (name (parse_command env.splitter it.token)) (codes "quit") in
                rw (inside, ← lines, ← rest)
                  (elim (Bool-cases quits) [
                    | inl quit ↦ rw (quit)
                    | inr other ↦ rw (other) (
                        some_bind _ _
                          (λ w'.
                            serve-tokens_from env clock sends fuel (suc i) next.0 next.1 w' ms q
                              run)
                          (respond env (clock i) (sends i) (parse_command env.splitter it.token) w))
                  ])
          ]
    ]

-- The handler of a read ends within its fuel. It runs exactly the finished lines of what the
-- tokenizer held and of the bytes that came, in order and up to the first `quit`, and keeps the
-- unfinished rest.
pub on_read-serve_lines :
    (env : Environment) (clock : ℕ → ℕ → ℕ × ℕ) (sends : ℕ → Bool) (bytes remainder : Bytes)
    (w : Session)
    → (ls : List Bytes) × (r : Bytes) × IsSplit (append remainder bytes) ls r
      × (on_read env clock sends bytes w remainder ≡ some (serve_lines env clock sends 0 ls r w))
unfolding on_read tokens
on_read-serve_lines env clock sends bytes remainder w =
    let s = append remainder bytes in
    let (ls, r, run, split) = tokens-IsSplit s in
    (ls, r, split, serve-tokens_from env clock sends (length s + 2) 0 s (iterator s) w ls r run)
