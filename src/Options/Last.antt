-- ===== src/Options/Last.antt =====
-- src/swordfish.cpp: which options run the daemon, and with what.
use swordfishd.Base.{
  ◌≡◌, sym, ◌∙◌, ◌↔◌, inl, inr, Bool, true, false, ◌||◌, List, [], ◌∷◌, arith, Bool-cases, All,
  Bytes, empty,
}
use swordfishd.Options.{
  Given, daemon, config, help, unknown, GlobalArgs, init_global_args, Outcome, shows_usage, runs,
  process_args, start, main,
}

-- The option is one that the program goes on after.
abbrev pub IsAccepted : Given → Type 0
IsAccepted daemon = Unit
IsAccepted (config path) = empty path ≡ false
IsAccepted help = ⊥
IsAccepted unknown = ⊥

-- The path of the last `--config`, or the one before the options.
abbrev pub last_path : Bytes → List Given → Bytes
last_path path [] = path
last_path path (config p ∷ more) = last_path p more
last_path path (_ ∷ more) = last_path path more

abbrev pub has_daemon : List Given → Bool
has_daemon [] = false
has_daemon (daemon ∷ more) = true
has_daemon (_ ∷ more) = has_daemon more

accepted_runs :
    (given : List Given) (args : GlobalArgs)
    → All IsAccepted given
    → process_args given args
      ≡ runs (record {
        filename = last_path args.filename given;
        is_daemon = args.is_daemon || has_daemon given;
      })
unfolding process_args
accepted_runs [] args a = ground arith
accepted_runs (daemon ∷ more) args a =
    accepted_runs more (record args { is_daemon = true }) a.1 ∙ ground arith
accepted_runs (config path ∷ more) args a =
    rw (a.0) (accepted_runs more (record args { filename = path }) a.1)
accepted_runs (help ∷ more) args a = elim a.0 [ ]
accepted_runs (unknown ∷ more) args a = elim a.0 [ ]

runs-IsAccepted :
    (given : List Given) (args r : GlobalArgs)
    → process_args given args ≡ runs r
    → All IsAccepted given
unfolding process_args
runs-IsAccepted [] args r h = tt
runs-IsAccepted (daemon ∷ more) args r h =
    (tt, runs-IsAccepted more (record args { is_daemon = true }) r h)
runs-IsAccepted (config path ∷ more) args r h = elim (Bool-cases (empty path)) [
  | inl blank ↦ absurd (ground arith)
  | inr named ↦ (named, runs-IsAccepted more (record args { filename = path }) r (rw named at h))
]
runs-IsAccepted (help ∷ more) args r h = cc
runs-IsAccepted (unknown ∷ more) args r h = cc

start_runs :
    (o : Outcome) (args : GlobalArgs)
    → start o ≡ runs args
    → (o ≡ runs args) × (empty args.filename ≡ false)
start_runs shows_usage args h = cc
start_runs (runs r) args h = ground arith

main_accepts :
    (given : List Given) (args : GlobalArgs)
    → main given ≡ runs args
    → All IsAccepted given
      × (empty (last_path [] given) ≡ false)
      × (args.filename ≡ last_path [] given)
      × (args.is_daemon ≡ has_daemon given)
unfolding main
main_accepts given args h =
    let (ran, named) = start_runs (process_args given init_global_args) args h in
    let a = runs-IsAccepted given init_global_args args ran in
    let e = sym ran ∙ accepted_runs given init_global_args a in
    (a, ground (e, arith), ground (e, arith), ground (e, arith))

-- The program runs the daemon exactly where every option is `--daemon` or a `--config` whose path
-- is not empty, and there is a path: with the last path, and as a daemon if there is a `--daemon`.
-- Otherwise it shows its usage.
pub main_iff :
    (given : List Given) (args : GlobalArgs)
    → (main given ≡ runs args) ↔ (
        All IsAccepted given
        × (empty (last_path [] given) ≡ false)
        × (args.filename ≡ last_path [] given)
        × (args.is_daemon ≡ has_daemon given))
unfolding main
main_iff given args = (
  main_accepts given args,
  λ (a, named, path, is_daemon).
      rw (accepted_runs given init_global_args a, named, path, is_daemon),
)
