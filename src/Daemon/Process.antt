-- ===== src/Daemon/Process.antt =====
-- src/daemon.cpp, `daemonize`: the processes that it makes, and the descriptors of the one that goes
-- on. What `fork` gives is an argument.
use swordfishd.Base.{
  ℕ, ◌≤◌, ◌<◌, ◌≡◌, refl, Bool, true, false, ◌&&◌, All, length, List, [], ◌∷◌, arith, ◌==◌,
  if◌then◌else◌,
}

-- `fork` returns a process id, zero, or a negative number.
pub data Fork : Type 0 where
  parent child failed : Fork

pub record Process : Type 0 where
  -- its session has a terminal, and it leads the session
  pub terminal : Bool
  pub leads : Bool
  pub in_root : Bool
  pub umask : ℕ
  pub descriptors : ℕ → Bool

pub data Became : Type 0 where
  exited : (status : ℕ) → Became
  goes_on : Process → Became

-- `if(pid_t pid = fork())` with its two exits.
abbrev pub after_fork : Fork → Became → Became
after_fork parent rest = exited 0
after_fork failed rest = exited 1
after_fork child rest = rest

abbrev pub close : ℕ → (ℕ → Bool) → ℕ → Bool
close n open_ones k = if n == k then false else open_ones k

-- `daemonize`, in a process that gets these values from its two forks.
unfoldable pub daemonize : Fork → Fork → Process → Became
daemonize first second p = after_fork first (
    let p₁ = record p { terminal = false; leads = true; in_root = true; umask = 0 } in
    after_fork second (
      goes_on
        (record p₁ { leads = false; descriptors = close 2 (close 1 (close 0 p.descriptors)) })))

-- What becomes of the process that calls `daemonize` and of those that it makes, where the forks
-- succeed or do not.
unfoldable pub family : (first second : Bool) → Process → List Became
family false second p = daemonize failed failed p ∷ []
family true false p = daemonize parent failed p ∷ daemonize child failed p ∷ []
family true true p =
    daemonize parent parent p ∷ daemonize child parent p ∷ daemonize child child p ∷ []

-- The processes that go on.
abbrev pub going_on : List Became → List Process
going_on [] = []
going_on (exited status ∷ all) = going_on all
going_on (goes_on p ∷ all) = p ∷ going_on all

-- What a daemon is.
pub record IsDetached (p q : Process) : Type 0 where
  pub no_terminal : q.terminal ≡ false
  pub gets_none : q.leads ≡ false
  pub at_root : q.in_root ≡ true
  pub all_modes : q.umask ≡ 0
  pub closed : (n : ℕ) → n ≤ 2 → q.descriptors n ≡ false
  pub others_kept : (n : ℕ) → 2 < n → q.descriptors n ≡ p.descriptors n

-- The process that calls `daemonize` never goes on: it exits with 0 if its fork succeeds, and else
-- with 1. One process goes on if both forks succeed, and none else; it has no terminal and leads no
-- session, so that it gets none, stands in the root directory, masks no mode bits, and has the
-- descriptors of the caller but 0, 1 and 2.
pub family-IsDetached :
    (first second : Bool) (p : Process)
    → ((rest : List Became) × (family first second p ≡ exited (if first then 0 else 1) ∷ rest))
      × All (IsDetached p) (going_on (family first second p))
      × (length (going_on (family first second p)) ≡ (if first && second then 1 else 0))
unfolding family daemonize
family-IsDetached false second p = (([], refl), tt, refl)
family-IsDetached true false p = ((_, refl), tt, refl)
family-IsDetached true true p = (
  (_, refl),
  (
    record {
      no_terminal = refl;
      gets_none = refl;
      at_root = refl;
      all_modes = refl;
      closed = λ n h. ground arith;
      others_kept = λ n h. ground arith;
    },
    tt,
  ),
  refl,
)
