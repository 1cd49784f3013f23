-- ===== src/Server/Service.antt =====
-- The service that src/server.cpp runs its handlers on, and the acceptor that a server has there:
-- both are the network library's, and stand here with what the server relies on.
use swordfishd.Base.{
  ℕ, ◌≡◌, refl, Bool, true, false, ◌||◌, List, [], ◌∷◌, ◌++◌, arith, ◌==◌, if◌then◌else◌,
}

-- `Server::on_accept` of a server, or a handler that is bound to no server.
pub data Handler : Type 0 where
  accepted : (server : ℕ) (error : Bool) → Handler
  unbound : Handler

-- A call of `on_accept` for the server `i` is among the handlers.
unfoldable pub calls : ℕ → List Handler → Bool
calls i [] = false
calls i (accepted j e ∷ hs) = i == j || calls i hs
calls i (unbound ∷ hs) = calls i hs

pub record Service : Type 1 where
  pub State : Type 0
  -- `async_accept` with `on_accept` of the server `i`
  pub async_accept : ℕ → State → State
  -- the destructor of the acceptor of the server `i`
  pub close : ℕ → State → State
  pub stop : State → State
  pub reset : State → State
  -- an accept was begun for the server `i`, and its handler was not called
  pub awaits : ℕ → State → Bool
  -- the handlers that `run` calls next, in order
  pub queued : State → List Handler
  pub async_accept_awaits : (i : ℕ) (s : State) → awaits i (async_accept i s) ≡ true
  pub stop_awaits : (i : ℕ) (s : State) → awaits i (stop s) ≡ awaits i s
  -- an accept that waits is cancelled: its handler is called with an error
  pub close_queues : (i : ℕ) (s : State) → awaits i s ≡ true → calls i (queued (close i s)) ≡ true
  pub async_accept_keeps :
      (i j : ℕ) (s : State) → calls i (queued s) ≡ true → calls i (queued (async_accept j s)) ≡ true
  pub reset_keeps :
      (i : ℕ) (s : State) → calls i (queued s) ≡ true → calls i (queued (reset s)) ≡ true

-- A service that meets this: the servers that wait, and the handlers that are ready.
pub record Accepts : Type 0 where
  pub waits : List ℕ
  pub ready : List Handler
  pub stopped : Bool

unfoldable pub mem : ℕ → List ℕ → Bool
mem i [] = false
mem i (j ∷ js) = i == j || mem i js

unfoldable pub cancel : ℕ → List ℕ → List ℕ
cancel i [] = []
cancel i (j ∷ js) = let rest = cancel i js in if i == j then rest else j ∷ rest

unfoldable pub close_acceptor : ℕ → Accepts → Accepts
unfolding mem cancel
close_acceptor i s = record s {
  waits = cancel i s.waits;
  ready = if mem i s.waits then s.ready ++ accepted i true ∷ [] else s.ready;
}

calls-append : (i : ℕ) (xs ys : List Handler) → calls i (xs ++ ys) ≡ (calls i xs || calls i ys)
unfolding calls
calls-append i [] ys = refl
calls-append i (accepted j e ∷ xs) ys = ground (arith, calls-append i xs ys)
calls-append i (unbound ∷ xs) ys = calls-append i xs ys

pub calls-close :
    (i : ℕ) (s : Accepts)
    → (mem i s.waits || calls i s.ready) ≡ true
    → calls i (close_acceptor i s).ready ≡ true
unfolding close_acceptor calls
calls-close i s h = ground (arith, calls-append i s.ready (accepted i true ∷ []))

pub mem-begun : (i : ℕ) (js : List ℕ) (b : Bool) → (mem i (i ∷ js) || b) ≡ true
unfolding mem
mem-begun i js b = ground arith

unfoldable pub reference_service : Service
unfolding mem close_acceptor
reference_service = record {
  State = Accepts;
  async_accept = λ i s. record s { waits = i ∷ s.waits };
  close = close_acceptor;
  stop = λ s. record s { stopped = true };
  reset = λ s. record s { stopped = false };
  awaits = λ i s. mem i s.waits || calls i s.ready;
  queued = λ s. s.ready;
  async_accept_awaits = λ i s. mem-begun i s.waits (calls i s.ready);
  stop_awaits = λ i s. refl;
  close_queues = calls-close;
  async_accept_keeps = λ i j s h. h;
  reset_keeps = λ i s h. h;
}

abbrev pub fresh_state : reference_service.State
unfolding reference_service
fresh_state = record { waits = []; ready = []; stopped = false }
