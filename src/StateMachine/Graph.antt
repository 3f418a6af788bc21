-- ===== src/StateMachine/Graph.antt =====
-- The transition diagram of docs/DESIGN.md as a relation, and `transition` against it.
use mathlib.Core.Logic.{◌↔◌}
use cpe_acs_connector_tr.Base.{true, false, ◌≡◌, refl, arith, codes}
use cpe_acs_connector_tr.StateMachine.{
  CwmpState, idle, connecting, inform_sent, rpc_processing, session_close, transition, to_string,
}

infix 40 ◌⟶◌ ◌⟶*◌
pub data ◌⟶◌ : CwmpState → CwmpState → Type 0 where
  begin : idle ⟶ connecting
  answered : connecting ⟶ inform_sent
  first_rpc : inform_sent ⟶ rpc_processing
  next_rpc : rpc_processing ⟶ rpc_processing
  no_rpc : inform_sent ⟶ session_close
  last_rpc : rpc_processing ⟶ session_close
  close : session_close ⟶ idle

pub data ◌⟶*◌ : CwmpState → CwmpState → Type 0 where
  here : {s : CwmpState} → s ⟶* s
  then : {s t u : CwmpState} → s ⟶ t → t ⟶* u → s ⟶* u

pub ⟶*-trans : {s t u : CwmpState} → s ⟶* t → t ⟶* u → s ⟶* u
⟶*-trans here q = q
⟶*-trans (then e p) q = then e (⟶*-trans p q)

⟶-transition : {s t : CwmpState} → s ⟶ t → (transition s t).1 ≡ true
unfolding transition
⟶-transition begin = refl
⟶-transition answered = refl
⟶-transition first_rpc = refl
⟶-transition next_rpc = refl
⟶-transition no_rpc = refl
⟶-transition last_rpc = refl
⟶-transition close = refl

transition-⟶ : (s t : CwmpState) → (transition s t).1 ≡ true → s ⟶ t
unfolding transition
transition-⟶ s t h = grind (arith, begin, answered, first_rpc, next_rpc, no_rpc, last_rpc, close)

-- `transition` accepts a request exactly when the diagram of docs/DESIGN.md has that edge; an
-- accepted request moves the machine to the requested state, and a refused one leaves it where
-- it was.
pub transition_iff :
    (s t : CwmpState)
    → (((transition s t).1 ≡ true) ↔ (s ⟶ t))
      × ((transition s t).1 ≡ true → (transition s t).0 ≡ t)
      × ((transition s t).1 ≡ false → (transition s t).0 ≡ s)
unfolding transition
transition_iff s t = ((transition-⟶ s t, ⟶-transition), (λ h. ground arith), λ h. ground arith)

-- Two states with one name are the same state.
pub to_string-injective : (s t : CwmpState) → to_string s ≡ to_string t → s ≡ t
unfolding to_string codes
to_string-injective s t h = ground arith
