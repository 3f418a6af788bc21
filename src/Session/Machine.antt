-- ===== src/Session/Machine.antt =====
-- The session against its state machine.
use cpe_acs_connector_tr.Base.{
  ℕ, Bool, true, false, ◌&&◌, List, [], ◌∷◌, ◌++◌, some, ◌⊎◌, inl, inr, ◌≡◌, refl, arith, Bytes,
}
use cpe_acs_connector_tr.StateMachine.{
  CwmpState, idle, connecting, inform_sent, rpc_processing, session_close, transition,
}
use cpe_acs_connector_tr.Transformer.{TransformerApi}
use cpe_acs_connector_tr.Xml.{Libxml}
use cpe_acs_connector_tr.Types.{ParsedRpc}
use cpe_acs_connector_tr.Http.{HttpResponse}
use cpe_acs_connector_tr.Session.{SessionOutcome, World, no_outcome, note, run}
use cpe_acs_connector_tr.Session.Rounds.{begun, run-Post}
use cpe_acs_connector_tr.Session.Loop.{Rule, moved, closed, answered}

-- Every call of `transition` so far was accepted.
abbrev pub all_accepted : List (CwmpState × Bool) → Bool
all_accepted [] = true
all_accepted ((next, valid) ∷ moves) = valid && all_accepted moves

all_accepted-concat :
    (moves : List (CwmpState × Bool)) (next : CwmpState) (valid : Bool)
    → all_accepted moves ≡ true
    → valid ≡ true
    → all_accepted (moves ++ (next, valid) ∷ []) ≡ true
all_accepted-concat [] next valid h v = ground arith
all_accepted-concat ((n, b) ∷ moves) next valid h v =
    ground (arith, all_accepted-concat moves next valid)

abbrev IsOpen : CwmpState → Type 0
IsOpen s = (s ≡ inform_sent) ⊎ (s ≡ rpc_processing)

-- At the head of each round an Inform is answered, or an RPC is.
abbrev InSession : {S : Type 0} → SessionOutcome → World S → Type 0
InSession o w = (all_accepted w.moves ≡ true) × IsOpen w.state × (o.success ≡ false)

abbrev Ended : {S : Type 0} → SessionOutcome → World S → Type 0
Ended o w = (all_accepted w.moves ≡ true) × (o.success ≡ true → w.state ≡ idle)

open_may_process :
    (s : CwmpState)
    → IsOpen s
    → ((transition s rpc_processing).1 ≡ true) × ((transition s rpc_processing).0 ≡ rpc_processing)
unfolding transition
open_may_process s h = ground arith

open_may_close :
    (s : CwmpState)
    → IsOpen s
    → ((transition s session_close).1 ≡ true)
      × ((transition (transition s session_close).0 idle).1 ≡ true)
      × ((transition (transition s session_close).0 idle).0 ≡ idle)
unfolding transition
open_may_close s h = ground arith

-- A call that is accepted keeps the list of the accepted.
moved-all_accepted :
    {S : Type 0} (next : CwmpState) (w : World S)
    → all_accepted w.moves ≡ true
    → (transition w.state next).1 ≡ true
    → all_accepted (moved next w).moves ≡ true
moved-all_accepted next w h v = all_accepted-concat w.moves next (transition w.state next).1 h v

closed-all_accepted :
    {S : Type 0} (w : World S)
    → all_accepted w.moves ≡ true
    → IsOpen w.state
    → all_accepted (closed w).moves ≡ true
closed-all_accepted w h in_session =
    let (close, return_idle, _) = open_may_close w.state in_session in
    moved-all_accepted idle (moved session_close w) (moved-all_accepted session_close w h close)
      return_idle

module _ {S : Type 0} (api : TransformerApi S) (xml : Libxml) (clock : ℕ → Bytes) where
  answered-InSession :
      (o : SessionOutcome) (w : World S) (r : ParsedRpc) (qs : List HttpResponse)
      → InSession o w
      → (all_accepted (answered api xml clock w r qs).moves ≡ true)
        × IsOpen (answered api xml clock w r qs).state
  answered-InSession o w r qs (h, in_session, _) =
      let (valid, state) = open_may_process w.state in_session in
      (moved-all_accepted rpc_processing w h valid, inr state)

  rule_of_moves : Rule api xml clock InSession Ended
  unfolding note
  rule_of_moves = record {
    unreadable = λ o w (h, in_session, f). (h, λ e. cc);
    finished = λ o w (h, in_session, f).
        (closed-all_accepted w h in_session, λ e. (open_may_close w.state in_session).2);
    refused = λ o w r qs h. ((answered-InSession o w r qs h).0, λ e. cc (h.2));
    over = λ o w r qs h.
        let (h', in_session) = answered-InSession o w r qs h in
        let w' = answered api xml clock w r qs in
        (closed-all_accepted w' h' in_session, λ e. (open_may_close w'.state in_session).2);
    again = λ o w r qs h e.
        let (h', in_session) = answered-InSession o w r qs h in (h', in_session, h.2);
  }

  begun-accepted :
      (w : World S)
      → all_accepted w.moves ≡ true
      → (all_accepted (begun w).moves ≡ true) × ((begun w).state ≡ connecting)
  unfolding transition
  begun-accepted w h = (all_accepted-concat w.moves connecting true h refl, refl)

  inform_answered-InSession :
      (w : World S)
      → all_accepted w.moves ≡ true
      → InSession no_outcome (moved inform_sent (begun w))
  unfolding transition
  inform_answered-InSession w h = (
    all_accepted-concat (begun w).moves inform_sent true (begun-accepted w h).0 refl,
    inl refl,
    refl,
  )

  -- Whatever state the machine was left in by an earlier session, every request that a session
  -- makes of it is accepted, and a session that succeeds leaves it idle.
  pub run-moves :
      (events : List Bytes) (w w' : World S) (o : SessionOutcome)
      → all_accepted w.moves ≡ true
      → run api xml clock events w ≡ some (o, w')
      → (all_accepted w'.moves ≡ true) × (o.success ≡ true → w'.state ≡ idle)
  run-moves events w w' o h =
      run-Post api xml clock InSession Ended rule_of_moves events w (record {
        no_inform = λ qs. ((begun-accepted w h).0, λ e. refl);
        no_answer = λ q qs. ((inform_answered-InSession w h).0, λ e. cc);
        opened = λ q qs. inform_answered-InSession w h;
      })
