-- ===== src/Session/Outcome.antt =====
-- What a session reports to the daemon.
use cpe_acs_connector_tr.Base.{ℕ, false, List, some, ◌≡◌, refl, ◌∙◌, arith, Bytes}
use cpe_acs_connector_tr.Types.{RpcResult}
use cpe_acs_connector_tr.Transformer.{TransformerApi}
use cpe_acs_connector_tr.Xml.{Libxml}
use cpe_acs_connector_tr.Session.{SessionOutcome, no_outcome, World, note, is_over, run}
use cpe_acs_connector_tr.Session.Rounds.{run-Post}
use cpe_acs_connector_tr.Session.Loop.{Rule, handled}

pub note-not_over : (h : RpcResult) (o : SessionOutcome) → is_over (note h o) ≡ false → note h o ≡ o
unfolding note
note-not_over h o e = ground arith

-- What a failed session reports.
abbrev FailsPlain : {S : Type 0} → SessionOutcome → World S → Type 0
FailsPlain o w = o.success ≡ false → o ≡ no_outcome

abbrev IsPlain : {S : Type 0} → SessionOutcome → World S → Type 0
IsPlain o w = o ≡ no_outcome

module _ {S : Type 0} (api : TransformerApi S) (xml : Libxml) (clock : ℕ → Bytes) where
  rule_of_failure : Rule api xml clock IsPlain FailsPlain
  rule_of_failure = record {
    unreadable = λ o w h e. h;
    finished = λ o w h e. cc;
    refused = λ o w r qs h e. h;
    over = λ o w r qs h e. cc;
    again = λ o w r qs h e. note-not_over (handled api xml clock w r) o e ∙ h;
  }

  -- A session that fails asks for no reboot and no download, whatever the ACS sent before the
  -- failure: its outcome is the empty one.
  pub run_failed :
      (events : List Bytes) (w w' : World S) (o : SessionOutcome)
      → run api xml clock events w ≡ some (o, w')
      → o.success ≡ false
      → o ≡ no_outcome
  run_failed events w w' o h =
      run-Post api xml clock IsPlain FailsPlain rule_of_failure events w
        (record { no_inform = λ qs e. refl; no_answer = λ q qs e. refl; opened = λ q qs. refl }) h
