-- ===== src/Examples/Sessions.antt =====
-- Sessions on known answers of the ACS.
use cpe_acs_connector_tr.Base.{
  ℕ, true, ◌++◌, List, [], ◌∷◌, Option, none, some, ◌≡◌, refl, Bytes, codes, equal,
}
use cpe_acs_connector_tr.Http.{ok}
use cpe_acs_connector_tr.SoapParser.{is_method}
use cpe_acs_connector_tr.RpcHandler.{handle}
use cpe_acs_connector_tr.StateMachine.{idle}
use cpe_acs_connector_tr.Session.{
  SessionOutcome, no_outcome, World, run, new_session, next_id, begin_inform, post, empty_post,
  process_acs_messages, handle_rpc, note, close_session,
}
use cpe_acs_connector_tr.Session.Outcome.{run_failed}
use cpe_acs_connector_tr.Session.Rounds.{inform_document}
use cpe_acs_connector_tr.Session.Machine.{all_accepted, run-moves}
use cpe_acs_connector_tr.Session.Dialogue.{Dialogue, run-Dialogue}
use cpe_acs_connector_tr.Session.Ending.{run-Returns}
use cpe_acs_connector_tr.Examples.{api, xml, clock, answer}

abbrev events : List Bytes
events = codes "1 BOOT" ∷ []

abbrev world_of : Option (SessionOutcome × World ℕ) → World ℕ → World ℕ
world_of none w = w
world_of (some (o, w')) w = w'

-- The ACS accepts the Inform and asks for a reboot; the answer to the response is a failure.
abbrev refused : World ℕ
refused =
    new_session 7 (answer 200 (codes "informed") ∷ answer 200 (codes "reboot") ∷ answer 500 [] ∷ [])

-- The same, but the response is taken.
abbrev taken : World ℕ
taken =
    new_session 7 (answer 200 (codes "informed") ∷ answer 200 (codes "reboot") ∷ answer 204 [] ∷ [])

abbrev rebooting : SessionOutcome
rebooting = record {
  success = true;
  reboot_requested = true;
  reboot_command_key = [];
  download = none;
}

abbrev behind_refused : World ℕ
behind_refused = world_of (run api xml clock events refused) refused

abbrev behind_taken : World ℕ
behind_taken = world_of (run api xml clock events taken) taken

refused_round : run api xml clock events refused ≡ some (no_outcome, behind_refused)
unfolding run codes equal next_id begin_inform post ok is_method empty_post process_acs_messages
    handle_rpc
refused_round = refl

accepted_round : run api xml clock events taken ≡ some (rebooting, behind_taken)
unfolding run codes equal next_id begin_inform post ok is_method empty_post process_acs_messages
    handle_rpc note handle close_session
accepted_round = refl

run_failed_example : no_outcome ≡ no_outcome
run_failed_example =
    run_failed api xml clock events refused behind_refused no_outcome refused_round refl

run-moves_example :
    (all_accepted behind_taken.moves ≡ true) × (true ≡ true → behind_taken.state ≡ idle)
run-moves_example = run-moves api xml clock events taken behind_taken rebooting refl accepted_round

run-Dialogue_example :
    (sent : List Bytes) × Dialogue api xml
      (inform_document api xml clock events taken)
      taken.store
      taken.replies
      behind_taken.store
      sent
      true
    × (behind_taken.posts ≡ taken.posts ++ sent)
run-Dialogue_example = run-Dialogue api xml clock events taken behind_taken rebooting accepted_round

run-Returns_example :
    (result : SessionOutcome × World ℕ) × (run api xml clock events taken ≡ some result)
unfolding codes ok
run-Returns_example = run-Returns api xml clock events taken refl
