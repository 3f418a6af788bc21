-- ===== src/Session.antt =====
-- One CWMP session with the ACS (src/CwmpSession.cpp, include/tr069/CwmpSession.hpp). Logging is
-- left out.
pub mod Loop
pub mod Rounds
pub mod Outcome
pub mod Machine
pub mod Dialogue
pub mod Ending
use cpe_acs_connector_tr.Base.{
  has_value, ℕ, zero, suc, ◌+◌, ◌%◌, ◌^◌, Bool, true, false, not, ◌||◌, List, [], ◌∷◌, ◌++◌, Option,
  none, some, if◌then◌else◌, Bytes, codes, length, to_string, unsigned,
}
use cpe_acs_connector_tr.Types.{DownloadRequest, TransferResult, ParsedRpc, RpcResult}
use cpe_acs_connector_tr.StateMachine.{
  CwmpState, idle, connecting, inform_sent, rpc_processing, session_close, transition,
}
use cpe_acs_connector_tr.Transformer.{TransformerApi}
use cpe_acs_connector_tr.SoapBuilder
use cpe_acs_connector_tr.Xml.{Libxml}
use cpe_acs_connector_tr.SoapParser.{Parsed, rpc, error, parse_rpc, is_method}
use cpe_acs_connector_tr.RpcHandler.{handle}
use cpe_acs_connector_tr.Http.{HttpResponse, ok}

pub record SessionOutcome : Type 0 where
  pub success : Bool
  pub reboot_requested : Bool
  pub reboot_command_key : Bytes
  pub download : Option DownloadRequest

abbrev pub no_outcome : SessionOutcome
no_outcome = record {
  success = false;
  reboot_requested = false;
  reboot_command_key = [];
  download = none;
}

-- A session and its surroundings: the members `stateMachine_` and `sequence_`, the store behind
-- the data model, the answers that the network will bring, one for each request, and the bodies
-- posted so far. `moves` lists the calls of `transition` with the state asked for and the
-- returned flag, which the code drops.
pub record World (S : Type 0) : Type 0 where
  pub state : CwmpState
  pub sequence : ℕ  -- unsigned
  pub store : S
  pub replies : List HttpResponse
  pub posts : List Bytes
  pub moves : List (CwmpState × Bool)

-- None: the session waits for an answer that is not in the list.
abbrev pub M : Type 0 → Type 0 → Type 0
M S A = World S → Option (A × World S)

infixl 5 ◌>>=◌ ◌>>◌
abbrev pub ◌>>=◌ : {S A B : Type 0} → M S A → (A → M S B) → M S B
◌>>=◌ m f w = elim (m w) [ none ↦ none | some (a, w') ↦ f a w' ]

abbrev pub ◌>>◌ : {S B : Type 0} → M S (Unit {0}) → M S B → M S B
m >> k = m >>= λ _. k

abbrev pub return : {S A : Type 0} → A → M S A
return a w = some (a, w)

unfoldable pub post : {S : Type 0} → Bytes → M S HttpResponse
post body w = elim w.replies [
  | [] ↦ none
  | r ∷ rs ↦ some (r, record w { replies = rs; posts = w.posts ++ body ∷ [] })
]

unfoldable pub reset : {S : Type 0} → M S (Unit {0})
reset w = some (tt, record w { state = idle })

unfoldable pub move : {S : Type 0} → CwmpState → M S (Unit {0})
move next w =
    let (state, valid) = transition w.state next in
    some (tt, record w { state = state; moves = w.moves ++ (next, valid) ∷ [] })

-- The object's counter starts at 1.
unfoldable pub next_id : {S : Type 0} → M S Bytes
next_id w =
    some
      (codes "tr069d-" ++ to_string w.sequence, record w { sequence = unsigned (w.sequence + 1) })

abbrev pub take_download : Option DownloadRequest → Option DownloadRequest → Option DownloadRequest
take_download none old = old
take_download (some d) old = some d

-- What an acknowledged RPC adds to the outcome.
unfoldable pub note : RpcResult → SessionOutcome → SessionOutcome
note handled o = record o {
  reboot_requested = o.reboot_requested || handled.request_reboot;
  reboot_command_key =
      if handled.request_reboot then handled.reboot_command_key else o.reboot_command_key;
  download = take_download handled.download o.download;
}

abbrev pub is_over : SessionOutcome → Bool
is_over o = o.reboot_requested || has_value o.download

-- `clock n` is the text of `isoTimeNow()` after `n` requests.
module _ {S : Type 0} (api : TransformerApi S) (xml : Libxml) (clock : ℕ → Bytes) where
  unfoldable pub post_inform : List Bytes → Bytes → M S HttpResponse
  post_inform events id w =
      post (SoapBuilder.inform api id w.store (clock (length w.posts)) events 0) w

  -- Behind the answer to an Inform.
  unfoldable pub inform_answered : HttpResponse → M S Bool
  unfolding reset move
  inform_answered response =
      if not (ok response)
      then (do reset; return false)
      else if not (is_method xml response.body (codes "InformResponse"))
      then (do reset; return false)
      else (do move inform_sent; return true)

  unfoldable pub begin_inform : List Bytes → Bytes → M S Bool
  unfolding reset move post_inform inform_answered
  begin_inform events id = do
    reset
    move connecting
    response ← post_inform events id
    inform_answered response

  -- `rpcHandler_.handle`, on the store.
  unfoldable pub handle_rpc : ParsedRpc → M S RpcResult
  handle_rpc r w =
      let (result, store) = handle api w.store r in some (result, record w { store = store })

  -- Behind the loop.
  unfoldable pub close_session : SessionOutcome → M S SessionOutcome
  unfolding move
  close_session outcome = do
    move session_close
    move idle
    return (record outcome { success = true })

  -- The loop `while (!body.empty())`, on fuel: each round takes one answer from the list.
  unfoldable pub process_acs_messages : ℕ → SessionOutcome → Bytes → M S SessionOutcome
  process_acs_messages fuel outcome [] = close_session outcome
  process_acs_messages zero outcome (b ∷ body) = λ w. none
  process_acs_messages (suc fuel) outcome (b ∷ body) = elim (parse_rpc xml (b ∷ body)) [
    | error e ↦ return outcome
    | rpc r ↦ (do
      move rpc_processing
      handled ← handle_rpc r
      response ← post handled.response_xml
      let outcome' = note handled outcome
      elim (ok response) [
        | false ↦ return outcome
        | true ↦ elim (is_over outcome') [
          | true ↦ close_session outcome'
          | false ↦ process_acs_messages fuel outcome' response.body
        ]
      ])
  ]

  -- From the empty POST on; the answers left are fuel enough.
  unfoldable pub empty_post : M S SessionOutcome
  empty_post = do
    response ← post []
    elim (ok response) [
      | false ↦ return no_outcome
      | true ↦ λ w. process_acs_messages (suc (length w.replies)) no_outcome response.body w
    ]

  unfoldable pub run : List Bytes → M S SessionOutcome
  run events = do
    id ← next_id
    begun ← begin_inform events id
    elim begun [ false ↦ return no_outcome | true ↦ empty_post ]

  unfoldable pub run_transfer_complete : TransferResult → M S Bool
  run_transfer_complete result = do
    id ← next_id
    begun ← begin_inform (codes "7 TRANSFER COMPLETE" ∷ codes "M Download" ∷ []) id
    elim begun [
      | false ↦ return false
      | true ↦ (do
        id' ← next_id
        response ← post (SoapBuilder.transfer_complete id' result)
        elim (ok response) [
          | false ↦ return false
          | true ↦ elim (is_method xml response.body (codes "TransferCompleteResponse")) [
            | false ↦ return false
            | true ↦ (do outcome ← empty_post; return outcome.success)
          ]
        ])
    ]

-- The objects as they are constructed for a session.
abbrev pub new_session : {S : Type 0} → S → List HttpResponse → World S
new_session store replies = record {
  state = idle;
  sequence = 1;
  store = store;
  replies = replies;
  posts = [];
  moves = [];
}
