-- ===== src/Session/Dialogue.antt =====
-- What a session sends for what the ACS answers, and what it does to the store.
use mathlib.Core.List.{append_assoc, append-nil}
use mathlib.Core.Path.{subst}
use cpe_acs_connector_tr.Base.{
  has_value, sym, ℕ, zero, suc, Bool, true, false, ◌||◌, List, [], ◌∷◌, ◌++◌, Option, some, ◌≡◌,
  ◌∙◌, refl, inl, inr, arith, Bool-cases, codes, ◌&&◌, Bytes, length,
}
use cpe_acs_connector_tr.Types.{ParsedRpc, RpcResult}
use cpe_acs_connector_tr.StateMachine.{inform_sent}
use cpe_acs_connector_tr.Transformer.{TransformerApi}
use cpe_acs_connector_tr.Xml.{Libxml}
use cpe_acs_connector_tr.SoapParser.{is_method, rpc, error, parse_rpc}
use cpe_acs_connector_tr.RpcHandler.{handle}
use cpe_acs_connector_tr.Http.{HttpResponse, ok}
use cpe_acs_connector_tr.Session.{
  SessionOutcome, no_outcome, World, note, is_over, process_acs_messages, empty_post, run,
}
use cpe_acs_connector_tr.Session.Outcome.{note-not_over}
use cpe_acs_connector_tr.Session.Loop.{
  Parsed-cases, replies-cases, returned, none-not_some, handled, answered, moved, process_round,
  process_unreadable, process_waiting, process_finished, process_exhausted,
}
use cpe_acs_connector_tr.Session.Rounds.{
  posted, inform_document, informed, run_round, run_waiting, empty_post_round, empty_post_waiting,
}

-- The RPC ends the session: a reboot or a download is to follow.
abbrev pub ends : RpcResult → Bool
ends h = h.request_reboot || has_value h.download

is_over-ends : (h : RpcResult) → is_over (note h no_outcome) ≡ ends h
unfolding note
is_over-ends h = ground arith

module _ {S : Type 0} (api : TransformerApi S) (xml : Libxml) where
  -- From a body of the ACS, a store and the answers still to come: the store in the end, the
  -- requests that are sent, and whether the session succeeds. Each body but an empty one is read
  -- as an RPC, and answered by what the handler gives; the next body is that of the ACS's answer
  -- to this.
  pub data Served : Bytes → S → List HttpResponse → S → List Bytes → Bool → Type 0 where
    closed_by_acs : (s : S) (qs : List HttpResponse) → Served [] s qs s [] true
    unreadable :
        (b : ℕ) (body : Bytes) (s : S) (qs : List HttpResponse) (e : Bytes)
        → parse_rpc xml (b ∷ body) ≡ error e
        → Served (b ∷ body) s qs s [] false
    refused :
        (b : ℕ) (body : Bytes) (s : S) (q : HttpResponse) (qs : List HttpResponse) (r : ParsedRpc)
        → parse_rpc xml (b ∷ body) ≡ rpc r
        → ok q ≡ false
        → Served
            (b ∷ body)
            s
            (q ∷ qs)
            (handle api s r).1
            ((handle api s r).0.response_xml ∷ [])
            false
    over :
        (b : ℕ) (body : Bytes) (s : S) (q : HttpResponse) (qs : List HttpResponse) (r : ParsedRpc)
        → parse_rpc xml (b ∷ body) ≡ rpc r
        → ok q ≡ true
        → ends (handle api s r).0 ≡ true
        → Served
            (b ∷ body)
            s
            (q ∷ qs)
            (handle api s r).1
            ((handle api s r).0.response_xml ∷ [])
            true
    next :
        (b : ℕ) (body : Bytes) (s : S) (q : HttpResponse) (qs : List HttpResponse) (r : ParsedRpc)
        {s' : S} {sent : List Bytes} {success : Bool}
        → parse_rpc xml (b ∷ body) ≡ rpc r
        → ok q ≡ true
        → ends (handle api s r).0 ≡ false
        → Served q.body (handle api s r).1 qs s' sent success
        → Served (b ∷ body) s (q ∷ qs) s' ((handle api s r).0.response_xml ∷ sent) success

  -- The Inform is accepted: the answer is no failure, and is an InformResponse.
  abbrev pub accepted : HttpResponse → Bool
  accepted q = ok q && is_method xml q.body (codes "InformResponse")

  -- The whole session, from the Inform on: it was not accepted; or the empty request was refused;
  -- or the body of its answer is served.
  pub data Dialogue (inform : Bytes) (s : S)
      : List HttpResponse → S → List Bytes → Bool → Type 0 where
    not_opened :
        (q : HttpResponse) (qs : List HttpResponse)
        → accepted q ≡ false
        → Dialogue inform s (q ∷ qs) s (inform ∷ []) false
    no_answer :
        (q a : HttpResponse) (qs : List HttpResponse)
        → accepted q ≡ true
        → ok a ≡ false
        → Dialogue inform s (q ∷ a ∷ qs) s (inform ∷ [] ∷ []) false
    opened :
        (q a : HttpResponse) (qs : List HttpResponse) {s' : S} {sent : List Bytes} {success : Bool}
        → accepted q ≡ true
        → ok a ≡ true
        → Served a.body s qs s' sent success
        → Dialogue inform s (q ∷ a ∷ qs) s' (inform ∷ [] ∷ sent) success

  module _ (clock : ℕ → Bytes) where
    -- What the loop sends behind what was sent before.
    abbrev Sends : Bytes → World S → SessionOutcome → World S → Type 0
    Sends body w o' w' =
        (sent : List Bytes) × Served body w.store w.replies w'.store sent o'.success
        × (w'.posts ≡ w.posts ++ sent)

    abbrev result : ℕ → Bytes → World S → Option (SessionOutcome × World S)
    result fuel body w = process_acs_messages api xml clock fuel no_outcome body w

    at_replies :
        {body : Bytes} {s s' : S} {sent : List Bytes} {success : Bool} {qs qs' : List HttpResponse}
        → qs' ≡ qs
        → Served body s qs s' sent success
        → Served body s qs' s' sent success
    at_replies {body} {s} {s'} {sent} {success} e served =
        subst (λ x. Served body s x s' sent success) (sym e) served

    process-Sends :
        (fuel : ℕ) (body : Bytes) (w : World S) {o' : SessionOutcome} {w' : World S}
        → result fuel body w ≡ some (o', w')
        → Sends body w o' w'
    process-Sends fuel [] w h =
        returned api xml clock (Sends [] w)
          (sym (process_finished api xml clock fuel no_outcome w) ∙ h)
          ([], closed_by_acs w.store w.replies, sym (append-nil w.posts))
    process-Sends zero (b ∷ body) w h = absurd (
        none-not_some api xml clock (sym (process_exhausted api xml clock no_outcome b body w) ∙ h))
    process-Sends (suc fuel) (b ∷ body) w {o'} {w'} h =
        elim (Parsed-cases api xml clock (parse_rpc xml (b ∷ body))) [
          | inr (e, read) ↦
              returned api xml clock (Sends (b ∷ body) w)
                (sym (process_unreadable api xml clock fuel no_outcome b body w e read) ∙ h)
                ([], unreadable b body w.store w.replies e read, sym (append-nil w.posts))
          | inl (r, read) ↦ elim (replies-cases api xml clock w.replies) [
            | inl waiting ↦ absurd (
                none-not_some api xml clock
                  (sym (process_waiting api xml clock fuel no_outcome b body w r read waiting) ∙ h))
            | inr (q, qs, replies) ↦
                let round =
                  process_round api xml clock fuel no_outcome b body w r q qs read replies in
                elim (Bool-cases (ok q)) [
                  | inr bad ↦
                      returned api xml clock (Sends (b ∷ body) w) (sym (rw bad at round) ∙ h)
                        (_, at_replies replies (refused b body w.store q qs r read bad), refl)
                  | inl good ↦
                      elim (Bool-cases (is_over (note (handled api xml clock w r) no_outcome))) [
                        | inl last ↦
                            returned api xml clock (Sends (b ∷ body) w)
                              (sym (rw (good, last) at round) ∙ h)
                              (
                                _,
                                at_replies replies (
                                    over b body w.store q qs r read good
                                      (sym (is_over-ends _) ∙ last)),
                                refl,
                              )
                        | inr more ↦
                            let same = note-not_over (handled api xml clock w r) no_outcome more in
                            let rest =
                              subst
                                (λ o.
                                  process_acs_messages api xml clock fuel o q.body
                                    (answered api xml clock w r qs)
                                  ≡ some (o', w'))
                                same (sym (rw (good, more) at round) ∙ h) in
                            let (sent, served, posts) =
                              process-Sends fuel q.body (answered api xml clock w r qs) rest in
                            (
                              _,
                              at_replies replies (
                                  next b body w.store q qs r read good (sym (is_over-ends _) ∙ more)
                                    served),
                              posts ∙ append_assoc w.posts (_ ∷ []) sent,
                            )
                      ]
                ]
          ]
        ]

    -- What `run` sends behind what was sent before.
    abbrev Opens : List Bytes → World S → SessionOutcome → World S → Type 0
    Opens events w o' w' =
        (sent : List Bytes) × Dialogue (inform_document api xml clock events w) w.store w.replies
          w'.store sent o'.success
        × (w'.posts ≡ w.posts ++ sent)

    at_answers :
        {inform : Bytes} {s s' : S} {sent : List Bytes} {success : Bool}
        {qs qs' : List HttpResponse}
        → qs' ≡ qs
        → Dialogue inform s qs s' sent success
        → Dialogue inform s qs' s' sent success
    at_answers {inform} {s} {s'} {sent} {success} e dialogue =
        subst (λ x. Dialogue inform s x s' sent success) (sym e) dialogue

    -- From the empty request on.
    empty_post-Opens :
        (events : List Bytes) (w : World S) (q : HttpResponse) (qs : List HttpResponse)
        {o' : SessionOutcome} {w' : World S}
        → w.replies ≡ q ∷ qs
        → accepted q ≡ true
        → empty_post api xml clock (moved inform_sent (informed api xml clock events w qs))
          ≡ some (o', w')
        → Opens events w o' w'
    empty_post-Opens events w q [] replies good h = absurd (
        none-not_some api xml clock (
          sym (
            empty_post_waiting api xml clock
              (moved inform_sent (informed api xml clock events w [])) refl)
          ∙ h))
    empty_post-Opens events w q (a ∷ qs) replies good h =
        let doc = inform_document api xml clock events w in
        let w1 = moved inform_sent (informed api xml clock events w (a ∷ qs)) in
        let round = empty_post_round api xml clock w1 a qs refl in
        elim (Bool-cases (ok a)) [
          | inr bad ↦ returned api xml clock (Opens events w) (sym (rw bad at round) ∙ h) (
            _,
            at_answers replies (no_answer q a qs good bad),
            append_assoc w.posts (doc ∷ []) ([] ∷ []),
          )
          | inl taken ↦
              let (sent, served, posts) =
                process-Sends (suc (length qs)) a.body (posted [] qs w1)
                  (sym (rw taken at round) ∙ h) in
              (
                _,
                at_answers replies (opened q a qs good taken served),
                posts
                    ∙ append_assoc (w.posts ++ doc ∷ []) ([] ∷ []) sent
                    ∙ append_assoc w.posts (doc ∷ []) ([] ∷ sent),
              )
        ]

    -- Whatever the ACS answers, a session that returns has sent the Inform; then, if that was
    -- accepted, an empty request; and then, for each body that the ACS sent and that is an RPC,
    -- exactly what the handler answers to this RPC on the store that the one before left, until a
    -- failure, an empty body, a body that is no RPC, or an RPC that asks for a reboot or a
    -- download. The store is changed by the handler alone, and the session succeeds just where it
    -- ends by an empty body or by such an RPC whose response is taken.
    pub run-Dialogue :
        (events : List Bytes) (w w' : World S) (o : SessionOutcome)
        → run api xml clock events w ≡ some (o, w')
        → (sent : List Bytes) × Dialogue
            (inform_document api xml clock events w)
            w.store
            w.replies
            w'.store
            sent
            o.success
          × (w'.posts ≡ w.posts ++ sent)
    run-Dialogue events w w' o h = elim (replies-cases api xml clock w.replies) [
      | inl waiting ↦
          absurd
            (none-not_some api xml clock (sym (run_waiting api xml clock events w waiting) ∙ h))
      | inr (q, qs, replies) ↦
          let round = run_round api xml clock events w q qs replies in
          elim (Bool-cases (accepted q)) [
            | inl good ↦ empty_post-Opens events w q qs replies good (sym (rw good at round) ∙ h)
            | inr bad ↦
                returned api xml clock (Opens events w) (sym (rw bad at round) ∙ h)
                  (_, at_answers replies (not_opened q qs bad), refl)
          ]
    ]
