-- ===== src/Session/Rounds.antt =====
-- The requests that open a session, and the rule for the whole of `run`.
use cpe_acs_connector_tr.Base.{
  ℕ, suc, ◌+◌, Bool, ◌&&◌, List, [], ◌∷◌, ◌++◌, none, some, inl, inr, ◌≡◌, refl, ◌∙◌, sym, arith,
  if◌then◌else◌, Bool-cases, Bytes, codes, length, to_string, unsigned,
}
use cpe_acs_connector_tr.StateMachine.{idle, connecting, inform_sent}
use cpe_acs_connector_tr.Transformer.{TransformerApi}
use cpe_acs_connector_tr.SoapBuilder
use cpe_acs_connector_tr.Xml.{Libxml}
use cpe_acs_connector_tr.SoapParser.{is_method}
use cpe_acs_connector_tr.Http.{HttpResponse, ok}
use cpe_acs_connector_tr.Session.{
  SessionOutcome, no_outcome, World, process_acs_messages, begin_inform, empty_post, run, post,
  next_id,
}
use cpe_acs_connector_tr.Session.Loop.{Rule, process-Post, moved, returned, replies-cases}

-- The world once a body is posted and answered, with `qs` still to come.
abbrev pub posted : {S : Type 0} → Bytes → List HttpResponse → World S → World S
posted body qs w = record w { replies = qs; posts = w.posts ++ body ∷ [] }

-- `reset`, and the move to Connecting.
abbrev pub begun : {S : Type 0} → World S → World S
begun w = moved connecting (record w { state = idle; sequence = unsigned (w.sequence + 1) })

module _ {S : Type 0} (api : TransformerApi S) (xml : Libxml) (clock : ℕ → Bytes) where
  abbrev pub inform_document : List Bytes → World S → Bytes
  inform_document events w =
      SoapBuilder.inform api (codes "tr069d-" ++ to_string w.sequence) w.store
        (clock (length w.posts)) events 0

  -- The answer to the Inform is an InformResponse.
  abbrev pub is_accepted : HttpResponse → Bool
  is_accepted q = ok q && is_method xml q.body (codes "InformResponse")

  module _ (events : List Bytes) (w : World S) where
    abbrev pub informed : List HttpResponse → World S
    informed qs = posted (inform_document events w) qs (begun w)

    pub run_round :
        (q : HttpResponse) (qs : List HttpResponse)
        → w.replies ≡ q ∷ qs
        → run api xml clock events w ≡ (
            if is_accepted q
            then empty_post api xml clock (moved inform_sent (informed qs))
            else some (no_outcome, record (informed qs) { state = idle }))
    unfolding run begin_inform next_id post
    run_round q qs replies = ground arith

    pub run_waiting : w.replies ≡ [] → run api xml clock events w ≡ none
    unfolding run begin_inform next_id post
    run_waiting replies = ground arith

  pub empty_post_round :
      (w : World S) (q : HttpResponse) (qs : List HttpResponse)
      → w.replies ≡ q ∷ qs
      → empty_post api xml clock w ≡ (
          if ok q
          then process_acs_messages api xml clock
              (suc (length qs))
              no_outcome
              q.body
              (posted [] qs w)
          else some (no_outcome, posted [] qs w))
  unfolding empty_post post
  empty_post_round w q qs replies = ground arith

  pub empty_post_waiting : (w : World S) → w.replies ≡ [] → empty_post api xml clock w ≡ none
  unfolding empty_post post
  empty_post_waiting w replies = ground arith

  -- What a rule of the loop needs of the requests before it.
  pub record Opening (Inv Post : SessionOutcome → World S → Type 0) (events : List Bytes)
      (w : World S) : Type 0 where
    pub no_inform :
        (qs : List HttpResponse) → Post no_outcome (record (informed events w qs) { state = idle })
    pub no_answer :
        (q : HttpResponse) (qs : List HttpResponse)
        → Post no_outcome (posted [] qs (moved inform_sent (informed events w (q ∷ qs))))
    pub opened :
        (q : HttpResponse) (qs : List HttpResponse)
        → Inv no_outcome (posted [] qs (moved inform_sent (informed events w (q ∷ qs))))

  no_result : {a : SessionOutcome × World S} → none ≡ some a → ⊥
  no_result h = cc

  module _ (Inv Post : SessionOutcome → World S → Type 0) (rule : Rule api xml clock Inv Post)
      (events : List Bytes) (w : World S) (opening : Opening Inv Post events w) where
    empty_post-Post :
        (qs : List HttpResponse) {o : SessionOutcome} {w' : World S}
        → empty_post api xml clock (moved inform_sent (informed events w qs)) ≡ some (o, w')
        → Post o w'
    empty_post-Post [] h =
        absurd
          (no_result (sym (empty_post_waiting (moved inform_sent (informed events w [])) refl) ∙ h))
    empty_post-Post (q ∷ qs) h =
        let w1 = moved inform_sent (informed events w (q ∷ qs)) in
        elim (Bool-cases (ok q)) [
          | inl good ↦
              process-Post api xml clock Inv Post rule (suc (length qs)) no_outcome q.body
                (posted [] qs w1) (opening.opened q qs)
                (sym (rw good at (empty_post_round w1 q qs refl)) ∙ h)
          | inr bad ↦
              returned api xml clock Post (sym (rw bad at (empty_post_round w1 q qs refl)) ∙ h)
                (opening.no_answer q qs)
        ]

    -- What holds of every result of a session.
    pub run-Post :
        {o : SessionOutcome} {w' : World S} → run api xml clock events w ≡ some (o, w') → Post o w'
    run-Post h = elim (replies-cases api xml clock w.replies) [
      | inl waiting ↦ absurd (no_result (sym (run_waiting events w waiting) ∙ h))
      | inr (q, qs, replies) ↦ elim (Bool-cases (is_accepted q)) [
        | inl good ↦ empty_post-Post qs (sym (rw good at (run_round events w q qs replies)) ∙ h)
        | inr bad ↦
            returned api xml clock Post (sym (rw bad at (run_round events w q qs replies)) ∙ h)
              (opening.no_inform qs)
      ]
    ]
