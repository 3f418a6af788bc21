-- ===== src/Session/Ending.antt =====
-- The end of a session.
use cpe_acs_connector_tr.Base.{
  ℕ, zero, suc, ◌<◌, Bool, true, false, not, ◌||◌, List, [], ◌∷◌, Option, some, inl, inr, ◌≡◌, refl,
  ◌∙◌, arith, Bool-cases, Bytes, codes, is_empty, length,
}
use cpe_acs_connector_tr.StateMachine.{inform_sent}
use cpe_acs_connector_tr.Transformer.{TransformerApi}
use cpe_acs_connector_tr.Xml.{Libxml}
use cpe_acs_connector_tr.SoapParser.{is_method, parse_rpc}
use cpe_acs_connector_tr.Http.{HttpResponse, ok}
use cpe_acs_connector_tr.Session.{
  SessionOutcome, no_outcome, World, note, is_over, process_acs_messages, empty_post, run,
}
use cpe_acs_connector_tr.Session.Rounds.{posted, informed, is_accepted, run_round, empty_post_round}
use cpe_acs_connector_tr.Session.Loop.{
  Parsed-cases, handled, answered, moved, process_round, process_unreadable, process_finished,
}

-- An answer by which the ACS ends the session: a failure, or an empty body.
abbrev pub is_last : HttpResponse → Bool
is_last q = not (ok q) || is_empty q.body

abbrev pub any_last : List HttpResponse → Bool
any_last [] = false
any_last (q ∷ qs) = is_last q || any_last qs

-- The computation has a result.
abbrev pub Returns : {A : Type 0} → Option A → Type 0
Returns {A} m = (a : A) × (m ≡ some a)

module _ {S : Type 0} (api : TransformerApi S) (xml : Libxml) (clock : ℕ → Bytes) where
  process-Returns :
      (fuel : ℕ) (o : SessionOutcome) (body : Bytes) (w : World S) (qs : List HttpResponse)
      → w.replies ≡ qs
      → length qs < fuel
      → (is_empty body || any_last qs) ≡ true
      → Returns (process_acs_messages api xml clock fuel o body w)
  process-Returns fuel o [] w qs replies enough ends = (_, process_finished api xml clock fuel o w)
  process-Returns zero o (b ∷ body) w qs replies enough ends = elim enough [ ]
  process-Returns (suc fuel) o (b ∷ body) w [] replies enough ends = cc
  process-Returns (suc fuel) o (b ∷ body) w (q ∷ qs) replies enough ends =
      elim (Parsed-cases api xml clock (parse_rpc xml (b ∷ body))) [
        | inr (e, read) ↦ (_, process_unreadable api xml clock fuel o b body w e read)
        | inl (r, read) ↦
            let round = process_round api xml clock fuel o b body w r q qs read replies in
            let o' = note (handled api xml clock w r) o in
            elim (Bool-cases (ok q)) [
              | inr bad ↦ (_, rw bad at round)
              | inl good ↦ elim (Bool-cases (is_over o')) [
                | inl over ↦ (_, rw (good, over) at round)
                | inr more ↦
                    let (result, e) =
                      process-Returns fuel o' q.body (answered api xml clock w r qs) qs refl
                        (omega arith) (ground arith) in
                    (result, rw (good, more) at round ∙ e)
              ]
            ]
      ]

  empty_is_no_method : (name : Bytes) → is_method xml [] name ≡ false
  unfolding is_method parse_rpc
  empty_is_no_method name = refl

  not_last_cases :
      (q : HttpResponse) (qs : List HttpResponse)
      → any_last (q ∷ qs) ≡ true
      → ok q ≡ true
      → (is_empty q.body || any_last qs) ≡ true
  not_last_cases q qs ends good = ground arith

  empty_post-Returns :
      (w : World S) (q : HttpResponse) (qs : List HttpResponse)
      → w.replies ≡ q ∷ qs
      → any_last (q ∷ qs) ≡ true
      → Returns (empty_post api xml clock w)
  empty_post-Returns w q qs replies ends =
      let round = empty_post_round api xml clock w q qs replies in
      elim (Bool-cases (ok q)) [
        | inr bad ↦ (_, rw bad at round)
        | inl good ↦
            let (result, e) =
              process-Returns (suc (length qs)) no_outcome q.body (posted [] qs w) qs refl
                (omega arith) (not_last_cases q qs ends good) in
            (result, rw good at round ∙ e)
      ]

  method_not_empty : (body name : Bytes) → is_method xml body name ≡ true → is_empty body ≡ false
  method_not_empty [] name h = cc (empty_is_no_method name)
  method_not_empty (b ∷ body) name h = refl

  any_last_behind :
      (q : HttpResponse) (qs : List HttpResponse)
      → is_accepted api xml clock q ≡ true
      → any_last (q ∷ qs) ≡ true
      → any_last qs ≡ true
  any_last_behind q qs accepted ends =
      ground (arith, method_not_empty q.body (codes "InformResponse"))

  accepted-Returns :
      (events : List Bytes) (w : World S) (qs : List HttpResponse)
      → any_last qs ≡ true
      → Returns (empty_post api xml clock (moved inform_sent (informed api xml clock events w qs)))
  accepted-Returns events w [] ends = cc
  accepted-Returns events w (q ∷ qs) ends = empty_post-Returns _ q qs refl ends

  run-Returns_with :
      (events : List Bytes) (w : World S) (qs : List HttpResponse)
      → w.replies ≡ qs
      → any_last qs ≡ true
      → Returns (run api xml clock events w)
  run-Returns_with events w [] replies ends = cc
  run-Returns_with events w (q ∷ qs) replies ends =
      let round = run_round api xml clock events w q qs replies in
      elim (Bool-cases (is_accepted api xml clock q)) [
        | inr bad ↦ (_, rw bad at round)
        | inl good ↦
            let (result, e) = accepted-Returns events w qs (any_last_behind q qs good ends) in
            (result, rw good at round ∙ e)
      ]

  -- A session ends, with an outcome, as soon as the ACS sends an answer that is a failure or has
  -- no body: it then waits for nothing further, however many RPCs it has answered before.
  pub run-Returns :
      (events : List Bytes) (w : World S)
      → any_last w.replies ≡ true
      → (result : SessionOutcome × World S) × (run api xml clock events w ≡ some result)
  run-Returns events w ends = run-Returns_with events w w.replies refl ends
