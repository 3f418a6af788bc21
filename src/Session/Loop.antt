-- ===== src/Session/Loop.antt =====
-- The loop of `processAcsMessages`: one round, and the rule by which an invariant of the rounds
-- gives what holds of the result.
use cpe_acs_connector_tr.Base.{
  ℕ, zero, suc, true, false, List, [], ◌∷◌, ◌++◌, Option, none, some, ◌⊎◌, inl, inr, ◌≡◌, refl, ◌∙◌,
  sym, arith, if◌then◌else◌, Bool-cases, Bytes,
}
use mathlib.Core.Option.{some-injective}
use mathlib.Core.Path.{subst}
use cpe_acs_connector_tr.Types.{ParsedRpc, RpcResult}
use cpe_acs_connector_tr.StateMachine.{CwmpState, idle, rpc_processing, session_close, transition}
use cpe_acs_connector_tr.Transformer.{TransformerApi}
use cpe_acs_connector_tr.Xml.{Libxml}
use cpe_acs_connector_tr.SoapParser.{Parsed, rpc, error, parse_rpc}
use cpe_acs_connector_tr.RpcHandler.{handle}
use cpe_acs_connector_tr.Http.{HttpResponse, ok}
use cpe_acs_connector_tr.Session.{
  SessionOutcome, World, post, move, note, is_over, handle_rpc, close_session, process_acs_messages,
}

abbrev pub moved : {S : Type 0} → CwmpState → World S → World S
moved next w = record w {
  state = (transition w.state next).0;
  moves = w.moves ++ (next, (transition w.state next).1) ∷ [];
}

-- The world behind a closed session.
abbrev pub closed : {S : Type 0} → World S → World S
closed w = moved idle (moved session_close w)

abbrev pub succeed : SessionOutcome → SessionOutcome
succeed o = record o { success = true }

module _ {S : Type 0} (api : TransformerApi S) (xml : Libxml) (clock : ℕ → Bytes) where
  -- What `handle` returns for the RPC, and the world once its answer is posted and acknowledged
  -- by the first of the replies, with `qs` still to come.
  abbrev pub handled : World S → ParsedRpc → RpcResult
  handled w r = (handle api w.store r).0

  abbrev pub answered : World S → ParsedRpc → List HttpResponse → World S
  answered w r qs = record (moved rpc_processing w) {
    store = (handle api w.store r).1;
    replies = qs;
    posts = w.posts ++ (handled w r).response_xml ∷ [];
  }

  -- The rule: `Inv` holds at the head of each round, and `Post` of what the loop returns.
  pub record Rule (Inv Post : SessionOutcome → World S → Type 0) : Type 0 where
    pub unreadable : (o : SessionOutcome) (w : World S) → Inv o w → Post o w
    pub finished : (o : SessionOutcome) (w : World S) → Inv o w → Post (succeed o) (closed w)
    pub refused :
        (o : SessionOutcome) (w : World S) (r : ParsedRpc) (qs : List HttpResponse)
        → Inv o w
        → Post o (answered w r qs)
    pub over :
        (o : SessionOutcome) (w : World S) (r : ParsedRpc) (qs : List HttpResponse)
        → Inv o w
        → Post (succeed (note (handled w r) o)) (closed (answered w r qs))
    pub again :
        (o : SessionOutcome) (w : World S) (r : ParsedRpc) (qs : List HttpResponse)
        → Inv o w
        → is_over (note (handled w r) o) ≡ false
        → Inv (note (handled w r) o) (answered w r qs)

  abbrev process : ℕ → SessionOutcome → Bytes → World S → Option (SessionOutcome × World S)
  process = process_acs_messages api xml clock

  -- One round on a readable RPC whose answer gets the reply `q`.
  pub process_round :
      (fuel : ℕ) (o : SessionOutcome) (b : ℕ) (body : Bytes) (w : World S) (r : ParsedRpc)
      (q : HttpResponse) (qs : List HttpResponse)
      → parse_rpc xml (b ∷ body) ≡ rpc r
      → w.replies ≡ q ∷ qs
      → let o' = note (handled w r) o in
        let w' = answered w r qs in
        process (suc fuel) o (b ∷ body) w ≡ (
          if ok q
          then (if is_over o' then some (succeed o', closed w') else process fuel o' q.body w')
          else some (o, w'))
  unfolding process_acs_messages close_session move post handle_rpc
  process_round fuel o b body w r q qs read replies = ground arith

  pub process_unreadable :
      (fuel : ℕ) (o : SessionOutcome) (b : ℕ) (body : Bytes) (w : World S) (e : Bytes)
      → parse_rpc xml (b ∷ body) ≡ error e
      → process (suc fuel) o (b ∷ body) w ≡ some (o, w)
  unfolding process_acs_messages
  process_unreadable fuel o b body w e read = ground arith

  pub process_waiting :
      (fuel : ℕ) (o : SessionOutcome) (b : ℕ) (body : Bytes) (w : World S) (r : ParsedRpc)
      → parse_rpc xml (b ∷ body) ≡ rpc r
      → w.replies ≡ []
      → process (suc fuel) o (b ∷ body) w ≡ none
  unfolding process_acs_messages move post handle_rpc
  process_waiting fuel o b body w r read replies = ground arith

  pub process_finished :
      (fuel : ℕ) (o : SessionOutcome) (w : World S)
      → process fuel o [] w ≡ some (succeed o, closed w)
  unfolding process_acs_messages close_session move
  process_finished zero o w = refl
  process_finished (suc fuel) o w = refl

  pub process_exhausted :
      (o : SessionOutcome) (b : ℕ) (body : Bytes) (w : World S) → process zero o (b ∷ body) w ≡ none
  unfolding process_acs_messages
  process_exhausted o b body w = refl

  pub Parsed-cases : (p : Parsed) → ((r : ParsedRpc) × (p ≡ rpc r)) ⊎ ((e : Bytes) × (p ≡ error e))
  Parsed-cases (rpc r) = inl (r, refl)
  Parsed-cases (error e) = inr (e, refl)

  pub replies-cases :
      (qs : List HttpResponse)
      → (qs ≡ []) ⊎ ((q : HttpResponse) × (rest : List HttpResponse) × (qs ≡ q ∷ rest))
  replies-cases [] = inl refl
  replies-cases (q ∷ rest) = inr (q, rest, refl)

  pub none-not_some : {a : SessionOutcome × World S} → none ≡ some a → ⊥
  none-not_some h = cc

  -- What holds of a result holds of the same result by another name.
  pub returned :
      (Post : SessionOutcome → World S → Type 0) {o o' : SessionOutcome} {w w' : World S}
      → ◌≡◌ {A = Option (SessionOutcome × World S)} (some (o, w)) (some (o', w'))
      → Post o w
      → Post o' w'
  returned Post e p =
      subst (λ (q : SessionOutcome × World S). Post q.0 q.1) (some-injective _ _ e) p

  module _ (Inv Post : SessionOutcome → World S → Type 0) (rule : Rule Inv Post) where
    pub process-Post :
        (fuel : ℕ) (o : SessionOutcome) (body : Bytes) (w : World S) {o' : SessionOutcome}
        {w' : World S}
        → Inv o w
        → process fuel o body w ≡ some (o', w')
        → Post o' w'
    process-Post fuel o [] w inv h =
        returned Post (sym (process_finished fuel o w) ∙ h) (rule.finished o w inv)
    process-Post zero o (b ∷ body) w inv h =
        absurd (none-not_some (sym (process_exhausted o b body w) ∙ h))
    process-Post (suc fuel) o (b ∷ body) w inv h = elim (Parsed-cases (parse_rpc xml (b ∷ body))) [
      | inr (e, read) ↦
          returned Post (sym (process_unreadable fuel o b body w e read) ∙ h)
            (rule.unreadable o w inv)
      | inl (r, read) ↦ elim (replies-cases w.replies) [
        | inl waiting ↦
            absurd (none-not_some (sym (process_waiting fuel o b body w r read waiting) ∙ h))
        | inr (q, qs, replies) ↦ elim (Bool-cases (ok q)) [
          | inr bad ↦
              returned Post
                (sym (rw bad at (process_round fuel o b body w r q qs read replies)) ∙ h)
                (rule.refused o w r qs inv)
          | inl good ↦ elim (Bool-cases (is_over (note (handled w r) o))) [
            | inl over ↦
                returned Post
                  (sym (rw (good, over) at (process_round fuel o b body w r q qs read replies)) ∙ h)
                  (rule.over o w r qs inv)
            | inr more ↦
                process-Post fuel (note (handled w r) o) q.body (answered w r qs)
                  (rule.again o w r qs inv more)
                  (sym (rw (good, more) at (process_round fuel o b body w r q qs read replies)) ∙ h)
          ]
        ]
      ]
    ]
