-- ===== src/HttpClient/Answered.antt =====
-- Which requests are answered, and with what.
use mathlib.Core.List.{append-nil, append_assoc}
use cpe_acs_connector_tr.Base.{
  Bool, true, false, List, [], ◌∷◌, ◌++◌, Option, none, some, ◌≡◌, ◌≤◌, ◌<◌, ◌↔◌, refl, sym, ◌∙◌,
  arith, ◌&&◌, leb, ltb, Bool-cases, inl, inr, Bytes, codes, is_empty, stream,
}
use cpe_acs_connector_tr.Http.{HttpConfig, ok}
use cpe_acs_connector_tr.HttpClient.Post.{
  Transfer, Easy, post_request, write_string, error_of, response_of, post,
}

-- `curl_easy_strerror` gives a text for each error code.
abbrev pub HasText : Option Bytes → Type 0
HasText none = Unit {0}
HasText (some t) = is_empty t ≡ false

abbrev is_done : Option Bytes → Bool
is_done none = true
is_done (some t) = false

error_of-is_empty :
    (failure : Option Bytes) (buffer : Bytes)
    → HasText failure
    → is_empty (error_of failure buffer) ≡ is_done failure
error_of-is_empty none buffer h = refl
error_of-is_empty (some t) buffer h = ground arith

write_string-stream :
    (body : Bytes) (pieces : List Bytes) → write_string body pieces ≡ body ++ stream pieces
unfolding write_string
write_string-stream body [] = sym (append-nil body)
write_string-stream body (piece ∷ pieces) =
    write_string-stream (body ++ piece) pieces ∙ append_assoc body piece (stream pieces)

abbrev pub Succeeds : Transfer → Type 0
Succeeds t = (t.failure ≡ none) × (200 ≤ t.status) × (t.status < 300)

response-ok : (t : Transfer) → HasText t.failure → (ok (response_of t) ≡ true) ↔ Succeeds t
unfolding response_of ok
response-ok t texts = go t.failure texts
  where
    go :
        (failure : Option Bytes)
        → HasText failure
        → ((is_empty (error_of failure t.error_buffer) && leb 200 t.status && ltb t.status 300)
            ≡ true)
          ↔ ((failure ≡ none) × (200 ≤ t.status) × (t.status < 300))
    go none h = ground arith
    go (some text) h =
        ((λ k. cc (error_of-is_empty (some text) t.error_buffer h, k)), λ (e, low, high). cc)

-- A request counts as answered exactly when there is a handle, libcurl reports no error and the
-- status is from 200 to 299; its body is then all the pieces that came, in order. The errors of
-- libcurl are supposed to have a text.
pub post-ok_iff :
    {S : Type 0} (easy : Easy S) (config : HttpConfig) (s : S) (body : Bytes)
    → HasText (easy.perform s (post_request config body)).0.failure
    → let t = (easy.perform s (post_request config body)).0 in
      let r = (post easy config s body).0 in
      ((ok r ≡ true) ↔ ((easy.has_handle ≡ true) × Succeeds t))
      × (ok r ≡ true → r.body ≡ stream t.pieces)
unfolding post response_of ok codes
post-ok_iff easy config s body texts =
    let t = (easy.perform s (post_request config body)).0 in
    let answered = response-ok t texts in
    let whole = write_string-stream [] t.pieces in
    elim (Bool-cases easy.has_handle) [
      | inl e ↦ rw e (((λ h. (refl, answered.0 h)), λ (_, k). answered.1 k), λ h. whole)
      | inr e ↦ rw e (((λ h. cc), λ (h, k). cc), λ h. cc)
    ]
