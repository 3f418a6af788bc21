-- ===== src/ConnectionRequest/Raised.antt =====
-- The loop of the server's thread against the flags of the daemon.
use cpe_acs_connector_tr.Base.{
  ℕ, suc, true, false, List, [], ◌∷◌, ◌≡◌, ◌↔◌, ◌⊎◌, inl, inr, refl, ap, Bool-cases, Bytes, codes,
  is_empty, length, has_value, ◌++◌, ◌∙◌,
}
use cpe_acs_connector_tr.Daemon.{Flags, trigger_connection_request}
use cpe_acs_connector_tr.ConnectionRequest.{
  Server, header_value, needs_none, digest_value, behind_prefix,
}
use cpe_acs_connector_tr.ConnectionRequest.Reply.{serve_client, request_method}
use cpe_acs_connector_tr.ConnectionRequest.Authentic.{Authentic, response_of, serve_client_iff}
use cpe_acs_connector_tr.ConnectionRequest.Reading.{
  IsDirective, digest_value_iff, behind_prefix-append, behind_prefix-has_value,
}
use cpe_acs_connector_tr.ConnectionRequest.Serving.{Turn, idle, client, received, serve}

-- The header answers the server's challenge for a request with this method: its directives are the
-- server's own user, realm and nonce, a URI, and the response of RFC 2617 that the password gives
-- with the qop, the nonce count and the client's nonce.
pub record Answered (server : Server) (method auth : Bytes) : Type 0 where
  pub rest : Bytes
  pub uri : Bytes
  pub qop : Bytes
  pub nc : Bytes
  pub cnonce : Bytes
  pub scheme : auth ≡ codes "Digest " ++ rest
  pub username : IsDirective auth (codes "username") server.config.username
  pub realm : IsDirective auth (codes "realm") server.config.realm
  pub nonce : IsDirective auth (codes "nonce") server.nonce
  pub uri_read : IsDirective auth (codes "uri") uri
  pub some_uri : is_empty uri ≡ false
  pub qop_read : IsDirective auth (codes "qop") qop
  pub nc_read : IsDirective auth (codes "nc") nc
  pub cnonce_read : IsDirective auth (codes "cnonce") cnonce
  pub response : IsDirective auth (codes "response") (response_of server method uri qop nc cnonce)

-- The reader's value is the directive.
digest_value-IsDirective : (auth key : Bytes) → IsDirective auth key (digest_value auth key)
digest_value-IsDirective auth key = (digest_value_iff auth key (digest_value auth key)).0 refl

Authentic-Answered :
    (server : Server) (method auth : Bytes)
    → Authentic server method auth
    → Answered server method auth
Authentic-Answered server method auth a =
    let (rest, scheme) = behind_prefix-has_value (codes "Digest ") auth a.scheme in
    record {
      rest = rest;
      uri = digest_value auth (codes "uri");
      qop = digest_value auth (codes "qop");
      nc = digest_value auth (codes "nc");
      cnonce = digest_value auth (codes "cnonce");
      scheme = scheme;
      username = (digest_value_iff auth (codes "username") _).0 a.username;
      realm = (digest_value_iff auth (codes "realm") _).0 a.realm;
      nonce = (digest_value_iff auth (codes "nonce") _).0 a.nonce;
      uri_read = digest_value-IsDirective auth (codes "uri");
      some_uri = a.uri;
      qop_read = digest_value-IsDirective auth (codes "qop");
      nc_read = digest_value-IsDirective auth (codes "nc");
      cnonce_read = digest_value-IsDirective auth (codes "cnonce");
      response = (digest_value_iff auth (codes "response") _).0 a.response;
    }

Answered-Authentic :
    (server : Server) (method auth : Bytes)
    → Answered server method auth
    → Authentic server method auth
Answered-Authentic server method auth a =
    let uri = (digest_value_iff auth (codes "uri") a.uri).1 a.uri_read in
    let qop = (digest_value_iff auth (codes "qop") a.qop).1 a.qop_read in
    let nc = (digest_value_iff auth (codes "nc") a.nc).1 a.nc_read in
    let cnonce = (digest_value_iff auth (codes "cnonce") a.cnonce).1 a.cnonce_read in
    record {
      scheme =
          ap (λ s. has_value (behind_prefix (codes "Digest ") s)) a.scheme
          ∙ ap has_value (behind_prefix-append (codes "Digest ") a.rest);
      username = (digest_value_iff auth (codes "username") _).1 a.username;
      realm = (digest_value_iff auth (codes "realm") _).1 a.realm;
      nonce = (digest_value_iff auth (codes "nonce") _).1 a.nonce;
      uri = ap is_empty uri ∙ a.some_uri;
      response =
          rw (uri, qop, nc, cnonce) ((digest_value_iff auth (codes "response") _).1 a.response);
    }

-- A request that names a method, and answers the challenge where authorization is not switched off.
abbrev pub IsGranted : Server → Bytes → Type 0
IsGranted server request =
    let method = request_method request in
    (is_empty method ≡ false)
    × ((needs_none server ≡ true)
        ⊎ Answered server method (header_value request (codes "Authorization")))

-- Some client's request is granted.
abbrev pub SomeGranted : Server → List Turn → Type 0
SomeGranted server [] = ⊥
SomeGranted server (idle ∷ turns) = SomeGranted server turns
SomeGranted server (client sent ∷ turns) =
    IsGranted server (received sent) ⊎ SomeGranted server turns

abbrev pub clients : List Turn → ℕ
clients [] = 0
clients (idle ∷ turns) = clients turns
clients (client sent ∷ turns) = suc (clients turns)

serve_client-IsGranted :
    (server : Server) (request : Bytes)
    → ((serve_client server request).1 ≡ true) ↔ IsGranted server request
serve_client-IsGranted server request = (to, from)
  where
    method : Bytes
    method = request_method request

    auth : Bytes
    auth = header_value request (codes "Authorization")

    to : (serve_client server request).1 ≡ true → IsGranted server request
    to h =
        let (full, why) = (serve_client_iff server request).0 h in
        (
          full,
          elim why [ inl off ↦ inl off | inr a ↦ inr (Authentic-Answered server method auth a) ],
        )

    from : IsGranted server request → (serve_client server request).1 ≡ true
    from (full, why) = (serve_client_iff server request).1 (
      full,
      elim why [ inl off ↦ inl off | inr a ↦ inr (Answered-Authentic server method auth a) ],
    )

skip_refused {ℓ} : {A B C D : Type ℓ} → (C → ⊥) → A ↔ (B ⊎ D) → A ↔ (B ⊎ (C ⊎ D))
skip_refused {A = A} {B = B} {C = C} {D = D} refused h = (to, from)
  where
    to : A → B ⊎ (C ⊎ D)
    to a = elim (h.0 a) [ inl b ↦ inl b | inr d ↦ inr (inr d) ]

    from : B ⊎ (C ⊎ D) → A
    from (inl b) = h.1 (inl b)
    from (inr (inl c)) = absurd (refused c)
    from (inr (inr d)) = h.1 (inr d)

-- The server's thread sends one reply to each client it accepts, and touches no flag of the daemon
-- but that of a connection request, which is set afterwards exactly when it was set before or some
-- client's request, as far as `recv` gives it, names a method and, unless authorization is switched
-- off, has an Authorization header that answers the challenge, where a directive is the value
-- behind the first `key=` in the header, also inside another name.
pub serve-SomeGranted :
    (server : Server) (turns : List Turn) (f : Flags)
    → let (replies, f') = serve server trigger_connection_request turns f in
      (length replies ≡ clients turns)
      × (f' ≡ record f { connection_requested = f'.connection_requested })
      × ((f'.connection_requested ≡ true)
          ↔ ((f.connection_requested ≡ true) ⊎ SomeGranted server turns))
unfolding serve trigger_connection_request
serve-SomeGranted server [] f = (
  refl,
  refl,
  (
    (λ h. inl h),
    λ (k : (f.connection_requested ≡ true) ⊎ ⊥). elim k [ inl h ↦ h | inr h ↦ absurd h ],
  ),
)
serve-SomeGranted server (idle ∷ turns) f = serve-SomeGranted server turns f
serve-SomeGranted server (client sent ∷ turns) f =
    let granted = serve_client-IsGranted server (received sent) in
    elim (Bool-cases (serve_client server (received sent)).1) [
      | inl e ↦
          let (count, frame, rest) =
            serve-SomeGranted server turns (trigger_connection_request f) in
          rw e (ap suc count, frame, ((λ h. inr (inl (granted.0 e))), λ h. rest.1 (inl refl)))
      | inr e ↦
          let (count, frame, rest) = serve-SomeGranted server turns f in
          let refused : IsGranted server (received sent) → ⊥ = λ g. cc (granted.1 g, e) in
          rw e (ap suc count, frame, skip_refused refused rest)
    ]
