-- ===== src/ConnectionRequest/Authentic.antt =====
-- Which requests are granted, and what the reader makes of a directive.
use cpe_acs_connector_tr.Base.{
  has_value, ℕ, true, false, not, [], ◌∷◌, ◌++◌, some, ◌≡◌, ◌↔◌, ◌⊎◌, inl, inr, refl, sym, ◌∙◌,
  arith, ◌==◌, if◌then◌else◌, Bool-cases, Bytes, codes, equal_iff, is_empty, stream, all,
}
use cpe_acs_connector_tr.Md5.{md5_hex}
use cpe_acs_connector_tr.ConnectionRequest.{
  Server, split_at, behind_prefix, digest_value, directive_value, behind_first, header_value,
  needs_none, digest_authorized, authorized, expected,
}
use cpe_acs_connector_tr.ConnectionRequest.Reply.{request_method, serve_client}

-- The response of RFC 2617 to the server's challenge, by one who knows the password: with no `qop`
-- as in RFC 2069, and else with the nonce count and the client's nonce.
abbrev pub response_of : Server → (method uri qop nc cnonce : Bytes) → Bytes
response_of server method uri qop nc cnonce =
    let colon = codes ":" in
    let c = server.config in
    let ha1 = md5_hex (stream (c.username ∷ colon ∷ c.realm ∷ colon ∷ c.password ∷ [])) in
    let ha2 = md5_hex (stream (method ∷ colon ∷ uri ∷ [])) in
    if is_empty qop
    then md5_hex (stream (ha1 ∷ colon ∷ server.nonce ∷ colon ∷ ha2 ∷ []))
    else md5_hex (
        stream (
          ha1 ∷ colon ∷ server.nonce ∷ colon ∷ nc ∷ colon ∷ cnonce ∷ colon ∷ qop ∷ colon ∷ ha2
          ∷ []))

-- The header answers the server's challenge for a request with this method.
pub record Authentic (server : Server) (method auth : Bytes) : Type 0 where
  pub scheme : has_value (behind_prefix (codes "Digest ") auth) ≡ true
  pub username : digest_value auth (codes "username") ≡ server.config.username
  pub realm : digest_value auth (codes "realm") ≡ server.config.realm
  pub nonce : digest_value auth (codes "nonce") ≡ server.nonce
  pub uri : is_empty (digest_value auth (codes "uri")) ≡ false
  pub response :
      digest_value auth (codes "response")
      ≡ response_of server method
          (digest_value auth (codes "uri"))
          (digest_value auth (codes "qop"))
          (digest_value auth (codes "nc"))
          (digest_value auth (codes "cnonce"))

expected-response_of :
    (server : Server) (auth method : Bytes)
    → digest_value auth (codes "username") ≡ server.config.username
    → digest_value auth (codes "realm") ≡ server.config.realm
    → digest_value auth (codes "nonce") ≡ server.nonce
    → expected server auth method
      ≡ response_of server method
          (digest_value auth (codes "uri"))
          (digest_value auth (codes "qop"))
          (digest_value auth (codes "nc"))
          (digest_value auth (codes "cnonce"))
unfolding expected
expected-response_of server auth method u r n = rw (u, r, n) refl

digest_authorized-Authentic :
    (server : Server) (auth method : Bytes)
    → digest_authorized server auth method ≡ true
    → Authentic server method auth
unfolding digest_authorized
digest_authorized-Authentic server auth method h =
    let u = equal_iff (digest_value auth (codes "username")) server.config.username in
    let r = equal_iff (digest_value auth (codes "realm")) server.config.realm in
    let n = equal_iff (digest_value auth (codes "nonce")) server.nonce in
    let e = equal_iff (digest_value auth (codes "response")) (expected server auth method) in
    let u' : digest_value auth (codes "username") ≡ server.config.username = ground (arith, u) in
    let r' : digest_value auth (codes "realm") ≡ server.config.realm = ground (arith, r) in
    let n' : digest_value auth (codes "nonce") ≡ server.nonce = ground (arith, n) in
    let e' : digest_value auth (codes "response") ≡ expected server auth method =
      ground (arith, e) in
    record {
      scheme = ground arith;
      username = u';
      realm = r';
      nonce = n';
      uri = ground arith;
      response = e' ∙ expected-response_of server auth method u' r' n';
    }

Authentic-digest_authorized :
    (server : Server) (auth method : Bytes)
    → Authentic server method auth
    → digest_authorized server auth method ≡ true
unfolding digest_authorized
Authentic-digest_authorized server auth method a =
    let u =
      (equal_iff (digest_value auth (codes "username")) server.config.username).1 a.username in
    let r = (equal_iff (digest_value auth (codes "realm")) server.config.realm).1 a.realm in
    let n = (equal_iff (digest_value auth (codes "nonce")) server.nonce).1 a.nonce in
    let e =
      (equal_iff (digest_value auth (codes "response")) (expected server auth method)).1
        (a.response ∙ sym (expected-response_of server auth method a.username a.realm a.nonce)) in
    rw (a.scheme, u, r, n, a.uri) e

-- A client's request calls the daemon, and is answered by 204, exactly when its first line names a
-- method, and authorization is switched off or the Authorization header answers the challenge:
-- the server's own user, realm and nonce, a URI, and the response of RFC 2617 that the password
-- gives.
pub serve_client_iff :
    (server : Server) (request : Bytes)
    → let method = request_method request in
      let auth = header_value request (codes "Authorization") in
      ((serve_client server request).1 ≡ true)
      ↔ ((is_empty method ≡ false) × ((needs_none server ≡ true) ⊎ Authentic server method auth))
unfolding serve_client authorized
serve_client_iff server request =
    let method = request_method request in
    let auth = header_value request (codes "Authorization") in
    let sound = digest_authorized-Authentic server auth method in
    let complete = Authentic-digest_authorized server auth method in
    elim (Bool-cases (is_empty method)) [
      | inl e ↦ rw e ((λ h. cc), λ (full, granted). cc)
      | inr e ↦ elim (Bool-cases (needs_none server)) [
        | inl n ↦ rw (e, n) ((λ h. (refl, inl refl)), λ granted. refl)
        | inr n ↦
            rw (e, n)
              (elim (Bool-cases (digest_authorized server auth method)) [
                | inl d ↦ rw d ((λ h. (refl, inr (sound d))), λ granted. refl)
                | inr d ↦ rw d (
                  (λ h. cc),
                  λ (full, granted). elim granted [ inl off ↦ cc | inr a ↦ cc (complete a, d) ],
                )
              ])
      ]
    ]

pub split_at-append :
    (c : ℕ) (s rest : Bytes)
    → all (λ d. not (d == c)) s ≡ true
    → split_at c (s ++ c ∷ rest) ≡ some (s, rest)
unfolding split_at
split_at-append c [] rest h = ground arith
split_at-append c (d ∷ s) rest h = ground (arith, split_at-append c s rest)

-- Where the header names the client's nonce before the server's, the directive `nonce` is read
-- from inside `cnonce`: its value is the client's nonce, whatever follows.
pub digest_value-cnonce :
    (cnonce rest : Bytes)
    → all (λ d. not (d == b'"')) cnonce ≡ true
    → digest_value (codes "Digest cnonce=\"" ++ (cnonce ++ b'"' ∷ rest)) (codes "nonce") ≡ cnonce
unfolding digest_value behind_first behind_prefix directive_value codes
digest_value-cnonce cnonce rest h = rw (split_at-append b'"' cnonce rest h) refl
