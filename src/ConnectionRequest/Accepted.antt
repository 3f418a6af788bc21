-- ===== src/ConnectionRequest/Accepted.antt =====
-- The whole way of a Connection Request, from the server's construction to its reply.
use cpe_acs_connector_tr.Base.{
  c_str, has_value, ℕ, Bool, true, false, not, ◌&&◌, List, [], ◌∷◌, ◌++◌, ◌≡◌, refl, ap, ◌∙◌, arith,
  ◌==◌, if◌then◌else◌, inl, inr, Bool-cases, Bytes, codes, all, is_empty, to_string, stream, equal,
}
use cpe_acs_connector_tr.Md5.{md5_hex}
use cpe_acs_connector_tr.Md5.Text.{is_hex, md5_hex-is_hex}
use cpe_acs_connector_tr.Platform.{ConnectionRequestConfig}
use cpe_acs_connector_tr.ConnectionRequest.{
  Server, new_server, behind_prefix, header_value, authorized, same_name,
}
use cpe_acs_connector_tr.ConnectionRequest.Reply.{
  request_method, request_line, serve_client, no_content_response, challenge, bad_request_response,
}
use cpe_acs_connector_tr.ConnectionRequest.Authentic.{
  Authentic, response_of, serve_client_iff, split_at-append,
}
use cpe_acs_connector_tr.ConnectionRequest.Headers.{
  Field, is_field, is_line, is_line-append, split_line-append, all_fields, request_text, lookup,
  header_value-lookup,
}
use cpe_acs_connector_tr.ConnectionRequest.Client.{
  Answer, pieces, authorization, is_value, is_bare, is_readable, authorization-Reads,
}

-- What a client asks for, with its own nonce, count and choice of `qop`.
pub record Request : Type 0 where
  pub method : Bytes
  pub uri : Bytes
  pub cnonce : Bytes
  pub nc : Bytes
  pub qop : Bytes

-- The answer of a client that knows the password.
abbrev pub answer_to : Server → Request → Answer
answer_to server r = record {
  username = server.config.username;
  realm = server.config.realm;
  nonce = server.nonce;
  uri = r.uri;
  cnonce = r.cnonce;
  nc = r.nc;
  qop = r.qop;
  response = response_of server r.method r.uri r.qop r.nc r.cnonce;
}

authorization-scheme :
    (a : Answer) → has_value (behind_prefix (codes "Digest ") (authorization a)) ≡ true
unfolding codes behind_prefix authorization
authorization-scheme a = refl

answer_to-Authentic :
    (server : Server) (r : Request)
    → is_empty r.uri ≡ false
    → is_readable (answer_to server r) ≡ true
    → Authentic server r.method (authorization (answer_to server r))
answer_to-Authentic server r some_uri h =
    let reads = authorization-Reads (answer_to server r) h in
    record {
      scheme = authorization-scheme (answer_to server r);
      username = reads.username;
      realm = reads.realm;
      nonce = reads.nonce;
      uri = ap is_empty reads.uri ∙ some_uri;
      response = rw (reads.uri, reads.qop, reads.nc, reads.cnonce) reads.response;
    }

-- A digest is a value.
is_hex-is_value : (s : Bytes) → all is_hex s ≡ true → is_value s ≡ true
is_hex-is_value [] h = refl
is_hex-is_value (c ∷ s) h = ground (arith, is_hex-is_value s)

md5_hex-is_value : (s : Bytes) → is_value (md5_hex s) ≡ true
md5_hex-is_value s = is_hex-is_value (md5_hex s) (md5_hex-is_hex s).1

response_of-is_value :
    (server : Server) (method uri qop nc cnonce : Bytes)
    → is_value (response_of server method uri qop nc cnonce) ≡ true
response_of-is_value server method uri qop nc cnonce = elim (Bool-cases (is_empty qop)) [
  | inl e ↦ rw e (md5_hex-is_value _)
  | inr e ↦ rw e (md5_hex-is_value _)
]

-- The client's choices can be told apart, and the method is a word.
abbrev pub is_request : Request → Bool
is_request r =
    not (is_empty r.method)
    && all (λ c. not (c == b' ')) r.method
    && is_line r.method
    && not (is_empty r.uri)
    && is_value r.uri
    && is_value r.cnonce
    && is_bare r.nc
    && is_bare r.qop

abbrev pub request_line_of : Request → Bytes
request_line_of r = r.method ++ (b' ' ∷ (r.uri ++ codes " HTTP/1.1"))

abbrev auth_field : Server → Request → Field
auth_field server r = record {
  name = codes "Authorization";
  value = authorization (answer_to server r);
}

-- The request as it is sent, with the answer between other headers.
abbrev pub request_for : Server → Request → (before others : List Field) → Bytes
request_for server r before others =
    request_text (request_line_of r) (before ++ auth_field server r ∷ others)

-- No field with the name.
abbrev pub none_named : Bytes → List Field → Bool
none_named name fs = all (λ f. not (same_name f.name name)) fs

lookup-none_named :
    (fs later : List Field) (name : Bytes)
    → none_named name fs ≡ true
    → lookup (fs ++ later) name ≡ lookup later name
lookup-none_named [] later name h = refl
lookup-none_named (f ∷ fs) later name h = ground (arith, lookup-none_named fs later name)

all_fields-append :
    (fs later : List Field)
    → all_fields fs ≡ true
    → all_fields later ≡ true
    → all_fields (fs ++ later) ≡ true
all_fields-append [] later h k = k
all_fields-append (f ∷ fs) later h k = ground (arith, all_fields-append fs later)

is_value-is_line : (s : Bytes) → is_value s ≡ true → is_line s ≡ true
is_value-is_line [] h = refl
is_value-is_line (c ∷ s) h = ground (arith, is_value-is_line s)

stream-is_line : (pieces : List Bytes) → all is_line pieces ≡ true → is_line (stream pieces) ≡ true
stream-is_line [] h = refl
stream-is_line (s ∷ pieces) h =
    is_line-append s (stream pieces) (ground arith) (stream-is_line pieces (ground arith))

authorization-is_line : (a : Answer) → is_readable a ≡ true → is_line (authorization a) ≡ true
unfolding authorization codes
authorization-is_line a h = stream-is_line (pieces a) (
    ground (
      arith,
      is_value-is_line a.username,
      is_value-is_line a.realm,
      is_value-is_line a.nonce,
      is_value-is_line a.uri,
      is_value-is_line a.cnonce,
      is_value-is_line a.nc,
      is_value-is_line a.qop,
      is_value-is_line a.response,
    ))

request_line_of-is_line : (r : Request) → is_request r ≡ true → is_line (request_line_of r) ≡ true
unfolding codes
request_line_of-is_line r h =
    is_line-append r.method (b' ' ∷ (r.uri ++ codes " HTTP/1.1")) (ground arith)
      (is_line-append r.uri (codes " HTTP/1.1") (is_value-is_line r.uri (ground arith)) refl)

request_method-request_for :
    (server : Server) (r : Request) (before others : List Field)
    → is_request r ≡ true
    → request_method (request_for server r before others) ≡ r.method
unfolding request_method request_line
request_method-request_for server r before others h =
    rw (split_line-append (request_line_of r) _ (request_line_of-is_line r h))
      (rw (split_at-append b' ' r.method (r.uri ++ codes " HTTP/1.1") (ground arith)) refl)

-- The server's own texts can be put in quotes.
abbrev pub is_quotable : ConnectionRequestConfig → Bool
is_quotable config = is_value config.username && is_value config.realm

answer_to-is_readable :
    (config : ConnectionRequestConfig) (now random : ℕ) (r : Request)
    → is_quotable config ≡ true
    → is_request r ≡ true
    → is_readable (answer_to (new_server config now random) r) ≡ true
unfolding new_server
answer_to-is_readable config now random r h k =
    let nonce = md5_hex-is_value (stream (config.realm ∷ to_string now ∷ to_string random ∷ [])) in
    let response =
      response_of-is_value (new_server config now random) r.method r.uri r.qop r.nc r.cnonce in
    ground (arith, nonce, response)

auth_field-is_field :
    (server : Server) (r : Request)
    → is_readable (answer_to server r) ≡ true
    → is_field (auth_field server r) ≡ true
unfolding authorization codes
auth_field-is_field server r k = ground (arith, authorization-is_line (answer_to server r) k)

header_value-request_for :
    (server : Server) (r : Request) (before others : List Field)
    → is_request r ≡ true
    → is_readable (answer_to server r) ≡ true
    → none_named (codes "Authorization") before ≡ true
    → all_fields before ≡ true
    → all_fields others ≡ true
    → header_value (request_for server r before others) (codes "Authorization")
      ≡ authorization (answer_to server r)
unfolding codes same_name c_str equal
header_value-request_for server r before others h k other_names before_fields fields =
    let own : all_fields (auth_field server r ∷ others) ≡ true =
      ground (arith, auth_field-is_field server r k) in
    header_value-lookup (request_line_of r) (before ++ auth_field server r ∷ others)
      (codes "Authorization") (request_line_of-is_line r h)
      (all_fields-append before (auth_field server r ∷ others) before_fields own)
    ∙ lookup-none_named before (auth_field server r ∷ others) (codes "Authorization") other_names

abbrev choice : (b c : Bool) → (first second third : Bytes) → Bytes × Bool
choice b c first second third =
    if b then (first, false) else if c then (second, true) else (third, false)

only_second :
    (b c : Bool) (first second third : Bytes)
    → (choice b c first second third).1 ≡ true
    → choice b c first second third ≡ (second, true)
only_second true c first second third h = cc
only_second false true first second third h = refl
only_second false false first second third h = cc

-- A request for which the daemon is called is answered by 204.
granted-reply :
    (server : Server) (request : Bytes)
    → (serve_client server request).1 ≡ true
    → serve_client server request ≡ (no_content_response, true)
unfolding serve_client
granted-reply server request =
    only_second (is_empty (request_method request))
      (authorized server request (request_method request)) bad_request_response no_content_response
      (challenge server)

-- A client that knows the user, the password and the challenge is let in, if its header lists the
-- directives in the order of tests/test_connection_request.cpp: username, realm, nonce, uri,
-- response, qop, nc, cnonce, all but qop and nc in quotes. The server, with the nonce that it made
-- of its realm, the clock and a random number, answers a request that `recv` gives whole by 204 and
-- calls the daemon, whatever other headers stand around, unless one in front is named
-- Authorization, the method is no word, the URI is empty, or a text holds a quote, an equals sign
-- or a carriage return, or qop or nc a comma or a space.
pub serve_client-request_for :
    (config : ConnectionRequestConfig) (now random : ℕ) (r : Request) (before others : List Field)
    → is_quotable config ≡ true
    → is_request r ≡ true
    → none_named (codes "Authorization") before ≡ true
    → all_fields before ≡ true
    → all_fields others ≡ true
    → let server = new_server config now random in
      serve_client server (request_for server r before others) ≡ (no_content_response, true)
serve_client-request_for config now random r before others h k other_names before_fields fields =
    let server = new_server config now random in
    let readable = answer_to-is_readable config now random r h k in
    let some_uri : is_empty r.uri ≡ false = ground arith in
    let some_method : is_empty r.method ≡ false = ground arith in
    let authentic = answer_to-Authentic server r some_uri readable in
    let same_method = request_method-request_for server r before others k in
    let same_header =
      header_value-request_for server r before others k readable other_names before_fields fields in
    granted-reply server (request_for server r before others) (
      (serve_client_iff server (request_for server r before others)).1
        (ap is_empty same_method ∙ some_method, inr (rw (same_method, same_header) authentic)))
