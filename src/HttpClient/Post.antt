-- ===== src/HttpClient/Post.antt =====
-- A request to the ACS (src/HttpClient.cpp, `post` and `writeString`), over libcurl, which is an
-- argument. The handle is that of the object: libcurl keeps its cookies from one request to the next
-- in the state `S`.
use cpe_acs_connector_tr.Base.{
  ℕ, Bool, not, List, [], ◌∷◌, ◌++◌, Option, none, some, if◌then◌else◌, Bytes, codes, is_empty,
  length,
}
use cpe_acs_connector_tr.Http.{HttpResponse, HttpConfig}
use cpe_acs_connector_tr.HttpClient.{TlsOptions, apply_tls, failed}

-- The options that `post` sets.
pub record PostRequest : Type 0 where
  pub cookie_file : Bytes
  pub url : Bytes
  pub body : Bytes
  pub body_size : ℕ
  pub timeout_seconds : ℕ
  pub connect_timeout_seconds : ℕ
  pub user_agent : Bytes
  pub credentials : Option (Bytes × Bytes)
  pub tls : TlsOptions
  pub headers : List Bytes

-- What `curl_easy_perform` leaves: the text of the error code, or none for `CURLE_OK`; the error
-- buffer, up to its NUL; the pieces that the write callback was called with; the response code.
pub record Transfer : Type 0 where
  pub failure : Option Bytes
  pub error_buffer : Bytes
  pub pieces : List Bytes
  pub status : ℕ

pub record Easy (S : Type 0) : Type 0 where
  pub has_handle : Bool
  pub perform : S → PostRequest → Transfer × S

unfoldable pub post_request : HttpConfig → Bytes → PostRequest
unfolding apply_tls
post_request config body = record {
  cookie_file = [];
  url = config.url;
  body = body;
  body_size = length body;
  timeout_seconds = config.timeout_seconds;
  connect_timeout_seconds = 10;
  user_agent = codes "tr069d/0.1";
  credentials =
      if not (is_empty config.username) then some (config.username, config.password) else none;
  tls = apply_tls config;
  headers =
      codes "Content-Type: text/xml; charset=utf-8"
      ∷ codes "SOAPAction: \"\""
      ∷ codes "Expect:"
      ∷ [];
}

-- `writeString` for each piece in turn.
unfoldable pub write_string : Bytes → List Bytes → Bytes
write_string body [] = body
write_string body (piece ∷ pieces) = write_string (body ++ piece) pieces

abbrev pub error_of : Option Bytes → Bytes → Bytes
error_of none error_buffer = []
error_of (some text) error_buffer = if not (is_empty error_buffer) then error_buffer else text

unfoldable pub response_of : Transfer → HttpResponse
unfolding write_string
response_of t = record {
  status = t.status;
  body = write_string [] t.pieces;
  error = error_of t.failure t.error_buffer;
}

unfoldable pub post : {S : Type 0} → Easy S → HttpConfig → S → Bytes → HttpResponse × S
post easy config s body =
    let (t, s') = easy.perform s (post_request config body) in
    if not easy.has_handle then (failed (codes "curl_easy_init failed"), s) else (response_of t, s')
