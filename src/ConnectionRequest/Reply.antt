-- ===== src/ConnectionRequest/Reply.antt =====
-- The replies to a request (src/ConnectionRequestServer.cpp, `challenge` and the body of the loop in
-- `serve`). Logging is left out.
use cpe_acs_connector_tr.Base.{
  Bool, true, false, [], ◌∷◌, if◌then◌else◌, Bytes, codes, is_empty, stream,
}
use cpe_acs_connector_tr.ConnectionRequest.{or_all, Server, authorized, split_at, split_line}

abbrev crlf : Bytes
crlf = 13 ∷ 10 ∷ []

unfoldable pub challenge : Server → Bytes
challenge server = stream (
    codes "HTTP/1.1 401 Unauthorized"
    ∷ crlf
    ∷ codes "WWW-Authenticate: Digest realm=\""
    ∷ server.config.realm
    ∷ codes "\", nonce=\""
    ∷ server.nonce
    ∷ codes "\", algorithm=MD5, qop=\"auth\""
    ∷ crlf
    ∷ codes "Content-Length: 0"
    ∷ crlf
    ∷ codes "Connection: close"
    ∷ crlf
    ∷ crlf
    ∷ [])

unfoldable pub request_line : Bytes → Bytes
unfolding split_line
request_line request = or_all (split_line request) request

unfoldable pub request_method : Bytes → Bytes
unfolding request_line split_at
request_method request = or_all (split_at b' ' (request_line request)) []

abbrev pub no_content_response : Bytes
no_content_response = stream (
    codes "HTTP/1.1 204 No Content"
    ∷ crlf
    ∷ codes "Content-Length: 0"
    ∷ crlf
    ∷ codes "Cache-Control: no-store"
    ∷ crlf
    ∷ codes "Connection: close"
    ∷ crlf
    ∷ crlf
    ∷ [])

abbrev pub bad_request_response : Bytes
bad_request_response = stream (
    codes "HTTP/1.1 400 Bad Request"
    ∷ crlf
    ∷ codes "Content-Length: 0"
    ∷ crlf
    ∷ codes "Connection: close"
    ∷ crlf
    ∷ crlf
    ∷ [])

-- One client of `serve`: the reply, and whether `onRequest_` is called.
unfoldable pub serve_client : Server → Bytes → Bytes × Bool
unfolding request_method authorized challenge
serve_client server request =
    let method = request_method request in
    if is_empty method
    then (bad_request_response, false)
    else if authorized server request method
    then (no_content_response, true)
    else (challenge server, false)
