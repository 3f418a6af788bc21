-- ===== src/Examples/Requests.antt =====
-- Connection Requests at known inputs.
use mathlib.Core.List.{List, [], ◌∷◌, ◌++◌}
use cpe_acs_connector_tr.Base.{equal, true, some, length, ◌≡◌, ◌↔◌, ◌⊎◌, refl, Bytes, codes}
use cpe_acs_connector_tr.Config.{default_config}
use cpe_acs_connector_tr.Daemon.{trigger_connection_request}
use cpe_acs_connector_tr.ConnectionRequest.Serving.{Turn, idle, client, serve}
use cpe_acs_connector_tr.ConnectionRequest.Raised.{SomeGranted, clients, serve-SomeGranted}
use cpe_acs_connector_tr.Examples.{quiet}
use cpe_acs_connector_tr.ConnectionRequest.Accepted.{Request, request_for, serve_client-request_for}
use cpe_acs_connector_tr.ConnectionRequest.{
  Server, new_server, digest_value, header_value, same_name,
}
use cpe_acs_connector_tr.ConnectionRequest.Reply.{serve_client, no_content_response}
use cpe_acs_connector_tr.ConnectionRequest.Authentic.{digest_value-cnonce}
use cpe_acs_connector_tr.ConnectionRequest.Headers.{
  Field, request_text, lookup, header_value-lookup,
}

abbrev server : Server
server = record {
  config = record default_config.connection_request { username = codes "cpe" };
  nonce = codes "abc";
}

abbrev request : Bytes
request = request_text (codes "GET / HTTP/1.1") []

-- A pass without a client, and a client that does not answer the challenge.
abbrev turns : List Turn
turns = idle ∷ client (some request) ∷ []

serve-SomeGranted_example :
    let (replies, f') = serve server trigger_connection_request turns quiet in
    (length replies ≡ clients turns)
    × (f' ≡ record quiet { connection_requested = f'.connection_requested })
    × ((f'.connection_requested ≡ true)
        ↔ ((quiet.connection_requested ≡ true) ⊎ SomeGranted server turns))
serve-SomeGranted_example = serve-SomeGranted server turns quiet

digest_value-cnonce_example :
    digest_value
      (codes "Digest cnonce=\"" ++ (codes "xy" ++ b'"' ∷ codes ", nonce=\"abc\""))
      (codes "nonce")
    ≡ codes "xy"
unfolding codes
digest_value-cnonce_example = digest_value-cnonce (codes "xy") (codes ", nonce=\"abc\"") refl

abbrev fields : List Field
fields =
    record { name = codes "Host"; value = codes "cpe:7547" }
    ∷ record { name = codes "authorization"; value = codes "Digest x" }
    ∷ []

header_value-lookup_example :
    header_value (request_text (codes "GET / HTTP/1.1") fields) (codes "Authorization")
    ≡ lookup fields (codes "Authorization")
unfolding codes
header_value-lookup_example =
    header_value-lookup (codes "GET / HTTP/1.1") fields (codes "Authorization") refl refl

abbrev hosts : List Field
hosts = record { name = codes "Host"; value = codes "cpe:7547" } ∷ []

-- A client's request, and the random number and the clock behind the server's nonce.
abbrev asked : Request
asked = record {
  method = codes "GET";
  uri = codes "/";
  cnonce = codes "xy";
  nc = codes "00000001";
  qop = codes "auth";
}

serve_client-request_for_example :
    let config = record default_config.connection_request { username = codes "cpe" } in
    let server = new_server config 5 7 in
    serve_client server (request_for server asked hosts fields) ≡ (no_content_response, true)
unfolding codes same_name equal
serve_client-request_for_example =
    serve_client-request_for (record default_config.connection_request { username = codes "cpe" }) 5
      7 asked hosts fields refl refl refl refl refl
