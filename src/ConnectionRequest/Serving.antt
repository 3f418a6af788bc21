-- ===== src/ConnectionRequest/Serving.antt =====
-- The loop of the server's thread (src/ConnectionRequestServer.cpp, `serve`), one client after the
-- other. Logging is left out.
use cpe_acs_connector_tr.Base.{List, [], ◌∷◌, Option, none, some, if◌then◌else◌, Bytes, take}
use cpe_acs_connector_tr.ConnectionRequest.{Server}
use cpe_acs_connector_tr.ConnectionRequest.Reply.{serve_client}

-- A pass of the loop: `select` gives no connection in a second, or `accept` fails; or there is a
-- client, with what it has sent when `recv` is called, or none where `recv` fails.
pub data Turn : Type 0 where
  idle : Turn
  client : Option Bytes → Turn

-- The buffer has 4096 bytes, and `recv` fills all but the last.
unfoldable pub received : Option Bytes → Bytes
received none = []
received (some sent) = take 4095 sent

module _ {F : Type 0} (server : Server) (on_request : F → F) where
  -- The passes while `running_` is set: what is sent to each client, and the state of the callback.
  unfoldable pub serve : List Turn → F → List Bytes × F
  serve [] f = ([], f)
  serve (idle ∷ turns) f = serve turns f
  serve (client sent ∷ turns) f =
      let (reply, called) = serve_client server (received sent) in
      let (replies, f') = serve turns (if called then on_request f else f) in (reply ∷ replies, f')
