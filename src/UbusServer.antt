-- ===== src/UbusServer.antt =====
-- The ubus object `tr69` (src/UbusServer.cpp, include/tr069/UbusServer.hpp), over libubus and
-- uloop, which are an argument. `U` is the state of the bus. There is one `UbusServer` in the
-- program, so that the static pointer is its address or null. Logging is left out.
pub mod Lifecycle
pub mod Handlers
use cpe_acs_connector_tr.Base.{
  ℕ, ◌%◌, ◌^◌, ◌==◌, Bool, true, false, not, ◌&&◌, List, [], ◌∷◌, Option, none, some, if◌then◌else◌,
  Bytes, codes,
}
use cpe_acs_connector_tr.Platform.{Platform}
use cpe_acs_connector_tr.Daemon.{Daemon, request_reload, request_reconnect, request_inform_now}
use cpe_acs_connector_tr.Daemon.Wakeup.{with_flags}
use cpe_acs_connector_tr.Daemon.Status.{DaemonStatus, status}

-- The calls of libubus and uloop; a connection is a number, and a result of 0 is a success.
pub record Ubus (U : Type 0) : Type 0 where
  pub uloop_init : U → ℕ × U
  pub uloop_done : U → U
  pub connect : U → Option ℕ × U
  pub add_uloop : U → ℕ → U
  pub add_object : U → ℕ → ℕ × U
  pub remove_object : U → ℕ → U
  pub free : U → ℕ → U

-- The members `context_` and `object_`, the latter by whether it is set, and whether the static
-- `instance_` is this object.
pub record UbusServer : Type 0 where
  pub context : Option ℕ
  pub object : Bool
  pub instance : Bool

abbrev pub new_server : UbusServer
new_server = record { context = none; object = false; instance = false }

module _ {U : Type 0} (ubus : Ubus U) where
  -- From `ubus_add_uloop` on. A failure resets `instance_` alone.
  unfoldable pub register : UbusServer → U → ℕ → Bool × UbusServer × U
  register u s context =
      let (result, s') = ubus.add_object (ubus.add_uloop s context) context in
      let u' = record u { context = some context; object = true; instance = true } in
      if not (result == 0) then (false, record u' { instance = false }, s') else (true, u', s')

  abbrev pub with_context : UbusServer → Option ℕ × U → Bool × UbusServer × U
  with_context u (none, s) = (false, record u { context = none }, ubus.uloop_done s)
  with_context u (some context, s) = register u s context

  unfoldable pub initialize : UbusServer → U → Bool × UbusServer × U
  initialize u s =
      let (result, s') = ubus.uloop_init s in
      if not (result == 0) then (false, u, s') else with_context u (ubus.connect s')

  -- `ubus_remove_object`, where there is a context and an object, and `ubus_free`.
  abbrev pub disconnected : UbusServer → Option ℕ → U → U
  disconnected u none s = s
  disconnected u (some context) s =
      ubus.free (if u.object then ubus.remove_object s context else s) context

  -- The destructor; only the static pointer outlives the object.
  unfoldable pub destroy : UbusServer → U → UbusServer × U
  destroy u s = (record u { instance = false }, ubus.uloop_done (disconnected u u.context s))

-- The entries of a reply: `blobmsg_add_u8`, `blobmsg_add_u32` and `blobmsg_add_string`.
pub data Entry : Type 0 where
  u8 u32 : Bytes → ℕ → Entry
  string : Bytes → Bytes → Entry

-- The methods of the object, in the order of the table.
pub data Method : Type 0 where
  reload reconnect inform_now status_of : Method

abbrev pub methods : List (Bytes × Method)
methods =
    (codes "reload", reload)
    ∷ (codes "reconnect", reconnect)
    ∷ (codes "inform_now", inform_now)
    ∷ (codes "status", status_of)
    ∷ []

-- `UBUS_STATUS_OK` and `UBUS_STATUS_UNKNOWN_ERROR`.
pub data UbusStatus : Type 0 where
  status_ok unknown_error : UbusStatus

-- The reply of `sendAccepted`.
unfoldable pub accepted : Bytes → List Entry
accepted action = u8 (codes "accepted") 1 ∷ string (codes "action") action ∷ []

-- `b ? 1 : 0`.
abbrev pub bit : Bool → ℕ
bit true = 1
bit false = 0

-- The reply of `status`.
unfoldable pub status_reply : ℕ → DaemonStatus → List Entry
status_reply pid s =
    u8 (codes "running") 1
    ∷ u32 (codes "pid") (pid % 2 ^ 32)
    ∷ string (codes "state") s.state
    ∷ u8 (codes "enable_cwmp") (bit s.enable_cwmp)
    ∷ string (codes "acs_url") s.acs_url
    ∷ u8 (codes "periodic_inform_enable") (bit s.periodic_enable)
    ∷ u32 (codes "periodic_inform_interval") s.periodic_interval
    ∷ u8 (codes "connection_request_enable") (bit s.connection_request_enable)
    ∷ u32 (codes "connection_request_port") s.connection_request_port
    ∷ string (codes "connection_request_url") s.connection_request_url
    ∷ []

-- The four callbacks: what they return, the reply that they send, if any, and the daemon behind
-- them.
unfoldable pub call :
    {S : Type 0}
    → Platform S
    → ℕ
    → UbusServer
    → Method
    → Daemon S
    → UbusStatus × Option (List Entry) × Daemon S
call p pid u method d = if not u.instance then (unknown_error, none, d) else (elim method [
  | reload ↦ (status_ok, some (accepted (codes "reload")), with_flags request_reload d)
  | reconnect ↦ (status_ok, some (accepted (codes "reconnect")), with_flags request_reconnect d)
  | inform_now ↦ (status_ok, some (accepted (codes "inform_now")), with_flags request_inform_now d)
  | status_of ↦ (status_ok, some (status_reply pid (status p d)), d)
])
