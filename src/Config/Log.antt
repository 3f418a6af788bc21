-- ===== src/Config/Log.antt =====
-- What the log says of a change of the configuration (src/Tr069Daemon.cpp, `logConfigChange` and
-- `logConfigDiff`): the messages for `Logger::info`.
pub mod Silent
use cpe_acs_connector_tr.Base.{
  Bool, true, false, not, List, [], ◌∷◌, ◌++◌, if◌then◌else◌, Bytes, codes, equal, is_empty, stream,
  to_string,
}
use cpe_acs_connector_tr.Config.{DaemonConfig}

unfoldable pub bool_text : Bool → Bytes
bool_text true = codes "true"
bool_text false = codes "false"

abbrev pub or_empty : Bytes → Bytes
or_empty value = if is_empty value then codes "<empty>" else value

unfoldable pub log_config_change : Bytes → Bytes → Bytes → List Bytes
log_config_change key before after =
    if not (equal before after)
    then stream (
        codes "[RUNTIME] config changed "
        ∷ key
        ∷ codes ": "
        ∷ or_empty before
        ∷ codes " -> "
        ∷ or_empty after
        ∷ [])
      ∷ []
    else []

-- A call of `logConfigChange`: the key and the two texts.
abbrev pub Change : Type 0
Change = Bytes × Bytes × Bytes

unfoldable pub log_changes : List Change → List Bytes
log_changes [] = []
log_changes ((key, before, after) ∷ changes) =
    log_config_change key before after ++ log_changes changes

-- The twelve calls, in order.
unfoldable pub config_changes : DaemonConfig → DaemonConfig → List Change
config_changes before after =
    (codes "EnableCWMP", bool_text before.enable_cwmp, bool_text after.enable_cwmp)
    ∷ (codes "ACS URL", before.acs_url, after.acs_url)
    ∷ (
      codes "PeriodicInformEnable",
      bool_text before.periodic_enable,
      bool_text after.periodic_enable,
    )
    ∷ (
      codes "PeriodicInformInterval",
      to_string before.periodic_interval,
      to_string after.periodic_interval,
    )
    ∷ (codes "PeriodicInformTime", before.periodic_inform_time, after.periodic_inform_time)
    ∷ (codes "MockMode", bool_text before.mock_mode, bool_text after.mock_mode)
    ∷ (codes "BootstrapDone", bool_text before.bootstrap_done, bool_text after.bootstrap_done)
    ∷ (
      codes "PendingRebootEvent",
      bool_text before.pending_reboot_event,
      bool_text after.pending_reboot_event,
    )
    ∷ (
      codes "ConnectionRequestEnable",
      bool_text before.connection_request_enable,
      bool_text after.connection_request_enable,
    )
    ∷ (
      codes "ConnectionRequestBind",
      before.connection_request.bind_address,
      after.connection_request.bind_address,
    )
    ∷ (
      codes "ConnectionRequestPort",
      to_string before.connection_request.port,
      to_string after.connection_request.port,
    )
    ∷ (codes "ConnectionRequestAuth", before.connection_request.auth, after.connection_request.auth)
    ∷ []

unfoldable pub log_config_diff : DaemonConfig → DaemonConfig → List Bytes
log_config_diff before after = log_changes (config_changes before after)
