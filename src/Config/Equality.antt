-- ===== src/Config/Equality.antt =====
-- The comparisons of src/Tr069Daemon.cpp against equality.
use cpe_acs_connector_tr.Base.{true, ◌≡◌, arith, equal_iff}
use cpe_acs_connector_tr.Platform.{ConnectionRequestConfig}
use cpe_acs_connector_tr.Config.{DaemonConfig, connection_request_equal, runtime_config_equal}

pub connection_request_equal_sound :
    (a b : ConnectionRequestConfig) → connection_request_equal a b ≡ true → a ≡ b
unfolding connection_request_equal
connection_request_equal_sound a b h = ground (
  arith,
  equal_iff a.bind_address b.bind_address,
  equal_iff a.username b.username,
  equal_iff a.password b.password,
  equal_iff a.auth b.auth,
  equal_iff a.realm b.realm,
)

pub connection_request_equal_refl :
    (a : ConnectionRequestConfig) → connection_request_equal a a ≡ true
unfolding connection_request_equal
connection_request_equal_refl a = ground (
  arith,
  equal_iff a.bind_address a.bind_address,
  equal_iff a.username a.username,
  equal_iff a.password a.password,
  equal_iff a.auth a.auth,
  equal_iff a.realm a.realm,
)

-- Two configurations that compare equal, and agree on the two flags that the comparison leaves
-- out, are one: no member is forgotten.
pub runtime_config_equal_sound :
    (a b : DaemonConfig)
    → runtime_config_equal a b ≡ true
    → a.bootstrap_done ≡ b.bootstrap_done
    → a.pending_reboot_event ≡ b.pending_reboot_event
    → a ≡ b
unfolding runtime_config_equal
runtime_config_equal_sound a b h e f = ground (
  arith,
  equal_iff a.acs_url b.acs_url,
  equal_iff a.acs_username b.acs_username,
  equal_iff a.acs_password b.acs_password,
  equal_iff a.ca_file b.ca_file,
  equal_iff a.periodic_inform_time b.periodic_inform_time,
  connection_request_equal_sound a.connection_request b.connection_request,
)
