-- ===== src/Daemon/Status.antt =====
-- What the daemon tells of itself (src/Tr069Daemon.cpp, `status`;
-- include/tr069/Tr069Daemon.hpp, `DaemonStatus`).
use cpe_acs_connector_tr.Base.{ℕ, Bool, [], Bytes, codes}
use cpe_acs_connector_tr.DataModel.{get, value_or_text}
use cpe_acs_connector_tr.Platform.{Platform}
use cpe_acs_connector_tr.Daemon.{Daemon}

pub record DaemonStatus : Type 0 where
  pub state : Bytes
  pub enable_cwmp : Bool
  pub acs_url : Bytes
  pub periodic_enable : Bool
  pub periodic_interval : ℕ  -- unsigned
  pub connection_request_enable : Bool
  pub connection_request_port : ℕ  -- unsigned
  pub connection_request_url : Bytes

unfoldable pub status : {S : Type 0} → Platform S → Daemon S → DaemonStatus
status p d = record {
  state = d.state;
  enable_cwmp = d.config.enable_cwmp;
  acs_url = d.config.acs_url;
  periodic_enable = d.config.periodic_enable;
  periodic_interval = d.config.periodic_interval;
  connection_request_enable = d.config.connection_request_enable;
  connection_request_port = d.config.connection_request.port;
  connection_request_url =
      value_or_text (get p.api d.device (codes "Device.ManagementServer.ConnectionRequestURL")) [];
}
