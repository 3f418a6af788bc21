-- ===== src/Platform.antt =====
-- All that the daemon stands on and the repository does not hold: the transformer behind its
-- interface, the shell, libxml2, libcurl, the system, the clock and the environment. `S` is the
-- state of the device.
use cpe_acs_connector_tr.Base.{ℕ, Bool, Option, Bytes}
use cpe_acs_connector_tr.Transformer.{TransformerApi}
use cpe_acs_connector_tr.Shell.{Shell}
use cpe_acs_connector_tr.Xml.{Libxml}
use cpe_acs_connector_tr.HttpClient.{Curl}
use cpe_acs_connector_tr.Download.{System}

pub record ConnectionRequestConfig : Type 0 where
  pub bind_address : Bytes
  pub port : ℕ  -- unsigned
  pub username : Bytes
  pub password : Bytes
  pub auth : Bytes
  pub realm : Bytes

pub record Platform (S : Type 0) : Type 0 where
  pub api : TransformerApi S
  -- `transformer_.ready()`, which no call changes once the daemon is built.
  pub ready : Bool
  pub shell : Shell S
  pub xml : Libxml
  pub curl : Curl S
  pub system : System S
  -- The text of `isoTimeNow()` after a number of requests in a session.
  pub clock : ℕ → Bytes
  pub getenv : Bytes → Option Bytes
  -- The socket calls of `ConnectionRequestServer::start` succeed.
  pub can_listen : S → ConnectionRequestConfig → Bool
