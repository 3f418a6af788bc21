-- ===== src/Examples.antt =====
-- A small device for tests: a store that counts its writes, an XML reader that knows two
-- documents, a shell without `uci`, a network and a clock. The children apply the theorems of each
-- part to it, and run the code on known inputs.
mod Primitives
mod Documents
mod Sessions
mod Devices
mod Daemons
mod Requests
mod Lua
mod Wakeups
mod Runs
mod Buses
mod Stores
mod Reboots
mod Programs
use Prim.Native.Nat.{ℕ, zero, suc}
use mathlib.Core.List.{List, [], ◌∷◌}
use cpe_acs_connector_tr.Base.{
  Bool, true, false, Option, none, some, if◌then◌else◌, Bytes, codes, equal, to_string,
}
use cpe_acs_connector_tr.Types.{ParameterValue, ParameterInfo, ParsedRpc, empty_rpc, default_type}
use cpe_acs_connector_tr.Transformer.{SetResult, TransformerApi}
use cpe_acs_connector_tr.Xml.{XmlNode, null, node, Libxml}
use cpe_acs_connector_tr.Http.{HttpResponse, HttpConfig}
use cpe_acs_connector_tr.Shell.{Shell}
use cpe_acs_connector_tr.HttpClient.{Curl, Request}
use cpe_acs_connector_tr.Download.{System}
use cpe_acs_connector_tr.Platform.{ConnectionRequestConfig, Platform}
use cpe_acs_connector_tr.Config.{DaemonConfig, default_config, info}
use cpe_acs_connector_tr.Daemon.{Daemon, Flags}

abbrev pub secret : Bytes
secret = codes "Device.ManagementServer.Password"

-- Reads of one secret parameter give its text only where secrets are revealed. The number of
-- writes is the value of `Device.Writes`.
abbrev api_values : ℕ → List Bytes → Bool → List ParameterValue
api_values s [] reveal = []
api_values s (path ∷ paths) reveal =
    if equal path (codes "Device.Writes")
    then record { name = path; value = to_string s; type = default_type } ∷ []
    else if equal path secret
    then record { name = path; value = if reveal then codes "hidden" else []; type = default_type }
      ∷ []
    else []

abbrev pub api : TransformerApi ℕ
api = record {
  get_parameter_values = λ s paths reveal. (api_values s paths reveal, []);
  set_parameter_values =
      λ s values key. (record { success = true; error = []; failed_parameter = [] }, suc s);
  get_parameter_names =
      λ s path. (record { name = codes "Device.Writes"; writable = true } ∷ [], []);
}

-- An envelope whose Body holds one empty element, the method.
abbrev pub document : Bytes → XmlNode
document method =
    node 0 true (codes "Envelope")
      (node 1 true (codes "Header") null (
        node 2 true (codes "Body") (node 3 true method (node 4 true (codes "ID") null null) null)
          null))
      null

abbrev read : Bytes → Option XmlNode
read text =
    if equal text (codes "informed")
    then some (document (codes "InformResponse"))
    else if equal text (codes "reboot")
    then some (document (codes "Reboot"))
    else none

abbrev pub xml : Libxml
xml = record {
  read_memory = read;
  get_content = λ p. some (codes "k");
  get_type_prop = λ p. none;
  str_equal = equal;
}

abbrev pub answer : ℕ → Bytes → HttpResponse
answer status body = record { status = status; body = body; error = [] }

abbrev pub clock : ℕ → Bytes
clock n = codes "2024-01-01T00:00:00Z"

abbrev pub reboot_rpc : ParsedRpc
reboot_rpc = record empty_rpc { method = codes "Reboot"; command_key = codes "k" }

-- There is no `uci`: a command that is only run succeeds, and counts as a write.
abbrev pub shell : Shell ℕ
shell = record {
  popen = λ s command. none;
  system = λ s command. (true, suc s);
  has_sbin_uci = false;
}

abbrev pub curl : Curl ℕ
curl = record {
  open_file = λ s path. (true, s);
  easy_init = λ s. true;
  perform = λ s request. (([], 404), s);
  remove_file = λ s path. s;
}

abbrev pub system : System ℕ
system = record {
  make_directory = λ s path. (none, s);
  now_iso = λ s. codes "2024-01-01T00:00:00Z";
  sleep = λ s n. s;
}

abbrev pub platform : Platform ℕ
platform = record {
  api = api;
  ready = true;
  shell = shell;
  xml = xml;
  curl = curl;
  system = system;
  clock = clock;
  getenv = λ name. none;
  can_listen = λ s config. true;
}

abbrev pub quiet : Flags
quiet = record {
  stop = false;
  connection_requested = false;
  reload_requested = false;
  reconnect_requested = false;
  inform_now_requested = false;
}

-- A daemon with a server to inform.
abbrev pub daemon : Daemon ℕ
daemon = record {
  config = record default_config { acs_url = codes "http://acs"; periodic_enable = false };
  level = info;
  connection_server = none;
  flags = quiet;
  state = codes "idle";
  device = 0;
}
