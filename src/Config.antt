-- ===== src/Config.antt =====
-- The daemon's configuration (src/Tr069Daemon.cpp, `readConfig` and the comparisons;
-- include/tr069/Tr069Daemon.hpp). Logging is left out, but not the level that is read for it.
pub mod Equality
pub mod Log
use Prim.Native.Nat.{max}
use cpe_acs_connector_tr.Base.{
  ℕ, Bool, true, false, not, ◌&&◌, ◌||◌, Option, none, some, ◌==◌, if◌then◌else◌, Bytes, codes,
  List, [], equal, is_empty, stoul, unsigned,
}
use cpe_acs_connector_tr.Types.{ParameterValue}
use cpe_acs_connector_tr.DataModel.{get_internal, value_or_text}
use cpe_acs_connector_tr.Uci
use cpe_acs_connector_tr.Platform.{ConnectionRequestConfig, Platform}

pub data LogLevel : Type 0 where
  debug info warn error : LogLevel

pub record DaemonConfig : Type 0 where
  pub enable_cwmp : Bool
  pub acs_url : Bytes
  pub acs_username : Bytes
  pub acs_password : Bytes
  pub ca_file : Bytes
  pub insecure_tls : Bool
  pub periodic_enable : Bool
  pub periodic_interval : ℕ  -- unsigned
  pub periodic_inform_time : Bytes
  pub upgrades_managed : Bool
  pub default_active_notification_throttle : ℕ  -- unsigned
  pub mock_mode : Bool
  pub bootstrap_done : Bool
  pub pending_reboot_event : Bool
  pub connection_request_enable : Bool
  pub retry_minimum_wait : ℕ  -- unsigned
  pub retry_multiplier : ℕ  -- unsigned
  pub connection_request : ConnectionRequestConfig

-- The members' initial values.
abbrev pub default_config : DaemonConfig
default_config = record {
  enable_cwmp = true;
  acs_url = codes "";
  acs_username = codes "";
  acs_password = codes "";
  ca_file = codes "";
  insecure_tls = false;
  periodic_enable = true;
  periodic_interval = 300;
  periodic_inform_time = codes "";
  upgrades_managed = false;
  default_active_notification_throttle = 0;
  mock_mode = true;
  bootstrap_done = false;
  pending_reboot_event = false;
  connection_request_enable = true;
  retry_minimum_wait = 5;
  retry_multiplier = 2000;
  connection_request = record {
    bind_address = codes "0.0.0.0";
    port = 7547;
    username = codes "";
    password = codes "";
    auth = codes "Digest";
    realm = codes "tr069d";
  };
}

-- `==` on bool.
abbrev pub same : Bool → Bool → Bool
same true b = b
same false b = not b

unfoldable pub connection_request_equal : ConnectionRequestConfig → ConnectionRequestConfig → Bool
connection_request_equal a b =
    equal a.bind_address b.bind_address
    && (a.port == b.port
        && (equal a.username b.username
            && (equal a.password b.password && (equal a.auth b.auth && equal a.realm b.realm))))

unfoldable pub runtime_config_equal : DaemonConfig → DaemonConfig → Bool
runtime_config_equal a b =
    same a.enable_cwmp b.enable_cwmp
    && (equal a.acs_url b.acs_url
        && (equal a.acs_username b.acs_username
            && (equal a.acs_password b.acs_password
                && (equal a.ca_file b.ca_file
                    && (same a.insecure_tls b.insecure_tls
                        && (same a.periodic_enable b.periodic_enable
                            && (a.periodic_interval == b.periodic_interval
                                && (equal a.periodic_inform_time b.periodic_inform_time
                                    && (same a.upgrades_managed b.upgrades_managed
                                        && (a.default_active_notification_throttle
                                              == b.default_active_notification_throttle
                                            && (same a.mock_mode b.mock_mode
                                                && (same a.connection_request_enable
                                                      b.connection_request_enable
                                                    && (a.retry_minimum_wait == b.retry_minimum_wait
                                                        && (a.retry_multiplier == b.retry_multiplier
                                                            && connection_request_equal
                                                            a.connection_request
                                                            b.connection_request))))))))))))))

unfoldable pub parse_log_level : Bytes → LogLevel
parse_log_level value =
    if equal value (codes "debug")
    then debug
    else if equal value (codes "warn")
    then warn
    else if equal value (codes "error")
    then error
    else info

abbrev or_text : Option Bytes → Bytes → Bytes
or_text none fallback = fallback
or_text (some t) fallback = t

-- `static_cast<unsigned>(std::stoul(…))`, and the fallback where that throws.
abbrev number_or : Option (ℕ × ℕ) → ℕ → ℕ
number_or none fallback = fallback
number_or (some (v, _)) fallback = unsigned v

-- As `number_or`, with `std::max(1U, …)` on what is read.
abbrev interval_or : Option (ℕ × ℕ) → ℕ → ℕ
interval_or none fallback = fallback
interval_or (some (v, _)) fallback = max 1 (unsigned v)

abbrev enabled_text : Option Bytes → Bool
enabled_text none = false
enabled_text (some t) =
    equal t (codes "1") || equal t (codes "true") || equal t (codes "yes") || equal t (codes "on")

module _ {S : Type 0} (p : Platform S) where
  unfoldable pub environment_enabled : Bytes → Bool
  environment_enabled name = enabled_text (p.getenv name)

  unfoldable pub internal_value : S → Bytes → Bytes → Bytes
  internal_value s path fallback = value_or_text (get_internal p.api s path) fallback

  abbrev pub uci_bool : S → Bytes → Bool → Bool
  uci_bool = Uci.get_bool p.shell

  abbrev uci_text : S → Bytes → Bytes → Bytes
  uci_text s key fallback = or_text (Uci.get p.shell s key) fallback

  unfoldable pub read_connection_request : S → ConnectionRequestConfig → ConnectionRequestConfig
  unfolding internal_value
  read_connection_request s target = record target {
    bind_address = uci_text s (codes "tr69.settings.bind") (codes "0.0.0.0");
    port = Uci.get_unsigned p.shell s (codes "tr69.settings.port") 7547;
    username =
        internal_value s (codes "Device.ManagementServer.ConnectionRequestUsername") (codes "cpe");
    password =
        internal_value s (codes "Device.ManagementServer.ConnectionRequestPassword")
          (codes "change-me");
    auth = uci_text s (codes "tr69.conn_request.auth") (codes "Digest");
  }

  -- What `readConfig` writes to its target if the transformer is ready.
  unfoldable pub read_config : S → DaemonConfig → DaemonConfig
  unfolding internal_value environment_enabled read_connection_request
  read_config s target = record target {
    enable_cwmp =
        equal (internal_value s (codes "Device.ManagementServer.EnableCWMP") (codes "true"))
          (codes "true");
    acs_url = internal_value s (codes "Device.ManagementServer.URL") [];
    acs_username = internal_value s (codes "Device.ManagementServer.Username") [];
    acs_password = internal_value s (codes "Device.ManagementServer.Password") [];
    ca_file = uci_text s (codes "tr69.settings.ssl_ca_cert_path") [];
    insecure_tls = not (uci_bool s (codes "tr69.settings.ssl_cn_verification") true);
    periodic_enable =
        equal
          (internal_value s (codes "Device.ManagementServer.PeriodicInformEnable") (codes "true"))
          (codes "true");
    periodic_interval =
        interval_or
          (stoul (
            internal_value s (codes "Device.ManagementServer.PeriodicInformInterval")
              (codes "300")))
          300;
    periodic_inform_time =
        internal_value s (codes "Device.ManagementServer.PeriodicInformTime")
          (codes "1970-01-01T00:00:00Z");
    upgrades_managed =
        equal (internal_value s (codes "Device.ManagementServer.UpgradesManaged") (codes "false"))
          (codes "true");
    default_active_notification_throttle =
        number_or
          (stoul (
            internal_value s (codes "Device.ManagementServer.DefaultActiveNotificationThrottle")
              (codes "0")))
          0;
    mock_mode =
        environment_enabled (codes "TR69_ALLOW_MOCK_REBOOT")
        && uci_bool s (codes "tr69.settings.mock_mode") false;
    bootstrap_done = uci_bool s (codes "tr69.settings.bootstrap_done") false;
    pending_reboot_event = uci_bool s (codes "tr69.settings.pending_reboot_event") false;
    connection_request_enable = uci_bool s (codes "tr69.conn_request.enable") true;
    connection_request = read_connection_request s target.connection_request;
    retry_minimum_wait =
        max 1 (Uci.get_unsigned p.shell s (codes "tr69.mgmt_srv.retry_minimum_wait") 5);
    retry_multiplier =
        max 1000 (Uci.get_unsigned p.shell s (codes "tr69.mgmt_srv.retry_multiplier") 2000);
  }

  -- The level that `readConfig` gives to the logger.
  unfoldable pub read_log_level : S → LogLevel
  unfolding parse_log_level
  read_log_level s =
      if uci_bool s (codes "tr69.settings.debug") false
      then debug
      else parse_log_level (uci_text s (codes "tr69.settings.log_level") (codes "info"))
