-- ===== src/Types.antt =====
-- The structs that the components pass to one another (include/tr069/Types.hpp).
use cpe_acs_connector_tr.Base.{ℕ, Bool, false, List, [], Option, none, Bytes, codes}

pub record ParameterValue : Type 0 where
  pub name : Bytes
  pub value : Bytes
  pub type : Bytes

pub record ParameterInfo : Type 0 where
  pub name : Bytes
  pub writable : Bool

pub record DownloadRequest : Type 0 where
  pub command_key : Bytes
  pub file_type : Bytes
  pub url : Bytes
  pub username : Bytes
  pub password : Bytes
  pub target_file_name : Bytes
  pub delay_seconds : ℕ  -- unsigned

-- `faultCode` is an int that the code only sets to 0 and 9010.
pub record TransferResult : Type 0 where
  pub command_key : Bytes
  pub fault_code : ℕ
  pub fault_string : Bytes
  pub start_time : Bytes
  pub complete_time : Bytes

pub record ParsedRpc : Type 0 where
  pub method : Bytes
  pub cwmp_id : Bytes
  pub parameter_names : List Bytes
  pub parameter_values : List ParameterValue
  pub parameter_path : Bytes
  pub next_level : Bool
  pub parameter_key : Bytes
  pub command_key : Bytes
  pub download : Option DownloadRequest

pub record RpcResult : Type 0 where
  pub response_xml : Bytes
  pub request_reboot : Bool
  pub reboot_command_key : Bytes
  pub download : Option DownloadRequest

-- The default members of the structs.
abbrev pub empty_rpc : ParsedRpc
empty_rpc = record {
  method = [];
  cwmp_id = [];
  parameter_names = [];
  parameter_values = [];
  parameter_path = [];
  next_level = false;
  parameter_key = [];
  command_key = [];
  download = none;
}

abbrev pub empty_result : RpcResult
empty_result = record {
  response_xml = [];
  request_reboot = false;
  reboot_command_key = [];
  download = none;
}

-- The type that a value has where the document names none.
abbrev pub default_type : Bytes
default_type = codes "xsd:string"
