-- ===== src/RpcHandler.antt =====
-- The answer to one RPC of the ACS (src/cwmp/rpc_handler.cpp). Logging is left out, but for
-- that of SetParameterValues, which reads the values back.
pub mod Replies
use cpe_acs_connector_tr.Base.{
  has_value, ℕ, Bool, true, false, ◌&&◌, ◌||◌, ◌++◌, length, to_string, List, [], ◌∷◌, Option, none,
  some, map, if◌then◌else◌, Bytes, codes, equal, is_empty,
}
use cpe_acs_connector_tr.Types.{ParameterValue, ParsedRpc, RpcResult, empty_result}
use cpe_acs_connector_tr.Transformer.{SetResult, TransformerApi}
use cpe_acs_connector_tr.SoapBuilder.{
  get_parameter_values_response, set_parameter_values_response, get_parameter_names_response,
  reboot_response, download_response, fault,
}

abbrev is_nil {ℓ} : {A : Type ℓ} → List A → Bool
is_nil [] = true
is_nil (x ∷ xs) = false

-- `rpc.cwmpId.empty() ? "0" : rpc.cwmpId`.
unfoldable pub reply_id : ParsedRpc → Bytes
reply_id rpc = if is_empty rpc.cwmp_id then codes "0" else rpc.cwmp_id

abbrev pub unknown_time : Bytes
unknown_time = codes "0001-01-01T00:00:00Z"

abbrev is_secret : Bytes → Bool
is_secret name =
    equal name (codes "Device.ManagementServer.Password")
    || equal name (codes "Device.ManagementServer.ConnectionRequestPassword")

-- The line of the log on one value.
abbrev value_line : Bytes → ParameterValue → Bytes
value_line title v =
    title ++ (v.name ++ b'=' ∷ (if is_secret v.name then codes "<redacted>" else v.value))

abbrev committed_line : List ParameterValue → Bytes
committed_line values =
    codes "SetParameterValues committed " ++ (to_string (length values) ++ codes " parameter(s)")

module _ {S : Type 0} (api : TransformerApi S) where
  unfoldable pub handle_get_values : S → Bytes → ParsedRpc → RpcResult
  handle_get_values s id rpc =
      let (values, invalid) = api.get_parameter_values s rpc.parameter_names false in
      record empty_result {
        response_xml =
            if is_nil invalid
            then get_parameter_values_response id values
            else fault id 9005 (codes "Invalid parameter name") invalid;
      }

  unfoldable pub handle_get_names : S → Bytes → ParsedRpc → RpcResult
  handle_get_names s id rpc =
      let (names, error) = api.get_parameter_names s rpc.parameter_path in
      record empty_result {
        response_xml =
            if is_empty error
            then get_parameter_names_response id names
            else fault id 9005 error [];
      }

  -- The result, the store and the lines of the log. Where the values were taken, they are read back
  -- with the secrets, for the log alone.
  unfoldable pub handle_set_values : S → Bytes → ParsedRpc → RpcResult × S × List Bytes
  handle_set_values s id rpc =
      let (r, s') = api.set_parameter_values s rpc.parameter_values rpc.parameter_key in
      let failed = if is_empty r.failed_parameter then [] else r.failed_parameter ∷ [] in
      let names = map (λ (v : ParameterValue). v.name) rpc.parameter_values in
      let applied = (api.get_parameter_values s' names true).0 in
      let outcome =
        if r.success
        then committed_line rpc.parameter_values
          ∷ map (value_line (codes "ACS set applied: ")) applied
        else (codes "SetParameterValues transaction rejected: " ++ r.error) ∷ [] in
      (
        record empty_result {
          response_xml =
              if r.success
              then set_parameter_values_response id 0
              else fault id 9003 r.error failed;
        },
        s',
        map (value_line (codes "ACS set request: ")) rpc.parameter_values ++ outcome,
      )

  -- The branches of the ladder behind those three.
  unfoldable pub handle_other : S → Bytes → ParsedRpc → RpcResult × S
  handle_other s id rpc =
      if equal rpc.method (codes "Reboot")
      then (
        record empty_result {
          response_xml = reboot_response id;
          request_reboot = true;
          reboot_command_key = rpc.command_key;
        },
        s,
      )
      else if equal rpc.method (codes "Download") && has_value rpc.download
      then (
        record empty_result {
          response_xml = download_response id 1 unknown_time unknown_time;
          download = rpc.download;
        },
        s,
      )
      else (
        record empty_result { response_xml = fault id 9000 (codes "Method not supported") [] },
        s,
      )

  -- The ladder of `else if`.
  unfoldable pub handle : S → ParsedRpc → RpcResult × S
  unfolding handle_get_values handle_get_names handle_set_values handle_other reply_id
  handle s rpc =
      let id = reply_id rpc in
      if equal rpc.method (codes "GetParameterValues")
      then (handle_get_values s id rpc, s)
      else if equal rpc.method (codes "GetParameterNames")
      then (handle_get_names s id rpc, s)
      else if equal rpc.method (codes "SetParameterValues")
      then (let (r, s', _) = handle_set_values s id rpc in (r, s'))
      else handle_other s id rpc
