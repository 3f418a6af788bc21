-- ===== src/RpcHandler/Replies.antt =====
-- The handler over all RPCs: its answer, the store and what it asks of the daemon.
use cpe_acs_connector_tr.Base.{
  has_value, true, false, List, none, inl, inr, ◌≡◌, refl, arith, if◌then◌else◌, Bool-cases, Bytes,
  codes, equal, equal_other, is_empty, ◌&&◌,
}
use cpe_acs_connector_tr.Types.{ParsedRpc, ParameterValue}
use cpe_acs_connector_tr.Transformer.{TransformerApi}
use cpe_acs_connector_tr.SoapBuilder.{
  envelope, get_parameter_values_response, set_parameter_values_response,
  get_parameter_names_response, reboot_response, download_response, fault,
}
use cpe_acs_connector_tr.RpcHandler.{
  reply_id, handle, handle_get_values, handle_get_names, handle_set_values, handle_other, is_nil,
}

-- An envelope with the identifier and some body.
abbrev pub Carries : Bytes → Bytes → Type 0
Carries id response = (body : Bytes) × (response ≡ envelope id body)

module _ {S : Type 0} (api : TransformerApi S) where
  handle_get_values-Carries :
      (s : S) (id : Bytes) (rpc : ParsedRpc)
      → Carries id (handle_get_values api s id rpc).response_xml
  unfolding handle_get_values get_parameter_values_response fault
  handle_get_values-Carries s id rpc =
      elim (Bool-cases (is_nil (api.get_parameter_values s rpc.parameter_names false).1)) [
        | inl h ↦ rw h (_, refl)
        | inr h ↦ rw h (_, refl)
      ]

  handle_get_names-Carries :
      (s : S) (id : Bytes) (rpc : ParsedRpc)
      → Carries id (handle_get_names api s id rpc).response_xml
  unfolding handle_get_names get_parameter_names_response fault
  handle_get_names-Carries s id rpc =
      elim (Bool-cases (is_empty (api.get_parameter_names s rpc.parameter_path).1)) [
        | inl h ↦ rw h (_, refl)
        | inr h ↦ rw h (_, refl)
      ]

  handle_set_values-Carries :
      (s : S) (id : Bytes) (rpc : ParsedRpc)
      → Carries id (handle_set_values api s id rpc).0.response_xml
  unfolding handle_set_values set_parameter_values_response fault
  handle_set_values-Carries s id rpc =
      let r = (api.set_parameter_values s rpc.parameter_values rpc.parameter_key).0 in
      elim (Bool-cases r.success) [ inl h ↦ rw h (_, refl) | inr h ↦ rw h (_, refl) ]

  -- The three branches that the transformer has no part in.
  handle_other-Carries :
      (s : S) (rpc : ParsedRpc)
      → Carries (reply_id rpc) (handle_other api s (reply_id rpc) rpc).0.response_xml
  unfolding handle_other reboot_response download_response fault
  handle_other-Carries s rpc =
      let reboot = equal rpc.method (codes "Reboot") in
      let download = equal rpc.method (codes "Download") && has_value rpc.download in
      elim (Bool-cases reboot) [
        | inl h ↦ rw h (_, refl)
        | inr h ↦ elim (Bool-cases download) [
          | inl k ↦ rw (h, k) (_, refl)
          | inr k ↦ rw (h, k) (_, refl)
        ]
      ]

  -- Every RPC gets an answer, an envelope with the identifier of the request, or "0" if it had
  -- none.
  pub handle-Carries :
      (s : S) (rpc : ParsedRpc) → Carries (reply_id rpc) (handle api s rpc).0.response_xml
  unfolding handle
  handle-Carries s rpc =
      let id = reply_id rpc in
      elim (Bool-cases (equal rpc.method (codes "GetParameterValues"))) [
        | inl h ↦ rw h (handle_get_values-Carries s id rpc)
        | inr h ↦ elim (Bool-cases (equal rpc.method (codes "GetParameterNames"))) [
          | inl k ↦ rw (h, k) (handle_get_names-Carries s id rpc)
          | inr k ↦ elim (Bool-cases (equal rpc.method (codes "SetParameterValues"))) [
            | inl l ↦ rw (h, k, l) (handle_set_values-Carries s id rpc)
            | inr l ↦ rw (h, k, l) (handle_other-Carries s rpc)
          ]
        ]
      ]

  -- A reboot is asked for by Reboot alone, with the command key of the request; a download by
  -- Download alone, with the request's own download.
  pub handle-requests :
      (s : S) (rpc : ParsedRpc)
      → let result = (handle api s rpc).0 in
        (result.request_reboot ≡ equal rpc.method (codes "Reboot"))
        × (result.request_reboot ≡ true → result.reboot_command_key ≡ rpc.command_key)
        × (result.download ≡ (if equal rpc.method (codes "Download") then rpc.download else none))
  unfolding handle codes equal
  handle-requests s rpc =
      let m = rpc.method in
      let get = codes "GetParameterValues" in
      let names = codes "GetParameterNames" in
      let set = codes "SetParameterValues" in
      let reboot = codes "Reboot" in
      let download = codes "Download" in
      ground (
        arith,
        equal_other m get reboot refl,
        equal_other m names reboot refl,
        equal_other m set reboot refl,
        equal_other m get download refl,
        equal_other m names download refl,
        equal_other m set download refl,
        equal_other m reboot download refl,
      )

-- No reply shows a secret: two transformers that differ only in what they return when asked to
-- reveal secrets give the same reply to every RPC, and the same store.
pub handle_no_secrets :
    {S : Type 0} (api api' : TransformerApi S)
    → ((s : S) (paths : List Bytes)
        → api.get_parameter_values s paths false ≡ api'.get_parameter_values s paths false)
    → ((s : S) (values : List ParameterValue) (key : Bytes)
        → api.set_parameter_values s values key ≡ api'.set_parameter_values s values key)
    → ((s : S) (path : Bytes) → api.get_parameter_names s path ≡ api'.get_parameter_names s path)
    → (s : S) (rpc : ParsedRpc) → handle api s rpc ≡ handle api' s rpc
unfolding handle
handle_no_secrets api api' same_get same_set same_names s rpc = rw (
  same_get s rpc.parameter_names,
  same_set s rpc.parameter_values rpc.parameter_key,
  same_names s rpc.parameter_path,
)
