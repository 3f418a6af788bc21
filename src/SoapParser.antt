-- ===== src/SoapParser.antt =====
-- The reader of the ACS's SOAP documents (src/SoapParser.cpp), over libxml2.
pub mod Search
pub mod Outcome
use cpe_acs_connector_tr.Base.{
  ℕ, Bool, true, false, not, ◌&&◌, ◌||◌, List, [], ◌∷◌, ◌++◌, Option, none, some, if◌then◌else◌,
  Bytes, codes, equal, is_empty, stoul, unsigned,
}
use cpe_acs_connector_tr.Types.{ParameterValue, DownloadRequest, ParsedRpc, empty_rpc, default_type}
use cpe_acs_connector_tr.Xml.{XmlNode, null, node, Libxml}

-- A result, or the text that `error` is set to.
pub data Parsed : Type 0 where
  rpc : ParsedRpc → Parsed
  error : Bytes → Parsed

abbrev pub text_or : Bytes → Option Bytes → Bytes
text_or fallback none = fallback
text_or fallback (some t) = t

abbrev pub children : XmlNode → XmlNode
children null = null
children (node a e n c x) = c

-- `delay.empty() ? 0U : static_cast<unsigned>(std::stoul(delay))`, and 0 where that throws.
abbrev delay_value : Option (ℕ × ℕ) → ℕ
delay_value none = 0
delay_value (some (v, _)) = unsigned v

pub delay_seconds_of : Bytes → ℕ
delay_seconds_of delay = if is_empty delay then 0 else delay_value (stoul delay)

-- `nextLevel == "1" || nextLevel == "true"`.
abbrev is_true_text : Bytes → Bool
is_true_text t = equal t (codes "1") || equal t (codes "true")

module _ (xml : Libxml) where
  unfoldable pub node_text : XmlNode → Bytes
  node_text null = []
  node_text (node a e n c x) = text_or [] (xml.get_content (node a e n c x))

  -- The test `n->type == XML_ELEMENT_NODE && xmlStrEqual(n->name, localName)`.
  abbrev pub is_named : Bytes → Bool → Bytes → Bool
  is_named local_name e n = e && xml.str_equal n local_name

  -- The loop of `child` over `n->next`.
  unfoldable pub find_sibling : Bytes → XmlNode → XmlNode
  find_sibling local_name null = null
  find_sibling local_name (node a e n c x) =
      let rest = find_sibling local_name x in
      if is_named local_name e n then node a e n c x else rest

  unfoldable pub child : XmlNode → Bytes → XmlNode
  unfolding find_sibling
  child parent local_name = find_sibling local_name (children parent)

  -- A node, then those below it, then its later siblings.
  unfoldable pub find_descendant : XmlNode → Bytes → XmlNode
  find_descendant null local_name = null
  find_descendant (node a e n c x) local_name =
      let below = find_descendant c local_name in
      let beside = find_descendant x local_name in
      if is_named local_name e n
      then node a e n c x
      else (elim below [ null ↦ beside | node a' e' n' c' x' ↦ node a' e' n' c' x' ])

  unfoldable pub local_type : XmlNode → Bytes
  local_type null = default_type
  local_type (node a e n c x) = text_or default_type (xml.get_type_prop (node a e n c x))

  -- The first element among the nodes.
  unfoldable pub first_element : XmlNode → XmlNode
  first_element null = null
  first_element (node a e n c x) = let rest = first_element x in if e then node a e n c x else rest

  -- The loop over `ParameterNames`.
  unfoldable pub name_list : XmlNode → List Bytes
  unfolding node_text
  name_list null = []
  name_list (node a e n c x) =
      let rest = name_list x in
      if is_named (codes "string") e n then node_text (node a e n c x) ∷ rest else rest

  unfoldable pub value_of : XmlNode → ParameterValue
  unfolding node_text child local_type
  value_of item = record {
    name = node_text (child item (codes "Name"));
    value = node_text (child item (codes "Value"));
    type = local_type (child item (codes "Value"));
  }

  -- The loop over `ParameterList`.
  unfoldable pub value_list : XmlNode → List ParameterValue
  unfolding value_of
  value_list null = []
  value_list (node a e n c x) =
      let rest = value_list x in
      if not (is_named (codes "ParameterValueStruct") e n)
      then rest
      else value_of (node a e n c x) ∷ rest

  unfoldable pub download_of : XmlNode → DownloadRequest
  unfolding node_text child delay_seconds_of
  download_of method = record {
    command_key = node_text (child method (codes "CommandKey"));
    file_type = node_text (child method (codes "FileType"));
    url = node_text (child method (codes "URL"));
    username = node_text (child method (codes "Username"));
    password = node_text (child method (codes "Password"));
    target_file_name = node_text (child method (codes "TargetFileName"));
    delay_seconds = delay_seconds_of (node_text (child method (codes "DelaySeconds")));
  }

  -- The members that the method's own branch sets.
  unfoldable pub read_arguments : XmlNode → ParsedRpc → ParsedRpc
  unfolding name_list node_text child value_list download_of
  read_arguments method r =
      if equal r.method (codes "GetParameterValues")
      then record r {
        parameter_names = name_list (children (child method (codes "ParameterNames")));
      }
      else if equal r.method (codes "GetParameterNames")
      then record r {
        parameter_path = node_text (child method (codes "ParameterPath"));
        next_level = is_true_text (node_text (child method (codes "NextLevel")));
      }
      else if equal r.method (codes "SetParameterValues")
      then record r {
        parameter_values = value_list (children (child method (codes "ParameterList")));
        parameter_key = node_text (child method (codes "ParameterKey"));
      }
      else if equal r.method (codes "Reboot")
      then record r { command_key = node_text (child method (codes "CommandKey")) }
      else if equal r.method (codes "Download")
      then record r { download = some (download_of method) }
      else r

  -- From `method` on.
  unfoldable pub read_method : XmlNode → XmlNode → Parsed
  unfolding node_text find_descendant read_arguments
  read_method root null = error (codes "SOAP method missing")
  read_method root (node a e n c x) =
      let id = find_descendant (find_descendant root (codes "Header")) (codes "ID") in
      rpc
        (read_arguments (node a e n c x) (record empty_rpc { method = n; cwmp_id = node_text id }))

  -- From `body` on.
  unfoldable pub read_body : XmlNode → XmlNode → Parsed
  unfolding read_method first_element
  read_body root null = error (codes "SOAP Body missing")
  read_body root (node a e n c x) = read_method root (first_element c)

  abbrev read_root : Option XmlNode → Parsed
  unfolding read_body find_descendant
  read_root none = error (codes "Malformed XML")
  read_root (some root) = read_body root (find_descendant root (codes "Body"))

  unfoldable pub parse_rpc : Bytes → Parsed
  unfolding read_root read_body find_descendant
  parse_rpc text =
      if is_empty text
      then error (codes "Empty SOAP document")
      else read_root (xml.read_memory text)

  abbrev method_is : Bytes → Parsed → Bool
  method_is local_name (rpc r) = equal r.method local_name
  method_is local_name (error e) = false

  unfoldable pub is_method : Bytes → Bytes → Bool
  unfolding parse_rpc
  is_method text local_name = method_is local_name (parse_rpc text)
