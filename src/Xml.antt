-- ===== src/Xml.antt =====
-- The part of libxml2 that src/SoapParser.cpp uses. The library is not part of the repository: its
-- functions are an argument of the code, and its documents are a data type of their own.
use cpe_acs_connector_tr.Base.{ℕ, Bool, Option, Bytes}

-- An `xmlNode*`: null, or a node with what the code reads of it: whether `type` is
-- `XML_ELEMENT_NODE`, the `name`, `children` and `next`, and its address, by which the library's
-- other functions tell its nodes apart.
pub data XmlNode : Type 0 where
  null : XmlNode
  node : (address : ℕ) → (is_element : Bool) → (name : Bytes) → (children next : XmlNode) → XmlNode

pub record Libxml : Type 0 where
  -- `xmlReadMemory` and `xmlDocGetRootElement`: none if the text is no XML document.
  pub read_memory : Bytes → Option XmlNode
  -- `xmlNodeGetContent`, on a node that is not null.
  pub get_content : XmlNode → Option Bytes
  -- `xmlGetNsProp` of `type` in the schema instance's namespace.
  pub get_type_prop : XmlNode → Option Bytes
  -- `xmlStrEqual`.
  pub str_equal : Bytes → Bytes → Bool
