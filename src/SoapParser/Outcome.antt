-- ===== src/SoapParser/Outcome.antt =====
-- What a call of `parseRpc` returns, on each way out.
use cpe_acs_connector_tr.Base.{
  has_value, ap, List, ℕ, Bool, true, false, [], ◌∷◌, Option, none, some, ◌≡◌, ◌≢◌, refl, sym,
  arith, Bytes, codes, equal, equal_other,
}
use cpe_acs_connector_tr.Types.{ParsedRpc, empty_rpc}
use cpe_acs_connector_tr.Xml.{XmlNode, null, node, Libxml}
use cpe_acs_connector_tr.SoapParser.Search.{
  document_order, first_named, find_descendant-first_named,
}
use cpe_acs_connector_tr.SoapParser.{
  Parsed, rpc, error, find_descendant, first_element, read_arguments, read_method, read_body,
  read_root, parse_rpc, node_text, children,
}

abbrev node_name : XmlNode → Bytes
node_name null = []
node_name (node a e n c x) = n

-- The nodes of a list of siblings that are elements, in order: no text, no comment.
abbrev pub elements : XmlNode → List XmlNode
elements null = []
elements (node a true n c x) = node a true n c x ∷ elements x
elements (node a false n c x) = elements x

-- The first of them, or null.
abbrev first_of : List XmlNode → XmlNode
first_of [] = null
first_of (m ∷ later) = m

module _ (xml : Libxml) where
  first_element-elements : (x : XmlNode) → first_element xml x ≡ first_of (elements x)
  unfolding first_element
  first_element-elements null = refl
  first_element-elements (node a true n c x) = refl
  first_element-elements (node a false n c x) = first_element-elements x

  first_of-null : (x : XmlNode) → first_of (elements x) ≡ null → elements x ≡ []
  first_of-null null h = refl
  first_of-null (node a true n c x) h = cc
  first_of-null (node a false n c x) h = first_of-null x h

  first_of-node :
      (x : XmlNode) (a : ℕ) (e : Bool) (n : Bytes) (c y : XmlNode)
      → first_of (elements x) ≡ node a e n c y
      → (later : List XmlNode) × (elements x ≡ node a e n c y ∷ later)
  first_of-node null a e n c y h = cc
  first_of-node (node b true m d x) a e n c y h = (elements x, ap (λ z. z ∷ elements x) h)
  first_of-node (node b false m d x) a e n c y h = first_of-node x a e n c y h

  -- The members that no branch of the method sets keep their values.
  read_arguments-kept :
      (m : XmlNode) (r : ParsedRpc)
      → ((read_arguments xml m r).method ≡ r.method)
        × ((read_arguments xml m r).cwmp_id ≡ r.cwmp_id)
  unfolding read_arguments
  read_arguments-kept m r = ground arith

  read_arguments-download :
      (m : XmlNode) (r : ParsedRpc)
      → r.download ≡ none
      → has_value (read_arguments xml m r).download ≡ equal r.method (codes "Download")
  unfolding read_arguments codes equal
  read_arguments-download m r h = ground (
    arith,
    equal_other r.method (codes "GetParameterValues") (codes "Download") refl,
    equal_other r.method (codes "GetParameterNames") (codes "Download") refl,
    equal_other r.method (codes "SetParameterValues") (codes "Download") refl,
    equal_other r.method (codes "Reboot") (codes "Download") refl,
  )

  -- How a text is read. The Body is the first element of that name in document order, and the
  -- method is the first element in it.
  pub data Reads (text : Bytes) : Parsed → Type 0 where
    empty : text ≡ [] → Reads text (error (codes "Empty SOAP document"))
    malformed : text ≢ [] → xml.read_memory text ≡ none → Reads text (error (codes "Malformed XML"))
    no_body :
        (root : XmlNode)
        → xml.read_memory text ≡ some root
        → first_named xml (codes "Body") (document_order root) ≡ null
        → Reads text (error (codes "SOAP Body missing"))
    no_method :
        (root body : XmlNode)
        → xml.read_memory text ≡ some root
        → first_named xml (codes "Body") (document_order root) ≡ body
        → body ≢ null
        → elements (children body) ≡ []
        → Reads text (error (codes "SOAP method missing"))
    request :
        (root body : XmlNode) (a : ℕ) (e : Bool) (n : Bytes) (c x : XmlNode) (later : List XmlNode)
        (r : ParsedRpc)
        → xml.read_memory text ≡ some root
        → first_named xml (codes "Body") (document_order root) ≡ body
        → elements (children body) ≡ node a e n c x ∷ later
        → r.method ≡ n
        → has_value r.download ≡ equal n (codes "Download")
        → Reads text (rpc r)

  module _ (text : Bytes) (root : XmlNode) (readable : xml.read_memory text ≡ some root) where
    read_method-Reads :
        (body method : XmlNode)
        → first_named xml (codes "Body") (document_order root) ≡ body
        → body ≢ null
        → first_of (elements (children body)) ≡ method
        → Reads text (read_method xml root method)
    unfolding read_method
    read_method-Reads body null found there none_in =
        no_method root body readable found there (first_of-null (children body) none_in)
    read_method-Reads body (node a e n c x) found there first =
        let id = find_descendant xml (find_descendant xml root (codes "Header")) (codes "ID") in
        let r = record empty_rpc { method = n; cwmp_id = node_text xml id } in
        let (later, listed) = first_of-node (children body) a e n c x first in
        request root body a e n c x later _ readable found listed
          (read_arguments-kept (node a e n c x) r).0
          (read_arguments-download (node a e n c x) r refl)

    read_body-Reads :
        (body : XmlNode)
        → first_named xml (codes "Body") (document_order root) ≡ body
        → Reads text (read_body xml root body)
    unfolding read_body
    read_body-Reads null found = no_body root readable found
    read_body-Reads (node a e n c x) found =
        read_method-Reads (node a e n c x) (first_element xml c) found (λ h. cc)
          (sym (first_element-elements c))

  read_root-Reads :
      (text : Bytes) (o : Option XmlNode)
      → text ≢ []
      → xml.read_memory text ≡ o
      → Reads text (read_root xml o)
  unfolding read_root
  read_root-Reads text none full read = malformed full read
  read_root-Reads text (some root) full read =
      read_body-Reads text root read (find_descendant xml root (codes "Body"))
        (sym (find_descendant-first_named xml root (codes "Body")))

  -- `parseRpc` reports an empty text, a text that is no XML, a document with no Body and a Body
  -- with no element by the error for each; any other text gives a request whose method is the
  -- name of the Body's first element, with texts and other nodes in front passed over, and a
  -- download just where the method is Download.
  pub parse_rpc-Reads : (text : Bytes) → Reads text (parse_rpc xml text)
  unfolding parse_rpc
  parse_rpc-Reads [] = empty refl
  parse_rpc-Reads (b ∷ text) =
      read_root-Reads (b ∷ text) (xml.read_memory (b ∷ text)) (λ h. cc) refl
