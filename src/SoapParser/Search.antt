-- ===== src/SoapParser/Search.antt =====
-- `findDescendant` against document order.
use cpe_acs_connector_tr.Base.{
  Bool, false, List, [], ◌∷◌, ◌++◌, ◌≡◌, refl, arith, if◌then◌else◌, Bytes,
}
use cpe_acs_connector_tr.Xml.{XmlNode, null, node, Libxml}
use cpe_acs_connector_tr.SoapParser.{is_named, find_descendant}

-- The nodes in document order: a node, those below it, then its later siblings and theirs.
abbrev pub document_order : XmlNode → List XmlNode
document_order null = []
document_order (node a e n c x) = node a e n c x ∷ (document_order c ++ document_order x)

module _ (xml : Libxml) where
  abbrev pub node_is_named : Bytes → XmlNode → Bool
  node_is_named local_name null = false
  node_is_named local_name (node a e n c x) = is_named xml local_name e n

  -- The first element of the list with the name, or null.
  abbrev pub first_named : Bytes → List XmlNode → XmlNode
  first_named local_name [] = null
  first_named local_name (p ∷ ps) =
      let rest = first_named local_name ps in if node_is_named local_name p then p else rest

  -- `a ? a : b` on pointers.
  abbrev or_else : XmlNode → XmlNode → XmlNode
  or_else null q = q
  or_else (node a e n c x) q = node a e n c x

  first_named-append :
      (local_name : Bytes) (c ps : List XmlNode)
      → first_named local_name (c ++ ps)
        ≡ or_else (first_named local_name c) (first_named local_name ps)
  first_named-append local_name [] ps = refl
  first_named-append local_name (null ∷ c) ps = first_named-append local_name c ps
  first_named-append local_name (node a e n d x ∷ c) ps =
      ground (arith, first_named-append local_name c ps)

  -- `findDescendant` returns the first element with the name in document order, over the node it
  -- is given, all that stands below it, and its later siblings with all below them; it returns
  -- null if none of these has the name.
  pub find_descendant-first_named :
      (p : XmlNode) (local_name : Bytes)
      → find_descendant xml p local_name ≡ first_named local_name (document_order p)
  unfolding find_descendant
  find_descendant-first_named null local_name = refl
  find_descendant-first_named (node a e n c x) local_name = ground (
    arith,
    find_descendant-first_named c local_name,
    find_descendant-first_named x local_name,
    first_named-append local_name (document_order c) (document_order x),
  )
