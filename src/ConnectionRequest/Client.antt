-- ===== src/ConnectionRequest/Client.antt =====
-- A client of RFC 2617 that answers the server's challenge.
use mathlib.Core.List.{append-nil, append_assoc}
use cpe_acs_connector_tr.Base.{
  Bool, true, not, ◌&&◌, List, [], ◌∷◌, ◌++◌, some, ◌≡◌, refl, sym, ap, ◌∙◌, arith, ◌==◌, Bytes,
  codes, all, stream, equal,
}
use cpe_acs_connector_tr.ConnectionRequest.{
  digest_value, behind_first, directive_value, directive_of,
}
use cpe_acs_connector_tr.ConnectionRequest.Directives.{
  Part, joined, all_plain, all_fit, parts_behind, behind_first-joined, directive_value-quoted,
  directive_value-token, is_plain, is_token,
}

-- The directives of a header, in the order in which it gives them.
pub record Answer : Type 0 where
  pub username : Bytes
  pub realm : Bytes
  pub nonce : Bytes
  pub uri : Bytes
  pub cnonce : Bytes
  pub nc : Bytes
  pub qop : Bytes
  pub response : Bytes

-- The value of the header, in pieces.
abbrev pub pieces : Answer → List Bytes
pieces a =
    codes "Digest username=\""
    ∷ a.username
    ∷ codes "\", realm=\""
    ∷ a.realm
    ∷ codes "\", nonce=\""
    ∷ a.nonce
    ∷ codes "\", uri=\""
    ∷ a.uri
    ∷ codes "\", response=\""
    ∷ a.response
    ∷ codes "\", qop="
    ∷ a.qop
    ∷ codes ", nc="
    ∷ a.nc
    ∷ codes ", cnonce=\""
    ∷ a.cnonce
    ∷ codes "\""
    ∷ []

unfoldable pub authorization : Answer → Bytes
authorization a = stream (pieces a)

abbrev parts : Answer → List Part
parts a =
    ([], codes "Digest username")
    ∷ (b'"' ∷ a.username, codes "\", realm")
    ∷ (b'"' ∷ a.realm, codes "\", nonce")
    ∷ (b'"' ∷ a.nonce, codes "\", uri")
    ∷ (b'"' ∷ a.uri, codes "\", response")
    ∷ (b'"' ∷ a.response, codes "\", qop")
    ∷ (a.qop, codes ", nc")
    ∷ (a.nc, codes ", cnonce")
    ∷ []

abbrev last_part : Answer → Bytes
last_part a = b'"' ∷ (a.cnonce ++ b'"' ∷ [])

authorization-joined : (a : Answer) → authorization a ≡ joined (parts a) (last_part a)
unfolding authorization codes
authorization-joined a = simp append_assoc

-- A value in quotes that the reader can tell from the rest: no quote, no sign, no end of a line.
abbrev pub is_value : Bytes → Bool
is_value s = all (λ c. not (c == b'"') && (not (c == b'=') && not (c == 13))) s

-- A value without quotes: also no comma and no space.
abbrev pub is_bare : Bytes → Bool
is_bare s = is_value s && is_token s

-- The values can be told apart.
abbrev pub is_readable : Answer → Bool
is_readable a =
    is_value a.username
    && is_value a.realm
    && is_value a.nonce
    && is_value a.uri
    && is_value a.cnonce
    && is_bare a.nc
    && is_bare a.qop
    && is_value a.response

is_value-quote : (s : Bytes) → is_value s ≡ true → all (λ c. not (c == b'"')) s ≡ true
is_value-quote [] h = refl
is_value-quote (c ∷ s) h = ground (arith, is_value-quote s)

is_value-is_plain : (s t : Bytes) → is_value s ≡ true → is_plain t ≡ true → is_plain (s ++ t) ≡ true
is_value-is_plain [] t h k = k
is_value-is_plain (c ∷ s) t h k = ground (arith, is_value-is_plain s t)

parts-all_plain : (a : Answer) → is_readable a ≡ true → all_plain (parts a) ≡ true
unfolding codes
parts-all_plain a h = ground (
  arith,
  is_value-is_plain a.username (codes "\", realm"),
  is_value-is_plain a.realm (codes "\", nonce"),
  is_value-is_plain a.nonce (codes "\", uri"),
  is_value-is_plain a.uri (codes "\", response"),
  is_value-is_plain a.response (codes "\", qop"),
  is_value-is_plain a.qop (codes ", nc"),
  is_value-is_plain a.nc (codes ", cnonce"),
)

digest_value-authorization :
    (a : Answer) (key : Bytes) (rest : List Part)
    → is_readable a ≡ true
    → is_plain key ≡ true
    → all_fit key (parts a) ≡ true
    → parts_behind key (parts a) ≡ some rest
    → digest_value (authorization a) key ≡ directive_value (joined rest (last_part a))
unfolding digest_value
digest_value-authorization a key rest h plain fit found =
    ap (λ s. directive_of (behind_first (key ++ b'=' ∷ []) s)) (authorization-joined a)
    ∙ ap directive_of
        (behind_first-joined key (parts a) rest (last_part a) plain (parts-all_plain a h) fit found)

-- What the server reads of the header is what the client wrote.
pub record Reads (a : Answer) (auth : Bytes) : Type 0 where
  pub username : digest_value auth (codes "username") ≡ a.username
  pub realm : digest_value auth (codes "realm") ≡ a.realm
  pub nonce : digest_value auth (codes "nonce") ≡ a.nonce
  pub uri : digest_value auth (codes "uri") ≡ a.uri
  pub cnonce : digest_value auth (codes "cnonce") ≡ a.cnonce
  pub nc : digest_value auth (codes "nc") ≡ a.nc
  pub qop : digest_value auth (codes "qop") ≡ a.qop
  pub response : digest_value auth (codes "response") ≡ a.response

pub authorization-Reads : (a : Answer) → is_readable a ≡ true → Reads a (authorization a)
unfolding codes equal
authorization-Reads a h = record {
  username =
      digest_value-authorization a (codes "username") _ h refl refl refl
      ∙ directive_value-quoted a.username _ _ (is_value-quote a.username (ground arith));
  realm =
      digest_value-authorization a (codes "realm") _ h refl refl refl
      ∙ directive_value-quoted a.realm _ _ (is_value-quote a.realm (ground arith));
  nonce =
      digest_value-authorization a (codes "nonce") _ h refl refl refl
      ∙ directive_value-quoted a.nonce _ _ (is_value-quote a.nonce (ground arith));
  uri =
      digest_value-authorization a (codes "uri") _ h refl refl refl
      ∙ directive_value-quoted a.uri _ _ (is_value-quote a.uri (ground arith));
  cnonce =
      digest_value-authorization a (codes "cnonce") [] h refl refl refl
      ∙ ap directive_value (sym (append-nil (last_part a)))
      ∙ directive_value-quoted a.cnonce [] [] (is_value-quote a.cnonce (ground arith));
  nc =
      digest_value-authorization a (codes "nc") _ h refl refl refl
      ∙ directive_value-token a.nc _ _ (ground arith);
  qop =
      digest_value-authorization a (codes "qop") _ h refl refl refl
      ∙ directive_value-token a.qop _ _ (ground arith);
  response =
      digest_value-authorization a (codes "response") _ h refl refl refl
      ∙ directive_value-quoted a.response _ _ (is_value-quote a.response (ground arith));
}
