-- ===== src/ConnectionRequest.antt =====
-- The server for Connection Requests (src/ConnectionRequestServer.cpp), between `recv` and `send`:
-- the constructor, the reader of headers and the digest authorization; Reply: the replies. A position in a text is the text from there on.
pub mod Reply
pub mod Authentic
pub mod Headers
pub mod Directives
pub mod Client
pub mod Accepted
pub mod Listener
pub mod Serving
pub mod Cutting
pub mod Reading
pub mod Raised
pub mod Lifecycle
pub mod Restart
use mathlib.Core.Option
use cpe_acs_connector_tr.Base.{
  c_str, has_value, ℕ, Bool, true, false, not, ◌||◌, ◌&&◌, List, [], ◌∷◌, ◌++◌, Option, none, some,
  map, ◌==◌, if◌then◌else◌, Bytes, codes, equal, is_empty, stream, to_lower, to_string,
}
use cpe_acs_connector_tr.Platform.{ConnectionRequestConfig}
use cpe_acs_connector_tr.Md5.{md5_hex}

-- The members `config_` and `nonce_`.
pub record Server : Type 0 where
  pub config : ConnectionRequestConfig
  pub nonce : Bytes

-- The constructor. `now` is the count of the steady clock and `random` what the device gives.
unfoldable pub new_server : ConnectionRequestConfig → (now random : ℕ) → Server
new_server config now random = record {
  config = config;
  nonce = md5_hex (stream (config.realm ∷ to_string now ∷ to_string random ∷ []));
}

-- What stands in front of the first `c`, and what follows it.
unfoldable pub split_at : ℕ → Bytes → Option (Bytes × Bytes)
split_at c [] = none
split_at c (d ∷ s) =
    let rest = split_at c s in
    if d == c then some ([], s) else Option.map (λ (before, behind). (d ∷ before, behind)) rest

-- The same for the first "\r\n".
unfoldable pub split_line : Bytes → Option (Bytes × Bytes)
split_line [] = none
split_line (c ∷ []) = none
split_line (c ∷ d ∷ s) =
    let rest = split_line (d ∷ s) in
    if c == 13 && d == 10
    then some ([], s)
    else Option.map (λ (before, behind). (c ∷ before, behind)) rest

-- What follows `pattern` where the text starts with it.
unfoldable pub behind_prefix : Bytes → Bytes → Option Bytes
behind_prefix [] s = some s
behind_prefix (p ∷ pattern) [] = none
behind_prefix (p ∷ pattern) (c ∷ s) =
    let rest = behind_prefix pattern s in if c == p then rest else none

abbrev or_later : Option Bytes → Option Bytes → Option Bytes
or_later (some s) later = some s
or_later none later = later

-- `find(pattern)`, and the text behind it.
unfoldable pub behind_first : Bytes → Bytes → Option Bytes
unfolding behind_prefix
behind_first pattern [] = behind_prefix pattern []
behind_first pattern (c ∷ s) = or_later (behind_prefix pattern (c ∷ s)) (behind_first pattern s)

-- `strcasecmp(…) == 0`.
unfoldable pub same_name : Bytes → Bytes → Bool
unfolding c_str
same_name a b = equal (map to_lower (c_str a)) (map to_lower (c_str b))

pub skip_blanks : Bytes → Bytes
skip_blanks [] = []
skip_blanks (c ∷ s) = if c == b' ' || c == 9 then skip_blanks s else c ∷ s

-- The value where the line is a header with this name.
unfoldable pub line_value : Bytes → Bytes → Option Bytes
unfolding split_at same_name skip_blanks
line_value name line = elim (split_at b':' line) [
  | none ↦ none
  | some (header_name, value) ↦
      if same_name header_name name then some (skip_blanks value) else none
]

abbrev pub value_or : Option Bytes → Bytes → Bytes
value_or none later = later
value_or (some v) later = v

-- The loop over the lines, on fuel: each line is shorter than the text it is cut from.
unfoldable pub find_header : Bytes → Bytes → Bytes → Bytes
unfolding line_value split_line
find_header name [] s = []
find_header name (_ ∷ fuel) s = elim (split_line s) [
  | none ↦ []
  | some ([], rest) ↦ []
  | some (c ∷ line, rest) ↦ value_or (line_value name (c ∷ line)) (find_header name fuel rest)
]

unfoldable pub header_value : Bytes → Bytes → Bytes
unfolding find_header split_line
header_value request name = elim (split_line request) [
  | none ↦ []
  | some (line, rest) ↦ find_header name request rest
]

abbrev pub or_all : Option (Bytes × Bytes) → Bytes → Bytes
or_all none s = s
or_all (some (before, behind)) s = before

-- `pop_back` while the last byte is a space.
pub trim_spaces : Bytes → Bytes
trim_spaces [] = []
trim_spaces (c ∷ s) =
    let rest = trim_spaces s in if c == b' ' && is_empty rest then [] else c ∷ rest

-- From the `=` on.
unfoldable pub directive_value : Bytes → Bytes
unfolding split_at trim_spaces
directive_value [] = []
directive_value (c ∷ s) =
    if c == b'"'
    then or_all (split_at b'"' s) s
    else trim_spaces (or_all (split_at b',' (c ∷ s)) (c ∷ s))

abbrev directive_of : Option Bytes → Bytes
directive_of none = []
directive_of (some s) = directive_value s

unfoldable pub digest_value : Bytes → Bytes → Bytes
unfolding behind_first directive_value
digest_value auth key = directive_of (behind_first (key ++ b'=' ∷ []) auth)

-- The digest that is expected, with the directives of the header.
unfoldable pub expected : Server → Bytes → Bytes → Bytes
unfolding digest_value
expected server auth method =
    let colon = codes ":" in
    let uri = digest_value auth (codes "uri") in
    let nonce = digest_value auth (codes "nonce") in
    let qop = digest_value auth (codes "qop") in
    let ha1 = md5_hex (
      stream (
        digest_value auth (codes "username")
        ∷ colon
        ∷ digest_value auth (codes "realm")
        ∷ colon
        ∷ server.config.password
        ∷ [])) in
    let ha2 = md5_hex (stream (method ∷ colon ∷ uri ∷ [])) in
    if is_empty qop
    then md5_hex (stream (ha1 ∷ colon ∷ nonce ∷ colon ∷ ha2 ∷ []))
    else md5_hex (
        stream (
          ha1
          ∷ colon
          ∷ nonce
          ∷ colon
          ∷ digest_value auth (codes "nc")
          ∷ colon
          ∷ digest_value auth (codes "cnonce")
          ∷ colon
          ∷ qop
          ∷ colon
          ∷ ha2
          ∷ []))

abbrev pub needs_none : Server → Bool
needs_none server = equal (map to_lower server.config.auth) (codes "none")

-- From `auth` on.
unfoldable pub digest_authorized : Server → Bytes → Bytes → Bool
unfolding behind_prefix digest_value expected
digest_authorized server auth method =
    if not (has_value (behind_prefix (codes "Digest ") auth))
    then false
    else if not (equal (digest_value auth (codes "username")) server.config.username)
        || not (equal (digest_value auth (codes "realm")) server.config.realm)
        || not (equal (digest_value auth (codes "nonce")) server.nonce)
        || is_empty (digest_value auth (codes "uri"))
    then false
    else equal (digest_value auth (codes "response")) (expected server auth method)

unfoldable pub authorized : Server → Bytes → Bytes → Bool
unfolding header_value digest_authorized
authorized server request method =
    if needs_none server
    then true
    else digest_authorized server (header_value request (codes "Authorization")) method
