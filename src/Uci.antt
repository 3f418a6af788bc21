-- ===== src/Uci.antt =====
-- The access to OpenWrt's configuration store (src/UciAdapter.cpp) over the shell. `mock` is the
-- member `mockMode_`.
pub mod Words
pub mod Quote
pub mod Values
pub mod Store
use cpe_acs_connector_tr.Base.{
  ℕ, Bool, true, false, not, ◌&&◌, ◌||◌, List, [], ◌∷◌, ◌++◌, Option, none, some, ◌==◌,
  if◌then◌else◌, Bytes, codes, equal, is_empty, is_alnum, all, length, c_str, stream, stoul,
  unsigned,
}
use cpe_acs_connector_tr.Shell.{Shell}

abbrev pub is_key_byte : ℕ → Bool
is_key_byte c =
    is_alnum c || c == b'_' || c == b'-' || c == b'.' || c == b'@' || c == b'[' || c == b']'

unfoldable pub valid_key : Bytes → Bool
valid_key key = not (is_empty key) && all is_key_byte key

-- The loop of `shellQuote` over the value. 39 is the single quote.
pub quote_bytes : Bytes → Bytes
quote_bytes [] = []
quote_bytes (c ∷ value) =
    (if c == 39 then 39 ∷ b'\\' ∷ 39 ∷ 39 ∷ [] else c ∷ []) ++ quote_bytes value

unfoldable pub shell_quote : Bytes → Bytes
unfolding quote_bytes
shell_quote value = 39 ∷ (quote_bytes value ++ 39 ∷ [])

abbrev is_newline : ℕ → Bool
is_newline c = c == 10 || c == 13

-- `while (!output.empty() && (output.back() == '\n' || …)) output.pop_back();`: a byte is dropped
-- if it is a newline and everything behind it was dropped.
unfoldable pub trim_newlines : Bytes → Bytes
trim_newlines [] = []
trim_newlines (c ∷ output) =
    let rest = trim_newlines output in if is_newline c && is_empty rest then [] else c ∷ rest

abbrev pub captured : Option (Bytes × Bool) → Option Bytes
unfolding trim_newlines
captured none = none
captured (some (output, exited)) = if exited then some (trim_newlines output) else none

abbrev pub is_true_text : Bytes → Bool
is_true_text t =
    equal t (codes "1") || equal t (codes "true") || equal t (codes "yes") || equal t (codes "on")

abbrev pub bool_of : Option Bytes → Bool → Bool
bool_of none fallback = fallback
bool_of (some t) fallback = is_true_text t

-- The whole value must be read; an exception gives the fallback.
abbrev parsed_or : ℕ → Option (ℕ × ℕ) → ℕ → ℕ
parsed_or size none fallback = fallback
parsed_or size (some (parsed, consumed)) fallback =
    if consumed == size then unsigned parsed else fallback

abbrev pub unsigned_of : Option Bytes → ℕ → ℕ
unsigned_of none fallback = fallback
unsigned_of (some t) fallback = parsed_or (length t) (stoul t) fallback

module _ {S : Type 0} (shell : Shell S) where
  unfoldable pub run_capture : S → Bytes → Option Bytes
  unfolding trim_newlines c_str
  run_capture s command = captured (shell.popen s (c_str command))

  unfoldable pub uci_binary : Bytes
  uci_binary = if shell.has_sbin_uci then codes "/sbin/uci" else codes "uci"

  unfoldable pub get_command : Bytes → Bytes
  unfolding uci_binary
  get_command key = stream (uci_binary ∷ codes " -q get " ∷ key ∷ codes " 2>/dev/null" ∷ [])

  unfoldable pub set_command : Bytes → Bytes → Bytes
  unfolding uci_binary
  set_command key value =
      stream (uci_binary ∷ codes " -q set " ∷ key ∷ codes "=" ∷ shell_quote value ∷ [])

  unfoldable pub commit_command : Bytes → Bytes
  unfolding uci_binary
  commit_command package_name = stream (uci_binary ∷ codes " -q commit " ∷ package_name ∷ [])

  unfoldable pub get : S → Bytes → Option Bytes
  unfolding run_capture get_command valid_key
  get s key = if not (valid_key key) then none else run_capture s (get_command key)

  unfoldable pub set : Bool → S → Bytes → Bytes → Bool × S
  unfolding set_command valid_key c_str
  set mock s key value =
      if not (valid_key key)
      then (false, s)
      else if mock
      then (true, s)
      else shell.system s (c_str (set_command key value))

  unfoldable pub commit : Bool → S → Bytes → Bool × S
  unfolding commit_command valid_key c_str
  commit mock s package_name =
      if not (valid_key package_name)
      then (false, s)
      else if mock
      then (true, s)
      else shell.system s (c_str (commit_command package_name))

  unfoldable pub get_bool : S → Bytes → Bool → Bool
  unfolding get
  get_bool s key fallback = bool_of (get s key) fallback

  unfoldable pub get_unsigned : S → Bytes → ℕ → ℕ
  unfolding get
  get_unsigned s key fallback = unsigned_of (get s key) fallback
