-- ===== src/SoapBuilder/Markup.antt =====
-- The markup of a document: what is left when character data and quoted attribute values go. An
-- escaped value, a number and a time leave nothing.
use mathlib.Core.List.{append_assoc}
use cpe_acs_connector_tr.Base.{
  ℕ, Bool, true, not, ◌&&◌, [], ◌∷◌, ◌++◌, ◌≡◌, refl, arith, ◌==◌, if◌then◌else◌, Bytes, codes, all,
  is_digit, to_string, to_string-is_digit,
}
use cpe_acs_connector_tr.SoapBuilder.{escape_byte, escape}

-- Where a scanner of the document stands.
pub data Mode : Type 0 where
  text tag quoted : Mode

pub step : Mode → ℕ → Mode
step text c = if c == b'<' then tag else text
step tag c = if c == b'>' then text else if c == b'"' then quoted else tag
step quoted c = if c == b'"' then tag else quoted

pub is_markup : Mode → ℕ → Bool
is_markup text c = c == b'<'
is_markup tag c = true
is_markup quoted c = c == b'"'

unfoldable pub skeleton : Mode → Bytes → Bytes
unfolding step is_markup
skeleton m [] = []
skeleton m (c ∷ cs) = let rest = skeleton (step m c) cs in if is_markup m c then c ∷ rest else rest

-- The two modes in which the scanner drops what it reads.
pub data IsData : Mode → Type 0 where
  text_data : IsData text
  quoted_data : IsData quoted

-- Bytes that XML does not reserve.
abbrev pub is_plain : ℕ → Bool
is_plain c = not (c == b'<') && not (c == b'"')

pub skeleton-plain :
    {m : Mode} (p rest : Bytes)
    → IsData m
    → all is_plain p ≡ true
    → skeleton m (p ++ rest) ≡ skeleton m rest
unfolding skeleton
skeleton-plain [] rest d h = refl
skeleton-plain (c ∷ p) rest text_data h = ground (arith, skeleton-plain p rest text_data)
skeleton-plain (c ∷ p) rest quoted_data h = ground (arith, skeleton-plain p rest quoted_data)

pub all-is_plain-append :
    (p q : Bytes) → all is_plain p ≡ true → all is_plain q ≡ true → all is_plain (p ++ q) ≡ true
all-is_plain-append [] q h k = k
all-is_plain-append (c ∷ p) q h k = ground (arith, all-is_plain-append p q)

escape_byte-is_plain : (c : ℕ) → all is_plain (escape_byte c) ≡ true
unfolding escape_byte codes
escape_byte-is_plain c = ground arith

pub escape-is_plain : (v : Bytes) → all is_plain (escape v) ≡ true
unfolding escape
escape-is_plain [] = refl
escape-is_plain (c ∷ v) =
    all-is_plain-append (escape_byte c) (escape v) (escape_byte-is_plain c) (escape-is_plain v)

digits-is_plain : (p : Bytes) → all is_digit p ≡ true → all is_plain p ≡ true
digits-is_plain [] h = refl
digits-is_plain (c ∷ p) h = ground (arith, digits-is_plain p)

pub to_string-is_plain : (n : ℕ) → all is_plain (to_string n) ≡ true
to_string-is_plain n = digits-is_plain (to_string n) (to_string-is_digit n)

pub skeleton-escape_text : (v rest : Bytes) → skeleton text (escape v ++ rest) ≡ skeleton text rest
skeleton-escape_text v rest = skeleton-plain (escape v) rest text_data (escape-is_plain v)

pub skeleton-escape_quoted :
    (v rest : Bytes) → skeleton quoted (escape v ++ rest) ≡ skeleton quoted rest
skeleton-escape_quoted v rest = skeleton-plain (escape v) rest quoted_data (escape-is_plain v)

pub skeleton-to_string_text :
    (n : ℕ) (rest : Bytes) → skeleton text (to_string n ++ rest) ≡ skeleton text rest
skeleton-to_string_text n rest = skeleton-plain (to_string n) rest text_data (to_string-is_plain n)

pub skeleton-to_string_quoted :
    (n : ℕ) (rest : Bytes) → skeleton quoted (to_string n ++ rest) ≡ skeleton quoted rest
skeleton-to_string_quoted n rest =
    skeleton-plain (to_string n) rest quoted_data (to_string-is_plain n)

pub skeleton-info_flag :
    (b : Bool) (rest : Bytes)
    → skeleton text ((if b then codes "1" else codes "0") ++ rest) ≡ skeleton text rest
unfolding skeleton codes
skeleton-info_flag b rest = ground arith

pub ruleset silent = (
  skeleton-escape_text, skeleton-escape_quoted, skeleton-to_string_text, skeleton-to_string_quoted,
  append_assoc,
)
