-- ===== src/ConnectionRequest/Headers.antt =====
-- The reader of headers against the requests that clients send.
use cpe_acs_connector_tr.Base.{
  ℕ, ◌≤◌, Bool, true, false, not, ◌||◌, ◌&&◌, List, [], ◌∷◌, ◌++◌, none, some, ◌≡◌, refl, ap, ◌∙◌,
  arith, ◌==◌, if◌then◌else◌, inl, inr, Bool-cases, Bytes, all, length, length-append,
}
use cpe_acs_connector_tr.ConnectionRequest.{
  split_line, same_name, skip_blanks, line_value, value_or, find_header, header_value,
}
use cpe_acs_connector_tr.ConnectionRequest.Authentic.{split_at-append}

pub record Field : Type 0 where
  pub name : Bytes
  pub value : Bytes

-- A line holds no carriage return.
abbrev pub is_line : Bytes → Bool
is_line s = all (λ c. not (c == 13)) s

abbrev starts_blank : Bytes → Bool
starts_blank [] = false
starts_blank (c ∷ s) = c == b' ' || c == 9

-- The name holds no colon, and the value starts with no blank.
abbrev pub is_field : Field → Bool
is_field f =
    is_line f.name
    && (all (λ c. not (c == b':')) f.name && (is_line f.value && not (starts_blank f.value)))

abbrev pub all_fields : List Field → Bool
all_fields [] = true
all_fields (f ∷ fs) = is_field f && all_fields fs

abbrev field_line : Field → Bytes
field_line f = f.name ++ (b':' ∷ b' ' ∷ f.value)

-- The lines of the headers, with the empty line behind them.
abbrev pub header_lines : List Field → Bytes
header_lines [] = 13 ∷ 10 ∷ []
header_lines (f ∷ fs) = field_line f ++ (13 ∷ 10 ∷ header_lines fs)

abbrev pub request_text : Bytes → List Field → Bytes
request_text line fs = line ++ (13 ∷ 10 ∷ header_lines fs)

-- The value of the first header with the name, in any case; empty if there is none.
abbrev pub lookup : List Field → Bytes → Bytes
lookup [] name = []
lookup (f ∷ fs) name = if same_name f.name name then f.value else lookup fs name

pub split_line-append :
    (s rest : Bytes) → is_line s ≡ true → split_line (s ++ (13 ∷ 10 ∷ rest)) ≡ some (s, rest)
unfolding split_line
split_line-append [] rest h = refl
split_line-append (c ∷ []) rest h = ground arith
split_line-append (c ∷ d ∷ s) rest h = ground (arith, split_line-append (d ∷ s) rest)

skip_blanks-kept : (s : Bytes) → starts_blank s ≡ false → skip_blanks s ≡ s
unfolding skip_blanks
skip_blanks-kept [] h = refl
skip_blanks-kept (c ∷ s) h = ground arith

line_value-field_line :
    (f : Field) (name : Bytes)
    → is_field f ≡ true
    → line_value name (field_line f) ≡ (if same_name f.name name then some f.value else none)
unfolding line_value skip_blanks
line_value-field_line f name h =
    rw (line_value, split_at-append b':' f.name (b' ' ∷ f.value) (ground arith))
      (rw (skip_blanks-kept f.value (ground arith)) refl)

pub is_line-append : (s t : Bytes) → is_line s ≡ true → is_line t ≡ true → is_line (s ++ t) ≡ true
is_line-append [] t h k = k
is_line-append (c ∷ s) t h k = ground (arith, is_line-append s t)

find_header_line :
    (name : Bytes) (x : ℕ) (fuel : Bytes) (c : ℕ) (line s rest : Bytes)
    → split_line s ≡ some (c ∷ line, rest)
    → find_header name (x ∷ fuel) s
      ≡ value_or (line_value name (c ∷ line)) (find_header name fuel rest)
unfolding find_header
find_header_line name x fuel c line s rest h = rw (find_header, h) refl

find_header_cut :
    (name : Bytes) (x : ℕ) (fuel : Bytes) (f : Field) (rest : Bytes)
    → is_field f ≡ true
    → find_header name (x ∷ fuel) (field_line f ++ (13 ∷ 10 ∷ rest))
      ≡ value_or (line_value name (field_line f)) (find_header name fuel rest)
find_header_cut name x fuel f rest h =
    let cut =
      split_line-append (field_line f) rest
        (is_line-append f.name (b':' ∷ b' ' ∷ f.value) (ground arith) (ground arith)) in
    go f.name (field_line f) refl cut
  where
    go :
        (n line : Bytes)
        → line ≡ n ++ (b':' ∷ b' ' ∷ f.value)
        → split_line (line ++ (13 ∷ 10 ∷ rest)) ≡ some (line, rest)
        → find_header name (x ∷ fuel) (line ++ (13 ∷ 10 ∷ rest))
          ≡ value_or (line_value name line) (find_header name fuel rest)
    go [] [] e k = cc
    go (b ∷ n) [] e k = cc
    go n (c ∷ line) e k =
        find_header_line name x fuel c line ((c ∷ line) ++ (13 ∷ 10 ∷ rest)) rest k

find_header-lookup :
    (name fuel : Bytes) (fs : List Field)
    → all_fields fs ≡ true
    → length fs ≤ length fuel
    → find_header name fuel (header_lines fs) ≡ lookup fs name
unfolding find_header split_line
find_header-lookup name [] [] h enough = refl
find_header-lookup name (x ∷ fuel) [] h enough = refl
find_header-lookup name [] (f ∷ fs) h enough = elim enough [ ]
find_header-lookup name (x ∷ fuel) (f ∷ fs) h enough =
    find_header_cut name x fuel f (header_lines fs) (ground arith)
    ∙ ap (λ v. value_or v (find_header name fuel (header_lines fs)))
        (line_value-field_line f name (ground arith))
    ∙ (elim (Bool-cases (same_name f.name name)) [
      | inl e ↦ rw e refl
      | inr e ↦ rw e (find_header-lookup name fuel fs (ground arith) (omega arith))
    ])

length-header_lines : (fs : List Field) → length fs ≤ length (header_lines fs)
length-header_lines [] = omega arith
length-header_lines (f ∷ fs) =
    rw (length-append (field_line f) (13 ∷ 10 ∷ header_lines fs))
      (omega (arith, length-header_lines fs))

-- In a request whose lines hold no carriage return, whose names hold no colon and whose values
-- start with no blank, `headerValue` finds the value of the first header with the name, in any
-- case, and the empty text if there is none; the loop reads every header, however many there are.
pub header_value-lookup :
    (line : Bytes) (fs : List Field) (name : Bytes)
    → is_line line ≡ true
    → all_fields fs ≡ true
    → header_value (request_text line fs) name ≡ lookup fs name
unfolding header_value
header_value-lookup line fs name h k =
    rw (header_value, split_line-append line (header_lines fs) h)
      (find_header-lookup name (request_text line fs) fs k (
        rw (length-append line (13 ∷ 10 ∷ header_lines fs))
          (omega (arith, length-header_lines fs))))
