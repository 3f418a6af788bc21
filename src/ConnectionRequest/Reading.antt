-- ===== src/ConnectionRequest/Reading.antt =====
-- What a directive of a header is, said without the reader of src/ConnectionRequestServer.cpp, and
-- that the reader finds just that.
use mathlib.Core.Path.{subst}
use cpe_acs_connector_tr.Base.{
  ◌≤◌, Bool, true, false, [], ◌∷◌, ◌++◌, Option, none, some, ◌≡◌, ◌⊎◌, ◌↔◌, refl, sym, ap, ◌∙◌,
  arith, ◌==◌, inl, inr, Bool-cases, Bytes, all, length, has_value,
}
use cpe_acs_connector_tr.ConnectionRequest.Cutting.{
  Ends, lacks, ends_blank, until, until-IsCut, until-lacks, trim_spaces-IsTrimmed,
  trim_spaces-ends_blank,
}
use cpe_acs_connector_tr.ConnectionRequest.{
  split_at, trim_spaces, behind_prefix, behind_first, or_later, directive_value, directive_of,
  digest_value,
}

-- The text is cut at the first place where the pattern stands.
abbrev pub IsFirst : (pattern auth before rest : Bytes) → Type 0
IsFirst pattern auth before rest =
    (auth ≡ before ++ (pattern ++ rest))
    × ((b r : Bytes) → auth ≡ b ++ (pattern ++ r) → length before ≤ length b)

abbrev pub starts_quoted : Bytes → Bool
starts_quoted [] = false
starts_quoted (c ∷ s) = c == b'"'

-- A value in quotes ends at the next quote or at the end of the text.
abbrev pub IsQuoted : (rest value : Bytes) → Type 0
IsQuoted rest value =
    (t : Bytes) × (rest ≡ b'"' ∷ (value ++ t)) × (lacks b'"' value ≡ true) × Ends b'"' t

-- A value without quotes ends at the next comma or at the end of the text, less the spaces there.
abbrev pub IsBare : (rest value : Bytes) → Type 0
IsBare rest value =
    (blanks t : Bytes) × (starts_quoted rest ≡ false)
    × (rest ≡ (value ++ blanks) ++ t)
    × (lacks b',' (value ++ blanks) ≡ true)
    × Ends b',' t
    × (all (λ c. c == b' ') blanks ≡ true)
    × (ends_blank value ≡ false)

-- The value of a directive: that behind the first `key=` of the header, wherever it stands, also
-- inside another name, and empty where there is none.
abbrev pub IsDirective : (auth key value : Bytes) → Type 0
IsDirective auth key value =
    ((before rest : Bytes) × IsFirst (key ++ b'=' ∷ []) auth before rest
      × (IsQuoted rest value ⊎ IsBare rest value))
    ⊎ (((b r : Bytes) → auth ≡ b ++ ((key ++ b'=' ∷ []) ++ r) → ⊥) × (value ≡ []))

pub behind_prefix-append : (p s : Bytes) → behind_prefix p (p ++ s) ≡ some s
unfolding behind_prefix
behind_prefix-append [] s = refl
behind_prefix-append (c ∷ p) s = ground (arith, behind_prefix-append p s)

behind_prefix-some : (p s rest : Bytes) → behind_prefix p s ≡ some rest → s ≡ p ++ rest
unfolding behind_prefix
behind_prefix-some [] s rest h = cc
behind_prefix-some (c ∷ p) [] rest h = cc
behind_prefix-some (c ∷ p) (d ∷ s) rest h = elim (Bool-cases (d == c)) [
  | inl e ↦
      let same : d ≡ c = ground arith in
      let tail = behind_prefix-some p s rest (rw e at h) in cc (same, tail)
  | inr e ↦ let none_here = rw e at h in cc
]

pub behind_prefix-has_value :
    (p s : Bytes) → has_value (behind_prefix p s) ≡ true → (rest : Bytes) × (s ≡ p ++ rest)
behind_prefix-has_value p s h = go (behind_prefix p s) refl h
  where
    go :
        (o : Option Bytes)
        → behind_prefix p s ≡ o
        → has_value o ≡ true
        → (rest : Bytes) × (s ≡ p ++ rest)
    go none e k = cc
    go (some rest) e k = (rest, behind_prefix-some p s rest e)

-- What the search for the pattern gives.
abbrev Found : (pattern auth : Bytes) → Option Bytes → Type 0
Found pattern auth none = (b r : Bytes) → auth ≡ b ++ (pattern ++ r) → ⊥
Found pattern auth (some rest) = (before : Bytes) × IsFirst pattern auth before rest

abbrev Prefix : (pattern s : Bytes) → Option Bytes → Type 0
Prefix pattern s none = (r : Bytes) → s ≡ pattern ++ r → ⊥
Prefix pattern s (some rest) = s ≡ pattern ++ rest

behind_prefix-Prefix : (p s : Bytes) → Prefix p s (behind_prefix p s)
behind_prefix-Prefix p s = go (behind_prefix p s) refl
  where
    go : (o : Option Bytes) → behind_prefix p s ≡ o → Prefix p s o
    go none h = λ r e. cc (h, e, behind_prefix-append p r)
    go (some rest) h = behind_prefix-some p s rest h

behind_first-Found : (p auth : Bytes) → Found p auth (behind_first p auth)
unfolding behind_first
behind_first-Found p [] = go (behind_prefix p []) (behind_prefix-Prefix p [])
  where
    go : (o : Option Bytes) → Prefix p [] o → Found p [] o
    go none h = nowhere
      where
        nowhere : (b r : Bytes) → [] ≡ b ++ (p ++ r) → ⊥
        nowhere [] r e = h r e
        nowhere (d ∷ b) r e = cc
    go (some rest) h = ([], (h, λ b r e. omega arith))
behind_first-Found p (c ∷ auth) =
    go (behind_prefix p (c ∷ auth)) (behind_first p auth) (behind_prefix-Prefix p (c ∷ auth))
      (behind_first-Found p auth)
  where
    go :
        (o later : Option Bytes)
        → Prefix p (c ∷ auth) o
        → Found p auth later
        → Found p (c ∷ auth) (or_later o later)
    go (some rest) later h k = ([], (h, λ b r e. omega arith))
    go none none h k = nowhere
      where
        nowhere : (b r : Bytes) → c ∷ auth ≡ b ++ (p ++ r) → ⊥
        nowhere [] r e = h r e
        nowhere (d ∷ b) r e = let tail : auth ≡ b ++ (p ++ r) = cc in k b r tail
    go none (some rest) h (before, (cut, first)) = (c ∷ before, (ap (λ s. c ∷ s) cut, later_first))
      where
        later_first : (b r : Bytes) → c ∷ auth ≡ b ++ (p ++ r) → length (c ∷ before) ≤ length b
        later_first [] r e = absurd (h r e)
        later_first (d ∷ b) r e =
            let tail : auth ≡ b ++ (p ++ r) = cc in omega (arith, first b r tail)

append-same : (a b x y : Bytes) → length a ≡ length b → a ++ x ≡ b ++ y → x ≡ y
append-same [] [] x y h e = e
append-same [] (d ∷ b) x y h e = absurd (omega arith)
append-same (c ∷ a) [] x y h e = absurd (omega arith)
append-same (c ∷ a) (d ∷ b) x y h e =
    let tails : a ++ x ≡ b ++ y = cc in append-same a b x y (omega arith) tails

behind_first-IsFirst :
    (p auth before rest : Bytes) → IsFirst p auth before rest → behind_first p auth ≡ some rest
behind_first-IsFirst p auth before rest (cut, first) =
    go (behind_first p auth) (behind_first-Found p auth)
  where
    go : (o : Option Bytes) → Found p auth o → o ≡ some rest
    go none h = absurd (h before rest cut)
    go (some rest') (before', (cut', first')) =
        let one = first before' rest' cut' in
        let other = first' before rest cut in
        ap some (
          append-same p p rest' rest refl
            (append-same before' before (p ++ rest') (p ++ rest) (omega arith) (sym cut' ∙ cut)))

abbrev IsValue : (rest value : Bytes) → Type 0
IsValue rest value = IsQuoted rest value ⊎ IsBare rest value

quoted_value : (s : Bytes) → directive_value (b'"' ∷ s) ≡ until b'"' s
unfolding directive_value
quoted_value s = refl

bare_value : (s : Bytes) → starts_quoted s ≡ false → directive_value s ≡ trim_spaces (until b',' s)
unfolding directive_value split_at trim_spaces
bare_value [] h = refl
bare_value (c ∷ s) h = rw h refl

trimmed-IsBare : (s : Bytes) → starts_quoted s ≡ false → IsBare s (trim_spaces (until b',' s))
trimmed-IsBare s h =
    let (t, (whole, (none_in, ends))) = until-IsCut b',' s in
    let (blanks, (parts, (blank, last))) = trim_spaces-IsTrimmed (until b',' s) in
    (
      blanks,
      t,
      h,
      whole ∙ ap (λ x. x ++ t) parts,
      ap (lacks b',') (sym parts) ∙ none_in,
      ends,
      blank,
      last,
    )

directive_value-IsValue : (s : Bytes) → IsValue s (directive_value s)
directive_value-IsValue [] = inr (rw (bare_value [] refl) (trimmed-IsBare [] refl))
directive_value-IsValue (c ∷ s) = elim (Bool-cases (c == b'"')) [
  | inl e ↦
      let same : c ≡ b'"' = ground arith in
      let (t, (whole, (none_in, ends))) = until-IsCut b'"' s in
      inl (rw (same, quoted_value s) (t, ap (λ x. b'"' ∷ x) whole, none_in, ends))
  | inr e ↦ inr (rw (bare_value (c ∷ s) e) (trimmed-IsBare (c ∷ s) e))
]

IsValue-directive_value : (s value : Bytes) → IsValue s value → directive_value s ≡ value
IsValue-directive_value s value (inl (t, whole, none_in, ends)) =
    rw whole (quoted_value (value ++ t) ∙ until-lacks b'"' value t none_in ends)
IsValue-directive_value s value (inr (blanks, t, bare, whole, none_in, ends, blank, last)) =
    bare_value s bare
    ∙ ap trim_spaces (ap (until b',') whole ∙ until-lacks b',' (value ++ blanks) t none_in ends)
    ∙ trim_spaces-ends_blank value blanks blank last

-- The reader gives the directive's value, and nothing else is one.
pub digest_value_iff :
    (auth key value : Bytes) → (digest_value auth key ≡ value) ↔ IsDirective auth key value
unfolding digest_value
digest_value_iff auth key value = (
  (λ h. go (behind_first (key ++ b'=' ∷ []) auth) (behind_first-Found (key ++ b'=' ∷ []) auth) h),
  back,
)
  where
    go :
        (o : Option Bytes)
        → Found (key ++ b'=' ∷ []) auth o
        → directive_of o ≡ value
        → IsDirective auth key value
    go none h e = inr (h, sym e)
    go (some rest) (before, first) e =
        inl (before, rest, first, subst (IsValue rest) e (directive_value-IsValue rest))

    back : IsDirective auth key value → directive_of (behind_first (key ++ b'=' ∷ []) auth) ≡ value
    back (inl (before, rest, first, is_value)) =
        ap directive_of (behind_first-IsFirst (key ++ b'=' ∷ []) auth before rest first)
        ∙ IsValue-directive_value rest value is_value
    back (inr (nowhere, e)) =
        nothing (behind_first (key ++ b'=' ∷ []) auth) (behind_first-Found (key ++ b'=' ∷ []) auth)
      where
        nothing : (o : Option Bytes) → Found (key ++ b'=' ∷ []) auth o → directive_of o ≡ value
        nothing none h = sym e
        nothing (some rest) (before, (cut, first)) = absurd (nowhere before rest cut)
