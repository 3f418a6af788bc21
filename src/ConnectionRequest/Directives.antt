-- ===== src/ConnectionRequest/Directives.antt =====
-- The reader of directives against a header whose values hold no `=`: the text is cut at its signs.
use cpe_acs_connector_tr.Base.{
  ℕ, ◌≤◌, Bool, true, false, not, ◌||◌, ◌&&◌, [], ◌∷◌, ◌++◌, List, Option, none, some, ◌≡◌, refl,
  sym, ap, ◌∙◌, arith, ◌==◌, if◌then◌else◌, inl, inr, Bool-cases, Bytes, all, equal, equal_iff,
  is_empty, leb, length, length-append,
}
use mathlib.Core.List.{append_assoc}
use cpe_acs_connector_tr.ConnectionRequest.Authentic.{split_at-append}
use cpe_acs_connector_tr.ConnectionRequest.{
  split_at, or_all, trim_spaces, behind_prefix, behind_first, or_later, directive_value,
}

-- No sign in the text.
abbrev pub is_plain : Bytes → Bool
is_plain s = all (λ c. not (c == b'=')) s

abbrev pub ends_with : Bytes → Bytes → Bool
ends_with [] key = equal [] key
ends_with (c ∷ s) key = equal (c ∷ s) key || ends_with s key

behind_prefix-sign :
    (key s rest : Bytes)
    → is_plain key ≡ true
    → is_plain s ≡ true
    → behind_prefix (key ++ b'=' ∷ []) (s ++ b'=' ∷ rest)
      ≡ (if equal s key then some rest else none)
unfolding behind_prefix equal
behind_prefix-sign [] [] rest h k = refl
behind_prefix-sign [] (c ∷ s) rest h k = ground arith
behind_prefix-sign (p ∷ key) [] rest h k = ground arith
behind_prefix-sign (p ∷ key) (c ∷ s) rest h k = ground (arith, behind_prefix-sign key s rest)

or_later_if :
    (b : Bool) (rest : Bytes) (later : Option Bytes)
    → or_later (if b then some rest else none) later ≡ (if b then some rest else later)
or_later_if true rest later = refl
or_later_if false rest later = refl

behind_first-sign :
    (key s rest : Bytes)
    → is_plain key ≡ true
    → is_plain s ≡ true
    → behind_first (key ++ b'=' ∷ []) (s ++ b'=' ∷ rest)
      ≡ (if ends_with s key then some rest else behind_first (key ++ b'=' ∷ []) rest)
unfolding behind_first
behind_first-sign key [] rest h k =
    ap (λ o. or_later o (behind_first (key ++ b'=' ∷ []) rest)) (behind_prefix-sign key [] rest h k)
    ∙ or_later_if (equal [] key) rest (behind_first (key ++ b'=' ∷ []) rest)
behind_first-sign key (c ∷ s) rest h k =
    ap (λ o. or_later o (behind_first (key ++ b'=' ∷ []) (s ++ b'=' ∷ rest)))
      (behind_prefix-sign key (c ∷ s) rest h k)
    ∙ or_later_if (equal (c ∷ s) key) rest (behind_first (key ++ b'=' ∷ []) (s ++ b'=' ∷ rest))
    ∙ (elim (Bool-cases (equal (c ∷ s) key)) [
      | inl e ↦ rw e refl
      | inr e ↦ rw e (behind_first-sign key s rest h (ground arith))
    ])

ends_with-append :
    (s t key : Bytes) → length key ≤ length t → ends_with (s ++ t) key ≡ ends_with t key
ends_with-append [] t key h = refl
ends_with-append (c ∷ s) t key h = elim (Bool-cases (equal (c ∷ (s ++ t)) key)) [
  | inl e ↦
      let same = ap length ((equal_iff (c ∷ (s ++ t)) key).0 e) in
      absurd (omega (arith, length-append s t))
  | inr e ↦ rw e (ends_with-append s t key h)
]

-- The last byte, or `d` where there is none.
abbrev final : ℕ → Bytes → ℕ
final d [] = d
final d (c ∷ s) = final c s

final-append : (d : ℕ) (s t : Bytes) → is_empty t ≡ false → final d (s ++ t) ≡ final 0 t
final-append d [] [] h = cc
final-append d [] (c ∷ t) h = refl
final-append d (c ∷ s) t h = final-append c s t h

ends_with-final :
    (s key : Bytes)
    → is_empty key ≡ false
    → ends_with s key ≡ true
    → (is_empty s ≡ false) × (final 0 s ≡ final 0 key)
unfolding equal
ends_with-final [] [] h e = cc
ends_with-final [] (k ∷ key) h e = cc
ends_with-final (c ∷ s) key h e = elim (Bool-cases (equal (c ∷ s) key)) [
  | inl same ↦ (refl, ap (final 0) ((equal_iff (c ∷ s) key).0 same))
  | inr other ↦
      let (more, last) = ends_with-final s key h (ground arith) in
      (refl, final-append 0 (c ∷ []) s more ∙ last)
]

ends_with-differs :
    (s key : Bytes)
    → is_empty key ≡ false
    → (final 0 s == final 0 key) ≡ false
    → ends_with s key ≡ false
ends_with-differs s key h differ = elim (Bool-cases (ends_with s key)) [
  | inl e ↦ let (_, last) = ends_with-final s key h e in absurd (ground arith)
  | inr e ↦ e
]

-- The end of the text alone tells whether the key ends it.
abbrev pub fits : Bytes → Bytes → Bool
fits key t = leb (length key) (length t) || (not (is_empty t) && not (final 0 t == final 0 key))

ends_with-fits : (s t key : Bytes) → fits key t ≡ true → ends_with (s ++ t) key ≡ ends_with t key
ends_with-fits s t [] h = ends_with-append s t [] (omega arith)
ends_with-fits s t (k ∷ key) h = elim (Bool-cases (leb (length (k ∷ key)) (length t))) [
  | inl e ↦ ends_with-append s t (k ∷ key) (ground arith)
  | inr e ↦
      let more : is_empty t ≡ false = ground arith in
      let differ : (final 0 t == final 0 (k ∷ key)) ≡ false = ground arith in
      ends_with-differs (s ++ t) (k ∷ key) refl (rw (final-append 0 s t more) differ)
      ∙ sym (ends_with-differs t (k ∷ key) refl differ)
]

-- A text that is cut at its signs: each part but the last is a value and what the header says
-- behind it, up to the next sign.
abbrev pub Part : Type 0
Part = Bytes × Bytes

abbrev pub joined : List Part → Bytes → Bytes
joined [] last = last
joined ((value, t) ∷ parts) last = (value ++ t) ++ b'=' ∷ joined parts last

abbrev pub all_plain : List Part → Bool
all_plain [] = true
all_plain ((value, t) ∷ parts) = is_plain (value ++ t) && all_plain parts

abbrev pub all_fit : Bytes → List Part → Bool
all_fit key [] = true
all_fit key ((value, t) ∷ parts) = fits key t && all_fit key parts

-- The parts behind the first that ends with the key, as the second halves tell.
abbrev pub parts_behind : Bytes → List Part → Option (List Part)
parts_behind key [] = none
parts_behind key ((value, t) ∷ parts) =
    if ends_with t key then some parts else parts_behind key parts

-- The reader finds the key at the first part that ends with it.
pub behind_first-joined :
    (key : Bytes) (parts rest : List Part) (last : Bytes)
    → is_plain key ≡ true
    → all_plain parts ≡ true
    → all_fit key parts ≡ true
    → parts_behind key parts ≡ some rest
    → behind_first (key ++ b'=' ∷ []) (joined parts last) ≡ some (joined rest last)
behind_first-joined key [] rest last h plain fit found = cc
behind_first-joined key ((value, t) ∷ parts) rest last h plain fit found =
    behind_first-sign key (value ++ t) (joined parts last) h (ground arith)
    ∙ rw (ends_with-fits value t key (ground arith)) (elim (Bool-cases (ends_with t key)) [
      | inl e ↦
          let same = rw e at found in
          let parts_same : parts ≡ rest = cc in rw e (ap (λ ps. some (joined ps last)) parts_same)
      | inr e ↦
          rw e (
            behind_first-joined key parts rest last h (ground arith) (ground arith) (rw e at found))
    ])

-- What the reader makes of a value.

pub directive_value-quoted :
    (value t rest : Bytes)
    → all (λ c. not (c == b'"')) value ≡ true
    → directive_value ((b'"' ∷ (value ++ b'"' ∷ t)) ++ rest) ≡ value
unfolding directive_value
directive_value-quoted value t rest h =
    rw (append_assoc value (b'"' ∷ t) rest, split_at-append b'"' value (t ++ rest) h) refl

-- A value without quotes holds neither a quote nor a comma nor a space.
abbrev pub is_token : Bytes → Bool
is_token s = all (λ c. not (c == b'"') && (not (c == b',') && not (c == b' '))) s

trim_spaces-is_token : (s : Bytes) → is_token s ≡ true → trim_spaces s ≡ s
unfolding trim_spaces
trim_spaces-is_token [] h = refl
trim_spaces-is_token (c ∷ s) h = ground (arith, trim_spaces-is_token s)

is_token-comma : (s : Bytes) → is_token s ≡ true → all (λ c. not (c == b',')) s ≡ true
is_token-comma [] h = refl
is_token-comma (c ∷ s) h = ground (arith, is_token-comma s)

directive_value-bare :
    (c : ℕ) (s : Bytes)
    → (c == b'"') ≡ false
    → directive_value (c ∷ s) ≡ trim_spaces (or_all (split_at b',' (c ∷ s)) (c ∷ s))
unfolding directive_value
directive_value-bare c s e = rw e refl

pub directive_value-token :
    (value t rest : Bytes)
    → is_token value ≡ true
    → directive_value ((value ++ b',' ∷ t) ++ rest) ≡ value
unfolding split_at trim_spaces
directive_value-token value t rest h =
    ap directive_value (append_assoc value (b',' ∷ t) rest) ∙ go value h
  where
    go : (v : Bytes) → is_token v ≡ true → directive_value (v ++ (b',' ∷ (t ++ rest))) ≡ v
    go [] k = directive_value-bare b',' (t ++ rest) refl
    go (c ∷ v) k =
        directive_value-bare c (v ++ (b',' ∷ (t ++ rest))) (ground arith)
        ∙ ap (λ o. trim_spaces (or_all o (c ∷ (v ++ (b',' ∷ (t ++ rest))))))
            (split_at-append b',' (c ∷ v) (t ++ rest) (is_token-comma (c ∷ v) k))
        ∙ trim_spaces-is_token (c ∷ v) k
