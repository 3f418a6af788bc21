-- ===== src/ConnectionRequest/Cutting.antt =====
-- Texts cut at a byte, and spaces taken from their end (src/ConnectionRequestServer.cpp,
-- `digestValue`).
use mathlib.Core.Option
use cpe_acs_connector_tr.Base.{
  ℕ, Bool, true, false, not, ◌&&◌, [], ◌∷◌, ◌++◌, Option, none, some, ◌≡◌, ◌⊎◌, refl, ap, ◌∙◌,
  arith, ◌==◌, if◌then◌else◌, inl, inr, Bool-cases, Bytes, all, is_empty,
}
use cpe_acs_connector_tr.ConnectionRequest.{split_at, or_all, trim_spaces}

-- The text ends here, or this byte follows.
abbrev pub Ends : ℕ → Bytes → Type 0
Ends c t = (t ≡ []) ⊎ ((later : Bytes) × (t ≡ c ∷ later))

abbrev pub lacks : ℕ → Bytes → Bool
lacks c s = all (λ d. not (d == c)) s

-- The last byte is a space.
abbrev pub ends_blank : Bytes → Bool
ends_blank [] = false
ends_blank (c ∷ []) = c == b' '
ends_blank (c ∷ d ∷ s) = ends_blank (d ∷ s)

-- The text up to the byte.
abbrev pub until : ℕ → Bytes → Bytes
until c s = or_all (split_at c s) s

until_more : (c d : ℕ) (s : Bytes) → (d == c) ≡ false → until c (d ∷ s) ≡ d ∷ until c s
unfolding split_at
until_more c d s e = rw e (go (split_at c s))
  where
    go :
        (o : Option (Bytes × Bytes))
        → or_all (Option.map (λ (before, behind). (d ∷ before, behind)) o) (d ∷ s) ≡ d ∷ or_all o s
    go none = refl
    go (some (before, behind)) = refl

until_here : (c : ℕ) (s : Bytes) → until c (c ∷ s) ≡ []
unfolding split_at
until_here c s = ground arith

abbrev pub IsCut : ℕ → (s value : Bytes) → Type 0
IsCut c s value = (t : Bytes) × ((s ≡ value ++ t) × ((lacks c value ≡ true) × Ends c t))

pub until-IsCut : (c : ℕ) (s : Bytes) → IsCut c s (until c s)
unfolding split_at
until-IsCut c [] = ([], (refl, (refl, inl refl)))
until-IsCut c (d ∷ s) = elim (Bool-cases (d == c)) [
  | inl e ↦
      let same : d ≡ c = ground arith in
      rw same (rw (until_here c s) (c ∷ s, (refl, (refl, inr (s, refl)))))
  | inr e ↦
      let (t, (whole, (none_in, ends))) = until-IsCut c s in
      rw (until_more c d s e) (t, (ap (λ x. d ∷ x) whole, (ground arith, ends)))
]

pub until-lacks :
    (c : ℕ) (value t : Bytes) → lacks c value ≡ true → Ends c t → until c (value ++ t) ≡ value
unfolding split_at
until-lacks c [] t h (inl e) = rw e refl
until-lacks c [] t h (inr (later, e)) = rw e (until_here c later)
until-lacks c (d ∷ value) t h ends =
    until_more c d (value ++ t) (ground arith)
    ∙ ap (λ x. d ∷ x) (until-lacks c value t (ground arith) ends)

abbrev pub IsTrimmed : (s value : Bytes) → Type 0
IsTrimmed s value =
    (blanks : Bytes) × ((s ≡ value ++ blanks)
      × ((all (λ c. c == b' ') blanks ≡ true) × (ends_blank value ≡ false)))

pub trim_spaces-IsTrimmed : (s : Bytes) → IsTrimmed s (trim_spaces s)
unfolding trim_spaces
trim_spaces-IsTrimmed [] = ([], (refl, (refl, refl)))
trim_spaces-IsTrimmed (c ∷ s) =
    let (blanks, (whole, (blank, last))) = trim_spaces-IsTrimmed s in
    go (trim_spaces s) blanks whole blank last
  where
    go :
        (v blanks : Bytes)
        → s ≡ v ++ blanks
        → all (λ c. c == b' ') blanks ≡ true
        → ends_blank v ≡ false
        → IsTrimmed (c ∷ s) (if c == b' ' && is_empty v then [] else c ∷ v)
    go [] blanks whole blank last = elim (Bool-cases (c == b' ')) [
      | inl e ↦ rw e (c ∷ blanks, (ap (λ x. c ∷ x) whole, (ground arith, refl)))
      | inr e ↦ rw e (blanks, (ap (λ x. c ∷ x) whole, (blank, e)))
    ]
    go (d ∷ v) blanks whole blank last = elim (Bool-cases (c == b' ')) [
      | inl e ↦ rw e (blanks, (ap (λ x. c ∷ x) whole, (blank, last)))
      | inr e ↦ rw e (blanks, (ap (λ x. c ∷ x) whole, (blank, last)))
    ]

trim_spaces-blanks : (blanks : Bytes) → all (λ c. c == b' ') blanks ≡ true → trim_spaces blanks ≡ []
unfolding trim_spaces
trim_spaces-blanks [] h = refl
trim_spaces-blanks (c ∷ blanks) h =
    let rest = trim_spaces-blanks blanks (ground arith) in
    let blank : (c == b' ') ≡ true = ground arith in rw (rest, blank) refl

pub trim_spaces-ends_blank :
    (v blanks : Bytes)
    → all (λ c. c == b' ') blanks ≡ true
    → ends_blank v ≡ false
    → trim_spaces (v ++ blanks) ≡ v
unfolding trim_spaces
trim_spaces-ends_blank [] blanks h e = trim_spaces-blanks blanks h
trim_spaces-ends_blank (c ∷ []) blanks h e = rw (trim_spaces-blanks blanks h, e) refl
trim_spaces-ends_blank (c ∷ d ∷ v) blanks h e =
    let rest = trim_spaces-ends_blank (d ∷ v) blanks h e in ground (arith, rest)
