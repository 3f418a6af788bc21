-- ===== src/SoapBuilder/Escape.antt =====
-- What an XML reader gets back from an escaped value: character data up to the next tag, or an
-- attribute's value up to the closing quote.
use mathlib.Core.Option
use cpe_acs_connector_tr.Base.{
  ℕ, [], ◌∷◌, ◌++◌, ◌⊎◌, Option, none, some, ◌≡◌, ◌==◌, if◌then◌else◌, Bytes, codes, equal, ltb,
  not, ◌&&◌, ◌||◌, Bool,
}

-- The five entities that XML predefines.
abbrev entity : Bytes → Option ℕ
entity name =
    if equal name (codes "amp")
    then some b'&'
    else if equal name (codes "lt")
    then some b'<'
    else if equal name (codes "gt")
    then some b'>'
    else if equal name (codes "quot")
    then some b'"'
    else if equal name (codes "apos")
    then some 39
    else none

abbrev push : ℕ → Bytes × Bytes → Bytes × Bytes
push c (value, rest) = (c ∷ value, rest)

abbrev push_entity : Option ℕ → Option (Bytes × Bytes) → Option (Bytes × Bytes)
push_entity none r = none
push_entity (some c) r = Option.map (push c) r

-- Control bytes that XML 1.0 has no place for.
abbrev pub is_forbidden : ℕ → Bool
is_forbidden c = ltb c 32 && not (c == 9) && not (c == 10) && not (c == 13)

-- In an attribute's value a tab and a line end become a blank.
abbrev normalized : ℕ → ℕ → ℕ
normalized stop c = if stop == b'"' && (c == 9 || c == 10) then 32 else c

-- A carriage return is a line end; one in front of a line feed is part of it.
abbrev behind_return : ℕ → Bytes → Option (Bytes × Bytes) → Option (Bytes × Bytes)
behind_return stop [] r = Option.map (push (normalized stop 10)) r
behind_return stop (d ∷ cs) r = if d == 10 then r else Option.map (push (normalized stop 10)) r

-- Reads up to `stop`, which is left in the rest. The second argument is the entity's name so far,
-- behind a `&`. An entity that is not predefined, or not finished, is an error, and so are a
-- control byte and a `<` in an attribute's value. Bytes from 128 on, which UTF-8 writes other
-- characters with, are taken as they come.
pub read_text : ℕ → Option Bytes → Bytes → Option (Bytes × Bytes)
read_text stop none [] = some ([], [])
read_text stop (some name) [] = none
read_text stop none (c ∷ cs) =
    let in_name = read_text stop (some []) cs in
    let rest = read_text stop none cs in
    if c == stop
    then some ([], c ∷ cs)
    else if is_forbidden c || c == b'<'
    then none
    else if c == b'&'
    then in_name
    else if c == 13
    then behind_return stop cs rest
    else Option.map (push (normalized stop c)) rest
read_text stop (some name) (c ∷ cs) =
    let done = push_entity (entity name) (read_text stop none cs) in
    let further = read_text stop (some (name ++ c ∷ [])) cs in if c == b';' then done else further

abbrev pub IsStop : ℕ → Type 0
IsStop stop = (stop ≡ b'<') ⊎ (stop ≡ b'"')

-- A byte that a reader leaves as it is: no control byte but a tab and a line feed, and neither of
-- these in an attribute's value.
abbrev pub is_kept : ℕ → ℕ → Bool
is_kept stop c = not (ltb c 32) || (not (stop == b'"') && (c == 9 || c == 10))
