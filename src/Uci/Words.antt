-- ===== src/Uci/Words.antt =====
-- How a POSIX shell splits a simple command into words, for the bytes that the commands use: a
-- single quote quotes up to the next one, a backslash quotes one byte, and blanks part the words.
-- Any other byte that the shell gives a meaning is refused. A bracket stands for itself, as where
-- no file matches the word.
use cpe_acs_connector_tr.Base.{
  ℕ, Bool, ◌||◌, List, [], ◌∷◌, ◌++◌, Option, none, some, ◌==◌, if◌then◌else◌, Bytes,
}

-- Behind a blank, in a word, in a quoted part of one, behind a backslash.
pub data Mode : Type 0 where
  blank word quoted escaped : Mode

-- `"`, `#`, `$`, `&`, `(`, `)`, `*`, `;`, `<`, `>`, `?`, backquote, `|`, `~`, newline and tab.
pub is_special : ℕ → Bool
is_special c =
    c == 34
    || c == 35
    || c == 36
    || c == 38
    || c == 40
    || c == 41
    || c == 42
    || c == 59
    || c == 60
    || c == 62
    || c == 63
    || c == 96
    || c == 124
    || c == 126
    || c == 10
    || c == 9

abbrev pub push : Bytes → Option (List Bytes) → Option (List Bytes)
push w none = none
push w (some ws) = some (w ∷ ws)

-- The mode, the word so far, what is left; `none` where the command is refused.
unfoldable pub split : Mode → Bytes → Bytes → Option (List Bytes)
unfolding is_special
split blank w [] = some []
split word w [] = some (w ∷ [])
split quoted w [] = none
split escaped w [] = none
split quoted w (c ∷ cs) =
    let leave = split word w cs in
    let stay = split quoted (w ++ c ∷ []) cs in if c == 39 then leave else stay
split escaped w (c ∷ cs) = split word (w ++ c ∷ []) cs
split blank w (c ∷ cs) =
    let skip = split blank [] cs in
    let enter = split quoted [] cs in
    let escape = split escaped [] cs in
    let plain = split word (c ∷ []) cs in
    if c == b' '
    then skip
    else if c == 39
    then enter
    else if c == b'\\'
    then escape
    else if is_special c
    then none
    else plain
split word w (c ∷ cs) =
    let close = split blank [] cs in
    let enter = split quoted w cs in
    let escape = split escaped w cs in
    let plain = split word (w ++ c ∷ []) cs in
    if c == b' '
    then push w close
    else if c == 39
    then enter
    else if c == b'\\'
    then escape
    else if is_special c
    then none
    else plain

abbrev pub words : Bytes → Option (List Bytes)
words command = split blank [] command
