-- ===== src/Uci/Quote.antt =====
-- The commands that the adapter builds, as the shell reads them.
use mathlib.Core.List.{append_assoc, append-nil}
use cpe_acs_connector_tr.Base.{
  ℕ, Bool, true, false, [], ◌∷◌, ◌++◌, none, some, inl, inr, ◌≡◌, ◌∙◌, ap, arith, ◌==◌,
  if◌then◌else◌, Bool-cases, Bytes, codes, all, not, no_nul, c_str, c_str-no_nul, no_nul-append,
  refl,
}
use cpe_acs_connector_tr.Shell.{Shell}
use cpe_acs_connector_tr.Uci.{
  is_key_byte, valid_key, quote_bytes, shell_quote, get_command, set_command, commit_command,
  uci_binary, get, set, commit,
}
use cpe_acs_connector_tr.Uci.Words.{blank, word, quoted, split, words}

abbrev quoted_byte : ℕ → Bytes
quoted_byte c = if c == 39 then 39 ∷ b'\\' ∷ 39 ∷ 39 ∷ [] else c ∷ []

split-quoted_byte :
    (c : ℕ) (w rest : Bytes)
    → split quoted w (quoted_byte c ++ rest) ≡ split quoted (w ++ c ∷ []) rest
unfolding split
split-quoted_byte c w rest = ground arith

split-quote_bytes :
    (value w rest : Bytes)
    → split quoted w (quote_bytes value ++ 39 ∷ rest) ≡ split word (w ++ value) rest
unfolding quote_bytes split
split-quote_bytes [] w rest = rw append-nil
split-quote_bytes (c ∷ value) w rest =
    rw append_assoc (split-quoted_byte c w (quote_bytes value ++ 39 ∷ rest))
    ∙ split-quote_bytes value (w ++ c ∷ []) rest
    ∙ ap (λ u. split word u rest) (append_assoc w (c ∷ []) value)

split-shell_quote :
    (value w rest : Bytes) → split word w (shell_quote value ++ rest) ≡ split word (w ++ value) rest
unfolding shell_quote split
split-shell_quote value w rest = rw append_assoc (split-quote_bytes value w rest)

split-key_byte :
    (c : ℕ) (w rest : Bytes)
    → is_key_byte c ≡ true
    → split word w (c ∷ rest) ≡ split word (w ++ c ∷ []) rest
unfolding split
split-key_byte c w rest h = ground arith

split-key :
    (key w rest : Bytes)
    → all is_key_byte key ≡ true
    → split word w (key ++ rest) ≡ split word (w ++ key) rest
split-key [] w rest h = rw append-nil
split-key (c ∷ key) w rest h =
    split-key_byte c w (key ++ rest) (ground arith)
    ∙ split-key key (w ++ c ∷ []) rest (ground arith)
    ∙ ap (λ u. split word u rest) (append_assoc w (c ∷ []) key)

-- A key starts a word.
split-key_start :
    (key rest : Bytes) → valid_key key ≡ true → split blank [] (key ++ rest) ≡ split word key rest
unfolding valid_key split
split-key_start [] rest h = cc
split-key_start (c ∷ key) rest h = ground (arith, split-key key (c ∷ []) rest)

split_assignment :
    (key value : Bytes)
    → valid_key key ≡ true
    → split blank [] (key ++ (b'=' ∷ (shell_quote value ++ [])))
      ≡ some ((key ++ (b'=' ∷ value)) ∷ [])
unfolding split
split_assignment key value h =
    split-key_start key (b'=' ∷ (shell_quote value ++ [])) h
    ∙ split-shell_quote value (key ++ b'=' ∷ []) []
    ∙ ap (λ u. some (u ∷ [])) (append_assoc key (b'=' ∷ []) value)

split_key_alone :
    (key : Bytes) → valid_key key ≡ true → split blank [] (key ++ []) ≡ some (key ∷ [])
unfolding split
split_key_alone key h = split-key_start key [] h

quote_bytes-no_nul : (value : Bytes) → no_nul value ≡ true → no_nul (quote_bytes value) ≡ true
unfolding quote_bytes
quote_bytes-no_nul [] h = refl
quote_bytes-no_nul (c ∷ value) h = ground (arith, quote_bytes-no_nul value)

shell_quote-no_nul : (value : Bytes) → no_nul value ≡ true → no_nul (shell_quote value) ≡ true
unfolding shell_quote
shell_quote-no_nul value h =
    no_nul-append (quote_bytes value) (39 ∷ []) (quote_bytes-no_nul value h) refl

-- A byte that no key holds.
key_byte-other : (c d : ℕ) → is_key_byte c ≡ false → is_key_byte d ≡ true → not (d == c) ≡ true
key_byte-other c d other h = elim (Bool-cases (d == c)) [
  | inl e ↦ let same : d ≡ c = ground arith in let wrong = ap is_key_byte same in cc
  | inr e ↦ rw e refl
]

pub key_bytes-other :
    (c : ℕ) (key : Bytes)
    → is_key_byte c ≡ false
    → all is_key_byte key ≡ true
    → all (λ d. not (d == c)) key ≡ true
key_bytes-other c [] other h = refl
key_bytes-other c (d ∷ key) other h = elim (Bool-cases (is_key_byte d)) [
  | inl e ↦ rw (key_byte-other c d other e) (key_bytes-other c key other (rw e at h))
  | inr e ↦ cc
]

valid_key-no_nul : (key : Bytes) → valid_key key ≡ true → no_nul key ≡ true
unfolding valid_key
valid_key-no_nul key h = key_bytes-other 0 key refl (ground arith)

module _ {S : Type 0} (shell : Shell S) where
  uci_binary-no_nul : (rest : Bytes) → no_nul rest ≡ true → no_nul (uci_binary shell ++ rest) ≡ true
  unfolding uci_binary codes
  uci_binary-no_nul rest h = elim (Bool-cases shell.has_sbin_uci) [
    | inl e ↦ rw e h
    | inr e ↦ rw e h
  ]

  set_command-no_nul :
      (key value : Bytes)
      → valid_key key ≡ true
      → no_nul value ≡ true
      → c_str (set_command shell key value) ≡ set_command shell key value
  unfolding set_command codes
  set_command-no_nul key value h k = c_str-no_nul (set_command shell key value) (
      uci_binary-no_nul _ (
        no_nul-append key _ (valid_key-no_nul key h)
          (no_nul-append (shell_quote value) [] (shell_quote-no_nul value k) refl)))

  pub get_command-no_nul :
      (key : Bytes) → valid_key key ≡ true → c_str (get_command shell key) ≡ get_command shell key
  unfolding get_command codes
  get_command-no_nul key h =
      c_str-no_nul (get_command shell key)
        (uci_binary-no_nul _ (no_nul-append key _ (valid_key-no_nul key h) refl))

  commit_command-no_nul :
      (key : Bytes)
      → valid_key key ≡ true
      → c_str (commit_command shell key) ≡ commit_command shell key
  unfolding commit_command codes
  commit_command-no_nul key h =
      c_str-no_nul (commit_command shell key)
        (uci_binary-no_nul _ (no_nul-append key _ (valid_key-no_nul key h) refl))

  -- The shell reads the command that `set` runs as `uci -q set key=value`, four words, whatever
  -- bytes the value holds but for a NUL, if the key is valid: no value can end the quotation, and
  -- nothing of it is run.
  pub words-set_command :
      (key value : Bytes)
      → valid_key key ≡ true
      → no_nul value ≡ true
      → words (c_str (set_command shell key value))
        ≡ some (uci_binary shell ∷ codes "-q" ∷ codes "set" ∷ (key ++ (b'=' ∷ value)) ∷ [])
  unfolding set_command split codes
  words-set_command key value h k =
      rw (set_command-no_nul key value h k) (elim (Bool-cases shell.has_sbin_uci) [
        | inl e ↦ rw e (rw (split_assignment key value h))
        | inr e ↦ rw e (rw (split_assignment key value h))
      ])

  -- The same of the command that `commit` builds, `uci -q commit package`.
  pub words-commit_command :
      (package_name : Bytes)
      → valid_key package_name ≡ true
      → words (c_str (commit_command shell package_name))
        ≡ some (uci_binary shell ∷ codes "-q" ∷ codes "commit" ∷ package_name ∷ [])
  unfolding commit_command split codes
  words-commit_command package_name h =
      rw (commit_command-no_nul package_name h) (elim (Bool-cases shell.has_sbin_uci) [
        | inl e ↦ rw e (rw (split_key_alone package_name h))
        | inr e ↦ rw e (rw (split_key_alone package_name h))
      ])

  -- A key that is not valid reaches no shell: nothing is read, and nothing changes.
  pub invalid_key_refused :
      (mock : Bool) (s : S) (key value : Bytes)
      → valid_key key ≡ false
      → (get shell s key ≡ none)
        × (set shell mock s key value ≡ (false, s))
        × (commit shell mock s key ≡ (false, s))
  unfolding get set commit
  invalid_key_refused mock s key value h = (rw h, rw h, rw h)
