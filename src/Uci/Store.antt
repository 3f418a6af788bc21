-- ===== src/Uci/Store.antt =====
-- The configuration store behind the shell: what the documentation of `uci` says of the three
-- commands, by the words that a shell makes of them.
use cpe_acs_connector_tr.Base.{
  ◌+◌, Bool, true, false, not, ◌&&◌, [], ◌∷◌, ◌++◌, Option, none, some, ◌≡◌, refl, ap, ◌∙◌, arith,
  ◌==◌, if◌then◌else◌, Bytes, codes, equal, is_empty, no_nul, c_str, take, length, all,
}
use cpe_acs_connector_tr.Shell.{Shell}
use cpe_acs_connector_tr.Uci.{
  valid_key, uci_binary, get_command, set_command, commit_command, get, set, commit, captured,
  trim_newlines,
}
use cpe_acs_connector_tr.Uci.Words.{words}
use cpe_acs_connector_tr.Uci.Quote.{get_command-no_nul, words-set_command, words-commit_command}

-- The key stands in the package.
abbrev pub in_package : Bytes → Bytes → Bool
in_package package_name key = equal (take (length package_name + 1) key) (package_name ++ b'.' ∷ [])

-- What `uci get` writes: the value and the end of the line, or nothing and a failure.
abbrev pub written : Option Bytes → Option (Bytes × Bool)
written none = some ([], false)
written (some value) = some (value ++ 10 ∷ [], true)

-- A key that names its section: `@type[n]`, which stands for a section by its place, could be
-- another spelling of a named one.
abbrev pub is_name : Bytes → Bool
is_name key = valid_key key && all (λ c. not (c == b'@')) key

-- The values that `uci get` sees, and those that are stored for good: `uci set` changes the first
-- alone, `uci commit` stores those of a package. A value that is set is not empty: `uci` takes an
-- empty one for a removal.
pub record UciStore (S : Type 0) (shell : Shell S) : Type 0 where
  pub current : S → Bytes → Option Bytes
  pub saved : S → Bytes → Option Bytes
  pub gets :
      (s : S) (key : Bytes)
      → valid_key key ≡ true
      → shell.popen s (get_command shell key) ≡ written (current s key)
  pub sets :
      (s : S) (command key value : Bytes)
      → is_name key ≡ true
      → is_empty value ≡ false
      → words command
        ≡ some (uci_binary shell ∷ codes "-q" ∷ codes "set" ∷ (key ++ b'=' ∷ value) ∷ [])
      → (shell.system s command).0 ≡ true
      → (k : Bytes) → is_name k ≡ true
      → (current (shell.system s command).1 k ≡ (if equal k key then some value else current s k))
        × (saved (shell.system s command).1 k ≡ saved s k)
  pub commits :
      (s : S) (command package_name : Bytes)
      → words command ≡ some (uci_binary shell ∷ codes "-q" ∷ codes "commit" ∷ package_name ∷ [])
      → (shell.system s command).0 ≡ true
      → (k : Bytes)
      → (current (shell.system s command).1 k ≡ current s k)
        × (saved (shell.system s command).1 k
            ≡ (if in_package package_name k then current s k else saved s k))

pub is_name-valid_key : (key : Bytes) → is_name key ≡ true → valid_key key ≡ true
is_name-valid_key key h = ground arith

trim_newlines-newline : (s : Bytes) → trim_newlines (s ++ 10 ∷ []) ≡ trim_newlines s
unfolding trim_newlines
trim_newlines-newline [] = refl
trim_newlines-newline (c ∷ s) = rw (trim_newlines-newline s)

module _ {S : Type 0} (shell : Shell S) (store : UciStore S shell) where
  open store use {current, saved}

  pub get-current :
      (s : S) (key : Bytes)
      → valid_key key ≡ true
      → get shell s key ≡ captured (written (current s key))
  unfolding get
  get-current s key h = rw (h, get_command-no_nul shell key h) (ap captured (store.gets s key h))

  pub get_stored :
      (s : S) (key value : Bytes)
      → valid_key key ≡ true
      → current s key ≡ some value
      → get shell s key ≡ some (trim_newlines value)
  unfolding captured
  get_stored s key value h here =
      get-current s key h
      ∙ ap (λ o. captured (written o)) here
      ∙ ap some (trim_newlines-newline value)

  -- What a `set` that succeeds does to the two views.
  pub set-current :
      (s s' : S) (key value : Bytes)
      → is_name key ≡ true
      → is_empty value ≡ false
      → no_nul value ≡ true
      → set shell false s key value ≡ (true, s')
      → (k : Bytes) → is_name k ≡ true
      → (current s' k ≡ (if equal k key then some value else current s k))
        × (saved s' k ≡ saved s k)
  unfolding set
  set-current s s' key value h full whole done k name =
      let valid = is_name-valid_key key h in
      let ran : shell.system s (c_str (set_command shell key value)) ≡ (true, s') =
        rw valid at done in
      rw ran at (
        store.sets s (c_str (set_command shell key value)) key value h full
          (words-set_command shell key value valid whole) (ap (λ r. r.0) ran) k name)

  pub commit-saved :
      (s s' : S) (package_name : Bytes)
      → valid_key package_name ≡ true
      → commit shell false s package_name ≡ (true, s')
      → (k : Bytes)
      → (current s' k ≡ current s k)
        × (saved s' k ≡ (if in_package package_name k then current s k else saved s k))
  unfolding commit
  commit-saved s s' package_name h done k =
      let ran : shell.system s (c_str (commit_command shell package_name)) ≡ (true, s') =
        rw h at done in
      rw ran at (
        store.commits s (c_str (commit_command shell package_name)) package_name
          (words-commit_command shell package_name h) (ap (λ r. r.0) ran) k)
