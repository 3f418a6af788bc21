-- ===== src/Examples/Stores.antt =====
-- A configuration store behind the shell: `uci` over two maps, the values that are read and those
-- that are stored.
use cpe_acs_connector_tr.Base.{
  ℕ, Bool, true, false, List, [], ◌∷◌, ◌++◌, Option, none, some, ◌≡◌, refl, ap, if◌then◌else◌,
  Bytes, codes, equal, length, drop,
}
use cpe_acs_connector_tr.Shell.{Shell}
use cpe_acs_connector_tr.Uci.{is_key_byte, valid_key, uci_binary, get_command, set}
use cpe_acs_connector_tr.Uci.Quote.{key_bytes-other}
use cpe_acs_connector_tr.Uci.Words.{words}
use cpe_acs_connector_tr.Uci.Store.{UciStore, written, is_name-valid_key, in_package}
use cpe_acs_connector_tr.ConnectionRequest.{split_at}
use cpe_acs_connector_tr.ConnectionRequest.Authentic.{split_at-append}

abbrev pub Stores : Type 0
Stores = (Bytes → Option Bytes) × (Bytes → Option Bytes)

abbrev assigned : Option (Bytes × Bytes) → Stores → Stores
assigned none s = s
assigned (some (key, value)) s = (λ k. if equal k key then some value else s.0 k, s.1)

abbrev committed : Bytes → Stores → Stores
committed package_name s = (s.0, λ k. if in_package package_name k then s.0 k else s.1 k)

-- `uci -q set key=value` and `uci -q commit package`.
abbrev uci : Option (List Bytes) → Stores → Stores
uci (some (binary ∷ quiet ∷ command ∷ argument ∷ [])) s =
    if equal command (codes "set")
    then assigned (split_at b'=' argument) s
    else if equal command (codes "commit")
    then committed argument s
    else s
uci words s = s

abbrev looked_up : Option (Bytes × Bytes) → Stores → Option (Bytes × Bool)
looked_up none s = none
looked_up (some (key, behind)) s = written (s.0 key)

abbrev pub uci_shell : Shell Stores
uci_shell = record {
  popen = λ s command. looked_up (split_at b' ' (drop (length (codes "uci -q get ")) command)) s;
  system = λ s command. (true, uci (words command) s);
  has_sbin_uci = false;
}

split_at-valid_key :
    (c : ℕ) (key rest : Bytes)
    → is_key_byte c ≡ false
    → valid_key key ≡ true
    → split_at c (key ++ c ∷ rest) ≡ some (key, rest)
unfolding valid_key
split_at-valid_key c [] rest other h = cc
split_at-valid_key c (d ∷ key) rest other h =
    split_at-append c (d ∷ key) rest (key_bytes-other c (d ∷ key) other h)

pub uci_gets :
    (s : Stores) (key : Bytes)
    → valid_key key ≡ true
    → uci_shell.popen s (get_command uci_shell key) ≡ written (s.0 key)
unfolding get_command uci_binary codes
uci_gets s key h =
    ap (λ o. looked_up o s) (split_at-valid_key b' ' key (codes "2>/dev/null") refl h)

pub uci_sets :
    (s : Stores) (command key value : Bytes)
    → valid_key key ≡ true
    → words command
      ≡ some (uci_binary uci_shell ∷ codes "-q" ∷ codes "set" ∷ (key ++ b'=' ∷ value) ∷ [])
    → uci (words command) s ≡ assigned (some (key, value)) s
unfolding codes equal
uci_sets s command key value h e =
    rw e (ap (λ o. assigned o s) (split_at-valid_key b'=' key value refl h))

pub uci_commits :
    (s : Stores) (command package_name : Bytes)
    → words command ≡ some (uci_binary uci_shell ∷ codes "-q" ∷ codes "commit" ∷ package_name ∷ [])
    → uci (words command) s ≡ committed package_name s
unfolding codes equal
uci_commits s command package_name e = rw e refl

abbrev pub uci_store : UciStore Stores uci_shell
uci_store = record {
  current = λ s. s.0;
  saved = λ s. s.1;
  gets = uci_gets;
  sets = λ s command key value h full e done k name. (
    ap (λ r. r.0 k) (uci_sets s command key value (is_name-valid_key key h) e),
    ap (λ r. r.1 k) (uci_sets s command key value (is_name-valid_key key h) e),
  );
  commits = λ s command package_name e done k. (
    ap (λ r. r.0 k) (uci_commits s command package_name e),
    ap (λ r. r.1 k) (uci_commits s command package_name e),
  );
}

abbrev pub nothing_stored : Stores
nothing_stored = (λ k. none, λ k. none)

-- A value with a quote, a blank and a line end.
abbrev text : Bytes
text = codes "it's $(reboot)\n"

abbrev written_text : Stores
unfolding set
written_text = (set uci_shell false nothing_stored (codes "a.b.c") text).1
