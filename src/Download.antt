-- ===== src/Download.antt =====
-- The transfer that a Download RPC asks for (src/DownloadManager.cpp).
pub mod Transfer
use cpe_acs_connector_tr.Base.{
  ℕ, Bool, true, false, not, ◌||◌, List, [], ◌∷◌, ◌++◌, Option, none, some, ◌==◌, if◌then◌else◌,
  Bytes, codes, is_empty, is_alnum, to_string,
}
use cpe_acs_connector_tr.Types.{DownloadRequest, TransferResult}
use cpe_acs_connector_tr.Http.{HttpResponse, HttpConfig, ok}
use cpe_acs_connector_tr.HttpClient
use cpe_acs_connector_tr.HttpClient.{Curl}

-- What the code uses of the system.
pub record System (S : Type 0) : Type 0 where
  -- `mkdir`: none where it returned 0, and `errno` otherwise.
  pub make_directory : S → Bytes → Option ℕ × S
  -- The text of `nowIso()`.
  pub now_iso : S → Bytes
  -- `sleep_for`, in seconds.
  pub sleep : S → ℕ → S

abbrev pub is_name_byte : ℕ → Bool
is_name_byte c = is_alnum c || c == b'.' || c == b'_' || c == b'-'

pub safe_bytes : Bytes → Bytes
safe_bytes [] = []
safe_bytes (c ∷ name) = (if is_name_byte c then c ∷ [] else []) ++ safe_bytes name

unfoldable pub safe_file_name : Bytes → Bytes
unfolding safe_bytes
safe_file_name name = if is_empty (safe_bytes name) then codes "download.bin" else safe_bytes name

-- `find_last_of('/')` and `substr(slash + 1)`: what follows the last slash.
abbrev pub or_own : Option Bytes → Bytes → Bool → Option Bytes
or_own none rest slash = if slash then some rest else none
or_own (some t) rest slash = some t

pub behind_last_slash : Bytes → Option Bytes
behind_last_slash [] = none
behind_last_slash (c ∷ url) = or_own (behind_last_slash url) url (c == b'/')

abbrev text_or : Option Bytes → Bytes → Bytes
text_or none fallback = fallback
text_or (some t) fallback = t

-- The name of the file before it is made safe.
unfoldable pub target_name : DownloadRequest → Bytes
unfolding behind_last_slash
target_name request =
    if is_empty request.target_file_name
    then text_or (behind_last_slash request.url) (codes "download.bin")
    else request.target_file_name

unfoldable pub target_path : Bytes → DownloadRequest → Bytes
unfolding safe_file_name target_name
target_path directory request = directory ++ (b'/' ∷ safe_file_name (target_name request))

abbrev fault_text : HttpResponse → Bytes
fault_text r = if is_empty r.error then codes "HTTP status " ++ to_string r.status else r.error

-- `EEXIST` of Linux. A file of that name gives it too.
abbrev pub eexist : ℕ
eexist = 17

-- `mkdir(…) != 0 && errno != EEXIST`.
abbrev pub no_directory : Option ℕ → Bool
no_directory none = false
no_directory (some errno) = not (errno == eexist)

module _ {S : Type 0} (system : System S) (curl : Curl S) (directory : Bytes) where
  -- The directory is there: the download, and its result.
  unfoldable pub transfer : S → DownloadRequest → HttpConfig → Bytes → TransferResult × S
  unfolding target_path
  transfer s request base start_time =
      let (response, s') =
        HttpClient.download curl base s request.url request.username request.password
          (target_path directory request) 300 in
      (
        record {
          command_key = request.command_key;
          fault_code = if not (ok response) then 9010 else 0;
          fault_string = if not (ok response) then fault_text response else [];
          start_time = start_time;
          complete_time = system.now_iso s';
        },
        s',
      )

  unfoldable pub execute : S → DownloadRequest → HttpConfig → TransferResult × S
  unfolding transfer
  execute s0 request base =
      let s =
        if not (request.delay_seconds == 0) then system.sleep s0 request.delay_seconds else s0 in
      let start_time = system.now_iso s in
      let (failure, s') = system.make_directory s directory in
      if no_directory failure
      then (
        record {
          command_key = request.command_key;
          fault_code = 9010;
          fault_string = codes "Cannot create download directory";
          start_time = start_time;
          complete_time = system.now_iso s';
        },
        s',
      )
      else transfer s' request base start_time
