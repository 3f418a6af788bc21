-- ===== src/Examples/Devices.antt =====
-- The commands of the shell, the download and the configuration at known inputs.
use cpe_acs_connector_tr.Base.{
  c_str, ℕ, ◌^◌, ◌%◌, ◌<◌, ◌≤◌, true, [], ◌∷◌, ◌++◌, some, ◌≡◌, refl, Bytes, codes, to_string,
}
use cpe_acs_connector_tr.Types.{DownloadRequest}
use cpe_acs_connector_tr.Shell.{Shell}
use cpe_acs_connector_tr.Uci.{valid_key, uci_binary, set_command, get, get_unsigned}
use cpe_acs_connector_tr.Uci.Words.{words}
use cpe_acs_connector_tr.Uci.Quote.{words-set_command}
use cpe_acs_connector_tr.Uci.Values.{get_unsigned-to_string}
use cpe_acs_connector_tr.Examples.{shell}

abbrev key : Bytes
key = codes "tr69.settings.url"

-- A value that tries to leave its quotes.
abbrev hostile : Bytes
hostile = codes "x'; reboot; '"

words-set_command_example :
    words (c_str (set_command shell key hostile))
    ≡ some (uci_binary shell ∷ codes "-q" ∷ codes "set" ∷ (key ++ (b'=' ∷ hostile)) ∷ [])
unfolding valid_key codes
words-set_command_example = words-set_command shell key hostile refl refl

-- Every key holds 5000000000.
abbrev large : Shell ℕ
large = record shell { popen = λ s command. some (to_string 5000000000 ++ 10 ∷ [], true) }

large_stored : get large 7 key ≡ some (to_string 5000000000)
unfolding get codes to_string valid_key
large_stored = refl

get_unsigned-to_string_example :
    (5000000000 < 2 ^ 32 → get_unsigned large 7 key 5 ≡ 5000000000)
    × (5000000000 < 2 ^ 64 → get_unsigned large 7 key 5 ≡ 5000000000 % 2 ^ 32)
    × (2 ^ 64 ≤ 5000000000 → get_unsigned large 7 key 5 ≡ 5)
get_unsigned-to_string_example = get_unsigned-to_string large 7 key 5000000000 5 large_stored

abbrev request : DownloadRequest
request = record {
  command_key = codes "k";
  file_type = codes "1 Firmware Upgrade Image";
  url = codes "http://acs/a/../image.bin";
  username = [];
  password = [];
  target_file_name = [];
  delay_seconds = 3;
}
