-- ===== src/Clock.antt =====
-- The text of a time (src/SoapBuilder.cpp, `isoTimeNow`; src/DownloadManager.cpp, `nowIso`): the
-- clock and `gmtime_r` are not part of the repository, and what they give is an argument.
pub mod Text
use cpe_acs_connector_tr.Base.{ℕ, ◌+◌, ◌/◌, ◌%◌, List, [], ◌∷◌, Bytes, codes, to_string, stream}

-- The members of `std::tm` that are written: the years since 1900, the months since January.
pub record Tm : Type 0 where
  pub sec : ℕ
  pub min : ℕ
  pub hour : ℕ
  pub mday : ℕ
  pub mon : ℕ
  pub year : ℕ

-- "%m", "%d", "%H", "%M" and "%S": two digits.
abbrev pub two_digits : ℕ → Bytes
two_digits n = (b'0' + n / 10 % 10) ∷ (b'0' + n % 10) ∷ []

-- What "%Y-%m-%dT%H:%M:%SZ" writes, piece by piece.
abbrev pub time_pieces : Tm → List Bytes
time_pieces tm =
    to_string (tm.year + 1900)
    ∷ codes "-"
    ∷ two_digits (tm.mon + 1)
    ∷ codes "-"
    ∷ two_digits tm.mday
    ∷ codes "T"
    ∷ two_digits tm.hour
    ∷ codes ":"
    ∷ two_digits tm.min
    ∷ codes ":"
    ∷ two_digits tm.sec
    ∷ codes "Z"
    ∷ []

-- `std::put_time`.
unfoldable pub iso_time : Tm → Bytes
iso_time tm = stream (time_pieces tm)
