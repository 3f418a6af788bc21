-- ===== src/Uci/Values.antt =====
-- Numbers read from the configuration.
use cpe_acs_connector_tr.Base.{
  ℕ, ◌%◌, ◌^◌, ◌<◌, ◌≤◌, some, ◌≡◌, arith, leb, if◌then◌else◌, Bytes, to_string, stoul-to_string,
}
use cpe_acs_connector_tr.Shell.{Shell}
use cpe_acs_connector_tr.Uci.{get, get_unsigned, unsigned_of}

unsigned_of-to_string :
    (n fallback : ℕ)
    → unsigned_of (some (to_string n)) fallback ≡ (if leb (2 ^ 64) n then fallback else n % 2 ^ 32)
unsigned_of-to_string n fallback = ground (arith, stoul-to_string n)

module _ {S : Type 0} (shell : Shell S) where
  -- A number that the configuration holds in decimal is read as that number below 2^32; from
  -- there up to 2^64 it wraps to its remainder by 2^32, and past that the fallback is taken.
  pub get_unsigned-to_string :
      (s : S) (key : Bytes) (n fallback : ℕ)
      → get shell s key ≡ some (to_string n)
      → (n < 2 ^ 32 → get_unsigned shell s key fallback ≡ n)
        × (n < 2 ^ 64 → get_unsigned shell s key fallback ≡ n % 2 ^ 32)
        × (2 ^ 64 ≤ n → get_unsigned shell s key fallback ≡ fallback)
  unfolding get_unsigned
  get_unsigned-to_string s key n fallback stored = ground (arith, unsigned_of-to_string n fallback)
