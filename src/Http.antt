-- ===== src/Http.antt =====
-- The exchange with the ACS (include/tr069/HttpClient.hpp). libcurl is not part of the
-- repository: the answers that it brings are an input, one for each request.
use cpe_acs_connector_tr.Base.{ℕ, Bool, ◌&&◌, Bytes, is_empty, leb, ltb}

-- `status` is 0 where no response came. Codes are not negative.
pub record HttpResponse : Type 0 where
  pub status : ℕ
  pub body : Bytes
  pub error : Bytes

pub record HttpConfig : Type 0 where
  pub url : Bytes
  pub username : Bytes
  pub password : Bytes
  pub ca_file : Bytes
  pub insecure_tls : Bool
  pub timeout_seconds : ℕ

unfoldable pub ok : HttpResponse → Bool
ok r = is_empty r.error && leb 200 r.status && ltb r.status 300
