-- ===== src/HttpClient.antt =====
-- The download of a file (src/HttpClient.cpp, `download` and `applyTls`), over libcurl and the
-- file system, which are arguments. `S` is the state of the device. `Post` models
-- `HttpClient::post`.
pub mod Post
pub mod Answered
use cpe_acs_connector_tr.Base.{
  ℕ, Bool, not, [], Option, none, some, if◌then◌else◌, Bytes, codes, is_empty,
}
use cpe_acs_connector_tr.Http.{HttpResponse, HttpConfig, ok}

-- The options that `applyTls` sets.
pub record TlsOptions : Type 0 where
  pub verify_peer : ℕ
  pub verify_host : ℕ
  pub ca_info : Option Bytes

-- The options that `download` sets on its handle.
pub record Request : Type 0 where
  pub url : Bytes
  pub credentials : Option (Bytes × Bytes)
  pub timeout_seconds : ℕ
  pub tls : TlsOptions
  pub output_path : Bytes

pub record Curl (S : Type 0) : Type 0 where
  -- `fopen(path, "wb")`.
  pub open_file : S → Bytes → Bool × S
  -- `curl_easy_init` gives a handle.
  pub easy_init : S → Bool
  -- `curl_easy_perform`: the text of the error code, empty if the code is `CURLE_OK`, and the
  -- response code.
  pub perform : S → Request → (Bytes × ℕ) × S
  -- `std::remove`.
  pub remove_file : S → Bytes → S

unfoldable pub apply_tls : HttpConfig → TlsOptions
apply_tls config = record {
  verify_peer = if config.insecure_tls then 0 else 1;
  verify_host = if config.insecure_tls then 0 else 2;
  ca_info = if not (is_empty config.ca_file) then some config.ca_file else none;
}

abbrev pub failed : Bytes → HttpResponse
failed error = record { status = 0; body = []; error = error }

module _ {S : Type 0} (curl : Curl S) where
  -- From `curl_easy_perform` on.
  unfoldable pub perform_download : S → Request → HttpResponse × S
  perform_download s request =
      let ((error, status), s') = curl.perform s request in
      let response : HttpResponse = record { status = status; body = []; error = error } in
      (response, if not (ok response) then curl.remove_file s' request.output_path else s')

  unfoldable pub download :
      HttpConfig → S → (url username password output_path : Bytes) → ℕ → HttpResponse × S
  unfolding perform_download apply_tls
  download config s url username password output_path timeout_seconds =
      let (opened, s') = curl.open_file s output_path in
      let request : Request = record {
        url = url;
        credentials = if not (is_empty username) then some (username, password) else none;
        timeout_seconds = timeout_seconds;
        tls = apply_tls config;
        output_path = output_path;
      } in
      if not opened
      then (failed (codes "Cannot open output file"), s')
      else if not (curl.easy_init s')
      then (failed (codes "curl_easy_init failed"), s')
      else perform_download s' request
