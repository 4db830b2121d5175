-- ===== src/Http.antt =====
-- What a handler of the daemon reads of a request and what it sends: net/http's types, cut down to
-- the fields that cmd/keymasterd reads and sets.
use keymaster.Prelude.{ℕ, String, Bool, List, Option}
use keymaster.Prelude.Int.{ℤ}
use keymaster.Keys.{SshCertificate}

-- A certificate that the TLS layer has verified. Keys are their serialised forms.
pub record Certificate : Type 0 where
  pub common_name : String
  pub not_before : ℕ
  pub public_key : String
  pub extensions : List (String × String)

-- The attributes that the daemon sets. A cookie of a request has its name and value only.
pub record Cookie : Type 0 where
  pub name : String
  pub value : String
  pub expires : ℕ
  pub path : String
  pub http_only : Bool
  pub secure : Bool
  pub same_site_none : Bool

pub record BasicAuth : Type 0 where
  pub user : String
  pub pass : String

-- `form` is what ParseForm finds, none where it fails; `tls` is the verified chains, none where the
-- connection has no TLS. An absent header is "".
pub record Request : Type 0 where
  pub method : String
  pub host : String
  pub url_path : String
  pub url_string : String
  pub remote_addr : String
  pub referer : String
  pub user_agent : String
  pub accept : List String
  pub origin : String
  pub authorization : String
  pub cookies : List (String × String)
  pub basic_auth : Option BasicAuth
  pub form : Option (List (String × List String))
  pub pubkey_file : Option String
  pub tls : Option (List (List Certificate))

-- The pages that are rendered from templates, with the data that they are given.
pub data Page : Type 0 where
  login_page : (show_oauth2 : Bool) (login_destination error_message : String) → Page
  second_factor_page :
      (show_bootstrap_otp show_vip show_u2f show_totp show_okta : Bool) (login_destination : String)
      → Page
  users_page : (auth_username : String) (users : List String) → Page
  new_bootstrap_otp_page :
      (auth_username username : String) (expires_at : ℕ) (fingerprint value : String) → Page

-- The two answers of the OpenID provider, which are written as JSON.
pub record AccessToken : Type 0 where
  pub access_token : String
  pub token_type : String
  pub expires_in : ℤ
  pub id_token : String

pub record OpenidConnectUserInfo : Type 0 where
  pub subject : String
  pub name : String
  pub login : String
  pub username : String
  pub email : String
  pub groups : List String

-- What leaves the handler: the calls on the response writer, and the events that are published.
pub data Effect : Type 0 where
  set_header : (name value : String) → Effect
  set_cookie : Cookie → Effect
  write_header : (code : ℕ) → Effect
  write : (text : String) → Effect
  http_error : (text : String) (code : ℕ) → Effect
  redirect : (destination : String) (code : ℕ) → Effect
  render : Page → Effect
  write_json : Page → Effect
  login_response : (message : String) (backends : List String) → Effect
  set_username : String → Effect
  publish_auth : (auth_type username : String) → Effect
  publish_vip_auth : (auth_type username : String) → Effect
  publish_web_login : (username : String) → Effect
  token_response : AccessToken → Effect
  userinfo_response : OpenidConnectUserInfo → Effect
  publish_service_provider_login : (url username : String) → Effect
  publish_ssh : SshCertificate → Effect
  publish_x509 : (der : String) → Effect

abbrev pub status_ok : ℕ
status_ok = 200

abbrev pub status_found : ℕ
status_found = 302

abbrev pub status_temporary_redirect : ℕ
status_temporary_redirect = 307

abbrev pub status_bad_request : ℕ
status_bad_request = 400

abbrev pub status_unauthorized : ℕ
status_unauthorized = 401

abbrev pub status_forbidden : ℕ
status_forbidden = 403

abbrev pub status_not_found : ℕ
status_not_found = 404

abbrev pub status_method_not_allowed : ℕ
status_method_not_allowed = 405

abbrev pub status_precondition_failed : ℕ
status_precondition_failed = 412

abbrev pub status_unprocessable_entity : ℕ
status_unprocessable_entity = 422

abbrev pub status_internal_server_error : ℕ
status_internal_server_error = 500

abbrev pub status_service_unavailable : ℕ
status_service_unavailable = 503
