-- ===== src/State.antt =====
-- cmd/keymasterd/app.go: the daemon's state, and what its code takes from outside the repository.
use keymaster.Prelude.{ℕ, String, Bool, List, Option}
use keymaster.Prelude.Int.{ℤ}
use keymaster.Prelude.Dict.{Dict}
use keymaster.Result.{Result}
use keymaster.AdminCache.{Cache}
use keymaster.Config.{AppConfigFile}
use keymaster.Profile.{UserProfile}
use keymaster.Http.{Certificate}
use keymaster.Net.{IpAddressFamily}
use keymaster.Json.{JsonObject}
use keymaster.Keys.{PublicKey, SshKey, SshCertificate, X509Template}

pub record AuthInfo : Type 0 where
  pub auth_type : ℕ
  pub expires_at : ℕ
  pub issued_at : ℕ
  pub username : String

pub record PushPollTransaction : Type 0 where
  pub expires_at : ℕ
  pub username : String
  pub transaction_id : String

pub record LocalUserData : Type 0 where
  pub u2f_auth_challenge : Option String
  pub expires_at : ℕ

pub record PendingAuth2Request : Type 0 where
  pub expires_at : ℕ
  pub state : String

pub record TotpRateLimitInfo : Type 0 where
  pub last_check_time : ℕ
  pub fail_count : ℕ
  pub last_fail_time : ℕ
  pub lockout_expiration_time : ℕ

-- Signers and keys are their serialised forms; a nil pointer is `none`. `db` and `cache_db` are the
-- profile tables of the primary database and of its local copy.
pub record RuntimeState : Type 0 where
  pub config : AppConfigFile
  pub ssh_ca_raw_file_content : String
  pub ed25519_ca_file_content : String
  pub signer : Option String
  pub ed25519_signer : Option String
  pub host_identity : String
  pub kerberos_realm : Option String
  pub ca_cert_der : String
  pub vip_push_cookie : Dict PushPollTransaction
  pub local_auth_data : Dict LocalUserData
  pub pending_oauth2 : Dict PendingAuth2Request
  pub okta_username_filter_re : Option String
  pub git_db : Option String
  pub db : Dict UserProfile
  pub cache_db : Dict UserProfile
  pub password_checker : Option String
  pub keymaster_public_keys : List String
  pub is_admin_cache : Option Cache
  pub email_manager : Option String
  pub totp_local_rate_limit : Dict TotpRateLimitInfo

-- net/url: the parts of a parsed URL that are read
pub record Url : Type 0 where
  pub scheme : String
  pub raw_query : String
  pub path : String
  pub hostname : String

-- How the primary database answers during a request.
pub data Primary : Type 0 where
  answers : Primary
  fails : String → Primary
  times_out : Primary

-- lib/authenticators/okta: what a push has come to
pub data PushResponse : Type 0 where
  push_response_approved : PushResponse
  push_response_rejected : PushResponse
  push_response_timeout : PushResponse
  push_response_waiting : PushResponse

-- lib/certgen: the kinds of private key that a PEM file may hold
pub data SignerKind : Type 0 where
  rsa_signer : SignerKind
  ecdsa_signer : SignerKind
  ed25519_signer_kind : SignerKind
  other_signer : SignerKind

-- What one request meets outside the code: the clock, which stands still during a request, the
-- libraries, the directory, and the other services. `now` counts nanoseconds since year 1.
pub record Env : Type 0 where
  pub now : ℕ
  -- text: strings.ToLower beyond ASCII, compiled expressions, net/url and net
  pub to_lower : String → String
  pub replace_all : (expression text : String) → String
  pub url_host : String → Result String
  pub split_host_port : String → Result (String × String)
  pub parse_ip : String → Option (List ℕ)
  -- fmt.Sprintf of a code, its status text and a message; the error of a template, if it has one
  pub public_error_text : (code : ℕ) (message : String) → String
  pub template_error : Option String
  pub match_string : (expression text : String) → Result Bool
  pub parse_url : String → Result Url
  pub query_escape : String → String
  pub query_unescape : String → Result String
  -- crypto: random bytes in base64, SHA-512, the SSH form of a key and its SHA-256 in hexadecimal
  pub random_text : Result String
  pub sha512 : String → String
  pub ssh_public_key : String → Result String
  -- `%x`
  pub hex : String → String
  pub sha256_hex : String → String
  -- RSA-OAEP under a public key, none for a key of another kind; AES-GCM of a key and a nonce, on
  -- texts in base64; the JSON text of an object; the base64 of a SHA-256; a signer's public key
  pub rsa_encrypt : (public_key clear_text : String) → Option (Result String)
  pub random_bytes : Result String
  pub aes_gcm_seal : (key nonce plain_text : String) → Result String
  pub aes_gcm_open : (key nonce cipher_text : String) → Result String
  pub json_text : JsonObject → Result String
  pub json_object : String → Result JsonObject
  pub sha256_base64 : String → String
  pub public_of : (signer : String) → String
  -- the random text of a cookie, drawn by itself
  pub random_cookie : Result String
  -- go-jose: a signer of a key, the compact form, and the payload under a key
  pub jose_signer : Option String → Result String
  pub sign_compact : (signer : String) (payload : JsonObject) → Result String
  pub parse_signed : String → Result String
  pub verify_payload : (key token : String) → Result JsonObject
  -- the other services
  pub password_authenticate : (checker username password : String) → Result Bool
  pub ldap_user_groups : (url username : String) → Result (List String)
  pub ldap_user_attributes :
      (url username : String) (attributes : List String) → Result (Dict (List String))
  pub git_user_groups : (db username : String) → Result (List String)
  pub certificate_revoked : Certificate → Bool × Bool
  pub primary : Primary
  pub cache_error : Option String
  pub save_error : Option String
  pub send_email_error : Option String
  pub rsa_decrypt : (signer cipher_text : String) → Result String
  -- fmt.Sprintf("%06d", otp)
  pub otp_text : ℤ → String
  pub totp_validate : (now : ℕ) (otp secret : String) → Bool
  pub vip_validate_otp : (username : String) (otp : ℤ) → Result Bool
  pub vip_start_push : (username : String) → Result String
  pub vip_push_approved : (transaction : String) → Result Bool
  pub is_okta : (checker : String) → Bool
  pub okta_validate_otp : (username : String) (otp : ℤ) → Result Bool
  pub okta_validate_push : (username : String) → Result PushResponse
  -- unsealing: openpgp, the private keys of PEM files, and a self-signed certificate
  pub armor_decode : String → Result String
  pub openpgp_read_message : (body password : String) → Result String
  pub pem_decode : String → Option (String × String)
  pub parse_pkcs1_private_key : String → Result (SignerKind × String)
  pub parse_ec_private_key : String → Result (SignerKind × String)
  pub parse_pkcs8_private_key : String → Result (SignerKind × String)
  pub parse_raw_private_key : String → Result (SignerKind × String)
  pub sha256 : String → String
  pub base64_std : String → String
  pub signature_of : (signer digest : String) → Result String
  pub public_key_of : (signer : String) → PublicKey
  pub create_self_signed : X509Template → (key : PublicKey) (signer : String) → Result String
  -- certificates
  pub asn1_marshal : List IpAddressFamily → Result String
  pub asn1_unmarshal : String → Result (List IpAddressFamily)
  pub atoi : String → Result ℤ
  pub parse_duration : String → Result ℤ
  pub rand_int : (limit : ℕ) → Result ℕ
  pub ssh_key_matches : String → Bool
  pub parse_authorized_key : String → Result SshKey
  pub new_ssh_signer : String → Result String
  pub sign_ssh_cert : (signer : String) → SshCertificate → Result String
  pub ssh_cert_type : (algorithm : String) → String
  pub pem_encode : String → String
  pub pem_public_key : String → Option String
  pub parse_pkix_key : String → Result PublicKey
  pub parse_certificate : String → Result String
  pub kerberos_name : (user realm : String) → Result String
  pub marshal_groups : List String → Result String
  pub create_certificate :
      X509Template → (ca : String) (key : PublicKey) (signer : String) → Result String

-- The same surroundings at another time.
abbrev pub at : Env → ℕ → Env
at env t = record env { now = t }
