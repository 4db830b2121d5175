-- ===== src/Tests/Data.antt =====
-- The example's surroundings, states and requests.
use keymaster.Prelude.{ℕ, ◌+◌, ◌*◌, true, false, [], ◌∷◌, none, some, str_eq, if◌then◌else◌}
use keymaster.Prelude.Int.{pos}
use keymaster.Result.{ok, err}
use keymaster.Profile.{UserProfile}
use keymaster.Keys.{ed25519}
use keymaster.State.{Env, RuntimeState, answers, push_response_approved, rsa_signer}
use keymaster.Jwt.{second, unix_epoch}
use keymaster.Http.{Request}
use keymaster.Storage.{default_profile}
use keymaster.Tests.{sign_example, verify_example}

-- A thousand seconds after 1970.
abbrev pub moment : ℕ
moment = (unix_epoch + 1000) * second

abbrev pub env_example : Env
env_example = record {
  now = moment;
  to_lower = λ s. s;
  replace_all = λ expression text. text;
  url_host = λ s. ok s;
  split_host_port = λ s. ok (s, "443");
  parse_ip = λ s. some (10 ∷ 1 ∷ 2 ∷ 3 ∷ []);
  public_error_text = λ code message. message;
  template_error = none;
  match_string = λ expression text. ok (str_eq expression text);
  parse_url = λ s. ok (record { scheme = "https"; raw_query = ""; path = "/"; hostname = s });
  query_escape = λ s. s;
  query_unescape = λ s. ok s;
  rsa_encrypt = λ key text. some (ok text);
  random_bytes = ok "bytes";
  aes_gcm_seal = λ key nonce text. ok text;
  aes_gcm_open = λ key nonce text. ok text;
  json_text = λ o. ok "json";
  json_object = λ s. err "unused";
  sha256_base64 = λ s. s;
  public_of = λ signer. signer;
  random_cookie = ok "cookie";
  random_text = ok "random";
  sha512 = λ s. s;
  ssh_public_key = λ s. ok s;
  hex = λ s. s;
  sha256_hex = λ s. s;
  jose_signer = λ key. ok "signer";
  sign_compact = sign_example;
  parse_signed = λ s. ok s;
  verify_payload = verify_example;
  password_authenticate = λ checker user pass. ok (str_eq pass "secret");
  ldap_user_groups = λ url user. ok [];
  ldap_user_attributes = λ url user names. ok [];
  git_user_groups = λ db user. ok [];
  certificate_revoked = λ c. (false, true);
  primary = answers;
  cache_error = none;
  save_error = none;
  send_email_error = none;
  rsa_decrypt = λ signer text. ok text;
  otp_text = λ n. "123456";
  totp_validate = λ now otp secret. str_eq otp secret;
  vip_validate_otp = λ user otp. ok true;
  vip_start_push = λ user. ok "transaction";
  vip_push_approved = λ transaction. ok true;
  is_okta = λ checker. false;
  okta_validate_otp = λ user otp. ok true;
  okta_validate_push = λ user. ok push_response_approved;
  armor_decode = λ s. ok s;
  openpgp_read_message = λ text password. if str_eq password "open" then ok text else err "pgp";
  pem_decode = λ s. some ("RSA PRIVATE KEY", s);
  parse_pkcs1_private_key = λ s. ok (rsa_signer, s);
  parse_ec_private_key = λ s. err "unused";
  parse_pkcs8_private_key = λ s. err "unused";
  parse_raw_private_key = λ s. err "unused";
  sha256 = λ s. s;
  base64_std = λ s. s;
  signature_of = λ signer digest. ok digest;
  public_key_of = λ signer. ed25519 signer;
  create_self_signed = λ template key signer. ok "ca";
  asn1_marshal = λ families. err "unused";
  asn1_unmarshal = λ value. err "unused";
  atoi = λ s. ok (pos 123456);
  parse_duration = λ s. err "unused";
  rand_int = λ limit. ok 7;
  ssh_key_matches = λ s. true;
  parse_authorized_key =
      λ s. ok (record { algorithm = "ssh-ed25519"; crypto_key = some (ed25519 s) });
  new_ssh_signer = λ s. ok s;
  sign_ssh_cert = λ signer cert. ok "cert";
  ssh_cert_type = λ s. s;
  pem_encode = λ s. s;
  pem_public_key = λ s. some s;
  parse_pkix_key = λ s. ok (ed25519 s);
  parse_certificate = λ s. ok s;
  kerberos_name = λ user realm. ok user;
  marshal_groups = λ groups. ok "groups";
  create_certificate = λ template ca key signer. ok "der";
}

-- Alice has one device, whose secret is its only password.
abbrev pub alice : UserProfile
alice = record default_profile {
  totp_auth_data =
      (
        1,
        record {
          enabled = true;
          created_at = 0;
          name = "phone";
          encrypted_secret = "123456" ∷ [];
          totp_type = 0;
          validator_addr = "";
        },
      )
      ∷ [];
}

-- Bob has none yet, but a bootstrap password.
abbrev pub bob : UserProfile
bob = record default_profile {
  bootstrap_otp = record { expires_at = moment + 1; sha512_hash = some "123456" };
}

-- The push under the cookie "p" was started by Bob.
abbrev pub state_example : RuntimeState
state_example = record {
  config = record {
    base = record {
      http_address = ":443";
      allowed_auth_backends_for_certs = "password" ∷ [];
      allowed_auth_backends_for_web_ui = "password" ∷ [];
      allow_self_service_bootstrap_otp = true;
      admin_users = [];
      admin_groups = [];
      automation_user_groups = [];
      automation_users = [];
      disable_username_normalization = true;
      enable_local_totp = true;
    };
    user_info = record {
      git_db_group_prepend = "";
      ldap_group_prepend = "";
      ldap_target_urls = [];
    };
    okta_enable_2fa = false;
    oauth2_enabled = false;
    symantec_vip_enabled = true;
    openid_connect_idp = record {
      default_email_domain = "";
      clients =
          record {
            client_id = "app";
            client_secret = "shh";
            allowed_redirect_url_re = [];
            allowed_redirect_domains = "example.com" ∷ [];
          }
          ∷ [];
    };
  };
  ssh_ca_raw_file_content = "k";
  ed25519_ca_file_content = "";
  signer = some "k";
  ed25519_signer = some "e";
  host_identity = "h";
  kerberos_realm = none;
  ca_cert_der = "ca";
  vip_push_cookie =
      ("p", record { expires_at = moment; username = "bob"; transaction_id = "t" }) ∷ [];
  local_auth_data = [];
  pending_oauth2 = [];
  okta_username_filter_re = none;
  git_db = none;
  db = ("alice", alice) ∷ ("bob", bob) ∷ [];
  cache_db = [];
  password_checker = some "checker";
  keymaster_public_keys = "k" ∷ [];
  is_admin_cache = none;
  email_manager = none;
  totp_local_rate_limit = [];
}

-- Alice asks for an SSH certificate with her password.
abbrev pub cert_request : Request
cert_request = record {
  method = "POST";
  host = "h";
  url_path = "/certgen/alice";
  url_string = "/certgen/alice";
  remote_addr = "10.1.2.3:1";
  referer = "";
  user_agent = "";
  accept = [];
  origin = "";
  authorization = "";
  cookies = [];
  basic_auth = some (record { user = "alice"; pass = "secret" });
  form = some [];
  pubkey_file = some "ssh-ed25519 key";
  tls = none;
}

-- A POST of a one-time password within Alice's session.
abbrev pub otp_request : Request
otp_request = record cert_request {
  cookies = ("auth_cookie", "t1") ∷ ("vip_push_cookie", "p") ∷ [];
  basic_auth = none;
  form = some (("OTP", "123456" ∷ []) ∷ []);
}
