-- ===== src/CheckAuth.antt =====
-- cmd/keymasterd/app.go: checkAuth, the gate of every handler, with what it calls.
pub mod Quiet
pub mod Evidence
pub mod Sound
use Prim.Native.String.{len}
use keymaster.Prelude.{
  ℕ, String, Bool, true, false, not, ◌&&◌, ◌||◌, List, [], ◌∷◌, Option, none, some, any, is_some,
  ltb, str_eq, bit_or, if◌then◌else◌,
}
use keymaster.Result.{Result, ok, err}
use keymaster.Result
use keymaster.AuthType.{
  auth_type_password, auth_type_federated, auth_type_u2f, auth_type_symantec_vip,
  auth_type_ip_certificate, auth_type_totp, auth_type_okta_2fa, auth_type_bootstrap_otp,
  auth_type_keymaster_x509, proto_password, proto_federated, proto_u2f, proto_symantec_vip,
  proto_totp, proto_okta_2fa, proto_bootstrap_otp, meets,
}
use keymaster.Http.{
  Certificate, BasicAuth, Request, status_unauthorized, status_forbidden,
  status_internal_server_error,
}
use keymaster.State.{Env, RuntimeState, AuthInfo}
use keymaster.Handler.{M, World, ◌>>=◌, ◌>>◌, return, fail, get_state, lift, on_error, reject_if}
use keymaster.Jwt.{get_key_fingerprint, get_auth_info_from_auth_jwt}
use keymaster.Respond.{auth_cookie_name, find_cookie, write_failure_response}
use keymaster.IpRestricted.{verify_ip_restricted_x509_cert_ip}
use keymaster.Directory.{is_automation_user}

-- What getUsernameIfIPRestricted returns: a user, an error to tell the user, or an internal one.
pub data IpVerdict : Type 0 where
  accepted : (username : String) (not_before : ℕ) → IpVerdict
  user_error : String → IpVerdict
  internal_error : String → IpVerdict

module _ (env : Env) where
  unfoldable pub check_user_password : RuntimeState → (username password : String) → Result Bool
  check_user_password state username password = elim state.password_checker [
    | none ↦ ok false
    | some checker ↦ env.password_authenticate checker username password
  ]

  unfoldable pub reprocess_username : RuntimeState → String → String
  reprocess_username state username =
      let normal : String =
        if state.config.base.disable_username_normalization
        then username
        else env.to_lower username in
      elim state.okta_username_filter_re [
        | none ↦ normal
        | some expression ↦ env.replace_all expression normal
      ]

  -- the inner loop: whether a configured key has the fingerprint
  unfoldable pub is_keymaster_key : (fingerprint : String) → List String → Result Bool
  is_keymaster_key fingerprint [] = ok false
  is_keymaster_key fingerprint (key ∷ keys) =
      let rest = is_keymaster_key fingerprint keys in
      elim (get_key_fingerprint env key) [
        | err e ↦ err e
        | ok fp ↦ if str_eq fingerprint fp then ok true else rest
      ]

  -- the user and start of a certificate that a configured key has signed directly, ("", 0) for none
  unfoldable pub get_username_if_keymaster_signed :
      (keys : List String) (chains : List (List Certificate)) → Result (String × ℕ)
  get_username_if_keymaster_signed keys [] = ok ("", 0)
  get_username_if_keymaster_signed keys ([] ∷ chains) = get_username_if_keymaster_signed keys chains
  get_username_if_keymaster_signed keys ((leaf ∷ []) ∷ chains) =
      get_username_if_keymaster_signed keys chains
  get_username_if_keymaster_signed keys ((leaf ∷ signer ∷ above) ∷ chains) =
      let rest = get_username_if_keymaster_signed keys chains in
      elim (get_key_fingerprint env signer.public_key) [
        | err e ↦ err e
        | ok fingerprint ↦ elim (is_keymaster_key fingerprint keys) [
          | err e ↦ err e
          | ok signed ↦ if signed then ok (leaf.common_name, leaf.not_before) else rest
        ]
      ]

  -- The revocation check is soft: only a certificate that was found revoked is turned down.
  judge_leaf : RuntimeState → (remote_addr : String) → Certificate → IpVerdict
  judge_leaf state remote_addr leaf =
      elim (verify_ip_restricted_x509_cert_ip env leaf remote_addr) [
        | err e ↦ internal_error e
        | ok valid_ip ↦
            if not valid_ip
            then user_error "Bad incoming ip addres"
            else elim (is_automation_user env state leaf.common_name) [
              | err e ↦ internal_error e
              | ok allowed ↦
                  if not allowed
                  then user_error "Bad username  for ip restricted cert"
                  else let (revoked, checked) = env.certificate_revoked leaf in
                    if revoked && checked
                    then user_error "revoked cert"
                    else accepted leaf.common_name env.now
            ]
      ]

  unfoldable pub get_username_if_ip_restricted :
      RuntimeState → (remote_addr : String) → List (List Certificate) → IpVerdict
  unfolding judge_leaf
  get_username_if_ip_restricted state remote_addr ((leaf ∷ above) ∷ chains) =
      judge_leaf state remote_addr leaf
  get_username_if_ip_restricted state remote_addr ([] ∷ chains) =
      internal_error "index out of range"
  get_username_if_ip_restricted state remote_addr [] = internal_error "index out of range"

  module _ (r : Request) where
    compare_referer : M (Unit {0})
    compare_referer = do
      referer_host ← lift (env.url_host r.referer)
      reject_if (not (str_eq referer_host r.host))
          (write_failure_response env r status_unauthorized "") "CSRF detected... rejecting"

    -- A request that is no GET and names both its referer and its host must name one host twice.
    check_csrf : M (Unit {0})
    unfolding compare_referer
    check_csrf =
        if not (str_eq r.method "GET") && ltb 0 (len r.referer) && ltb 0 (len r.host)
        then compare_referer
        else return tt

    -- the keymaster certificate, where it is allowed: an error there is no refusal
    keymaster_certificate :
        (required : ℕ) (keys : List String) (chains : List (List Certificate)) → Option AuthInfo
    keymaster_certificate required keys chains =
        if meets required auth_type_keymaster_x509
        then elim (get_username_if_keymaster_signed keys chains) [
          | err e ↦ none
          | ok (username, not_before) ↦
              if str_eq username ""
              then none
              else some (record {
                auth_type = auth_type_keymaster_x509;
                expires_at = 0;
                issued_at = not_before;
                username = username;
              })
        ]
        else none

    ip_certificate : (required : ℕ) (chains : List (List Certificate)) → M (Option AuthInfo)
    ip_certificate required chains w =
        if meets required auth_type_ip_certificate
        then elim (get_username_if_ip_restricted w.state r.remote_addr chains) [
          | user_error e ↦ (write_failure_response env r status_forbidden e >> fail e) w
          | internal_error e ↦
              (write_failure_response env r status_internal_server_error "" >> fail e) w
          | accepted username not_before ↦ (
            ok (
                some (record {
                  auth_type = auth_type_ip_certificate;
                  expires_at = 0;
                  issued_at = not_before;
                  username = username;
                })),
            w,
          )
        ]
        else (ok none, w)

    presented_certificates : (required : ℕ) (chains : List (List Certificate)) → M (Option AuthInfo)
    unfolding keymaster_certificate ip_certificate
    presented_certificates required chains = do
      state ← get_state
      elim (keymaster_certificate required state.keymaster_public_keys chains) [
        | some info ↦ return (some info)
        | none ↦ ip_certificate required chains
      ]

    check_certificates : (required : ℕ) → M (Option AuthInfo)
    unfolding presented_certificates
    check_certificates required = elim r.tls [
      | none ↦ return none
      | some chains ↦ elim chains [
        | [] ↦ return none
        | chain ∷ more ↦ presented_certificates required (chain ∷ more)
      ]
    ]

    try_password : (user password : String) → M AuthInfo
    try_password user password = do
      state ← get_state
      valid ←
          on_error (lift (check_user_password state user password))
            (λ e. write_failure_response env r status_internal_server_error "")
      reject_if (not valid)
          (write_failure_response env r status_unauthorized "Invalid Username/Password")
          "Invalid Credentials"
      return (record {
        auth_type = auth_type_password;
        expires_at = 0;
        issued_at = env.now;
        username = user;
      })

    check_password : (required : ℕ) → M AuthInfo
    unfolding try_password
    check_password required w =
        if not (meets auth_type_password required)
        then (write_failure_response env r status_unauthorized ""
              >> fail "Insufficient Auth Level passwd")
            w
        else elim r.basic_auth [
          | none ↦
              (write_failure_response env r status_unauthorized ""
                  >> fail "check_Auth, Invalid or no auth header")
                w
          | some basic ↦ try_password (reprocess_username w.state basic.user) basic.pass w
        ]

    check_cookie : (required : ℕ) (value : String) → M AuthInfo
    check_cookie required value = do
      state ← get_state
      info ←
          on_error (lift (get_auth_info_from_auth_jwt env state value))
            (λ e. write_failure_response env r status_unauthorized "")
      reject_if (ltb info.expires_at env.now) (write_failure_response env r status_unauthorized "")
          "Expired Cookie"
      reject_if (not (meets info.auth_type required))
          (write_failure_response env r status_unauthorized "")
          "Insufficient Auth Level in critical cookie"
      return info

    -- next the cookies, unless a certificate has decided
    check_credentials : (required : ℕ) → Option AuthInfo → M AuthInfo
    unfolding check_password check_cookie
    check_credentials required (some info) = return info
    check_credentials required none = elim (find_cookie auth_cookie_name r.cookies) [
      | none ↦ check_password required
      | some value ↦ check_cookie required value
    ]

    unfoldable pub check_auth : (required : ℕ) → M AuthInfo
    unfolding check_csrf check_certificates check_credentials
    check_auth required = do
      check_csrf
      certified ← check_certificates required
      check_credentials required certified

-- `getRequiredWebUIAuthLevel`: the flags of the configured names
unfoldable pub flag_of : (name : String) → ℕ
flag_of name =
    if str_eq name proto_password
    then auth_type_password
    else if str_eq name proto_federated
    then auth_type_federated
    else if str_eq name proto_u2f
    then auth_type_u2f
    else if str_eq name proto_symantec_vip
    then auth_type_symantec_vip
    else if str_eq name proto_totp
    then auth_type_totp
    else if str_eq name proto_okta_2fa
    then auth_type_okta_2fa
    else if str_eq name proto_bootstrap_otp
    then auth_type_bootstrap_otp
    else 0

or_flags : ℕ → List String → ℕ
unfolding flag_of
or_flags level [] = level
or_flags level (name ∷ names) = or_flags (bit_or level (flag_of name)) names

unfoldable pub get_required_web_ui_auth_level : RuntimeState → ℕ
unfolding or_flags
get_required_web_ui_auth_level state = or_flags 0 state.config.base.allowed_auth_backends_for_web_ui
