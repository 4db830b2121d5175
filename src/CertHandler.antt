-- ===== src/CertHandler.antt =====
-- cmd/keymasterd/certgen.go: the handler that issues certificates, after checkAuth.
pub mod Grants
pub mod Issue
pub mod Authorized
use Prim.Native.String.{len, slice, ◌++◌ as append}
use keymaster.Prelude.{
  ℕ, ◌+◌, ◌*◌, String, Bool, true, false, not, ◌&&◌, ◌||◌, List, [], ◌∷◌, Option, none, some, any,
  is_some, str_eq, if◌then◌else◌,
}
use keymaster.Prelude.Int.{ℤ, pos, sub_ℕ, ltb_ℤ}
use keymaster.Prelude.Dict.{lookup}
use keymaster.Result.{Result, ok, err}
use keymaster.Result
use keymaster.AuthType.{
  auth_type_u2f, auth_type_totp, auth_type_symantec_vip, auth_type_ip_certificate,
  auth_type_okta_2fa, auth_type_any, proto_password, proto_u2f, proto_totp, proto_symantec_vip,
  proto_ip_certificate, proto_okta_2fa, has,
}
use keymaster.Keys.{PublicKey, SshKey, SshCertificate}
use keymaster.Http.{
  Request, set_header, write_header, write, set_username, publish_ssh, publish_x509, status_ok,
  status_bad_request, status_forbidden, status_method_not_allowed, status_unprocessable_entity,
  status_internal_server_error,
}
use keymaster.State.{Env, RuntimeState, AuthInfo}
use keymaster.Handler.{
  M, World, ◌>>=◌, ◌>>◌, return, fail, emit, get_state, lift, on_error, reject_if,
}
use keymaster.Jwt.{second}
use keymaster.Respond.{form_get, parse_form, get_form, write_failure_response}
use keymaster.Directory.{get_user_groups}
use keymaster.CheckAuth.{check_auth}
use keymaster.CertGen.{validate_public_key_strength, gen_ssh_cert_file_string, gen_user_x509_cert}

abbrev pub certgen_path : String
certgen_path = "/certgen/"

abbrev pub max_certificate_lifetime : ℕ
max_certificate_lifetime = 86400 * second

-- whether a configured preference admits a session of this level
unfoldable pub admits : (auth_type : ℕ) (cert_pref : String) → Bool
admits auth_type pref =
    str_eq pref proto_password
    || (str_eq pref proto_u2f && has auth_type auth_type_u2f)
    || (str_eq pref proto_totp && has auth_type auth_type_totp)
    || (str_eq pref proto_symantec_vip && has auth_type auth_type_symantec_vip)
    || (str_eq pref proto_ip_certificate && has auth_type auth_type_ip_certificate)
    || (str_eq pref proto_okta_2fa && has auth_type auth_type_okta_2fa)

unfoldable pub is_sufficient : RuntimeState → (auth_type : ℕ) → Bool
unfolding admits
is_sufficient state auth_type =
    any (admits auth_type) state.config.base.allowed_auth_backends_for_certs
    || has auth_type auth_type_u2f

-- `r.Form[key]` and its first value
abbrev form_value : List (String × List String) → String → Option String
form_value form key = elim (lookup key form) [
  | none ↦ none
  | some values ↦ elim values [ [] ↦ none | value ∷ more ↦ some value ]
]

-- the check of an SSH key's text: a key, or an error to tell the user, or an internal one
pub data KeyVerdict : Type 0 where
  valid_key : SshKey → KeyVerdict
  bad_key : String → KeyVerdict
  broken_key : String → KeyVerdict

module _ (env : Env) where
  unfoldable pub get_valid_ssh_public_key : (user_pub_key : String) → KeyVerdict
  get_valid_ssh_public_key user_pub_key =
      if not (env.ssh_key_matches user_pub_key)
      then bad_key "Invalid File, bad re"
      else elim (env.parse_authorized_key user_pub_key) [
        | err e ↦ bad_key "invalid file, unparseable"
        | ok user_ssh ↦ elim user_ssh.crypto_key [
          | none ↦ broken_key "Cannot transform ssh key into crypto key"
          | some crypto_key ↦
              if validate_public_key_strength crypto_key
              then valid_key user_ssh
              else bad_key "Invalid File, Check Key strength/key type"
        ]
      ]

  -- The time that is left of a day since the login, and the duration that is granted.
  unfoldable pub max_duration : AuthInfo → ℤ
  max_duration info = sub_ℕ (info.issued_at + max_certificate_lifetime) env.now

  unfoldable pub limit_duration : AuthInfo → ℤ → ℤ
  limit_duration info duration =
      if ltb_ℤ (max_duration info) duration then max_duration info else duration

  module _ (r : Request) where
    -- `writeFailureResponse(...); return`
    abbrev refuse : {A : Type 0} → (code : ℕ) (message : String) → M A
    refuse code message = write_failure_response env r code message >> fail message

    pub requested_duration : List (String × List String) → M ℤ
    requested_duration form = elim (form_value form "duration") [
      | none ↦ return (pos max_certificate_lifetime)
      | some text ↦ elim (env.parse_duration text) [
        | err e ↦ refuse status_bad_request "Error parsing form (duration)"
        | ok duration ↦
            if ltb_ℤ (pos max_certificate_lifetime) duration
            then refuse status_bad_request "Error parsing form (invalid duration)"
            else return duration
      ]
    ]

    -- an Ed25519 key is signed by the Ed25519 key, any other by the main one
    choose_signer : RuntimeState → SshKey → M (Option String)
    choose_signer state key =
        if not (str_eq key.algorithm "ssh-ed25519")
        then return state.signer
        else elim state.ed25519_signer [
          | none ↦ refuse status_unprocessable_entity "key type not allowed"
          | some signer ↦ return (some signer)
        ]

    valid_ssh_key : (user_pub_key : String) → M SshKey
    unfolding get_valid_ssh_public_key
    valid_ssh_key user_pub_key = elim (get_valid_ssh_public_key user_pub_key) [
      | broken_key e ↦ refuse status_internal_server_error ""
      | bad_key e ↦ refuse status_bad_request e
      | valid_key key ↦ return key
    ]

    abbrev need : {A : Type 0} → Option A → (code : ℕ) (message : String) → M A
    need none code message = refuse code message
    need (some a) code message = return a

    abbrev only_post : M (Unit {0})
    only_post =
        reject_if (not (str_eq r.method "POST"))
          (write_failure_response env r status_method_not_allowed "") ""

    abbrev key_file : M String
    key_file = need r.pubkey_file status_bad_request "Missing public key file"

    -- the certificate made, published and sent
    make_ssh_cert : (target_user user_pub_key signer_key : String) (duration : ℤ) → M (Unit {0})
    make_ssh_cert target_user user_pub_key signer_key duration = do
      state ← get_state
      signer ←
          on_error (lift (env.new_ssh_signer signer_key))
            (λ e. write_failure_response env r status_internal_server_error "")
      (text, cert) ←
          on_error
            (lift (
              gen_ssh_cert_file_string env target_user user_pub_key signer state.host_identity
                duration))
            (λ e. write_failure_response env r status_internal_server_error "")
      emit (publish_ssh cert)
      emit (
          set_header "Content-Disposition" (
            append "attachment; filename=\""
              (append (env.ssh_cert_type cert.key.algorithm) "-cert.pub\"")))
      emit (write_header status_ok)
      emit (write text)

    unfoldable pub post_auth_ssh_cert_handler : (target_user : String) (duration : ℤ) → M (Unit {0})
    unfolding choose_signer valid_ssh_key make_ssh_cert
    post_auth_ssh_cert_handler target_user duration = do
      only_post
      user_pub_key ← key_file
      state ← get_state
      key ← valid_ssh_key user_pub_key
      crypto_signer ← choose_signer state key
      signer_key ← need crypto_signer status_internal_server_error ""
      make_ssh_cert target_user user_pub_key signer_key duration

    -- the groups, looked up only where they are asked for
    needed_groups : (kubernetes_hack add_groups : Bool) (target_user : String) → M (List String)
    needed_groups kubernetes_hack add_groups target_user =
        if kubernetes_hack || add_groups
        then on_error (λ w. (get_user_groups env w.state target_user, w))
            (λ e. write_failure_response env r status_internal_server_error "")
        else return []

    -- the PEM file's key, parsed and strong enough
    valid_pkix_key : M PublicKey
    valid_pkix_key = do
      file ← key_file
      block ← need (env.pem_public_key file) status_bad_request "Invalid File, Unable to decode pem"
      user_pub ←
          on_error (lift (env.parse_pkix_key block))
            (λ e. write_failure_response env r status_bad_request "Cannot parse public key")
      reject_if (not (validate_public_key_strength user_pub))
          (write_failure_response env r status_bad_request
            "Invalid File, Check Key strength/key type")
          ""
      return user_pub

    make_x509_cert :
        (target_user key_signer : String) (user_pub : PublicKey) (duration : ℤ)
        (groups organizations : List String)
        → M (Unit {0})
    make_x509_cert target_user key_signer user_pub duration groups organizations = do
      state ← get_state
      ca_cert ←
          on_error (lift (env.parse_certificate state.ca_cert_der))
            (λ e. write_failure_response env r status_internal_server_error "")
      (template, der) ←
          on_error
            (lift (
              gen_user_x509_cert env target_user user_pub ca_cert key_signer state.kerberos_realm
                duration groups organizations))
            (λ e. write_failure_response env r status_internal_server_error "")
      emit (publish_x509 der)
      emit (set_header "Content-Disposition" "attachment; filename=\"userCert.pem\"")
      emit (write_header status_ok)
      emit (write (env.pem_encode der))

    unfoldable pub post_auth_x509_cert_handler :
        (target_user key_signer : String) (duration : ℤ) (kubernetes_hack : Bool) → M (Unit {0})
    unfolding needed_groups valid_pkix_key make_x509_cert
    post_auth_x509_cert_handler target_user key_signer duration kubernetes_hack = do
      form ← get_form
      let add_groups = str_eq (form_get form "addGroups") "true"
      user_groups ← needed_groups kubernetes_hack add_groups target_user
      let groups : List String = if add_groups then user_groups else []
      let organizations : List String = if kubernetes_hack then user_groups else "keymaster" ∷ []
      only_post
      user_pub ← valid_pkix_key
      make_x509_cert target_user key_signer user_pub duration groups organizations

    issue : (cert_type target_user key_signer : String) (duration : ℤ) → M (Unit {0})
    issue cert_type target_user key_signer duration =
        if str_eq cert_type "ssh"
        then post_auth_ssh_cert_handler target_user duration
        else (if str_eq cert_type "x509"
            then post_auth_x509_cert_handler target_user key_signer duration false
            else (if str_eq cert_type "x509-kubernetes"
                then post_auth_x509_cert_handler target_user key_signer duration true
                else refuse status_bad_request "Unrecognized cert type"))

    abbrev wanted_type : Option String → String
    wanted_type none = "ssh"
    wanted_type (some t) = t

    -- what follows on a sufficient level: only the user's own certificates, and only by POST
    issue_for : AuthInfo → (key_signer : String) → M (Unit {0})
    unfolding requested_duration issue
    issue_for info key_signer = do
      let target_user = slice r.url_path (len certgen_path) (len r.url_path)
      reject_if (not (str_eq info.username target_user))
          (write_failure_response env r status_forbidden "") ""
      only_post
      on_error (parse_form r)
          (λ e. write_failure_response env r status_bad_request "Error parsing form")
      form ← get_form
      duration ← requested_duration form
      issue (wanted_type (form_value form "type")) target_user key_signer
          (limit_duration info duration)

    unfoldable pub cert_gen_handler : M (Unit {0})
    unfolding issue_for
    cert_gen_handler = do
      state ← get_state
      key_signer ← need state.signer status_internal_server_error ""
      info ← check_auth env r auth_type_any
      emit (set_username info.username)
      reject_if (not (is_sufficient state info.auth_type))
          (write_failure_response env r status_bad_request
            "Not enough auth level for getting certs")
          ""
      issue_for info key_signer
