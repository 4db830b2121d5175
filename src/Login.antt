-- ===== src/Login.antt =====
-- cmd/keymasterd/app.go: the login by password, the logout, and the public pages.
use Prim.Native.String.{len, slice}
use keymaster.Prelude.{
  ℕ, ◌+◌, ◌*◌, String, Bool, true, false, not, ◌&&◌, ◌||◌, List, [], ◌∷◌, Option, none, some, any,
  is_some, bit_and, ◌==◌, str_eq, if◌then◌else◌,
}
use keymaster.Result.{Result, ok, err}
use keymaster.AuthType.{
  auth_type_password, auth_type_symantec_vip, proto_password, proto_u2f, proto_symantec_vip,
  proto_totp, proto_okta_2fa, has,
}
use keymaster.Profile.{UserProfile, U2fAuthData}
use keymaster.Http.{
  Request, Cookie, set_header, set_cookie, write_header, write, http_error, redirect,
  login_response, publish_auth, publish_web_login, status_ok, status_found, status_bad_request,
  status_unauthorized, status_not_found, status_method_not_allowed, status_internal_server_error,
}
use keymaster.State.{Env, RuntimeState}
use keymaster.Handler.{M, ◌>>=◌, ◌>>◌, return, emit, get_state, put_state, lift, on_error, attempt}
use keymaster.Checks.{check}
use keymaster.Jwt.{second, from_unix}
use keymaster.Respond.{
  auth_cookie_name, auth_cookie, find_cookie, get_preferred_accept_type, get_login_destination,
  get_form, set_security_headers, stop_if_locked, set_new_auth_cookie, write_failure_response,
  write_html_2fa_auth_page, write_html_login_page, profile_path,
}
use keymaster.CheckAuth.{get_required_web_ui_auth_level}
use keymaster.Storage.{LoadedProfile, load_user_profile}
use keymaster.Bootstrap.{is_empty, user_bootstrap_otp_hash, try_self_service_generate_bootstrap_otp}
use keymaster.SecondFactor.{get_or_post, parse_form_or}
use keymaster.Vip.{vip_transaction_cookie_name, max_age_seconds_vip_cookie}
use keymaster.Login.Credentials.{checked_login}
pub mod Credentials
pub mod Backends
pub mod Accepted

abbrev public_path : String
public_path = "/public/"

-- `(required & flag) == flag`
abbrev pub includes : (required flag : ℕ) → Bool
includes required flag = bit_and required flag == flag

-- whether a configured preference is offered to a user
unfoldable pub offers : RuntimeState → (user_has_u2f_tokens : Bool) (cert_pref : String) → Bool
offers state user_has_u2f_tokens pref =
    str_eq pref proto_password
    || (str_eq pref proto_u2f && user_has_u2f_tokens)
    || (str_eq pref proto_symantec_vip && state.config.symantec_vip_enabled)
    || (str_eq pref proto_totp && state.config.base.enable_local_totp)
    || (str_eq pref proto_okta_2fa && state.config.okta_enable_2fa)

offered : RuntimeState → (user_has_u2f_tokens : Bool) → (prefs : List String) → List String
unfolding offers
offered state user_has_u2f_tokens [] = []
offered state user_has_u2f_tokens (pref ∷ prefs) =
    let rest = offered state user_has_u2f_tokens prefs in
    if offers state user_has_u2f_tokens pref then pref ∷ rest else rest

-- the backends whose sessions get certificates: those of the configuration, or U2F
unfoldable pub cert_backends : RuntimeState → (user_has_u2f_tokens : Bool) → List String
unfolding offered
cert_backends state user_has_u2f_tokens =
    elim (offered state user_has_u2f_tokens state.config.base.allowed_auth_backends_for_certs) [
      | [] ↦ proto_u2f ∷ []
      | first ∷ rest ↦ first ∷ rest
    ]

-- whether a client that is no browser needs a cookie for a push
unfoldable pub uses_vip : RuntimeState → Bool
uses_vip state =
    any (λ pref. str_eq pref proto_symantec_vip && state.config.symantec_vip_enabled)
      state.config.base.allowed_auth_backends_for_certs
    || includes (get_required_web_ui_auth_level state) auth_type_symantec_vip

module _ (env : Env) where
  -- The cookie of a push, if a random value can be had.
  unfoldable pub set_vip_cookie : M (Unit {0})
  set_vip_cookie = elim env.random_cookie [
    | err e ↦ return tt
    | ok value ↦ emit (
        set_cookie (record {
          name = vip_transaction_cookie_name;
          value = value;
          expires = env.now + max_age_seconds_vip_cookie * second;
          path = "/";
          http_only = true;
          secure = true;
          same_site_none = false;
        }))
  ]

  -- the profile, with the bootstrap password that the user may be sent on the way
  unfoldable pub self_service : (username : String) → LoadedProfile → M UserProfile
  self_service username loaded w =
      if loaded.from_cache
      then (ok loaded.profile, w)
      else let (made, state') =
          try_self_service_generate_bootstrap_otp env username loaded.profile w.state in
        (
          ok (elim made [ none ↦ loaded.profile | some profile ↦ profile ]),
          record w { state = state' },
        )

  module _ (r : Request) where
    -- the answer to a browser: on to where it wants to go, or to the second factor
    unfoldable pub answer_browser :
        (username : String) (user_has_u2f_tokens user_has_bootstrap_otp : Bool) → M (Unit {0})
    unfolding set_vip_cookie
    answer_browser username user_has_u2f_tokens user_has_bootstrap_otp = do
      form ← get_form
      state ← get_state
      let required_auth = get_required_web_ui_auth_level state
      if has required_auth auth_type_password
          then (emit (publish_web_login username)
              >> emit (redirect (get_login_destination form) status_found))
          else ((if includes required_auth auth_type_symantec_vip
                then set_vip_cookie
                else return tt)
              >> write_html_2fa_auth_page env r (get_login_destination form) user_has_u2f_tokens
                  user_has_bootstrap_otp)

    unfoldable pub answer_client : (backends : List String) → M (Unit {0})
    unfolding uses_vip set_vip_cookie
    answer_client backends = do
      state ← get_state
      if uses_vip state then set_vip_cookie else return tt
      emit (write_header status_ok)
      emit (login_response "success" backends)

    -- what follows once the session's cookie is set
    unfoldable pub answer_login : (username : String) (user_has_u2f_tokens : Bool) → M (Unit {0})
    unfolding self_service answer_browser answer_client cert_backends
    answer_login username user_has_u2f_tokens = do
      emit (publish_auth "Password" username)
      state ← get_state
      loaded ← on_error (lift (load_user_profile env state username)) (λ e.
          write_failure_response env r status_internal_server_error "cannot load user profile")
      profile ← self_service username loaded
      let user_has_bootstrap_otp = is_some (user_bootstrap_otp_hash env profile loaded.from_cache)
      if str_eq (get_preferred_accept_type r) "text/html"
          then answer_browser username user_has_u2f_tokens user_has_bootstrap_otp
          else answer_client (cert_backends state user_has_u2f_tokens)

    unfoldable pub login_handler : M (Unit {0})
    unfolding answer_login
    login_handler = do
      stop_if_locked env r
      get_or_post env r
      parse_form_or env r status_bad_request
      form ← get_form
      state ← get_state
      login ← check env r (checked_login env state r form)
      value ←
          on_error (set_new_auth_cookie env login.username auth_type_password)
            (λ e. write_failure_response env r status_internal_server_error "error internal")
      answer_login login.username login.has_u2f_tokens

    -- A session's cookie is replaced by an empty one that has expired in 1970.
    unfoldable pub logout_handler : M (Unit {0})
    logout_handler = do
      stop_if_locked env r
      elim (find_cookie auth_cookie_name r.cookies) [
        | none ↦ return tt
        | some value ↦ emit (set_cookie (auth_cookie "" (from_unix 0)))
      ]
      emit (redirect "/" status_found)

    unfoldable pub send_ca_certificate : M (Unit {0})
    send_ca_certificate = do
      state ← get_state
      emit (set_header "Content-Disposition" "attachment; filename=\"id_rsa-cert.pub\"")
      emit (write_header status_ok)
      emit (write (env.pem_encode state.ca_cert_der))

    unfoldable pub public_path_handler : M (Unit {0})
    public_path_handler = do
      state ← get_state
      let target : String = slice r.url_path (len public_path) (len r.url_path)
      if not (is_some state.signer)
          then write_failure_response env r status_internal_server_error ""
          else (if str_eq target "loginForm"
              then (set_security_headers >> write_html_login_page env r status_ok profile_path "")
              else (if str_eq target "x509ca"
                  then send_ca_certificate
                  else write_failure_response env r status_not_found ""))

    unfoldable pub default_path_handler : M (Unit {0})
    default_path_handler = do
      set_security_headers
      if str_eq r.url_path "/favicon.ico"
          then (emit (set_header "Cache-Control" "public, max-age=120")
              >> emit (redirect "/static/favicon.ico" status_found))
          else (if str_eq r.url_path "/"
              then (if str_eq r.method "GET" && is_empty r.cookies
                  then write_html_login_page env r status_ok profile_path ""
                  else emit (redirect profile_path status_found))
              else emit (http_error "error not found" status_not_found))
