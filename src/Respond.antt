-- ===== src/Respond.antt =====
-- cmd/keymasterd/app.go: what the handlers share for reading a request and answering it.
pub mod Quiet
use Prim.Native.String.{len}
use keymaster.Prelude.{
  ℕ, ◌+◌, ◌*◌, String, Bool, true, false, not, ◌&&◌, ◌||◌, List, [], ◌∷◌, Option, none, some, any,
  contains_text, is_some, ltb, ◌==◌, ◌!=◌, str_eq, starts_with, if◌then◌else◌,
}
use keymaster.Prelude.Dict.{lookup}
use keymaster.Result.{Result, ok, err}
use keymaster.AuthType.{auth_type_password, auth_type_federated, has}
use keymaster.Http.{
  Request, Cookie, Effect, set_header, set_cookie, write_header, write, http_error, redirect,
  render, login_page, second_factor_page, status_unauthorized, status_temporary_redirect,
  status_internal_server_error,
}
use keymaster.State.{Env, RuntimeState, AuthInfo}
use keymaster.Handler.{M, World, ◌>>=◌, ◌>>◌, return, fail, emit, get_state, lift, attempt}
use keymaster.Jwt.{
  second, max_age_seconds_auth_cookie, gen_new_serialized_auth_jwt, get_auth_info_from_auth_jwt,
  update_auth_jwt_with_new_auth_level,
}

abbrev pub auth_cookie_name : String
auth_cookie_name = "auth_cookie"

abbrev pub profile_path : String
profile_path = "/profile/"

abbrev idp_open_id_c_authorization_path : String
idp_open_id_c_authorization_path = "/idp/oauth2/authorize"

unfoldable pub get_preferred_accept_type : Request → String
get_preferred_accept_type r =
    if any (λ value. contains_text value "text/html") r.accept
    then "text/html"
    else "application/json"

unfoldable pub browser_supports_u2f : Request → Bool
browser_supports_u2f r =
    contains_text r.user_agent "Chrome/"
    || contains_text r.user_agent "Presto/"
    || contains_text r.user_agent "Firefox/57"
    || contains_text r.user_agent "Firefox/58"
    || contains_text r.user_agent "Firefox/59"
    || contains_text r.user_agent "Firefox/6"
    || contains_text r.user_agent "Firefox/7"
    || contains_text r.user_agent "Firefox/8"

unfoldable get_client_type : Request → String
unfolding get_preferred_accept_type
get_client_type r =
    if str_eq (get_preferred_accept_type r) "text/html"
    then "browser"
    else if ltb 1 (len r.referer)
    then "browser"
    else "cli"

-- The loops over `r.Cookies()` have no break: the last cookie of the name counts.
unfoldable pub find_cookie : String → List (String × String) → Option String
find_cookie name [] = none
find_cookie name ((key, value) ∷ rest) = elim (find_cookie name rest) [
  | some later ↦ some later
  | none ↦ if str_eq key name then some value else none
]

-- `r.Form.Get(key)`: the first value, "" without one
unfoldable pub form_get : List (String × List String) → String → String
unfolding lookup
form_get form key = elim (lookup key form) [
  | none ↦ ""
  | some values ↦ elim values [ [] ↦ "" | value ∷ _ ↦ value ]
]

-- `r.ParseForm()`
abbrev pub parse_form : Request → M (Unit {0})
parse_form r w = elim r.form [
  | none ↦ (err "form", w)
  | some form ↦ (ok tt, record w { form = form })
]

-- `r.Form`, as it is at this point
abbrev pub get_form : M (List (String × List String))
get_form w = (ok w.form, w)

-- A login destination starts with a slash, and with one only.
unfoldable pub get_login_destination : List (String × List String) → String
unfolding form_get
get_login_destination form =
    let inbound = form_get form "login_destination" in
    if not (str_eq inbound "") && starts_with inbound "/" && not (starts_with inbound "//")
    then inbound
    else profile_path

abbrev pub set_security_headers : M (Unit {0})
set_security_headers = do
  emit (set_header "Strict-Transport-Security" "max-age=1209600")
  emit (set_header "X-Frame-Options" "DENY")
  emit (set_header "X-XSS-Protection" "1")
  emit (
      set_header "Content-Security-Policy"
        "default-src 'self' ;style-src 'self' fonts.googleapis.com 'unsafe-inline'; font-src fonts.gstatic.com fonts.googleapis.com")

module _ (env : Env) (r : Request) where
  -- The templates write a page, or fail.
  execute : Effect → M (Unit {0})
  execute page = elim env.template_error [
    | none ↦ emit page
    | some e ↦ emit (http_error "error" status_internal_server_error)
  ]

  unfoldable pub write_html_2fa_auth_page :
      (login_destination : String) (try_show_u2f show_bootstrap_otp : Bool) → M (Unit {0})
  unfolding execute browser_supports_u2f
  write_html_2fa_auth_page login_destination try_show_u2f show_bootstrap_otp = do
    state ← get_state
    execute (
        render (
          second_factor_page show_bootstrap_otp state.config.symantec_vip_enabled
            (browser_supports_u2f r && try_show_u2f) state.config.base.enable_local_totp
            state.config.okta_enable_2fa login_destination))

  unfoldable pub write_html_login_page :
      (status_code : ℕ) (login_destination error_message : String) → M (Unit {0})
  unfolding execute
  write_html_login_page status_code login_destination error_message = do
    state ← get_state
    if not (is_some state.password_checker) && state.config.oauth2_enabled
        then emit (redirect "/auth/oauth2/login" status_temporary_redirect)
        else do
          emit (write_header status_code)
          execute (render (login_page state.config.oauth2_enabled login_destination error_message))

  -- Where a browser that is not authorised goes on to: the page that it asked of the OpenID
  -- provider, or the destination that its form names.
  failure_destination : List (String × List String) → String
  unfolding form_get get_login_destination
  failure_destination form =
      let start =
        if str_eq r.url_path idp_open_id_c_authorization_path then r.url_string else profile_path in
      if str_eq r.method "POST" && not (str_eq (form_get form "login_destination") "")
      then get_login_destination form
      else start

  -- The page for a browser that is not authorised: the second factor for a live session of a first
  -- one, else the login.
  write_unauthorized_page : (code : ℕ) (message : String) → M (Unit {0})
  unfolding write_html_2fa_auth_page write_html_login_page failure_destination find_cookie
      get_auth_info_from_auth_jwt
  write_unauthorized_page code message = do
    state ← get_state
    form ← get_form
    let destination = failure_destination form
    elim (find_cookie auth_cookie_name r.cookies) [
      | none ↦ write_html_login_page code destination message
      | some value ↦ elim (get_auth_info_from_auth_jwt env state value) [
        | err e ↦ write_html_login_page code destination ""
        | ok info ↦
            if ltb info.expires_at env.now
            then write_html_login_page code destination ""
            else (if has info.auth_type auth_type_password || has info.auth_type auth_type_federated
                then write_html_2fa_auth_page destination true false
                else write_html_login_page code destination message)
      ]
    ]

  -- whether the request came in on another port than the service's
  is_other_port : RuntimeState → Bool
  is_other_port state = elim (env.split_host_port state.config.base.http_address) [
    | err e ↦ false
    | ok (host, http_port) ↦ elim (env.split_host_port r.host) [
      | err e ↦ false
      | ok (req_host, req_port) ↦ not (str_eq req_port http_port)
    ]
  ]

  write_plain : (code : ℕ) (text : String) → M (Unit {0})
  write_plain code text = do emit (write_header code); emit (write text)

  ask_for_credentials : M (Unit {0})
  ask_for_credentials = emit (set_header "WWW-Authenticate" "Basic realm=\"User Credentials\"")

  unfoldable pub write_failure_response : (code : ℕ) (message : String) → M (Unit {0})
  unfolding get_preferred_accept_type is_other_port write_unauthorized_page write_plain
      ask_for_credentials
  write_failure_response code message = do
    let public_error_text = env.public_error_text code message
    let is_html = str_eq (get_preferred_accept_type r) "text/html"
    set_security_headers
    state ← get_state
    if is_other_port state
        then emit (http_error public_error_text code)
        else (if not (code == status_unauthorized)
            then write_plain code public_error_text
            else (if is_html
                then write_unauthorized_page code message
                else ask_for_credentials >> write_plain code public_error_text))

  -- `if state.sendFailureToClientIfLocked(w, r) { return }`
  unfoldable pub stop_if_locked : M (Unit {0})
  stop_if_locked = do
    state ← get_state
    set_security_headers
    if is_some state.signer then return tt else do
      write_failure_response status_internal_server_error ""
      fail "Signer has not been unlocked"

-- The session cookie, with the attributes that every setting of it has.
abbrev pub auth_cookie : (value : String) (expires : ℕ) → Cookie
auth_cookie value expires = record {
  name = auth_cookie_name;
  value = value;
  expires = expires;
  path = "/";
  http_only = true;
  secure = true;
  same_site_none = true;
}

module _ (env : Env) where
  unfoldable pub set_new_auth_cookie : (username : String) (auth_level : ℕ) → M String
  set_new_auth_cookie username auth_level = do
    state ← get_state
    value ← lift (gen_new_serialized_auth_jwt env state username auth_level)
    emit (set_cookie (auth_cookie value (env.now + max_age_seconds_auth_cookie * second)))
    return value

  -- The expiry of a cookie that came with a request is the zero time.
  unfoldable pub update_auth_cookie_authlevel : Request → (auth_level : ℕ) → M String
  unfolding find_cookie
  update_auth_cookie_authlevel r auth_level = do
    state ← get_state
    old ← lift (elim (find_cookie auth_cookie_name r.cookies) [
      | none ↦ err "cannot find authCookie"
      | some value ↦ ok value
    ])
    value ← lift (update_auth_jwt_with_new_auth_level env state old auth_level)
    emit (set_cookie (auth_cookie value 0))
    return old
