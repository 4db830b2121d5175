-- ===== src/SecondFactor.antt =====
-- cmd/keymasterd/2fa_*.go: the steps that the handlers of the second factors share: the form's value,
-- the raised session, and the answer.
pub mod Steps
pub mod Quiet
use keymaster.Prelude.{
  ℕ, String, Bool, not, ◌||◌, List, [], ◌∷◌, Option, none, some, str_eq, bit_or, if◌then◌else◌,
}
use keymaster.Prelude.Int.{ℤ}
use keymaster.Prelude.Dict.{lookup}
use keymaster.Result.{Result, ok, err}
use keymaster.Http.{
  Request, write_header, login_response, publish_web_login, redirect, status_ok, status_found,
  status_bad_request, status_method_not_allowed, status_internal_server_error,
}
use keymaster.State.{Env, AuthInfo}
use keymaster.Handler.{M, World, ◌>>=◌, ◌>>◌, return, fail, emit, lift, on_error, reject_if}
use keymaster.Respond.{
  get_preferred_accept_type, parse_form, get_form, get_login_destination, write_failure_response,
  update_auth_cookie_authlevel,
}

-- The one value of a key in a form, none without the key; two values are an error.
unfoldable pub single_value : List (String × List String) → (key : String) → Result (Option String)
single_value form key = elim (lookup key form) [
  | none ↦ ok none
  | some values ↦ elim values [
    | [] ↦ ok none
    | value ∷ more ↦ elim more [ [] ↦ ok (some value) | next ∷ rest ↦ err "multiple OTP values" ]
  ]
]

abbrev pub or_empty : Option String → String
or_empty none = ""
or_empty (some text) = text

module _ (env : Env) (r : Request) where
  -- only GET and POST are served
  abbrev pub get_or_post : M (Unit {0})
  get_or_post =
      reject_if (not (str_eq r.method "GET" || str_eq r.method "POST"))
        (write_failure_response env r status_method_not_allowed "") ""

  abbrev pub parse_form_or : (code : ℕ) → M (Unit {0})
  parse_form_or code =
      on_error (parse_form r) (λ e. write_failure_response env r code "Error parsing form")

  -- the number that the form's OTP is
  unfoldable pub otp_of_form : M ℤ
  otp_of_form = do
    form ← get_form
    otp ←
        on_error (lift (single_value form "OTP"))
          (λ e. write_failure_response env r status_bad_request "Just one OTP Value allowed")
    on_error (lift (env.atoi (or_empty otp)))
        (λ e. write_failure_response env r status_bad_request "Error parsing OTP value")

  -- the session, raised by the flag of a factor
  unfoldable pub raise_level : (auth_level : ℕ) (message : String) → M String
  raise_level auth_level message =
      on_error (update_auth_cookie_authlevel env r auth_level)
        (λ e. write_failure_response env r status_internal_server_error message)

  -- a browser is sent on to where it wants to go, any other client is told of the success
  unfoldable pub send_onwards : M (Unit {0}) → M (Unit {0})
  unfolding get_preferred_accept_type get_login_destination
  send_onwards publish = do
    form ← get_form
    if str_eq (get_preferred_accept_type r) "text/html"
        then (publish >> emit (redirect (get_login_destination form) status_found))
        else (emit (write_header status_ok) >> emit (login_response "success" []))
