-- ===== src/Totp/Handlers.antt =====
-- cmd/keymasterd/2fa_totp.go: the handlers of the one-time passwords.
pub mod Authorized
use keymaster.Prelude.{
  ℕ, String, Bool, true, false, not, Option, none, some, str_eq, bit_or, if◌then◌else◌,
}
use keymaster.Prelude.Int.{ℤ}
use keymaster.Result.{Result, ok, err}
use keymaster.AuthType.{auth_type_any, auth_type_totp}
use keymaster.Http.{
  Request, set_username, redirect, http_error, status_ok, status_found, status_bad_request,
  status_unauthorized, status_method_not_allowed, status_internal_server_error,
}
use keymaster.State.{Env, RuntimeState, AuthInfo}
use keymaster.Handler.{M, World, ◌>>=◌, ◌>>◌, return, fail, emit, get_state, on_error, reject_if}
use keymaster.Respond.{profile_path, write_failure_response, stop_if_locked}
use keymaster.CheckAuth.{check_auth, get_required_web_ui_auth_level}
use keymaster.SecondFactor.{parse_form_or, otp_of_form, raise_level, send_onwards}
use keymaster.Totp.{validate_user_totp}

module _ (env : Env) (r : Request) where
  -- the caller and the number that the form holds, in any session of the required level
  unfoldable pub common_totp_post_handler : (required_auth_level : ℕ) → M (AuthInfo × ℤ)
  common_totp_post_handler required_auth_level = do
    stop_if_locked env r
    info ←
        on_error (check_auth env r required_auth_level)
          (λ e. emit (http_error "error" status_internal_server_error))
    emit (set_username info.username)
    reject_if (not (str_eq r.method "POST"))
        (write_failure_response env r status_method_not_allowed "") "Invalid Method requeted"
    parse_form_or env r status_bad_request
    otp_value ← otp_of_form env r
    return (info, otp_value)

  -- the check on the daemon's state
  unfoldable pub checked_otp : (username : String) (otp_value : ℤ) → M Bool
  checked_otp username otp_value w =
      let (answer, state) = validate_user_totp env username otp_value w.state in
      (answer, record w { state = state })

  unfoldable verify_totp_handler : M (Unit {0})
  verify_totp_handler = do
    state ← get_state
    (info, otp_value) ← common_totp_post_handler (get_required_web_ui_auth_level state)
    valid ←
        on_error (checked_otp info.username otp_value)
          (λ e. write_failure_response env r status_internal_server_error "")
    reject_if (not valid) (write_failure_response env r status_ok "Verification Failed") ""
    emit (redirect profile_path status_found)

  unfoldable pub internal_totp_auth_handler :
      (auth_user : String) (current_auth_level : ℕ) (otp_value : ℤ) → M (Unit {0})
  internal_totp_auth_handler auth_user current_auth_level otp_value = do
    valid ← on_error (checked_otp auth_user otp_value) (λ e.
        write_failure_response env r status_internal_server_error
          "Failure when validating OTP token")
    reject_if (not valid) (write_failure_response env r status_unauthorized "") ""
    old ←
        raise_level env r (bit_or current_auth_level auth_type_totp)
          "Failure when validating OTP token"
    send_onwards env r (return tt)

  unfoldable pub totp_auth_handler : M (Unit {0})
  totp_auth_handler = do
    (info, otp_value) ← common_totp_post_handler auth_type_any
    internal_totp_auth_handler info.username info.auth_type otp_value
