-- ===== src/Okta.antt =====
-- cmd/keymasterd/2fa_okta.go: the second factor of Okta, by one-time password and by push.
use keymaster.Prelude.{ℕ, String, Bool, false, not, none, some, bit_or}
use keymaster.AuthType.{auth_type_any, auth_type_okta_2fa}
use keymaster.Http.{
  Request, set_username, write_header, publish_web_login, status_ok, status_unauthorized,
  status_forbidden, status_precondition_failed, status_internal_server_error,
}
use keymaster.State.{
  Env, RuntimeState, AuthInfo, PushResponse, push_response_approved, push_response_rejected,
  push_response_timeout, push_response_waiting,
}
use keymaster.Handler.{M, ◌>>=◌, ◌>>◌, return, fail, emit, get_state, lift, on_error, reject_if}
use keymaster.Respond.{write_failure_response, stop_if_locked}
use keymaster.CheckAuth.{check_auth}
use keymaster.SecondFactor.{get_or_post, raise_level, send_onwards}
use keymaster.Totp.Handlers.{common_totp_post_handler}

module _ (env : Env) where
  -- `state.passwordChecker.(*okta.PasswordAuthenticator)`
  unfoldable has_okta : RuntimeState → Bool
  has_okta state = elim state.password_checker [ none ↦ false | some c ↦ env.is_okta c ]

  module _ (r : Request) where
    abbrev refuse : (code : ℕ) (message : String) → M (Unit {0})
    refuse code message = write_failure_response env r code message >> fail message

    unfoldable okta_or : (message : String) → M (Unit {0})
    unfolding has_okta
    okta_or message = do
      state ← get_state
      reject_if (not (has_okta state))
          (write_failure_response env r status_internal_server_error message) ""

    unfoldable okta_2f_auth_handler : M (Unit {0})
    okta_2f_auth_handler = do
      (info, otp_value) ← common_totp_post_handler env r auth_type_any
      okta_or "Apparent Misconfiguration"
      valid ← on_error (lift (env.okta_validate_otp info.username otp_value)) (λ e.
          write_failure_response env r status_internal_server_error
            "Failure when validating Okta MFA token")
      reject_if (not valid) (write_failure_response env r status_unauthorized "") ""
      old ←
          raise_level env r (bit_or info.auth_type auth_type_okta_2fa)
            "Failure when validating Okta MFA token"
      send_onwards env r (emit (publish_web_login info.username))

    -- the user of the session, and what their push has come to
    unfoldable okta_push : M (AuthInfo × PushResponse)
    okta_push = do
      stop_if_locked env r
      get_or_post env r
      info ← check_auth env r auth_type_any
      emit (set_username info.username)
      okta_or "Apperent Misconfiguration"
      push_response ← on_error (lift (env.okta_validate_push info.username)) (λ e.
          write_failure_response env r status_internal_server_error
            "Failure when validating OKTA push")
      return (info, push_response)

    unfoldable okta_push_start_handler : M (Unit {0})
    okta_push_start_handler = do
      (info, push_response) ← okta_push
      elim push_response [
        | push_response_waiting ↦ emit (write_header status_ok)
        | _ ↦ refuse status_precondition_failed "Push already sent"
      ]

    approve : AuthInfo → M (Unit {0})
    approve info = do
      old ←
          raise_level env r (bit_or info.auth_type auth_type_okta_2fa)
            "Failure when validating Okta token"
      emit (write_header status_ok)

    unfoldable okta_poll_check_handler : M (Unit {0})
    unfolding approve
    okta_poll_check_handler = do
      (info, push_response) ← okta_push
      elim push_response [
        | push_response_approved ↦ approve info
        | push_response_waiting ↦ refuse status_precondition_failed "Push already sent"
        | push_response_rejected ↦ refuse status_forbidden "Failure when validating OKTA push"
        | push_response_timeout ↦ refuse status_precondition_failed "Push already sent"
      ]
