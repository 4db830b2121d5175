-- ===== src/Vip.antt =====
-- cmd/keymasterd/2fa_vip.go: the second factor of Symantec VIP, by one-time password and by push.
pub mod Authorized
use keymaster.Prelude.{
  ℕ, ◌+◌, ◌*◌, String, Bool, true, false, not, List, [], ◌∷◌, Option, none, some, is_some, str_eq,
  bit_or, if◌then◌else◌,
}
use keymaster.Prelude.Dict.{lookup, insert}
use keymaster.Result.{Result, ok, err}
use keymaster.AuthType.{auth_type_any, auth_type_symantec_vip}
use keymaster.Http.{
  Request, set_username, write_header, publish_vip_auth, publish_web_login, status_ok,
  status_bad_request, status_unauthorized, status_precondition_failed, status_internal_server_error,
}
use keymaster.State.{Env, RuntimeState, AuthInfo, PushPollTransaction}
use keymaster.Handler.{
  M, World, ◌>>=◌, ◌>>◌, return, fail, emit, get_state, put_state, lift, on_error, reject_if,
}
use keymaster.Jwt.{second}
use keymaster.Respond.{write_failure_response, stop_if_locked}
use keymaster.CheckAuth.{check_auth}
use keymaster.SecondFactor.{get_or_post, parse_form_or, otp_of_form, raise_level, send_onwards}

abbrev pub vip_transaction_cookie_name : String
vip_transaction_cookie_name = "vip_push_cookie"

abbrev pub max_age_seconds_vip_cookie : ℕ
max_age_seconds_vip_cookie = 120

-- `r.Cookie(name)`: the first of the name
unfoldable pub first_cookie : String → List (String × String) → Option String
first_cookie name [] = none
first_cookie name ((key, value) ∷ rest) =
    if str_eq key name then some value else first_cookie name rest

abbrev get_push_poll_transaction :
    RuntimeState → (cookie_value : String) → Option PushPollTransaction
get_push_poll_transaction state cookie_value = lookup cookie_value state.vip_push_cookie

module _ (env : Env) where
  -- the push, and its transaction stored under the cookie
  unfoldable start_vip_push : (cookie_val username : String) → M (Unit {0})
  start_vip_push cookie_val username = do
    transaction_id ← lift (env.vip_start_push username)
    state ← get_state
    let new_local_data : PushPollTransaction = record {
      username = username;
      transaction_id = transaction_id;
      expires_at = env.now + max_age_seconds_vip_cookie * second;
    }
    put_state
        (record state { vip_push_cookie = insert cookie_val new_local_data state.vip_push_cookie })

  module _ (r : Request) where
    unfoldable pub vip_enabled_or : (code : ℕ) (message : String) → M (Unit {0})
    vip_enabled_or code message = do
      state ← get_state
      reject_if (not state.config.symantec_vip_enabled) (write_failure_response env r code message)
          ""

    -- the transaction cookie's value
    unfoldable pub transaction_cookie : M String
    transaction_cookie = elim (first_cookie vip_transaction_cookie_name r.cookies) [
      | none ↦ write_failure_response env r status_bad_request "Missing Cookie" >> fail "no cookie"
      | some value ↦ return value
    ]

    unfoldable vip_auth_handler : M (Unit {0})
    vip_auth_handler = do
      stop_if_locked env r
      get_or_post env r
      parse_form_or env r status_bad_request
      info ← check_auth env r auth_type_any
      emit (set_username info.username)
      otp_value ← otp_of_form env r
      vip_enabled_or status_precondition_failed "VIP not enabled"
      valid ← on_error (lift (env.vip_validate_otp info.username otp_value)) (λ e.
          write_failure_response env r status_internal_server_error
            "Failure when validating VIP token")
      reject_if (not valid) (write_failure_response env r status_unauthorized "") ""
      emit (publish_vip_auth "VIPAuthTypeOTP" info.username)
      old ←
          raise_level env r (bit_or info.auth_type auth_type_symantec_vip)
            "Failure when validating VIP token"
      send_onwards env r (emit (publish_web_login info.username))

    unfoldable vip_push_start_handler : M (Unit {0})
    vip_push_start_handler = do
      stop_if_locked env r
      vip_enabled_or status_bad_request ""
      info ← check_auth env r auth_type_any
      emit (set_username info.username)
      cookie ← transaction_cookie
      state ← get_state
      reject_if (is_some (get_push_poll_transaction state cookie))
          (write_failure_response env r status_internal_server_error "Push already sent") ""
      on_error (start_vip_push cookie info.username)
          (λ e. write_failure_response env r status_internal_server_error "Cookie not setup ")
      emit (write_header status_ok)

    -- a transaction that was started under the cookie
    unfoldable pub started_transaction : (cookie_value : String) → M PushPollTransaction
    started_transaction cookie_value = do
      state ← get_state
      elim (get_push_poll_transaction state cookie_value) [
        | none ↦
            write_failure_response env r status_precondition_failed "Error parsing form"
            >> fail "push transaction not found for user"
        | some transaction ↦ return transaction
      ]

    -- the transaction of the request's cookie, once the service has approved it
    unfoldable pub approved_push : M PushPollTransaction
    approved_push = do
      cookie ← transaction_cookie
      transaction ← started_transaction cookie
      valid ←
          on_error (lift (env.vip_push_approved transaction.transaction_id))
            (λ e. write_failure_response env r status_bad_request "Error checking push transaction")
      reject_if (not valid)
          (write_failure_response env r status_precondition_failed "VIP Push Poller unsuccessful")
          ""
      return transaction

    unfoldable pub vip_poll_check_handler : M (Unit {0})
    vip_poll_check_handler = do
      stop_if_locked env r
      vip_enabled_or status_bad_request ""
      get_or_post env r
      parse_form_or env r status_bad_request
      info ← check_auth env r auth_type_any
      emit (set_username info.username)
      transaction ← approved_push
      old ←
          raise_level env r (bit_or info.auth_type auth_type_symantec_vip)
            "Failure when validating VIP token"
      emit (publish_vip_auth "VIPAuthTypePush" info.username)
      emit (write_header status_ok)
