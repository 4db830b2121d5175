-- ===== src/Tests/Handlers.antt =====
-- The theorems on the handlers, at requests that go through.
use keymaster.Prelude.{Memᴰ, ◌⊎◌, ◌+◌, ◌*◌, ◌≤◌, false, [], ◌∷◌, ◌≡◌, ◌≢◌, ◌≤◌, refl, arith}
use keymaster.Prelude.Int.{pos}
use keymaster.Prelude.Dict.{lookup}
use keymaster.Result.{ok}
use keymaster.AuthType.{auth_type_any}
use keymaster.Http.{Cookie, set_cookie, set_username}
use keymaster.State.{AuthInfo, at}
use keymaster.Handler.{World}
use keymaster.Jwt.{second, update_auth_jwt_with_new_auth_level}
use keymaster.Respond.{auth_cookie, find_cookie}
use keymaster.CheckAuth.{check_auth}
use keymaster.CheckAuth.Sound.{Evidence, IsSameSite, check_auth-Evidence}
use keymaster.CertHandler.{cert_gen_handler}
use keymaster.CertHandler.Grants.{Sufficient}
use keymaster.CertHandler.Authorized.{Answered, cert_gen_handler-Answered}
use keymaster.Totp.{validate_user_totp, rate_limit}
use keymaster.Totp.Handlers.Authorized.{Accepted as AcceptedSession}
use keymaster.Totp.Replay.{Accepted, validate_user_totp-Accepted, validate_user_totp_once}
use keymaster.Totp.Limits.{fresh, validated, Reached-LockoutsPast}
use keymaster.Bootstrap.{use_bootstrap_otp}
use keymaster.Bootstrap.SingleUse.{Used, use_bootstrap_otp-Used, use_bootstrap_otp_once}
use keymaster.Vip.{vip_poll_check_handler}
use keymaster.Vip.Authorized.{Polled, vip_poll_check_handler-Approved}
use keymaster.Tests.Data.{moment, env_example, state_example, cert_request, otp_request}

abbrev start : World
start = record { state = state_example; form = []; sent = [] }

abbrev filled : World
filled = record start { form = ("OTP", "123456" ∷ []) ∷ [] }

check_auth-Evidence_example :
    Evidence env_example cert_request state_example auth_type_any
      (record { auth_type = 2; expires_at = 0; issued_at = moment; username = "alice" })
    × (start ≡ start)
    × IsSameSite env_example cert_request
unfolding check_auth find_cookie keymaster.CheckAuth.check_user_password
    keymaster.CheckAuth.reprocess_username
check_auth-Evidence_example =
    check_auth-Evidence env_example cert_request auth_type_any start start
      (record { auth_type = 2; expires_at = 0; issued_at = moment; username = "alice" }) refl

validate_user_totp-Accepted_example :
    Accepted env_example "alice"
      (pos 123456)
      state_example
      (validate_user_totp env_example "alice" (pos 123456) state_example).1
unfolding validate_user_totp keymaster.Storage.load_user_profile lookup keymaster.Jwt.unix
    keymaster.Totp.decrypt_with_public_keys keymaster.Storage.save_user_profile
validate_user_totp-Accepted_example =
    validate_user_totp-Accepted env_example "alice" (pos 123456) state_example
      (validate_user_totp env_example "alice" (pos 123456) state_example).1 refl

validate_user_totp_once_example :
    (validate_user_totp
      (at env_example (moment + 5 * second))
      "alice"
      (pos 123456)
      (validate_user_totp env_example "alice" (pos 123456) state_example).1).0
    ≡ ok false
unfolding validate_user_totp keymaster.Storage.load_user_profile lookup keymaster.Jwt.unix
    keymaster.Totp.decrypt_with_public_keys keymaster.Storage.save_user_profile
validate_user_totp_once_example =
    validate_user_totp_once env_example (at env_example (moment + 5 * second)) "alice" (pos 123456)
      (pos 123456) state_example
      (validate_user_totp env_example "alice" (pos 123456) state_example).1
      (validate_user_totp env_example "alice" (pos 123456) state_example).1 refl refl refl refl refl

Reached-LockoutsPast_example :
    (rate_limit
      (validate_user_totp env_example "bob" (pos 1) state_example).1
      "bob").lockout_expiration_time
    ≤ moment
Reached-LockoutsPast_example =
    Reached-LockoutsPast moment (validate_user_totp env_example "bob" (pos 1) state_example).1
      (validated 0 state_example env_example "bob" (pos 1) (fresh 0 state_example refl)
        (omega arith))
      "bob"

abbrev after_use : World
after_use = (use_bootstrap_otp env_example otp_request "bob" filled).1

use_bootstrap_otp-Used_example : Used env_example otp_request "bob" filled after_use
unfolding use_bootstrap_otp keymaster.Bootstrap.input_otp_hash keymaster.SecondFactor.single_value
    lookup keymaster.Bootstrap.required_otp_hash keymaster.Storage.load_user_profile
    keymaster.Bootstrap.user_bootstrap_otp_hash keymaster.Bootstrap.clear_bootstrap_otp
    keymaster.Storage.save_user_profile
use_bootstrap_otp-Used_example =
    use_bootstrap_otp-Used env_example otp_request "bob" filled after_use refl

use_bootstrap_otp_once_example :
    use_bootstrap_otp env_example otp_request "bob" after_use ≢ (ok tt, after_use)
unfolding use_bootstrap_otp keymaster.Bootstrap.input_otp_hash keymaster.SecondFactor.single_value
    lookup keymaster.Bootstrap.required_otp_hash keymaster.Storage.load_user_profile
    keymaster.Bootstrap.user_bootstrap_otp_hash keymaster.Bootstrap.clear_bootstrap_otp
    keymaster.Storage.save_user_profile
use_bootstrap_otp_once_example =
    use_bootstrap_otp_once env_example env_example otp_request otp_request "bob" filled after_use
      after_use after_use refl refl

abbrev answered : World
answered = (cert_gen_handler env_example cert_request start).1

cert_gen_handler-Answered_example :
    (info : AuthInfo) × Evidence env_example cert_request state_example auth_type_any info
    × IsSameSite env_example cert_request
    × Sufficient state_example info.auth_type
    × Answered env_example cert_request info (set_username info.username ∷ []) answered
unfolding cert_gen_handler check_auth find_cookie keymaster.CheckAuth.check_user_password
    keymaster.CertHandler.is_sufficient keymaster.CheckAuth.reprocess_username lookup
    keymaster.CertHandler.post_auth_ssh_cert_handler keymaster.CertGen.validate_public_key_strength
    keymaster.CertGen.gen_ssh_cert_file_string
cert_gen_handler-Answered_example =
    cert_gen_handler-Answered env_example cert_request start answered refl

abbrev raised_cookie : Cookie
raised_cookie = auth_cookie "t2" 0

abbrev polled_cookie : Cookie
polled_cookie = auth_cookie "t4" 0

vip_poll_check_handler-Approved_example :
    Memᴰ (set_cookie polled_cookie) start.sent
    ⊎ Polled env_example otp_request state_example polled_cookie
unfolding vip_poll_check_handler check_auth find_cookie keymaster.Jwt.get_auth_info_from_auth_jwt
    keymaster.Jwt.jwt_claims keymaster.Tests.verify_example keymaster.Json.unmarshal_auth
    keymaster.Jwt.has_sane_values keymaster.Jwt.idp_get_issuer keymaster.Jwt.unix
    keymaster.Jwt.from_unix keymaster.Respond.stop_if_locked keymaster.SecondFactor.raise_level
    keymaster.Respond.update_auth_cookie_authlevel update_auth_jwt_with_new_auth_level
    keymaster.Tests.sign_example keymaster.Vip.vip_enabled_or keymaster.Vip.approved_push
    keymaster.Vip.transaction_cookie keymaster.Vip.first_cookie keymaster.Vip.started_transaction
vip_poll_check_handler-Approved_example =
    vip_poll_check_handler-Approved env_example otp_request start polled_cookie
      (Memᴰ.tail (Memᴰ.tail (Memᴰ.head refl)))
