-- ===== src/Bootstrap.antt =====
-- cmd/keymasterd/2fa_bootstrapOTP.go: the one-time password for a user without a second factor.
pub mod SingleUse
use keymaster.Prelude.{
  ℕ, ◌+◌, ◌*◌, String, Bool, true, false, not, ◌&&◌, ◌||◌, List, [], ◌∷◌, Option, none, some,
  is_some, leb, str_eq, bit_or, if◌then◌else◌,
}
use keymaster.Result.{Result, ok, err}
use keymaster.AuthType.{auth_type_any, auth_type_bootstrap_otp}
use keymaster.Http.{
  Request, set_username, publish_web_login, status_bad_request, status_unauthorized,
  status_service_unavailable, status_precondition_failed, status_internal_server_error,
}
use keymaster.Profile.{UserProfile, BootstrapOtpData}
use keymaster.State.{Env, RuntimeState, AuthInfo}
use keymaster.Handler.{
  M, World, ◌>>=◌, ◌>>◌, return, fail, emit, get_state, put_state, lift, on_error, reject_if,
}
use keymaster.Jwt.{second}
use keymaster.Respond.{get_form, write_failure_response, stop_if_locked}
use keymaster.CheckAuth.{check_auth}
use keymaster.Storage.{LoadedProfile, load_user_profile, save_user_profile}
use keymaster.SecondFactor.{single_value, get_or_post, parse_form_or, raise_level, send_onwards}

abbrev self_service_bootstrap_otp_lifetime : ℕ
self_service_bootstrap_otp_lifetime = 5 * 60 * second

abbrev pub no_bootstrap_otp : BootstrapOtpData
no_bootstrap_otp = record { expires_at = 0; sha512_hash = none }

-- the test for an empty list
abbrev pub is_empty : {A : Type 0} → List A → Bool
is_empty [] = true
is_empty (x ∷ xs) = false

module _ (env : Env) where
  -- The hash that a password must have: none for a user with a device, one from the cache, one
  -- without a pending password, or one whose password has run out.
  unfoldable pub user_bootstrap_otp_hash : UserProfile → (from_cache : Bool) → Option String
  user_bootstrap_otp_hash profile from_cache =
      if not (is_empty profile.u2f_auth_data) || not (is_empty profile.totp_auth_data)
      then none
      else (if from_cache
          then none
          else (if not (is_some profile.bootstrap_otp.sha512_hash)
              then none
              else (if leb profile.bootstrap_otp.expires_at env.now
                  then none
                  else profile.bootstrap_otp.sha512_hash)))

  -- whether a user may be sent a password on their own request
  unfoldable may_self_serve : RuntimeState → UserProfile → Bool
  unfolding user_bootstrap_otp_hash
  may_self_serve state profile =
      state.config.base.allow_self_service_bootstrap_otp
      && is_empty profile.u2f_auth_data
      && is_empty profile.totp_auth_data
      && not profile.user_has_registered_2nd_factor
      && not (is_some (user_bootstrap_otp_hash profile false))
      && is_some state.email_manager

  -- the profile with a new password, if one could be made, sent and saved
  unfoldable pub try_self_service_generate_bootstrap_otp :
      (username : String) → UserProfile → RuntimeState → Option UserProfile × RuntimeState
  unfolding may_self_serve
  try_self_service_generate_bootstrap_otp username input state =
      if not (may_self_serve state input) then (none, state) else elim env.random_text [
        | err e ↦ (none, state)
        | ok value ↦
            let profile : UserProfile = record input {
              bootstrap_otp = record {
                expires_at = env.now + self_service_bootstrap_otp_lifetime;
                sha512_hash = some (env.sha512 value);
              };
            } in
            elim env.send_email_error [
              | some e ↦ (none, state)
              | none ↦ elim (save_user_profile env state username profile) [
                | err e ↦ (none, state)
                | ok saved ↦ (some profile, saved)
              ]
            ]
      ]

  module _ (r : Request) where
    -- the hash of the one OTP of the form
    unfoldable pub input_otp_hash : M String
    input_otp_hash = do
      form ← get_form
      given ←
          on_error (lift (single_value form "OTP"))
            (λ e. write_failure_response env r status_bad_request "Just one OTP value allowed")
      elim given [
        | none ↦
            write_failure_response env r status_bad_request "No OTP value provided"
            >> fail "no OTP value"
        | some value ↦ return (env.sha512 value)
      ]

    -- the profile that the OTP is checked against, and the hash that is required
    unfoldable pub required_otp_hash : (username : String) → M (UserProfile × String)
    required_otp_hash username = do
      state ← get_state
      loaded ← on_error (lift (load_user_profile env state username)) (λ e.
          write_failure_response env r status_internal_server_error "Failure loading user profile")
      reject_if loaded.from_cache
          (write_failure_response env r status_service_unavailable
            "Working in DB disconnected mode, try again later")
          ""
      elim (user_bootstrap_otp_hash loaded.profile loaded.from_cache) [
        | none ↦
            write_failure_response env r status_precondition_failed
              "No valid Bootstrap OTP hash saved"
            >> fail "no hash"
        | some hash ↦ return (loaded.profile, hash)
      ]

    -- the OTP is cleared before the session is raised
    unfoldable pub clear_bootstrap_otp : (username : String) → UserProfile → M (Unit {0})
    clear_bootstrap_otp username profile = do
      state ← get_state
      saved ←
          on_error
            (lift (
              save_user_profile env state username
                (record profile { bootstrap_otp = no_bootstrap_otp })))
            (λ e. write_failure_response env r status_internal_server_error "")
      put_state saved

    -- the check of the OTP of a user, and its use
    unfoldable pub use_bootstrap_otp : (username : String) → M (Unit {0})
    use_bootstrap_otp username = do
      input ← input_otp_hash
      (profile, required) ← required_otp_hash username
      reject_if (not (str_eq input required))
          (write_failure_response env r status_unauthorized "Invalid Bootstrap OTP") ""
      clear_bootstrap_otp username profile

    unfoldable bootstrap_otp_auth_handler : M (Unit {0})
    bootstrap_otp_auth_handler = do
      stop_if_locked env r
      get_or_post env r
      parse_form_or env r status_internal_server_error
      info ← check_auth env r auth_type_any
      emit (set_username info.username)
      use_bootstrap_otp info.username
      old ←
          raise_level env r (bit_or info.auth_type auth_type_bootstrap_otp)
            "Failure when validating Boostrap OTP"
      send_onwards env r (emit (publish_web_login info.username))
