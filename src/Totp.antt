-- ===== src/Totp.antt =====
-- cmd/keymasterd/2fa_totp.go: the check of a time-based one-time password.
pub mod Replay
pub mod Limits
pub mod Handlers
pub mod Devices
use keymaster.Prelude.{
  ℕ, ◌+◌, ◌*◌, ◌/◌, ◌%◌, String, Bool, true, false, List, [], ◌∷◌, Option, none, some, ltb, ◌==◌,
  if◌then◌else◌,
}
use keymaster.Prelude.Int.{ℤ}
use keymaster.Prelude.Dict.{lookup, insert}
use keymaster.Result.{Result, ok, err}
use keymaster.Profile.{UserProfile, TotpAuthData}
use keymaster.State.{Env, RuntimeState, TotpRateLimitInfo}
use keymaster.Jwt.{second, unix}
use keymaster.Storage.{LoadedProfile, load_user_profile, save_user_profile}

abbrev pub min_secs_between_totp_validations : ℕ
min_secs_between_totp_validations = 2

abbrev num_hours_for_local_totp_rate_limit_reset : ℕ
num_hours_for_local_totp_rate_limit_reset = 24

abbrev num_failed_totp_checks_for_timeout_increase : ℕ
num_failed_totp_checks_for_timeout_increase = 5

abbrev default_period : ℕ
default_period = 30

-- the number of the period of a time
unfoldable pub counter_of : ℕ → ℕ
counter_of t = unix t / default_period

-- a missing entry is the zero value
abbrev pub limit_or_zero : Option TotpRateLimitInfo → TotpRateLimitInfo
limit_or_zero (some limit) = limit
limit_or_zero none = record {
  last_check_time = 0;
  fail_count = 0;
  last_fail_time = 0;
  lockout_expiration_time = 0;
}

-- `state.totpLocalRateLimit[username]`
unfoldable pub rate_limit : RuntimeState → (username : String) → TotpRateLimitInfo
rate_limit state username = limit_or_zero (lookup username state.totp_local_rate_limit)

unfoldable pub set_rate_limit :
    RuntimeState → (username : String) → TotpRateLimitInfo → RuntimeState
set_rate_limit state username limit = record state {
  totp_local_rate_limit = insert username limit state.totp_local_rate_limit;
}

module _ (env : Env) where
  -- the loop over the cipher texts: the first that the RSA signer can decrypt
  unfoldable pub decrypt_with_public_keys :
      Option String → (cipher_texts : List String) → Result String
  decrypt_with_public_keys signer [] = err "Cannot decrypt Message"
  decrypt_with_public_keys signer (text ∷ texts) =
      let rest = decrypt_with_public_keys signer texts in
      elim signer [
        | none ↦ rest
        | some key ↦ elim (env.rsa_decrypt key text) [ err e ↦ rest | ok plain ↦ ok plain ]
      ]

  -- the loop over the devices: whether one that is enabled accepts the text
  unfoldable pub any_device_accepts :
      Option String → (otp_string : String) → List (ℕ × TotpAuthData) → Result Bool
  any_device_accepts signer otp_string [] = ok false
  any_device_accepts signer otp_string ((index, device) ∷ devices) =
      let rest = any_device_accepts signer otp_string devices in
      if device.enabled
      then elim (decrypt_with_public_keys signer device.encrypted_secret) [
        | err e ↦ err e
        | ok clear_text_key ↦
            if env.totp_validate env.now otp_string clear_text_key then ok true else rest
      ]
      else rest

  -- after a day without a failure the count starts again
  unfoldable pub reset_after_a_day : TotpRateLimitInfo → TotpRateLimitInfo
  reset_after_a_day limit =
      if ltb (limit.last_fail_time + num_hours_for_local_totp_rate_limit_reset * 3600 * second)
        env.now
      then record limit { fail_count = 0; lockout_expiration_time = env.now }
      else limit

  -- The lockout of every fifth failure is computed and dropped: `Time.Add` does not change its
  -- receiver.
  unfoldable pub count_failure : TotpRateLimitInfo → TotpRateLimitInfo
  count_failure limit =
      let counted : TotpRateLimitInfo = record limit { fail_count = limit.fail_count + 1 } in
      let failed : TotpRateLimitInfo =
        if counted.fail_count % num_failed_totp_checks_for_timeout_increase == 0
        then counted
        else counted in
      record failed { last_fail_time = env.now }

  unfoldable pub count_success : TotpRateLimitInfo → TotpRateLimitInfo
  count_success limit = record limit { fail_count = 0; lockout_expiration_time = env.now }

  -- the counter of the accepted password, saved unless the profile came from the cache
  unfoldable pub save_counter :
      RuntimeState → (username : String) → LoadedProfile → Result RuntimeState
  save_counter state username loaded =
      if loaded.from_cache
      then ok state
      else save_user_profile env state username
          (record loaded.profile { last_successful_totp_counter = counter_of env.now })

  -- the part after the limits on how often is asked
  unfoldable pub check_devices :
      (username : String) (otp_value : ℤ)
      → LoadedProfile
      → TotpRateLimitInfo
      → RuntimeState
      → Result Bool × RuntimeState
  unfolding counter_of any_device_accepts count_failure count_success save_counter set_rate_limit
  check_devices username otp_value loaded limit state =
      if loaded.profile.last_successful_totp_counter == counter_of env.now
      then (ok false, state)
      else elim (any_device_accepts state.signer (env.otp_text otp_value)
          loaded.profile.totp_auth_data) [
            | err e ↦ (err e, state)
            | ok false ↦ (ok false, set_rate_limit state username (count_failure limit))
            | ok true ↦ elim (save_counter state username loaded) [
              | err e ↦ (err e, state)
              | ok saved ↦ (ok true, set_rate_limit saved username (count_success limit))
            ]
          ]

  unfoldable pub validate_user_totp :
      (username : String) (otp_value : ℤ) → RuntimeState → Result Bool × RuntimeState
  unfolding rate_limit set_rate_limit reset_after_a_day check_devices
  validate_user_totp username otp_value state =
      let limit = rate_limit state username in
      let checked : TotpRateLimitInfo = record limit { last_check_time = env.now } in
      let noted = set_rate_limit state username checked in
      elim (load_user_profile env state username) [
        | err e ↦ (err e, state)
        | ok loaded ↦
            if ltb env.now (limit.last_check_time + min_secs_between_totp_validations * second)
            then (ok false, state)
            else (if ltb env.now checked.lockout_expiration_time
                then (ok false, noted)
                else check_devices username otp_value loaded (reset_after_a_day checked) noted)
      ]
