-- ===== src/Totp/Replay.antt =====
-- cmd/keymasterd/2fa_totp.go: what an accepted one-time password was, and that no other
-- counts in its period.
use keymaster.Prelude.{
  ℕ, ◌+◌, ◌*◌, String, true, false, List, [], ◌∷◌, Memᴰ, Option, some, ◌≡◌, refl, sym, ◌∙◌, inl,
  inr, arith, ltb, ◌==◌, Bool-cases, Option-cases,
}
use keymaster.Prelude.Int.{ℤ}
use keymaster.Prelude.Dict.{lookup, insert, lookup-insert_self}
use keymaster.Result.{ok, Result-cases}
use keymaster.Profile.{UserProfile, TotpAuthData}
use keymaster.State.{Env, RuntimeState, TotpRateLimitInfo, answers}
use keymaster.Jwt.{second}
use keymaster.Storage.{LoadedProfile, load_user_profile, save_user_profile}
use keymaster.Totp.{
  min_secs_between_totp_validations, counter_of, rate_limit, set_rate_limit,
  decrypt_with_public_keys, any_device_accepts, reset_after_a_day, save_counter, check_devices,
  validate_user_totp,
}

module _ (env : Env) where
  -- A device of the list that is enabled, whose secret can be read, and that accepts the text now.
  abbrev Accepting : Option String → String → List (ℕ × TotpAuthData) → Type 0
  Accepting signer text devices =
      (index : ℕ) × (device : TotpAuthData) × (key : String) × Memᴰ (index, device) devices
      × (device.enabled ≡ true)
      × (decrypt_with_public_keys env signer device.encrypted_secret ≡ ok key)
      × (env.totp_validate env.now text key ≡ true)

  any_device-Accepting :
      (signer : Option String) (text : String) (devices : List (ℕ × TotpAuthData))
      → any_device_accepts env signer text devices ≡ ok true
      → Accepting signer text devices
  unfolding any_device_accepts
  any_device-Accepting signer text [] h = absurd (ground arith)
  any_device-Accepting signer text ((index, device) ∷ devices) h =
      let later : any_device_accepts env signer text devices ≡ ok true
          → Accepting signer text ((index, device) ∷ devices) =
        λ h1.
          let (i, d, k, member, enabled, plain, valid) =
            any_device-Accepting signer text devices h1 in
          (i, d, k, Memᴰ.tail member, enabled, plain, valid) in
      elim (Bool-cases device.enabled) [
        | inr disabled ↦ later (ground arith)
        | inl enabled ↦
            elim (Result-cases (decrypt_with_public_keys env signer device.encrypted_secret)) [
              | inl (e, failed) ↦ absurd (ground arith)
              | inr (key, plain) ↦ elim (Bool-cases (env.totp_validate env.now text key)) [
                | inl valid ↦ (index, device, key, Memᴰ.head refl, enabled, plain, valid)
                | inr invalid ↦ later (ground arith)
              ]
            ]
      ]

  -- What it takes for a password to be accepted, and what is kept of it.
  pub record Accepted (user : String) (otp : ℤ) (state after : RuntimeState) : Type 0 where
    pub loaded : LoadedProfile
    pub stored : load_user_profile env state user ≡ ok loaded
    pub unhurried :
        ltb env.now
          ((rate_limit state user).last_check_time + min_secs_between_totp_validations * second)
        ≡ false
    pub unused : (loaded.profile.last_successful_totp_counter == counter_of env.now) ≡ false
    pub device : Accepting state.signer (env.otp_text otp) loaded.profile.totp_auth_data
    pub kept :
        loaded.from_cache ≡ false
        → (profile : UserProfile) × (lookup user after.db ≡ some profile)
          × (profile.last_successful_totp_counter ≡ counter_of env.now)

  save_counter-kept :
      (state saved : RuntimeState) (user : String) (loaded : LoadedProfile)
      → save_counter env state user loaded ≡ ok saved
      → loaded.from_cache ≡ false
      → lookup user saved.db
        ≡ some (record loaded.profile { last_successful_totp_counter = counter_of env.now })
  unfolding save_counter save_user_profile
  save_counter-kept state saved user loaded h online = elim (Option-cases env.save_error) [
    | inr (e, failed) ↦ absurd (ground arith)
    | inl works ↦
        let written : insert user
              (record loaded.profile { last_successful_totp_counter = counter_of env.now }) state.db
            ≡ saved.db =
          ground arith in
        rw (← written) (
          lookup-insert_self user
            (record loaded.profile { last_successful_totp_counter = counter_of env.now }) state.db)
  ]

  check_devices-true :
      (user : String) (otp : ℤ) (loaded : LoadedProfile) (limit : TotpRateLimitInfo)
      (state after : RuntimeState)
      → check_devices env user otp loaded limit state ≡ (ok true, after)
      → ((loaded.profile.last_successful_totp_counter == counter_of env.now) ≡ false)
        × (any_device_accepts env state.signer (env.otp_text otp) loaded.profile.totp_auth_data
            ≡ ok true)
        × ((saved : RuntimeState) × (save_counter env state user loaded ≡ ok saved)
            × (after.db ≡ saved.db))
  unfolding check_devices set_rate_limit
  check_devices-true user otp loaded limit state after h =
      elim (Bool-cases (loaded.profile.last_successful_totp_counter == counter_of env.now)) [
        | inl used ↦ absurd (ground arith)
        | inr fresh ↦
            elim (Result-cases (
              any_device_accepts env state.signer (env.otp_text otp)
                loaded.profile.totp_auth_data)) [
                  | inl (e, failed) ↦ absurd (ground arith)
                  | inr (false, answered) ↦ absurd (ground arith)
                  | inr (true, answered) ↦
                      elim (Result-cases (save_counter env state user loaded)) [
                        | inl (e, failed) ↦ absurd (ground arith)
                        | inr (saved, done) ↦ (fresh, answered, (saved, done, ground arith))
                      ]
                ]
      ]

  -- A password is accepted only if the user's profile could be read; at least two seconds have passed
  -- since the last check; none was accepted in this period, as far as the profile tells; and a device
  -- of the profile that is enabled accepts the text. The period is then stored, unless the profile
  -- came from the cache.
  pub validate_user_totp-Accepted :
      (user : String) (otp : ℤ) (state after : RuntimeState)
      → validate_user_totp env user otp state ≡ (ok true, after)
      → Accepted user otp state after
  unfolding validate_user_totp set_rate_limit
  validate_user_totp-Accepted user otp state after h =
      let limit = rate_limit state user in
      elim (Result-cases (load_user_profile env state user)) [
        | inl (e, failed) ↦ absurd (ground arith)
        | inr (loaded, found) ↦
            elim (Bool-cases
              (ltb env.now (limit.last_check_time + min_secs_between_totp_validations * second))) [
                | inl soon ↦ absurd (ground arith)
                | inr later ↦ elim (Bool-cases (ltb env.now limit.lockout_expiration_time)) [
                  | inl locked ↦ absurd (ground arith)
                  | inr unlocked ↦
                      let (fresh, answered, (saved, done, same)) =
                        check_devices-true user otp loaded
                          (reset_after_a_day env (record limit { last_check_time = env.now }))
                          (set_rate_limit state user (record limit { last_check_time = env.now }))
                          after (ground arith) in
                      record {
                        loaded = loaded;
                        stored = found;
                        unhurried = later;
                        unused = fresh;
                        device = any_device-Accepting _ _ _ answered;
                        kept = λ online. (
                          record loaded.profile {
                            last_successful_totp_counter = counter_of env.now;
                          },
                          rw same (save_counter-kept _ saved user loaded done online),
                          refl,
                        );
                      }
                ]
              ]
      ]

  answered-online :
      (user : String) (state : RuntimeState) (loaded : LoadedProfile)
      → env.primary ≡ answers
      → load_user_profile env state user ≡ ok loaded
      → loaded.from_cache ≡ false
  unfolding load_user_profile
  answered-online user state loaded up h = ground arith

  -- A profile that says that the period is used lets no password through.
  used-refused :
      (user : String) (otp : ℤ) (state : RuntimeState) (profile : UserProfile)
      → env.primary ≡ answers
      → lookup user state.db ≡ some profile
      → profile.last_successful_totp_counter ≡ counter_of env.now
      → (validate_user_totp env user otp state).0 ≡ ok false
  unfolding validate_user_totp check_devices load_user_profile
  used-refused user otp state profile up stored used = ground arith

-- Once a password has been accepted while the primary database answers, no password is accepted for
-- this user in the same period of 30 seconds, whatever else the daemon does in between, as long as
-- the user's stored profile stays and the database answers.
pub validate_user_totp_once :
    (env later : Env) (user : String) (otp again : ℤ) (state after next : RuntimeState)
    → validate_user_totp env user otp state ≡ (ok true, after)
    → env.primary ≡ answers
    → later.primary ≡ answers
    → lookup user next.db ≡ lookup user after.db
    → counter_of later.now ≡ counter_of env.now
    → (validate_user_totp later user again next).0 ≡ ok false
validate_user_totp_once env later user otp again state after next h up up' same period =
    let accepted = validate_user_totp-Accepted env user otp state after h in
    let (profile, stored, used) =
      accepted.kept (answered-online env user state accepted.loaded up accepted.stored) in
    used-refused later user again next profile up' (same ∙ stored) (used ∙ sym period)
