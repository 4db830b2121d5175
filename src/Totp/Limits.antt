-- ===== src/Totp/Limits.antt =====
-- cmd/keymasterd/2fa_totp.go: how often a one-time password may be tried.
use keymaster.Prelude.{
  ℕ, ◌+◌, ◌*◌, ◌≤◌, String, Bool, true, false, [], some, ◌≡◌, refl, ap, ◌∙◌, Option, inl, inr,
  arith, ltb, ◌==◌, str_eq, if◌then◌else◌, Bool-cases,
}
use keymaster.Prelude.Int.{ℤ}
use keymaster.Prelude.Dict.{lookup, lookup-insert}
use keymaster.Result.{ok, Result-cases}
use keymaster.State.{Env, RuntimeState, TotpRateLimitInfo}
use keymaster.Jwt.{second}
use keymaster.Storage.{LoadedProfile, load_user_profile, save_user_profile}
use keymaster.Totp.{
  limit_or_zero, min_secs_between_totp_validations, counter_of, rate_limit, set_rate_limit,
  any_device_accepts, reset_after_a_day, count_failure, count_success, save_counter, check_devices,
  validate_user_totp,
}

limit_or_zero-if :
    (b : Bool) (limit : TotpRateLimitInfo) (old : Option TotpRateLimitInfo)
    → limit_or_zero (if b then some limit else old) ≡ (if b then limit else limit_or_zero old)
limit_or_zero-if true limit old = refl
limit_or_zero-if false limit old = refl

rate_limit-set :
    (state : RuntimeState) (user other : String) (limit : TotpRateLimitInfo)
    → rate_limit (set_rate_limit state user limit) other
      ≡ (if str_eq user other then limit else rate_limit state other)
unfolding rate_limit set_rate_limit
rate_limit-set state user other limit =
    ap limit_or_zero (lookup-insert user other limit state.totp_local_rate_limit)
    ∙ limit_or_zero-if (str_eq user other) limit (lookup other state.totp_local_rate_limit)

-- Nobody's lockout reaches beyond a time.
abbrev LockoutsPast : RuntimeState → ℕ → Type 0
LockoutsPast state now = (user : String) → (rate_limit state user).lockout_expiration_time ≤ now

set-LockoutsPast :
    (state : RuntimeState) (now : ℕ) (user : String) (limit : TotpRateLimitInfo)
    → LockoutsPast state now
    → limit.lockout_expiration_time ≤ now
    → LockoutsPast (set_rate_limit state user limit) now
set-LockoutsPast state now user limit past le other = elim (Bool-cases (str_eq user other)) [
  | inl same ↦ rw (rate_limit-set state user other limit, same) le
  | inr apart ↦ rw (rate_limit-set state user other limit, apart) (past other)
]

same_limits-LockoutsPast :
    (state changed : RuntimeState) (now : ℕ)
    → changed.totp_local_rate_limit ≡ state.totp_local_rate_limit
    → LockoutsPast state now
    → LockoutsPast changed now
unfolding rate_limit
same_limits-LockoutsPast state changed now same past user = rw same (past user)

module _ (env : Env) where
  save_counter-limits :
      (state saved : RuntimeState) (user : String) (loaded : LoadedProfile)
      → save_counter env state user loaded ≡ ok saved
      → saved.totp_local_rate_limit ≡ state.totp_local_rate_limit
  unfolding save_counter save_user_profile
  save_counter-limits state saved user loaded h = ground arith

  count_failure-lockout :
      (limit : TotpRateLimitInfo)
      → (count_failure env limit).lockout_expiration_time ≡ limit.lockout_expiration_time
  unfolding count_failure
  count_failure-lockout limit = ground arith

  count_success-lockout :
      (limit : TotpRateLimitInfo) → (count_success env limit).lockout_expiration_time ≡ env.now
  unfolding count_success
  count_success-lockout limit = refl

  reset-lockout :
      (limit : TotpRateLimitInfo)
      → limit.lockout_expiration_time ≤ env.now
      → (reset_after_a_day env limit).lockout_expiration_time ≤ env.now
  unfolding reset_after_a_day
  reset-lockout limit le = ground arith

  check_devices-LockoutsPast :
      (user : String) (otp : ℤ) (loaded : LoadedProfile) (limit : TotpRateLimitInfo)
      (state : RuntimeState)
      → limit.lockout_expiration_time ≤ env.now
      → LockoutsPast state env.now
      → LockoutsPast (check_devices env user otp loaded limit state).1 env.now
  unfolding check_devices
  check_devices-LockoutsPast user otp loaded limit state le past =
      elim (Bool-cases (loaded.profile.last_successful_totp_counter == counter_of env.now)) [
        | inl used ↦ rw used past
        | inr fresh ↦
            elim (Result-cases (
              any_device_accepts env state.signer (env.otp_text otp)
                loaded.profile.totp_auth_data)) [
                  | inl (e, failed) ↦ rw (fresh, failed) past
                  | inr (b, answered) ↦ elim (Bool-cases b) [
                    | inr bad ↦
                        rw (fresh, answered, bad)
                          (set-LockoutsPast state env.now user (count_failure env limit) past
                            (rw (count_failure-lockout limit) le))
                    | inl good ↦ elim (Result-cases (save_counter env state user loaded)) [
                      | inl (e, failed) ↦ rw (fresh, answered, good, failed) past
                      | inr (saved, done) ↦
                          rw (fresh, answered, good, done)
                            (set-LockoutsPast saved env.now user (count_success env limit)
                              (same_limits-LockoutsPast state saved env.now
                                (save_counter-limits state saved user loaded done) past)
                              (rw (count_success-lockout limit) (omega arith)))
                    ]
                  ]
                ]
      ]

  validate-LockoutsPast :
      (user : String) (otp : ℤ) (state : RuntimeState)
      → LockoutsPast state env.now
      → LockoutsPast (validate_user_totp env user otp state).1 env.now
  unfolding validate_user_totp
  validate-LockoutsPast user otp state past =
      let limit = rate_limit state user in
      let noted =
        set-LockoutsPast state env.now user (record limit { last_check_time = env.now }) past
          (past user) in
      elim (Result-cases (load_user_profile env state user)) [
        | inl (e, failed) ↦ rw (validate_user_totp, failed) past
        | inr (loaded, found) ↦
            elim (Bool-cases
              (ltb env.now (limit.last_check_time + min_secs_between_totp_validations * second))) [
                | inl soon ↦ rw (validate_user_totp, found, soon) past
                | inr later ↦ elim (Bool-cases (ltb env.now limit.lockout_expiration_time)) [
                  | inl locked ↦ rw (validate_user_totp, found, later, locked) noted
                  | inr unlocked ↦
                      rw (validate_user_totp, found, later, unlocked)
                        (check_devices-LockoutsPast user otp loaded
                          (reset_after_a_day env (record limit { last_check_time = env.now })) _
                          (reset-lockout (record limit { last_check_time = env.now }) (past user))
                          noted)
                ]
              ]
      ]

-- The daemon's states over time: it starts without any limits; a password is checked, or the rest of
-- the daemon goes on, which leaves the limits alone.
pub data Reached : ℕ → RuntimeState → Type 0 where
  fresh : (t : ℕ) (state : RuntimeState) → state.totp_local_rate_limit ≡ [] → Reached t state
  validated :
      (t : ℕ) (state : RuntimeState) (env : Env) (user : String) (otp : ℤ)
      → Reached t state
      → t ≤ env.now
      → Reached env.now (validate_user_totp env user otp state).1
  other :
      (t u : ℕ) (state next : RuntimeState)
      → Reached t state
      → t ≤ u
      → next.totp_local_rate_limit ≡ state.totp_local_rate_limit
      → Reached u next

-- In every state that the daemon reaches, after any number of failures, nobody is locked out: the
-- end of the lockout is not after the present.
pub Reached-LockoutsPast :
    (t : ℕ) (state : RuntimeState)
    → Reached t state
    → (user : String) → (rate_limit state user).lockout_expiration_time ≤ t
unfolding rate_limit lookup
Reached-LockoutsPast _ _ (fresh t state e) user = rw e (omega arith)
Reached-LockoutsPast _ _ (validated t state env user otp reached le) someone =
    validate-LockoutsPast env user otp state
      (λ v. omega (arith, Reached-LockoutsPast t state reached v)) someone
Reached-LockoutsPast _ _ (other t u state next reached le e) user =
    let earlier = Reached-LockoutsPast t state reached user in rw e (omega (arith, earlier))
