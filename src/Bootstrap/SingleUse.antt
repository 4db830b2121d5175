-- ===== src/Bootstrap/SingleUse.antt =====
-- cmd/keymasterd/2fa_bootstrapOTP.go: a bootstrap password is used once.
use keymaster.Prelude.{
  ◌<◌, String, Bool, true, false, not, List, [], ◌∷◌, none, some, ◌≡◌, ◌≢◌, refl, subst, sym, ap,
  ◌∙◌, inl, inr, arith, str_eq, eq_iff, Option-cases,
}
use keymaster.Prelude.Dict.{lookup, insert, lookup-insert_self}
use keymaster.Result.{ok}
use keymaster.Http.{
  Request, status_bad_request, status_unauthorized, status_service_unavailable,
  status_internal_server_error,
}
use keymaster.Profile.{UserProfile}
use keymaster.State.{Env, RuntimeState, Primary, answers, fails, times_out}
use keymaster.Handler.{World, lift, on_error, reject_if, >>=-elim, reject_if-ok, on_error-lift_ok}
use keymaster.Respond.{write_failure_response}
use keymaster.Storage.{LoadedProfile, row_of, load_user_profile, save_user_profile}
use keymaster.SecondFactor.{single_value}
use keymaster.Bootstrap.{
  is_empty, no_bootstrap_otp, user_bootstrap_otp_hash, input_otp_hash, required_otp_hash,
  clear_bootstrap_otp, use_bootstrap_otp,
}

is_empty-nil : {A : Type 0} (xs : List A) → is_empty xs ≡ true → xs ≡ []
is_empty-nil [] h = refl
is_empty-nil (x ∷ xs) h = absurd (ground arith)

module _ (env : Env) where
  cleared-none :
      (profile : UserProfile) (from_cache : Bool)
      → user_bootstrap_otp_hash env (record profile { bootstrap_otp = no_bootstrap_otp }) from_cache
        ≡ none
  unfolding user_bootstrap_otp_hash
  cleared-none profile from_cache = ground arith

  spent-unusable :
      (profile profile' : UserProfile) (hash : String)
      → some (record profile { bootstrap_otp = no_bootstrap_otp }) ≡ some profile'
      → user_bootstrap_otp_hash env profile' false ≢ some hash
  spent-unusable profile profile' hash agree pending =
      let same : record profile { bootstrap_otp = no_bootstrap_otp } ≡ profile' = cc in
      let gone = ap (λ p. user_bootstrap_otp_hash env p false) same in
      absurd (ground (arith, cleared-none profile false))

  stored-some :
      (state : RuntimeState) (user hash : String) (loaded : LoadedProfile)
      → load_user_profile env state user ≡ ok loaded
      → loaded.from_cache ≡ false
      → user_bootstrap_otp_hash env loaded.profile loaded.from_cache ≡ some hash
      → lookup user state.db ≡ some loaded.profile
  unfolding load_user_profile user_bootstrap_otp_hash row_of
  stored-some state user hash loaded h online e = go env.primary refl
    where
      go : (p : Primary) → env.primary ≡ p → lookup user state.db ≡ some loaded.profile
      go (fails m) down = absurd (ground arith)
      go times_out down = elim (Option-cases env.cache_error) [
        | inr (m, broken) ↦ absurd (ground arith)
        | inl works ↦ elim (Option-cases (lookup user state.cache_db)) [
          | inl absent ↦ absurd (ground arith)
          | inr (p, found) ↦ absurd (ground arith)
        ]
      ]
      go answers up = elim (Option-cases (lookup user state.db)) [
        | inl absent ↦ absurd (ground arith)
        | inr (p, found) ↦ ground arith
      ]

  module _ (r : Request) where
    input-ok :
        (w u : World) (hash : String)
        → input_otp_hash env r w ≡ (ok hash, u)
        → ((value : String) × (single_value w.form "OTP" ≡ ok (some value))
            × (env.sha512 value ≡ hash))
          × (u ≡ w)
    unfolding input_otp_hash
    input-ok w u hash h =
        >>=-elim (λ given. single_value w.form "OTP" ≡ ok given)
          (on_error (lift (single_value w.form "OTP"))
            (λ e. write_failure_response env r status_bad_request "Just one OTP value allowed"))
          _ w (λ given u1 e. on_error-lift_ok (single_value w.form "OTP") _ given e) h
          λ given single h1. elim (Option-cases given) [
            | inl absent ↦ absurd (ground arith)
            | inr (value, found) ↦ ((value, single ∙ ap ok found, ground arith), ground arith)
          ]

    -- The password that is pending for the user in the primary database: it is the stored one, its
    -- time has not come, and the user has no device.
    abbrev Pending : RuntimeState → String → UserProfile → String → Type 0
    Pending state user profile hash =
        (lookup user state.db ≡ some profile)
        × (user_bootstrap_otp_hash env profile false ≡ some hash)
        × (profile.bootstrap_otp.sha512_hash ≡ some hash)
        × (env.now < profile.bootstrap_otp.expires_at)
        × (profile.u2f_auth_data ≡ [])
        × (profile.totp_auth_data ≡ [])

    pending_facts :
        (profile : UserProfile) (hash : String)
        → user_bootstrap_otp_hash env profile false ≡ some hash
        → (profile.bootstrap_otp.sha512_hash ≡ some hash)
          × (env.now < profile.bootstrap_otp.expires_at)
          × (profile.u2f_auth_data ≡ [])
          × (profile.totp_auth_data ≡ [])
    unfolding user_bootstrap_otp_hash
    pending_facts profile hash h = (
      ground arith,
      ground arith,
      is_empty-nil profile.u2f_auth_data (ground arith),
      is_empty-nil profile.totp_auth_data (ground arith),
    )

    required-Pending :
        (user hash : String) (profile : UserProfile) (w u : World)
        → required_otp_hash env r user w ≡ (ok (profile, hash), u)
        → Pending w.state user profile hash × (u ≡ w)
    unfolding required_otp_hash
    required-Pending user hash profile w u h =
        >>=-elim (λ loaded. load_user_profile env w.state user ≡ ok loaded)
          (on_error (lift (load_user_profile env w.state user)) (λ e.
            write_failure_response env r status_internal_server_error
              "Failure loading user profile"))
          _ w (λ loaded u1 e. on_error-lift_ok (load_user_profile env w.state user) _ loaded e) h
          λ loaded found h1.
            >>=-elim (λ _. loaded.from_cache ≡ false)
              (reject_if loaded.from_cache
                (write_failure_response env r status_service_unavailable
                  "Working in DB disconnected mode, try again later")
                "")
              _ w (λ _ u1 e. reject_if-ok loaded.from_cache _ _ e) h1
              λ _ online h2.
                elim (Option-cases (user_bootstrap_otp_hash env loaded.profile loaded.from_cache)) [
                  | inl absent ↦ absurd (ground arith)
                  | inr (required, pending) ↦
                      let same : loaded.profile ≡ profile = ground arith in
                      let same' : required ≡ hash = ground arith in
                      let usable : user_bootstrap_otp_hash env profile false ≡ some hash =
                        subst (λ p. user_bootstrap_otp_hash env p false ≡ some hash) same
                          (ap (user_bootstrap_otp_hash env loaded.profile) (sym online)
                            ∙ pending
                            ∙ ap some same') in
                      let (kept, early, no_u2f, no_totp) = pending_facts profile hash usable in
                      (
                        (
                          stored-some w.state user required loaded found online pending
                              ∙ ap some same,
                          usable,
                          kept,
                          early,
                          no_u2f,
                          no_totp,
                        ),
                        ground arith,
                      )
                ]

    -- What the use of a password has found, and what it leaves.
    abbrev pub Used : String → World → World → Type 0
    Used user w v =
        (profile : UserProfile) × (value : String) × (single_value w.form "OTP" ≡ ok (some value))
        × Pending w.state user profile (env.sha512 value)
        × (lookup user v.state.db ≡ some (record profile { bootstrap_otp = no_bootstrap_otp }))

    clear-ok :
        (user : String) (profile : UserProfile) (w v : World)
        → clear_bootstrap_otp env r user profile w ≡ (ok tt, v)
        → lookup user v.state.db ≡ some (record profile { bootstrap_otp = no_bootstrap_otp })
    unfolding clear_bootstrap_otp save_user_profile
    clear-ok user profile w v h = elim (Option-cases env.save_error) [
      | inr (e, failed) ↦ absurd (ground arith)
      | inl works ↦
          let cleared = record profile { bootstrap_otp = no_bootstrap_otp } in
          let written : insert user cleared w.state.db ≡ v.state.db = ground arith in
          rw (← written) (lookup-insert_self user cleared w.state.db)
    ]

    -- The handler's check goes through only for a password whose hash is pending for the user in the
    -- primary database, which has not run out, the user being without a device; and then the
    -- password is cleared there.
    pub use_bootstrap_otp-Used :
        (user : String) (w v : World) → use_bootstrap_otp env r user w ≡ (ok tt, v) → Used user w v
    unfolding use_bootstrap_otp
    use_bootstrap_otp-Used user w v h =
        >>=-elim
          (λ input.
            (value : String) × (single_value w.form "OTP" ≡ ok (some value))
            × (env.sha512 value ≡ input))
          (input_otp_hash env r) _ w (λ input u e. input-ok w u input e) h
          λ input (value, single, hashed) h1.
            >>=-elim (λ p. Pending w.state user p.0 p.1) (required_otp_hash env r user) _ w
              (λ p u e. required-Pending user p.1 p.0 w u e) h1
              λ p (stored, pending, _, _, _, _) h2.
                >>=-elim (λ _. input ≡ p.1)
                  (reject_if (not (str_eq input p.1))
                    (write_failure_response env r status_unauthorized "Invalid Bootstrap OTP") "")
                  _ w
                  (λ _ u e.
                    let (agrees, same) = reject_if-ok (not (str_eq input p.1)) _ _ e in
                    (ground (arith, eq_iff input p.1), same))
                  h2
                  λ _ agrees h3.
                    let usable = pending ∙ ap some (sym (hashed ∙ agrees)) in
                    let (kept, early, no_u2f, no_totp) =
                      pending_facts p.0 (env.sha512 value) usable in
                    (
                      p.0,
                      value,
                      single,
                      (stored, usable, kept, early, no_u2f, no_totp),
                      clear-ok user p.0 w v h3,
                    )

-- A bootstrap password that has been used is not accepted again, by whatever request, as long as the
-- user's stored profile stays.
pub use_bootstrap_otp_once :
    (env later : Env) (r again : Request) (user : String) (w v next end : World)
    → use_bootstrap_otp env r user w ≡ (ok tt, v)
    → lookup user next.state.db ≡ lookup user v.state.db
    → use_bootstrap_otp later again user next ≢ (ok tt, end)
use_bootstrap_otp_once env later r again user w v next end h same h' =
    let (profile, value, single, pending, cleared) = use_bootstrap_otp-Used env r user w v h in
    let (profile', value', single', (stored', pending', _, _, _, _), cleared') =
      use_bootstrap_otp-Used later again user next end h' in
    let spent = record profile { bootstrap_otp = no_bootstrap_otp } in
    let agree : some spent ≡ some profile' = sym cleared ∙ sym same ∙ stored' in
    spent-unusable later profile profile' (later.sha512 value') agree pending'
