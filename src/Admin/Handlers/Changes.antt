-- ===== src/Admin/Handlers/Changes.antt =====
-- cmd/keymasterd/adminHandlers.go: what the administrators' handlers do to the stored profiles.
use keymaster.Prelude.{
  ℕ, ◌≤◌, String, true, false, List, Option, none, some, ◌≡◌, ◌≢◌, refl, ◌∙◌, ap, subst, inl, inr,
  arith, leb, leb→le, str_eq, eq_iff, eq_refl, Bool-cases, Option-cases, if◌then◌else◌,
}
use keymaster.Prelude.Int.{ℤ, pos, pos_part, ltb_ℤ}
use keymaster.Prelude.Dict.{
  lookup, insert, lookup-insert_self, lookup-insert_ne, remove, lookup-remove,
}
use keymaster.Result.{ok}
use keymaster.Profile.{UserProfile}
use keymaster.Http.{Request, status_internal_server_error}
use keymaster.State.{Env, RuntimeState}
use keymaster.Handler.{World, lift, on_error, >>=-step, on_error-lift_ok}
use keymaster.Checks.{passed, require, >>=-elim, require-passed}
use keymaster.Respond.{write_failure_response, get_preferred_accept_type}
use keymaster.Directory.{is_admin_user}
use keymaster.Storage.{LoadedProfile, load_user_profile, save_user_profile, delete_user_profile}
use keymaster.Bootstrap.{is_empty}
use keymaster.Admin.Guards.{minute, maximum_bootstrap_otp_duration, otp_duration, asked_duration}
use keymaster.Admin.Handlers.{
  stop_if_non_admin, ensure_post_and_get_username, done, delete_user_handler,
}
use keymaster.Admin.Handlers.Authorized.{
  IsAdministrator, Named, stop_if_non_admin-ok, is_admin_user-db, ensure_post-Named,
}

module _ (env : Env) where
  -- The profiles before and after: one is set, the others stay.
  abbrev pub Sets : (username : String) → Option UserProfile → RuntimeState → RuntimeState → Type 0
  Sets username profile state state' =
      (lookup username state'.db ≡ profile)
      × ((other : String) → username ≢ other → lookup other state'.db ≡ lookup other state.db)

  ne-str_eq : (a b : String) → a ≢ b → str_eq a b ≡ false
  ne-str_eq a b h = ground (arith, eq_iff a b, h)

  pub save-Sets :
      (state state' : RuntimeState) (username : String) (profile : UserProfile)
      → save_user_profile env state username profile ≡ ok state'
      → Sets username (some profile) state state'
  unfolding save_user_profile
  save-Sets state state' username profile h = elim (Option-cases env.save_error) [
    | inr (e, failed) ↦ absurd (ground arith)
    | inl fine ↦
        let same : record state { db = insert username profile state.db } ≡ state' = ground arith in
        subst (Sets username (some profile) state) same (
          lookup-insert_self username profile state.db,
          λ other apart. lookup-insert_ne username other profile state.db (ne-str_eq _ _ apart),
        )
  ]

  delete-Sets :
      (state state' : RuntimeState) (username : String)
      → delete_user_profile env state username ≡ ok state'
      → Sets username none state state'
  unfolding delete_user_profile
  delete-Sets state state' username h = elim (Option-cases env.save_error) [
    | inr (e, failed) ↦ absurd (ground arith)
    | inl fine ↦
        let same : record state { db = remove username state.db } ≡ state' = ground arith in
        subst (Sets username none state) same (
          lookup-remove username username state.db ∙ rw (eq_refl username) refl,
          λ other apart.
              lookup-remove username other state.db ∙ rw (ne-str_eq username other apart) refl,
        )
  ]

  -- A bootstrap password that an administrator makes lasts at least a minute and at most a day.
  pub otp_duration-bounds :
      (form : List (String × List String)) (duration : ℕ)
      → otp_duration env form ≡ passed duration
      → (minute ≤ duration) × (duration ≤ maximum_bootstrap_otp_duration)
  unfolding otp_duration
  otp_duration-bounds form duration h = >>=-elim (asked_duration env form) _ h λ asked e1 h1.
      let raised : ℕ = if ltb_ℤ asked (pos minute) then minute else pos_part asked in
      >>=-elim (require (leb raised maximum_bootstrap_otp_duration) _ _) _ h1 λ _ e2 h2.
        let same : raised ≡ duration = ground arith in
        (
          subst (λ d. minute ≤ d) same (at_least asked),
          subst (λ d. d ≤ maximum_bootstrap_otp_duration) same
              (leb→le _ _ (require-passed _ _ _ e2)),
        )
    where
      at_least :
          (asked : ℤ) → minute ≤ (if ltb_ℤ asked (pos minute) then minute else pos_part asked)
      at_least asked = ground arith

  -- A user whom a password may be made for: stored in the primary database, and without a device.
  pub record Deviceless (state : RuntimeState) (username : String) (profile : UserProfile)
      : Type 0 where
    pub loaded : LoadedProfile
    pub answered : load_user_profile env state username ≡ ok loaded
    pub same : loaded.profile ≡ profile
    pub found : loaded.found ≡ true
    pub fresh : loaded.from_cache ≡ false
    pub no_u2f : is_empty profile.u2f_auth_data ≡ true
    pub no_totp : is_empty profile.totp_auth_data ≡ true

  module _ (r : Request) where
    done-state : (w v : World) → done env r w ≡ (ok tt, v) → v.state ≡ w.state
    done-state w v h = elim (Bool-cases (str_eq (get_preferred_accept_type r) "text/html")) [
      | inl html ↦ ground arith
      | inr plain ↦ ground arith
    ]

    -- The profiles of the state that the question on administrators leaves are those before it.
    pub settled :
        (state u : RuntimeState) (user : String)
        → u ≡ (is_admin_user env state user).1
        → (u.db ≡ state.db) × (u.cache_db ≡ state.cache_db)
    settled state u user same =
        let (db, cache) = is_admin_user-db env r state user in
        (ap (λ s. s.db) same ∙ db, ap (λ s. s.cache_db) same ∙ cache)

    pub Sets-from :
        (username : String) (profile : Option UserProfile)
        (before state state' after : RuntimeState)
        → state.db ≡ before.db
        → after.db ≡ state'.db
        → Sets username profile state state'
        → Sets username profile before after
    Sets-from username profile before state state' after from to (own, others) = (
      ap (lookup username) to ∙ own,
      λ other apart. ap (lookup other) to ∙ others other apart ∙ ap (lookup other) from,
    )

    -- Deleting a user takes an administrator and a POST, and removes that user's profile and no
    -- other.
    pub delete_user_handler-Sets :
        (w v : World)
        → delete_user_handler env r w ≡ (ok tt, v)
        → (user : String) × (username : String) × IsAdministrator env r w.state user
          × Named env r username
          × Sets username none w.state v.state
    unfolding delete_user_handler
    delete_user_handler-Sets w v h = >>=-step (stop_if_non_admin env r) _ w h λ user u1 e1 h1.
        >>=-step (ensure_post_and_get_username env r) _ u1 h1 λ username u2 e2 h2.
          >>=-step
            (on_error (lift (delete_user_profile env u2.state username))
              (λ e. write_failure_response env r status_internal_server_error ""))
            _ u2 h2
            λ deleted u3 e3 h3.
              let (administrator, s1) = stop_if_non_admin-ok env r w u1 user e1 in
              let (named, s2, _) = ensure_post-Named env r u1 u2 username e2 in
              let (gone, s3) =
                on_error-lift_ok (delete_user_profile env u2.state username) _ deleted e3 in
              let (db, _) = settled w.state u2.state user (s2 ∙ s1) in
              (
                user,
                username,
                administrator,
                named,
                Sets-from username none w.state u2.state deleted v.state db
                    (ap (λ s. s.db) (done-state (record u3 { state = deleted }) v h3))
                    (delete-Sets u2.state deleted username gone),
              )
