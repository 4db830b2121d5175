-- ===== src/Totp/Devices/Managed.antt =====
-- cmd/keymasterd/2fa_totp.go: what the management of devices takes, and what it changes.
use keymaster.Prelude.{
  ℕ, String, true, false, not, ◌&&◌, List, [], ◌∷◌, Option, none, some, ◌≡◌, ◌≢◌, refl, ◌∙◌, ap,
  subst, ◌⊎◌, inl, inr, arith, str_eq, eq_iff, Bool-cases,
}
use keymaster.Prelude.Int.{ℤ}
use keymaster.Result.{ok}
use keymaster.Profile.{TotpAuthData}
use keymaster.Http.{
  Request, set_username, http_error, status_bad_request, status_unauthorized,
  status_method_not_allowed, status_service_unavailable, status_internal_server_error,
}
use keymaster.State.{Env, RuntimeState, AuthInfo}
use keymaster.Handler.{
  World, emit, lift, on_error, reject_if, >>=-step, reject_if-ok, on_error-ok, on_error-lift_ok,
}
use keymaster.Checks.{passed, check, check-ok, require_some, >>=-elim}
use keymaster.Respond.{form_get, get_preferred_accept_type, stop_if_locked, write_failure_response}
use keymaster.Directory.{is_admin_user_and_u2f}
use keymaster.CheckAuth.{check_auth, get_required_web_ui_auth_level}
use keymaster.CheckAuth.Sound.{Evidence, IsSameSite, check_auth-Evidence}
use keymaster.SecondFactor.{parse_form_or}
use keymaster.SecondFactor.Steps.{stop_if_locked-state, parse_form_or-state}
use keymaster.Storage.{LoadedProfile, load_user_profile, save_user_profile}
use keymaster.Admin.Handlers.Changes.{Sets, save-Sets, settled, Sets-from}
use keymaster.Totp.Devices.{
  Devices, find_device, set_device, delete_device, device_index, change_devices, managed_devices,
  token_index_of, answer_success, manage_form, totp_token_manager_handler,
}

find-set_ne :
    (index other : ℕ) (device : TotpAuthData) (devices : Devices)
    → index ≢ other
    → find_device other (set_device index device devices) ≡ find_device other devices
unfolding find_device set_device
find-set_ne index other device [] apart = ground (arith, apart)
find-set_ne index other device ((first, old) ∷ rest) apart =
    ground (arith, apart, find-set_ne index other device rest apart)

find-delete_ne :
    (index other : ℕ) (devices : Devices)
    → index ≢ other
    → find_device other (delete_device index devices) ≡ find_device other devices
unfolding find_device delete_device
find-delete_ne index other [] apart = refl
find-delete_ne index other ((first, old) ∷ rest) apart =
    ground (arith, apart, find-delete_ne index other rest apart)

module _ (env : Env) where
  change-others :
      (action name : String) (index other : ℕ) (device : TotpAuthData) (devices changed : Devices)
      → index ≢ other
      → change_devices env action name index device devices ≡ passed changed
      → find_device other changed ≡ find_device other devices
  unfolding change_devices
  change-others action name index other device devices changed apart h =
      let renamed = find-set_ne index other (record device { name = name }) devices apart in
      let disabled = find-set_ne index other (record device { enabled = false }) devices apart in
      let enabled = find-set_ne index other (record device { enabled = true }) devices apart in
      let deleted = find-delete_ne index other devices apart in ground arith

  -- A device that is there, and the devices that are left, which differ in that one only.
  pub record Managed (token_index : ℤ) (devices changed : Devices) : Type 0 where
    pub index : ℕ
    pub device : TotpAuthData
    pub at_index : device_index token_index ≡ some index
    pub found : find_device index devices ≡ some device
    pub others : (other : ℕ) → index ≢ other → find_device other changed ≡ find_device other devices

  require_some-passed :
      {A : Type 0} (o : Option A) (code : ℕ) (message : String) (a : A)
      → require_some o code message ≡ passed a
      → o ≡ some a
  require_some-passed (some x) code message a h = ground arith
  require_some-passed none code message a h = absurd (ground arith)

  managed_devices-Managed :
      (form : List (String × List String)) (token_index : ℤ) (devices changed : Devices)
      → managed_devices env form token_index devices ≡ passed changed
      → Managed token_index devices changed
  unfolding managed_devices
  managed_devices-Managed form token_index devices changed h =
      >>=-elim (require_some (device_index token_index) _ _) _ h λ index e1 h1.
        >>=-elim (require_some (find_device index devices) _ _) _ h1 λ device e2 h2. record {
          index = index;
          device = device;
          at_index = require_some-passed _ _ _ index e1;
          found = require_some-passed _ _ _ device e2;
          others = λ other apart.
              change-others (form_get form "action") (form_get form "name") index other device
                devices changed apart h2;
        }

  module _ (r : Request) where
    -- Who may manage a user's devices: the user, or an administrator who has shown a U2F token.
    abbrev pub MayManage : RuntimeState → AuthInfo → (user : String) → Type 0
    MayManage state info user =
        ((is_admin_user_and_u2f env state info.username info.auth_type).0 ≡ true)
        ⊎ (user ≡ info.username)

    parse_form_or-parsed :
        (code : ℕ) (w u : World) → parse_form_or env r code w ≡ (ok tt, u) → r.form ≡ some u.form
    parse_form_or-parsed code w u h = go r.form refl
      where
        go : (form : Option (List (String × List String))) → r.form ≡ form → r.form ≡ some u.form
        go none e = absurd (ground arith)
        go (some form) e = e ∙ ap some (ground arith)

    answer_success-state :
        (auth_user user : String) (w v : World)
        → answer_success env r auth_user user w ≡ (ok tt, v)
        → v.state ≡ w.state
    answer_success-state auth_user user w v h =
        elim (Bool-cases (str_eq (get_preferred_accept_type r) "text/html")) [
          | inl html ↦ ground arith
          | inr plain ↦ ground arith
        ]

    -- The request has the evidence of the web UI's level and is a POST.
    pub record Change (before after : RuntimeState) : Type 0 where
      pub info : AuthInfo
      pub form : List (String × List String)
      pub token_index : ℤ
      pub loaded : LoadedProfile
      pub devices : Devices
      pub evidence : Evidence env r before (get_required_web_ui_auth_level before) info
      pub site : IsSameSite env r
      pub post : r.method ≡ "POST"
      pub parsed : r.form ≡ some form
      pub allowed : MayManage before info (form_get form "username")
      pub index_given : token_index_of env form ≡ passed token_index
      pub fresh : loaded.from_cache ≡ false
      pub managed : Managed token_index loaded.profile.totp_auth_data devices
      pub state : RuntimeState
      pub asked : state ≡ (is_admin_user_and_u2f env before info.username info.auth_type).1
      pub answered : load_user_profile env state (form_get form "username") ≡ ok loaded
      pub sets :
          Sets env
            (form_get form "username")
            (some (record loaded.profile { totp_auth_data = devices }))
            before
            after

    allowed_from :
        (state : RuntimeState) (info : AuthInfo) (user : String)
        → (not (is_admin_user_and_u2f env state info.username info.auth_type).0
            && not (str_eq user info.username))
          ≡ false
        → MayManage state info user
    allowed_from state info user h =
        elim (Bool-cases (is_admin_user_and_u2f env state info.username info.auth_type).0) [
          | inl admin ↦ inl admin
          | inr other ↦ inr ((eq_iff user info.username).0 (ground arith))
        ]

    asked-settled :
        (before after : RuntimeState) (info : AuthInfo)
        → after ≡ (is_admin_user_and_u2f env before info.username info.auth_type).1
        → after.db ≡ before.db
    unfolding is_admin_user_and_u2f
    asked-settled before after info e = (settled env r before after info.username e).0

    -- the steps after the form is parsed
    changed :
        (before : RuntimeState) (w v : World) (info : AuthInfo)
        → w.state ≡ before
        → Evidence env r before (get_required_web_ui_auth_level before) info
        → IsSameSite env r
        → r.method ≡ "POST"
        → r.form ≡ some w.form
        → manage_form env r info w.form w ≡ (ok tt, v)
        → Change before v.state
    unfolding manage_form
    changed before w v info now evidence site post parsed h =
        let user = form_get w.form "username" in
        let rights = is_admin_user_and_u2f env w.state info.username info.auth_type in
        >>=-step
          (reject_if (not rights.0 && not (str_eq user info.username))
            (write_failure_response env r status_unauthorized "") "")
          _ (record w { state = rights.1 }) h
          λ _ u1 e1 h1.
            let (may, s1) = reject_if-ok (not rights.0 && not (str_eq user info.username)) _ _ e1 in
            >>=-step (check env r (token_index_of env w.form)) _ u1 h1 λ token_index u2 e2 h2.
              let (index_given, s2) =
                check-ok env r (token_index_of env w.form) u1 u2 token_index e2 in
              let asked : u2.state ≡ rights.1 = ap (λ x. x.state) (s2 ∙ s1) in
              >>=-step
                (on_error (lift (load_user_profile env u2.state user))
                  (λ e. emit (http_error "error" status_internal_server_error)))
                _ u2 h2
                λ loaded u3 e3 h3.
                  let (answered, s3) =
                    on_error-lift_ok (load_user_profile env u2.state user) _ loaded e3 in
                  >>=-step
                    (reject_if loaded.from_cache
                      (emit
                        (http_error "db backend is offline for writes" status_service_unavailable))
                      "")
                    _ u3 h3
                    λ _ u4 e4 h4.
                      let (fresh, s4) = reject_if-ok loaded.from_cache _ _ e4 in
                      let managing =
                        managed_devices env w.form token_index loaded.profile.totp_auth_data in
                      >>=-step (check env r managing) _ u4 h4 λ devices u5 e5 h5.
                        let (passes, s5) = check-ok env r managing u4 u5 devices e5 in
                        let saving =
                          save_user_profile env u2.state user
                            (record loaded.profile { totp_auth_data = devices }) in
                        >>=-step
                          (on_error (lift saving)
                            (λ e. emit (http_error "error" status_internal_server_error)))
                          _ u5 h5
                          λ saved u6 e6 h6.
                            let (stored, s6) = on_error-lift_ok saving _ saved e6 in
                            let was : u2.state
                                ≡ (is_admin_user_and_u2f env before info.username
                                    info.auth_type).1 =
                              asked
                              ∙ ap
                                  (λ s.
                                    (is_admin_user_and_u2f env s info.username info.auth_type).1)
                                  now in
                            record {
                              info = info;
                              form = w.form;
                              token_index = token_index;
                              loaded = loaded;
                              devices = devices;
                              evidence = evidence;
                              site = site;
                              post = post;
                              parsed = parsed;
                              allowed =
                                  subst (λ s. MayManage s info user) now
                                    (allowed_from w.state info user may);
                              index_given = index_given;
                              fresh = fresh;
                              managed =
                                  managed_devices-Managed w.form token_index
                                    loaded.profile.totp_auth_data devices passes;
                              state = u2.state;
                              asked = was;
                              answered = answered;
                              sets =
                                  Sets-from env r user
                                    (some (record loaded.profile { totp_auth_data = devices }))
                                    before u2.state saved v.state
                                    (asked-settled before u2.state info was)
                                    (ap (λ s. s.db)
                                      (answer_success-state info.username user
                                        (record u6 { state = saved }) v h6))
                                    (save-Sets env u2.state saved user
                                      (record loaded.profile { totp_auth_data = devices }) stored);
                            }

    -- A device is changed only for a POST with the evidence of the web UI's level, by the user or by
    -- an administrator who has shown a U2F token, at an index where the user has one. What is stored
    -- then is the user's profile with this device changed and no other, and no other profile changes.
    pub totp_token_manager_handler-Change :
        (w v : World) → totp_token_manager_handler env r w ≡ (ok tt, v) → Change w.state v.state
    unfolding totp_token_manager_handler
    totp_token_manager_handler-Change w v h = >>=-step (stop_if_locked env r) _ w h λ _ u1 e1 h1.
        let s1 = stop_if_locked-state env r w u1 e1 in
        let level = get_required_web_ui_auth_level u1.state in
        >>=-step
          (on_error (check_auth env r level)
            (λ e. emit (http_error "error" status_internal_server_error)))
          _ u1 h1
          λ info u2 e2 h2.
            let (evidence, s2, site) = check_auth-Evidence env r level u1 u2 info (
              on_error-ok (check_auth env r level)
                (λ e. emit (http_error "error" status_internal_server_error)) u1 info u2 e2) in
            >>=-step
              (reject_if (not (str_eq r.method "POST"))
                (write_failure_response env r status_method_not_allowed "") "")
              _ (record u2 { sent = set_username info.username ∷ u2.sent }) h2
              λ _ u3 e3 h3.
                let (post, s3) = reject_if-ok (not (str_eq r.method "POST")) _ _ e3 in
                >>=-step (parse_form_or env r status_bad_request) _ u3 h3 λ _ u4 e4 h4.
                  let now : u4.state ≡ w.state =
                    parse_form_or-state env r status_bad_request u3 u4 e4
                    ∙ ap (λ x. x.state) s3
                    ∙ ap (λ x. x.state) s2
                    ∙ s1 in
                  changed w.state u4 v info now
                    (subst (λ s. Evidence env r s (get_required_web_ui_auth_level s) info) s1
                      evidence)
                    site ((eq_iff r.method "POST").0 (ground arith))
                    (parse_form_or-parsed status_bad_request u3 u4 e4) h4
