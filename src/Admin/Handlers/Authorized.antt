-- ===== src/Admin/Handlers/Authorized.antt =====
-- cmd/keymasterd/adminHandlers.go: what an administrator's request has gone through, and what it
-- leaves behind.
use keymaster.Prelude.{
  String, true, not, List, ◌∷◌, Option, none, some, ◌≡◌, refl, ◌∙◌, sym, ap, subst, inl, inr, arith,
  str_eq, eq_iff, Bool-cases,
}
use keymaster.Result.{ok}
use keymaster.AdminCache.{get}
use keymaster.Http.{
  Request, set_username, status_unauthorized, status_method_not_allowed,
  status_internal_server_error,
}
use keymaster.State.{Env, RuntimeState, AuthInfo}
use keymaster.Handler.{World, on_error, reject_if, >>=-step, reject_if-ok}
use keymaster.Checks.{passed, check-ok}
use keymaster.Respond.{stop_if_locked, parse_form, write_failure_response}
use keymaster.Directory.{is_admin_user}
use keymaster.CheckAuth.{check_auth}
use keymaster.CheckAuth.Sound.{Evidence, IsSameSite, check_auth-Evidence}
use keymaster.SecondFactor.Steps.{stop_if_locked-state}
use keymaster.Admin.Guards.{form_username}
use keymaster.Admin.Handlers.{admin_level, stop_if_non_admin, ensure_post_and_get_username}

module _ (env : Env) (r : Request) where
  -- The caller has evidence of the web UI's level or of a keymaster certificate, after the
  -- cross-site test, and is an administrator.
  pub record IsAdministrator (state : RuntimeState) (user : String) : Type 0 where
    pub info : AuthInfo
    pub same : info.username ≡ user
    pub evidence : Evidence env r state (admin_level env r state) info
    pub site : IsSameSite env r
    pub admin : (is_admin_user env state user).0 ≡ true

  pub stop_if_non_admin-ok :
      (w u : World) (user : String)
      → stop_if_non_admin env r w ≡ (ok user, u)
      → IsAdministrator w.state user × (u.state ≡ (is_admin_user env w.state user).1)
  unfolding stop_if_non_admin
  stop_if_non_admin-ok w u user h = >>=-step (stop_if_locked env r) _ w h λ _ u1 e1 h1.
      >>=-step (check_auth env r (admin_level env r u1.state)) _ u1 h1 λ info u2 e2 h2.
        >>=-step
          (reject_if (not (is_admin_user env u2.state info.username).0)
            (write_failure_response env r status_unauthorized "Not an admin user") "")
          _
          (record u2 {
            sent = set_username info.username ∷ u2.sent;
            state = (is_admin_user env u2.state info.username).1;
          })
          h2
          λ _ u3 e3 h3.
            let s1 = stop_if_locked-state env r w u1 e1 in
            let (evidence, s2, site) =
              check_auth-Evidence env r (admin_level env r u1.state) u1 u2 info e2 in
            let now : u2.state ≡ w.state = ap (λ x. x.state) s2 ∙ s1 in
            let (allowed, s3) =
              reject_if-ok (not (is_admin_user env u2.state info.username).0) _ _ e3 in
            let yields : info.username ≡ user = ground arith in
            let left : u3 ≡ u = ap (λ x. x.1) h3 in
            let admin : (is_admin_user env u2.state info.username).0 ≡ true = ground arith in
            (
              record {
                info = info;
                same = yields;
                evidence = subst (λ s. Evidence env r s (admin_level env r s) info) s1 evidence;
                site = site;
                admin =
                    ap (λ n. (is_admin_user env w.state n).0) (sym yields)
                    ∙ ap (λ s. (is_admin_user env s info.username).0) (sym now)
                    ∙ admin;
              },
              ap (λ x. x.state) (sym left ∙ s3)
                  ∙ ap (λ s. (is_admin_user env s info.username).1) now
                  ∙ ap (λ n. (is_admin_user env w.state n).1) yields,
            )

  -- The answer on an administrator leaves the tables of profiles alone.
  pub is_admin_user-db :
      (state : RuntimeState) (user : String)
      → ((is_admin_user env state user).1.db ≡ state.db)
        × ((is_admin_user env state user).1.cache_db ≡ state.cache_db)
  unfolding is_admin_user
  is_admin_user-db state user = elim (Bool-cases (get state.is_admin_cache env.now user).1) [
    | inl valid ↦ rw (valid, is_admin_user) (refl, refl)
    | inr stale ↦ rw (stale, is_admin_user) (refl, refl)
  ]

  -- The user that the POST names.
  pub record Named (username : String) : Type 0 where
    pub post : r.method ≡ "POST"
    pub form : List (String × List String)
    pub parsed : r.form ≡ some form
    pub named : form_username env form ≡ passed username

  parse-ok :
      (w u : World)
      → on_error
          (parse_form r)
          (λ e. write_failure_response env r status_internal_server_error "")
          w
        ≡ (ok tt, u)
      → (r.form ≡ some u.form) × (u.state ≡ w.state)
  parse-ok w u h = go r.form refl
    where
      go :
          (form : Option (List (String × List String)))
          → r.form ≡ form
          → (r.form ≡ some u.form) × (u.state ≡ w.state)
      go none e = absurd (ground arith)
      go (some form) e = (e ∙ ap some (ground arith), ground arith)

  pub ensure_post-Named :
      (w u : World) (username : String)
      → ensure_post_and_get_username env r w ≡ (ok username, u)
      → Named username × (u.state ≡ w.state) × (r.form ≡ some u.form)
  unfolding ensure_post_and_get_username
  ensure_post-Named w u username h =
      >>=-step
        (reject_if (not (str_eq r.method "POST"))
          (write_failure_response env r status_method_not_allowed "") "")
        _ w h
        λ _ u1 e1 h1.
          >>=-step
            (on_error (parse_form r)
              (λ e. write_failure_response env r status_internal_server_error ""))
            _ u1 h1
            λ _ u2 e2 h2.
              let (post, s1) = reject_if-ok (not (str_eq r.method "POST")) _ _ e1 in
              let (there, s2) = parse-ok u1 u2 e2 in
              let (passes, s3) = check-ok env r (form_username env u2.form) u2 u username h2 in
              (
                record {
                  post = ground (arith, eq_iff r.method "POST");
                  form = u2.form;
                  parsed = there;
                  named = passes;
                },
                ap (λ x. x.state) s3 ∙ s2 ∙ ap (λ x. x.state) s1,
                there ∙ ap (λ x. some x.form) (sym s3),
              )
