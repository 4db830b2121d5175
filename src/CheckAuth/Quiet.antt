-- ===== src/CheckAuth/Quiet.antt =====
-- A caller that is checked is sent no cookie.
use keymaster.Prelude.{
  ℕ, String, true, not, List, ◌∷◌, Option, none, some, Memᴰ, ◌≡◌, refl, inl, inr, Bool-cases,
  Option-cases,
}
use keymaster.AuthType.{auth_type_password, auth_type_ip_certificate}
use keymaster.Http.{
  Request, Certificate, Cookie, set_cookie, status_unauthorized, status_forbidden,
  status_internal_server_error,
}
use keymaster.State.{Env, AuthInfo}
use keymaster.Handler.{World, ◌>>◌, fail, get_state}
use keymaster.Handler.Quiet.{
  Quiet, Quiet-bind, Quiet-get_state, Quiet-list, Quiet-option, Quiet-return, quiet_rules,
}
use keymaster.Respond.{auth_cookie_name, find_cookie, write_failure_response}
use keymaster.Respond.Quiet.{Quiet-failure}
use keymaster.CheckAuth.{
  IpVerdict, accepted, user_error, internal_error, meets, compare_referer, check_csrf,
  keymaster_certificate, get_username_if_ip_restricted, ip_certificate, presented_certificates,
  check_certificates, reprocess_username, try_password, check_password, check_cookie,
  check_credentials, check_auth,
}

module _ (env : Env) (r : Request) where
  Quiet-csrf : Quiet (check_csrf env r)
  unfolding check_csrf compare_referer
  Quiet-csrf = search (quiet_rules, Quiet-failure) depth 12

  refused :
      {A : Type 0} (code : ℕ) (message e : String)
      → Quiet (write_failure_response env r code message >> fail {A = A} e)
  refused code message e = search (quiet_rules, Quiet-failure)

  Quiet-ip_certificate :
      (required : ℕ) (chains : List (List Certificate))
      → Quiet (ip_certificate env r required chains)
  unfolding ip_certificate
  Quiet-ip_certificate required chains = record {
    at = λ c w k. elim (Bool-cases (meets required auth_type_ip_certificate)) [
      | inl allowed ↦
          go c w (get_username_if_ip_restricted env w.state r.remote_addr chains) refl allowed k
      | inr elsewhere ↦ rw (elsewhere, ip_certificate) at k
    ];
  }
    where
      go :
          (c : Cookie) (w : World) (v : IpVerdict)
          → get_username_if_ip_restricted env w.state r.remote_addr chains ≡ v
          → meets required auth_type_ip_certificate ≡ true
          → Memᴰ (set_cookie c) (ip_certificate env r required chains w).1.sent
          → Memᴰ (set_cookie c) w.sent
      go c w (user_error e) found allowed k =
          (refused status_forbidden e e).at c w (rw (allowed, found, ip_certificate) at k)
      go c w (internal_error e) found allowed k =
          (refused status_internal_server_error "" e).at c w
            (rw (allowed, found, ip_certificate) at k)
      go c w (accepted username not_before) found allowed k =
          rw (allowed, found, ip_certificate) at k

  Quiet-presented :
      (required : ℕ) (chains : List (List Certificate))
      → Quiet (presented_certificates env r required chains)
  unfolding presented_certificates
  Quiet-presented required chains = Quiet-bind get_state _ Quiet-get_state λ state.
      Quiet-option (keymaster_certificate env r required state.keymaster_public_keys chains) _ _
        (Quiet-ip_certificate required chains) λ info. Quiet-return (some info)

  Quiet-certificates : (required : ℕ) → Quiet (check_certificates env r required)
  unfolding check_certificates
  Quiet-certificates required = Quiet-option r.tls _ _ (Quiet-return none) λ chains.
      Quiet-list chains _ _ (Quiet-return none)
        λ chain more. Quiet-presented required (chain ∷ more)

  Quiet-try_password : (user password : String) → Quiet (try_password env r user password)
  unfolding try_password
  Quiet-try_password user password = search (quiet_rules, Quiet-failure) depth 12

  Quiet-password : (required : ℕ) → Quiet (check_password env r required)
  unfolding check_password
  Quiet-password required = record {
    at = λ c w k. elim (Bool-cases (not (meets auth_type_password required))) [
      | inl short ↦
          (refused status_unauthorized "" "Insufficient Auth Level passwd").at c w
            (rw (short, check_password) at k)
      | inr enough ↦ elim (Option-cases r.basic_auth) [
        | inl absent ↦
            (refused status_unauthorized "" "check_Auth, Invalid or no auth header").at c w
              (rw (enough, absent, check_password) at k)
        | inr (basic, found) ↦
            (Quiet-try_password (reprocess_username env w.state basic.user) basic.pass).at c w
              (rw (enough, found, check_password) at k)
      ]
    ];
  }

  Quiet-cookie : (required : ℕ) (value : String) → Quiet (check_cookie env r required value)
  unfolding check_cookie
  Quiet-cookie required value = search (quiet_rules, Quiet-failure) depth 12

  Quiet-credentials :
      (required : ℕ) (info : Option AuthInfo) → Quiet (check_credentials env r required info)
  unfolding check_credentials
  Quiet-credentials required (some info) = search quiet_rules
  Quiet-credentials required none =
      Quiet-option (find_cookie auth_cookie_name r.cookies) _ _ (Quiet-password required)
        (Quiet-cookie required)

  pub Quiet-check_auth : (required : ℕ) → Quiet (check_auth env r required)
  unfolding check_auth
  Quiet-check_auth required =
      search (quiet_rules, Quiet-csrf, Quiet-certificates, Quiet-credentials)
