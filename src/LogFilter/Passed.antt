-- ===== src/LogFilter/Passed.antt =====
-- cmd/keymasterd/logFilter.go: who gets through to the logs.
use keymaster.Prelude.{
  ℕ, String, true, false, ◌&&◌, List, [], ◌∷◌, Option, none, some, ◌≡◌, refl, ◌⊎◌, subst, inl, inr,
  arith, starts_with, str_eq, eq_iff, Bool-cases, if◌then◌else◌,
}
use keymaster.Result.{ok}
use keymaster.Http.{Certificate, Request, http_error, status_internal_server_error}
use keymaster.State.{Env, RuntimeState, AuthInfo}
use keymaster.Handler.{M, World, return, emit, lift, on_error, >>=-step, on_error-lift_ok}
use keymaster.Directory.{is_admin_user}
use keymaster.CheckAuth.{
  check_auth, get_required_web_ui_auth_level, get_username_if_keymaster_signed,
}
use keymaster.CheckAuth.Evidence.{SignedLeaf, Unsigned, keymaster_signed-Search}
use keymaster.CheckAuth.Sound.{Evidence, IsSameSite, check_auth-Evidence}
use keymaster.LogFilter.{
  require_admin, require_admin_chain, send_failure_to_client_if_not_admin_user_or_ca, serve_http,
}

module _ (env : Env) (r : Request) where
  abbrev IsAdmin : RuntimeState → (username : String) → Type 0
  IsAdmin state username = (is_admin_user env state username).0 ≡ true

  require_admin-ok :
      (username : String) (w u : World)
      → require_admin env r username w ≡ (ok tt, u)
      → IsAdmin w.state username
  unfolding require_admin
  require_admin-ok username w u h = elim (Bool-cases (is_admin_user env w.state username).0) [
    | inl admin ↦ admin
    | inr other ↦ absurd (ground arith)
  ]

  -- The owner of verified chains: either no configured key has signed a leaf of theirs, or one has,
  -- and the leaf's name is an administrator's, or is empty.
  abbrev pub ByChain : RuntimeState → List (List Certificate) → Type 0
  ByChain state chains =
      Unsigned env state.keymaster_public_keys chains
      ⊎ ((username : String) × (not_before : ℕ) × SignedLeaf env state.keymaster_public_keys chains
            username not_before
          × ((username ≡ "") ⊎ IsAdmin state username))

  require_admin_chain-ByChain :
      (chains : List (List Certificate)) (w u : World)
      → require_admin_chain env r chains w ≡ (ok tt, u)
      → ByChain w.state chains
  unfolding require_admin_chain
  require_admin_chain-ByChain chains w u h =
      >>=-step
        (on_error (lift (get_username_if_keymaster_signed env w.state.keymaster_public_keys chains))
          (λ e. emit (http_error e status_internal_server_error)))
        _ w h
        λ (username, not_before) u1 e1 h1.
          let (signed, same) =
            on_error-lift_ok
              (get_username_if_keymaster_signed env w.state.keymaster_public_keys chains) _
              (username, not_before) e1 in
          elim (keymaster_signed-Search env w.state.keymaster_public_keys chains username not_before
            signed) [
              | inr (unsigned, nobody) ↦ inl unsigned
              | inl leaf ↦ inr (
                username,
                not_before,
                leaf,
                elim (Bool-cases (str_eq username "")) [
                  | inl nobody ↦ inl ((eq_iff username "").0 nobody)
                  | inr somebody ↦ inr (
                      subst (λ x. IsAdmin x.state username) same
                        (require_admin-ok username u1 u (rw somebody at h1)))
                ],
              )
            ]

  -- Who passes the filter.
  abbrev pub Passes : RuntimeState → Type 0
  Passes state =
      ((chains : List (List Certificate)) × (r.tls ≡ some chains) × ByChain state chains)
      ⊎ ((info : AuthInfo) × Evidence env r state (get_required_web_ui_auth_level state) info
          × IsSameSite env r
          × IsAdmin state info.username)

  filter-Passes :
      (w u : World)
      → send_failure_to_client_if_not_admin_user_or_ca env r w ≡ (ok tt, u)
      → Passes w.state
  unfolding send_failure_to_client_if_not_admin_user_or_ca
  filter-Passes w u h = go r.tls refl
    where
      go : (tls : Option (List (List Certificate))) → r.tls ≡ tls → Passes w.state
      go none e = absurd (ground arith)
      go (some (chain ∷ rest)) e = inl (
        chain ∷ rest,
        e,
        require_admin_chain-ByChain (chain ∷ rest) w u
            (rw (e, send_failure_to_client_if_not_admin_user_or_ca) at h),
      )
      go (some []) e =
          >>=-step (check_auth env r (get_required_web_ui_auth_level w.state)) _ w
            (rw (e, send_failure_to_client_if_not_admin_user_or_ca) at h)
            λ info u1 e1 h1.
              let (evidence, same, site) =
                check_auth-Evidence env r (get_required_web_ui_auth_level w.state) w u1 info e1 in
              inr (
                info,
                evidence,
                site,
                subst (λ x. IsAdmin x.state info.username) same
                    (require_admin-ok info.username u1 u h1),
              )

  -- The handler behind the filter answers a request for the logs, where these are not public, only
  -- for verified chains of which no configured key has signed a leaf, for verified chains with a leaf
  -- that one has signed and whose name is an administrator's or empty, or for an administrator with
  -- evidence of the web UI's level.
  pub serve_http-Passes :
      (handler : M (Unit {0})) (w v : World)
      → starts_with r.url_path "/logs" ≡ true
      → serve_http env r false handler w ≡ (ok tt, v)
      → Passes w.state
  unfolding serve_http
  serve_http-Passes handler w v logs h =
      >>=-step
        (if starts_with r.url_path "/logs" && true
          then send_failure_to_client_if_not_admin_user_or_ca env r
          else return tt)
        _ w h λ _ u e _. filter-Passes w u (rw logs at e)
