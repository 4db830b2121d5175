-- ===== src/LogFilter.antt =====
-- cmd/keymasterd/logFilter.go: who may read the logs on the administration port.
pub mod Passed
use keymaster.Prelude.{
  String, Bool, true, false, not, ◌&&◌, List, [], ◌∷◌, none, some, starts_with, str_eq,
  if◌then◌else◌,
}
use keymaster.Result.{ok, err}
use keymaster.Http.{
  Certificate, Request, http_error, status_unauthorized, status_internal_server_error,
}
use keymaster.State.{Env}
use keymaster.Handler.{
  M, ◌>>=◌, ◌>>◌, return, fail, emit, get_state, put_state, lift, on_error, reject_if,
}
use keymaster.Directory.{is_admin_user}
use keymaster.CheckAuth.{
  check_auth, get_required_web_ui_auth_level, get_username_if_keymaster_signed,
}

module _ (env : Env) (r : Request) where
  -- `if !state.IsAdminUser(username) { http.Error(…) }`
  unfoldable pub require_admin : (username : String) → M (Unit {0})
  require_admin username = do
    state ← get_state
    put_state (is_admin_user env state username).1
    reject_if (not (is_admin_user env state username).0)
        (emit (http_error "Not an admin user" status_unauthorized)) ""

  -- The owner of verified chains: an administrator, or somebody whom no keymaster key has signed,
  -- and so the administrators' own authority.
  unfoldable pub require_admin_chain : List (List Certificate) → M (Unit {0})
  require_admin_chain chains = do
    state ← get_state
    signed ←
        on_error (lift (get_username_if_keymaster_signed env state.keymaster_public_keys chains))
          (λ e. emit (http_error e status_internal_server_error))
    if str_eq signed.0 "" then return tt else require_admin signed.0

  unfoldable pub send_failure_to_client_if_not_admin_user_or_ca : M (Unit {0})
  send_failure_to_client_if_not_admin_user_or_ca = elim r.tls [
    | none ↦ emit (http_error "TLS mandatory" status_unauthorized) >> fail "no TLS"
    | some chains ↦ elim chains [
      | chain ∷ rest ↦ require_admin_chain (chain ∷ rest)
      | [] ↦ do
        state ← get_state
        info ← check_auth env r (get_required_web_ui_auth_level state)
        require_admin info.username
    ]
  ]

  -- The guard of ServeHTTP, before the inner handler.
  unfoldable pub serve_http : (public_logs : Bool) (handler : M (Unit {0})) → M (Unit {0})
  serve_http public_logs handler =
      (if starts_with r.url_path "/logs" && not public_logs
        then send_failure_to_client_if_not_admin_user_or_ca
        else return tt)
      >> handler
