-- ===== src/U2fTokens.antt =====
-- cmd/keymasterd/app.go: the management of a user's U2F tokens.
use keymaster.Prelude.{ℕ, String, true, false, not, ◌&&◌, List, str_eq, if◌then◌else◌}
use keymaster.Prelude.Int.{ℤ}
use keymaster.Profile.{U2fAuthData}
use keymaster.Http.{
  Request, set_username, http_error, status_bad_request, status_unauthorized,
  status_service_unavailable, status_internal_server_error,
}
use keymaster.State.{Env, AuthInfo}
use keymaster.Checks.{Checked, passed, refused, require_some, check}
use keymaster.Checks
use keymaster.Handler.{M, ◌>>=◌, ◌>>◌, emit, get_state, put_state, lift, on_error, reject_if}
use keymaster.Respond.{form_get, get_form, stop_if_locked, write_failure_response}
use keymaster.Directory.{is_admin_user_and_u2f}
use keymaster.CheckAuth.{check_auth, get_required_web_ui_auth_level}
use keymaster.SecondFactor.{parse_form_or}
use keymaster.Storage.{load_user_profile, save_user_profile}
use keymaster.Totp.Devices.{
  find_device, set_device, delete_device, device_index, is_token_name, token_index_of,
  answer_success,
}

module _ (env : Env) where
  -- the switch over the form's action
  unfoldable pub change_u2f_tokens :
      (action name : String) (index : ℕ)
      → U2fAuthData
      → List (ℕ × U2fAuthData)
      → Checked (List (ℕ × U2fAuthData))
  change_u2f_tokens action name index device devices =
      if str_eq action "Update"
      then (if is_token_name env name
          then passed (set_device index (record device { name = name }) devices)
          else refused status_bad_request "invalidtokenName")
      else if str_eq action "Disable"
      then passed (set_device index (record device { enabled = false }) devices)
      else if str_eq action "Enable"
      then passed (set_device index (record device { enabled = true }) devices)
      else if str_eq action "Delete"
      then passed (delete_device index devices)
      else refused status_bad_request "Invalid Operation"

  -- The devices that a form's action leaves, which are there at its index.
  unfoldable pub managed_u2f_tokens :
      List (String × List String)
      → (token_index : ℤ) → List (ℕ × U2fAuthData)
      → Checked (List (ℕ × U2fAuthData))
  unfolding device_index find_device change_u2f_tokens
  managed_u2f_tokens form token_index devices =
      Checks.◌>>=◌ (require_some (device_index token_index) status_bad_request "bad index Value")
        λ index.
          Checks.◌>>=◌
            (require_some (find_device index devices) status_bad_request "bad index Value")
            λ device.
              change_u2f_tokens (form_get form "action") (form_get form "name") index device devices

module _ (env : Env) (r : Request) where
  -- the part after the form is parsed
  unfoldable pub manage_u2f_form : AuthInfo → (form : List (String × List String)) → M (Unit {0})
  unfolding managed_u2f_tokens
  manage_u2f_form info form = do
    now ← get_state
    put_state (is_admin_user_and_u2f env now info.username info.auth_type).1
    reject_if
        (not (is_admin_user_and_u2f env now info.username info.auth_type).0
          && not (str_eq (form_get form "username") info.username))
        (write_failure_response env r status_unauthorized "") ""
    token_index ← check env r (token_index_of env form)
    before ← get_state
    loaded ←
        on_error (lift (load_user_profile env before (form_get form "username")))
          (λ e. emit (http_error "error" status_internal_server_error))
    reject_if loaded.from_cache
        (emit (http_error "db backend is offline for writes" status_service_unavailable)) ""
    devices ← check env r (managed_u2f_tokens env form token_index loaded.profile.u2f_auth_data)
    saved ←
        on_error
          (lift (
            save_user_profile env before (form_get form "username")
              (record loaded.profile { u2f_auth_data = devices })))
          (λ e. emit (http_error "error" status_internal_server_error))
    put_state saved
    answer_success env r info.username (form_get form "username")

  unfoldable pub u2f_token_manager_handler : M (Unit {0})
  unfolding manage_u2f_form
  u2f_token_manager_handler = do
    stop_if_locked env r
    state ← get_state
    info ←
        on_error (check_auth env r (get_required_web_ui_auth_level state))
          (λ e. emit (http_error "error" status_internal_server_error))
    emit (set_username info.username)
    parse_form_or env r status_bad_request
    form ← get_form
    manage_u2f_form info form
