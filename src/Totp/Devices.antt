-- ===== src/Totp/Devices.antt =====
-- cmd/keymasterd/2fa_totp.go: the management of a user's devices.
pub mod Managed
use Prim.Native.String.{◌++◌}
use keymaster.Prelude.{
  ℕ, String, Bool, true, false, not, ◌&&◌, List, [], ◌∷◌, Option, none, some, ◌==◌, str_eq,
  if◌then◌else◌,
}
use keymaster.Prelude.Int.{ℤ, pos, negsuc}
use keymaster.Result.{Result, ok, err}
use keymaster.Profile.{UserProfile, TotpAuthData}
use keymaster.Http.{
  Request, set_username, write_header, write, http_error, redirect, status_ok, status_found,
  status_bad_request, status_unauthorized, status_method_not_allowed, status_service_unavailable,
  status_internal_server_error,
}
use keymaster.State.{Env, AuthInfo}
use keymaster.Checks.{Checked, passed, refused, require, require_ok, require_some, check}
use keymaster.Checks
use keymaster.Handler.{M, ◌>>=◌, ◌>>◌, emit, get_state, put_state, lift, on_error, reject_if}
use keymaster.Respond.{
  profile_path, form_get, get_form, get_preferred_accept_type, stop_if_locked,
  write_failure_response,
}
use keymaster.Directory.{is_admin_user_and_u2f}
use keymaster.CheckAuth.{check_auth, get_required_web_ui_auth_level}
use keymaster.SecondFactor.{parse_form_or}
use keymaster.Storage.{load_user_profile, save_user_profile}

abbrev pub Devices : Type 0
Devices = List (ℕ × TotpAuthData)

unfoldable pub find_device : {V : Type 0} (index : ℕ) → List (ℕ × V) → Option V
find_device index [] = none
find_device index ((other, device) ∷ rest) =
    if other == index then some device else find_device index rest

unfoldable pub set_device : {V : Type 0} (index : ℕ) → V → List (ℕ × V) → List (ℕ × V)
set_device index device [] = (index, device) ∷ []
set_device index device ((other, old) ∷ rest) =
    let rest' = set_device index device rest in
    if other == index then (index, device) ∷ rest else (other, old) ∷ rest'

unfoldable pub delete_device : {V : Type 0} (index : ℕ) → List (ℕ × V) → List (ℕ × V)
delete_device index [] = []
delete_device index ((other, device) ∷ rest) =
    let rest' = delete_device index rest in
    if other == index then rest' else (other, device) ∷ rest'

-- No device has a negative index: an index is the time of the making.
unfoldable pub device_index : ℤ → Option ℕ
device_index (pos n) = some n
device_index (negsuc n) = none

module _ (env : Env) where
  abbrev pub is_token_name : String → Bool
  is_token_name name = elim (env.match_string "^[-/.a-zA-Z0-9_ ]+$" name) [
    | err e ↦ false
    | ok matched ↦ matched
  ]

  -- the switch over the form's action
  unfoldable pub change_devices :
      (action name : String) (index : ℕ) → TotpAuthData → Devices → Checked Devices
  change_devices action name index device devices =
      if str_eq action "Update"
      then (if is_token_name name
          then passed (set_device index (record device { name = name }) devices)
          else refused status_bad_request "invalidtokenName")
      else if str_eq action "Disable"
      then passed (set_device index (record device { enabled = false }) devices)
      else if str_eq action "Enable"
      then passed (set_device index (record device { enabled = true }) devices)
      else if str_eq action "Delete"
      then passed (delete_device index devices)
      else refused status_bad_request "Invalid Operation"

  -- The devices that a form's action leaves, which are there at its index.
  unfoldable pub managed_devices :
      List (String × List String) → (token_index : ℤ) → Devices → Checked Devices
  unfolding device_index find_device change_devices
  managed_devices form token_index devices =
      Checks.◌>>=◌ (require_some (device_index token_index) status_bad_request "bad index Value")
        λ index.
          Checks.◌>>=◌
            (require_some (find_device index devices) status_bad_request "bad index Value")
            λ device.
              change_devices (form_get form "action") (form_get form "name") index device devices

  -- strconv.ParseInt in base 10 and to 64 bits, which is strconv.Atoi
  abbrev pub token_index_of : List (String × List String) → Checked ℤ
  token_index_of form =
      require_ok (env.atoi (form_get form "index")) status_bad_request "tokenindex is not a number"

-- `profileURI`
abbrev pub profile_uri : (auth_user assumed_user : String) → String
profile_uri auth_user assumed_user =
    if str_eq auth_user assumed_user then profile_path else profile_path ++ assumed_user

module _ (env : Env) (r : Request) where
  -- a browser goes to the user's page, any other client is told that it is done
  abbrev pub answer_success : (auth_user assumed_user : String) → M (Unit {0})
  answer_success auth_user assumed_user =
      if str_eq (get_preferred_accept_type r) "text/html"
      then emit (redirect (profile_uri auth_user assumed_user) status_found)
      else (emit (write_header status_ok) >> emit (write "Success!"))

  -- the part after the form is parsed
  unfoldable pub manage_form : AuthInfo → (form : List (String × List String)) → M (Unit {0})
  unfolding managed_devices
  manage_form info form = do
    now ← get_state
    put_state (is_admin_user_and_u2f env now info.username info.auth_type).1
    reject_if
        (not (is_admin_user_and_u2f env now info.username info.auth_type).0
          && not (str_eq (form_get form "username") info.username))
        (write_failure_response env r status_unauthorized "") ""
    token_index ← check env r (token_index_of env form)
    before ← get_state
    loaded ←
        on_error (lift (load_user_profile env before (form_get form "username")))
          (λ e. emit (http_error "error" status_internal_server_error))
    reject_if loaded.from_cache
        (emit (http_error "db backend is offline for writes" status_service_unavailable)) ""
    devices ← check env r (managed_devices env form token_index loaded.profile.totp_auth_data)
    saved ←
        on_error
          (lift (
            save_user_profile env before (form_get form "username")
              (record loaded.profile { totp_auth_data = devices })))
          (λ e. emit (http_error "error" status_internal_server_error))
    put_state saved
    answer_success info.username (form_get form "username")

  unfoldable pub totp_token_manager_handler : M (Unit {0})
  unfolding manage_form
  totp_token_manager_handler = do
    stop_if_locked env r
    state ← get_state
    info ←
        on_error (check_auth env r (get_required_web_ui_auth_level state))
          (λ e. emit (http_error "error" status_internal_server_error))
    emit (set_username info.username)
    reject_if (not (str_eq r.method "POST"))
        (write_failure_response env r status_method_not_allowed "") ""
    parse_form_or env r status_bad_request
    form ← get_form
    manage_form info form
