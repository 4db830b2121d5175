-- ===== src/Admin/Handlers.antt =====
-- cmd/keymasterd/adminHandlers.go: the handlers.
pub mod Authorized
pub mod Changes
use Prim.Native.String.{slice}
use keymaster.Prelude.{
  ℕ, ◌+◌, String, Bool, not, List, Option, none, some, bit_or, str_eq, if◌then◌else◌,
}
use keymaster.Result.{Result, ok, err}
use keymaster.AuthType.{auth_type_keymaster_x509}
use keymaster.Profile.{UserProfile}
use keymaster.Http.{
  Request, Effect, set_username, write_header, write, http_error, redirect, render, write_json,
  users_page, new_bootstrap_otp_page, status_ok, status_found, status_unauthorized,
  status_method_not_allowed, status_internal_server_error,
}
use keymaster.State.{Env, RuntimeState}
use keymaster.Handler.{
  M, ◌>>=◌, ◌>>◌, return, fail, emit, get_state, put_state, lift, on_error, reject_if,
}
use keymaster.Checks.{check}
use keymaster.Respond.{
  get_preferred_accept_type, get_form, stop_if_locked, write_failure_response, parse_form,
}
use keymaster.Directory.{is_admin_user}
use keymaster.CheckAuth.{check_auth, get_required_web_ui_auth_level}
use keymaster.Storage.{get_users, save_user_profile, delete_user_profile}
use keymaster.Admin.Guards.{form_username, otp_duration, otp_user, new_user}

abbrev users_path : String
users_path = "/users/"

module _ (env : Env) (r : Request) where
  -- the level of the web UI, or a certificate of this daemon's
  abbrev pub admin_level : RuntimeState → ℕ
  admin_level state = bit_or (get_required_web_ui_auth_level state) auth_type_keymaster_x509

  -- `state.sendFailureToClientIfNonAdmin(w, r)`: the administrator's name. The answer on who is one
  -- may leave an entry in the cache.
  unfoldable pub stop_if_non_admin : M String
  stop_if_non_admin = do
    stop_if_locked env r
    state ← get_state
    info ← check_auth env r (admin_level state)
    emit (set_username info.username)
    now ← get_state
    put_state (is_admin_user env now info.username).1
    reject_if (not (is_admin_user env now info.username).0)
        (write_failure_response env r status_unauthorized "Not an admin user") ""
    return info.username

  unfoldable pub ensure_post_and_get_username : M String
  ensure_post_and_get_username = do
    reject_if (not (str_eq r.method "POST"))
        (write_failure_response env r status_method_not_allowed "") ""
    on_error (parse_form r) (λ e. write_failure_response env r status_internal_server_error "")
    form ← get_form
    check env r (form_username env form)

  -- a browser goes to the page of the users, any other client is told that it is done
  abbrev pub done : M (Unit {0})
  done =
      if str_eq (get_preferred_accept_type r) "text/html"
      then emit (redirect users_path status_found)
      else (emit (write_header status_ok) >> emit (write "OK\n"))

  -- a page of the templates, or their error
  execute_template : Effect → M (Unit {0})
  execute_template page = elim env.template_error [
    | none ↦ emit page
    | some e ↦ emit (http_error "error" status_internal_server_error) >> fail e
  ]

  unfoldable pub users_handler : M (Unit {0})
  unfolding execute_template
  users_handler = do
    auth_user ← stop_if_non_admin
    reject_if (str_eq auth_user "") (return tt) ""
    emit (set_username auth_user)
    state ← get_state
    users ←
        on_error (lift (get_users env state))
          (λ e. emit (http_error "error" status_internal_server_error))
    execute_template (render (users_page auth_user users.0))

  unfoldable pub add_user_handler : M (Unit {0})
  add_user_handler = do
    auth_user ← stop_if_non_admin
    username ← ensure_post_and_get_username
    state ← get_state
    profile ← check env r (new_user env state username)
    saved ←
        on_error (lift (save_user_profile env state username profile))
          (λ e. write_failure_response env r status_internal_server_error "")
    put_state saved
    done

  unfoldable pub delete_user_handler : M (Unit {0})
  delete_user_handler = do
    auth_user ← stop_if_non_admin
    username ← ensure_post_and_get_username
    state ← get_state
    deleted ←
        on_error (lift (delete_user_profile env state username))
          (λ e. write_failure_response env r status_internal_server_error "")
    put_state deleted
    done

  -- `state.sendBootstrapOtpEmail(…)`, where there is a mail server; else the page shows the value
  unfoldable pub send_or_show : RuntimeState → (value : String) → Result String
  send_or_show state value = elim state.email_manager [
    | none ↦ ok value
    | some manager ↦ elim env.send_email_error [ some e ↦ err e | none ↦ ok "" ]
  ]

  abbrev pub with_otp : UserProfile → (expires_at : ℕ) (value : String) → UserProfile
  with_otp profile expires_at value = record profile {
    bootstrap_otp = record { expires_at = expires_at; sha512_hash = some (env.sha512 value) };
  }

  unfoldable pub show_otp : (page : Effect) (json : Effect) → M (Unit {0})
  unfolding execute_template
  show_otp page json =
      if str_eq (get_preferred_accept_type r) "text/html"
      then execute_template page
      else (emit (write_header status_ok) >> emit json)

  unfoldable pub generate_bootstrap_otp : M (Unit {0})
  generate_bootstrap_otp = do
    auth_user ← stop_if_non_admin
    username ← ensure_post_and_get_username
    state ← get_state
    profile ← check env r (otp_user env state username)
    form ← get_form
    duration ← check env r (otp_duration env form)
    value ←
        on_error (lift env.random_text)
          (λ e. write_failure_response env r status_internal_server_error "")
    shown ←
        on_error (lift (send_or_show state value))
          (λ e. write_failure_response env r status_internal_server_error "error sending email")
    saved ←
        on_error
          (lift
            (save_user_profile env state username (with_otp profile (env.now + duration) value)))
          (λ e. write_failure_response env r status_internal_server_error "")
    put_state saved
    let page =
        new_bootstrap_otp_page auth_user username (env.now + duration)
          (env.hex (slice (env.sha512 value) 0 4)) shown
    show_otp (render page) (write_json page)
