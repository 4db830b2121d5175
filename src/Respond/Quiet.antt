-- ===== src/Respond/Quiet.antt =====
-- What answers a request that fails sends no cookie.
use keymaster.Prelude.{ℕ, String, Bool, ltb, ◌||◌, true, false, List, Option, none, some, Memᴰ}
use keymaster.AuthType.{auth_type_password, auth_type_federated, has}
use keymaster.Http.{Request, Page, Cookie, set_cookie, render}
use keymaster.State.{Env}
use keymaster.Handler.{World, get_state}
use keymaster.Jwt.{get_auth_info_from_auth_jwt}
use keymaster.Handler.Quiet.{
  Quiet, Quiet-bind, Quiet-get_state, Quiet-if, Quiet-option, Quiet-result, quiet_rules,
}
use keymaster.Respond.{
  execute, set_security_headers, write_html_2fa_auth_page, write_html_login_page,
  failure_destination, write_unauthorized_page, write_plain, write_failure_response, stop_if_locked,
  parse_form, get_form, find_cookie, auth_cookie_name,
}

pub Quiet-get_form : Quiet get_form
Quiet-get_form = record { at = λ c w k. k }

pub Quiet-parse_form : (r : Request) → Quiet (parse_form r)
Quiet-parse_form r = record { at = λ c w k. go c w r.form k }
  where
    go :
        (c : Cookie) (w : World) (form : Option (List (String × List String)))
        → Memᴰ (set_cookie c) (parse_form (record r { form = form }) w).1.sent
        → Memᴰ (set_cookie c) w.sent
    go c w none k = k
    go c w (some form) k = k

pub Quiet-security_headers : Quiet set_security_headers
Quiet-security_headers = search quiet_rules

module _ (env : Env) (r : Request) where
  Quiet-execute : (page : Page) → Quiet (execute env r (render page))
  unfolding execute
  Quiet-execute page =
      Quiet-option env.template_error _ _ (search quiet_rules) (λ e. search quiet_rules)

  Quiet-2fa_page :
      (destination : String) (a b : Bool) → Quiet (write_html_2fa_auth_page env r destination a b)
  unfolding write_html_2fa_auth_page
  Quiet-2fa_page destination a b = search (quiet_rules, Quiet-execute)

  Quiet-login_page :
      (code : ℕ) (destination message : String)
      → Quiet (write_html_login_page env r code destination message)
  unfolding write_html_login_page
  Quiet-login_page code destination message = search (quiet_rules, Quiet-execute)

  Quiet-unauthorized_page :
      (code : ℕ) (message : String) → Quiet (write_unauthorized_page env r code message)
  unfolding write_unauthorized_page
  Quiet-unauthorized_page code message = Quiet-bind get_state _ Quiet-get_state λ state.
      Quiet-bind get_form _ Quiet-get_form λ form.
        Quiet-option (find_cookie auth_cookie_name r.cookies) _ _
          (Quiet-login_page code (failure_destination env r form) message)
          λ value.
            Quiet-result (get_auth_info_from_auth_jwt env state value) _ _
              (λ e. Quiet-login_page code (failure_destination env r form) "")
              λ info.
                Quiet-if (ltb info.expires_at env.now) _ _
                  (Quiet-login_page code (failure_destination env r form) "")
                  (Quiet-if
                    (has info.auth_type auth_type_password
                      || has info.auth_type auth_type_federated)
                    _ _ (Quiet-2fa_page (failure_destination env r form) true false)
                    (Quiet-login_page code (failure_destination env r form) message))

  Quiet-plain : (code : ℕ) (text : String) → Quiet (write_plain env r code text)
  unfolding write_plain
  Quiet-plain code text = search quiet_rules

  pub Quiet-failure :
      (code : ℕ) (message : String) → Quiet (write_failure_response env r code message)
  unfolding write_failure_response
  Quiet-failure code message =
      search (quiet_rules, Quiet-security_headers, Quiet-unauthorized_page, Quiet-plain) depth 12

  pub Quiet-stop_if_locked : Quiet (stop_if_locked env r)
  unfolding stop_if_locked
  Quiet-stop_if_locked = search (quiet_rules, Quiet-security_headers, Quiet-failure)
