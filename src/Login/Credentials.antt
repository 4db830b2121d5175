-- ===== src/Login/Credentials.antt =====
-- cmd/keymasterd/app.go: the guards of the login, up to the user whose password is right.
use keymaster.Prelude.{
  String, Bool, true, false, not, ◌||◌, List, [], ◌∷◌, none, some, str_eq, if◌then◌else◌,
}
use keymaster.Result.{Result, ok, err}
use keymaster.Profile.{U2fAuthData}
use keymaster.Prelude.{ℕ}
use keymaster.Http.{Request, status_bad_request, status_unauthorized, status_internal_server_error}
use keymaster.State.{Env, RuntimeState}
use keymaster.Checks.{Checked, passed, require, require_ok, ◌>>=◌, ◌>>◌}
use keymaster.CheckAuth.{check_user_password, reprocess_username}
use keymaster.Storage.{load_user_profile}
use keymaster.SecondFactor.{single_value, or_empty}

-- the registrations of the devices that are enabled
unfoldable pub get_registration_array : List (ℕ × U2fAuthData) → List String
get_registration_array [] = []
get_registration_array ((index, device) ∷ devices) =
    let rest = get_registration_array devices in
    if device.enabled then device.registration ∷ rest else rest

pub record Login : Type 0 where
  pub username : String
  pub has_u2f_tokens : Bool

-- A request's user and password: of the header, else of the form, which must have both.
unfoldable pub login_credentials :
    Request → (form : List (String × List String)) → Checked (String × String)
login_credentials r form = elim r.basic_auth [
  | some basic ↦ passed (basic.user, basic.pass)
  | none ↦ do
    username ←
        require_ok (single_value form "username") status_bad_request "Just one username allowed"
    password ←
        require_ok (single_value form "password") status_bad_request "Just one password allowed"
    require (not (str_eq (or_empty username) "" || str_eq (or_empty password) ""))
        status_unauthorized ""
    passed (or_empty username, or_empty password)
]

module _ (env : Env) where
  unfoldable pub user_has_u2f_tokens : RuntimeState → (username : String) → Result Bool
  unfolding get_registration_array
  user_has_u2f_tokens state username = elim (load_user_profile env state username) [
    | err e ↦ err e
    | ok loaded ↦
        if not loaded.found
        then ok false
        else ok (elim (get_registration_array loaded.profile.u2f_auth_data) [
          | [] ↦ false
          | first ∷ rest ↦ true
        ])
  ]

  unfoldable pub checked_login :
      RuntimeState → Request → (form : List (String × List String)) → Checked Login
  unfolding login_credentials user_has_u2f_tokens
  checked_login state r form = do
    credentials ← login_credentials r form
    let username = reprocess_username env state credentials.0
    valid ←
        require_ok (check_user_password env state username credentials.1)
          status_internal_server_error ""
    require valid status_unauthorized "Invalid Username/Password"
    has_tokens ←
        require_ok (user_has_u2f_tokens state username) status_internal_server_error
          "error internal"
    passed (record { username = username; has_u2f_tokens = has_tokens })
