-- ===== src/Admin/Guards.antt =====
-- cmd/keymasterd/adminHandlers.go: who may call the handlers, for which user, and the guards of a
-- new bootstrap password.
use keymaster.Prelude.{
  ℕ, ◌*◌, String, not, ◌&&◌, List, [], ◌∷◌, Option, none, some, leb, if◌then◌else◌,
}
use keymaster.Prelude.Int.{ℤ, pos, pos_part, ltb_ℤ}
use keymaster.Prelude.Dict.{lookup}
use keymaster.Profile.{UserProfile}
use keymaster.Http.{
  status_bad_request, status_service_unavailable, status_precondition_failed,
  status_internal_server_error,
}
use keymaster.State.{Env, RuntimeState}
use keymaster.Checks.{Checked, passed, require, require_ok, require_some, ◌>>=◌, ◌>>◌}
use keymaster.Jwt.{second}
use keymaster.Storage.{load_user_profile}
use keymaster.Bootstrap.{is_empty}

abbrev pub minute : ℕ
minute = 60 * second

abbrev pub default_bootstrap_otp_duration : ℕ
default_bootstrap_otp_duration = 6 * 3600 * second

abbrev pub maximum_bootstrap_otp_duration : ℕ
maximum_bootstrap_otp_duration = 24 * 3600 * second

-- the one value of a list
abbrev pub single : List String → Option String
single [] = none
single (value ∷ []) = some value
single (value ∷ next ∷ rest) = none

module _ (env : Env) where
  -- The user that a form names, of the letters that the expression admits.
  unfoldable pub form_username : List (String × List String) → Checked String
  unfolding lookup
  form_username form = do
    values ← require_some (lookup "username" form) status_bad_request "Required Parameters missing"
    username ← require_some (single values) status_bad_request "Single value response required"
    matched ←
        require_ok (env.match_string "^[A-Za-z0-9-_.]+$" username) status_internal_server_error ""
    require matched status_bad_request "Invalid Username found"
    passed username

  -- the duration that a form asks for, six hours if it does not
  unfoldable pub asked_duration : List (String × List String) → Checked ℤ
  unfolding lookup
  asked_duration form = elim (lookup "duration" form) [
    | none ↦ passed (pos default_bootstrap_otp_duration)
    | some values ↦ do
      value ← require_some (single values) status_bad_request "Single value duration required"
      require_ok (env.parse_duration value) status_bad_request ""
  ]

  -- At least a minute, and at most a day.
  unfoldable pub otp_duration : List (String × List String) → Checked ℕ
  otp_duration form = do
    duration ← asked_duration form
    let raised = if ltb_ℤ duration (pos minute) then minute else pos_part duration
    require (leb raised maximum_bootstrap_otp_duration) status_bad_request
        "Duration over 1 day not allowed"
    passed raised

  -- A stored user of the primary database who has no device.
  unfoldable pub otp_user : RuntimeState → (username : String) → Checked UserProfile
  otp_user state username = do
    loaded ← require_ok (load_user_profile env state username) status_internal_server_error ""
    require loaded.found status_bad_request "User does not exist in DB"
    require (not loaded.from_cache) status_service_unavailable
        "Working in db disconnected mode, try again later"
    require (is_empty loaded.profile.u2f_auth_data && is_empty loaded.profile.totp_auth_data)
        status_precondition_failed "User has U2F tokens registered"
    passed loaded.profile

  -- A user that is not stored yet, for whom the default profile is loaded.
  unfoldable pub new_user : RuntimeState → (username : String) → Checked UserProfile
  new_user state username = do
    loaded ← require_ok (load_user_profile env state username) status_internal_server_error ""
    require (not loaded.found) status_bad_request "User exists in DB"
    require (not loaded.from_cache) status_service_unavailable
        "Working in db disconnected mode, try again later"
    passed loaded.profile
