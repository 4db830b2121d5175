-- ===== src/Login/Accepted.antt =====
-- cmd/keymasterd/app.go: what a login has gone through, and the session that it sets.
use keymaster.Prelude.{String, true, List, ◌≡◌}
use keymaster.Result.{ok}
use keymaster.Http.{Request}
use keymaster.State.{Env, RuntimeState}
use keymaster.Handler.Keeps.{Keeps}
use keymaster.Checks.{passed}
use keymaster.CheckAuth.{check_user_password, reprocess_username}
use keymaster.Login.Credentials.{Login, login_credentials, user_has_u2f_tokens}

module _ (env : Env) (r : Request) where
  -- The password that a login stands on: the request's user, as the daemon spells it, whose password
  -- the configured checker accepted.
  pub record Accepted (state : RuntimeState) (form : List (String × List String)) (login : Login)
      : Type 0 where
    pub username : String
    pub password : String
    pub given : login_credentials r form ≡ passed (username, password)
    pub spelled : login.username ≡ reprocess_username env state username
    pub accepted : check_user_password env state login.username password ≡ ok true
    pub devices : user_has_u2f_tokens env state login.username ≡ ok login.has_u2f_tokens
