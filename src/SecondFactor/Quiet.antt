-- ===== src/SecondFactor/Quiet.antt =====
-- cmd/keymasterd/2fa_*.go: of the shared steps, only the raised session sends a cookie.
use keymaster.Prelude.{ℕ, String, Memᴰ, ◌≡◌, ◌⊎◌, inl, inr, some, Option-cases}
use keymaster.Result.{ok, Result-cases}
use keymaster.Http.{Request, Cookie, set_cookie, status_internal_server_error}
use keymaster.State.{Env, RuntimeState}
use keymaster.Handler.{M, World, ◌>>=◌}
use keymaster.Handler.Quiet.{Quiet, quiet_after, quiet_rules}
use keymaster.Jwt.{update_auth_jwt_with_new_auth_level}
use keymaster.Respond.{auth_cookie_name, auth_cookie, find_cookie, update_auth_cookie_authlevel}
use keymaster.Respond.Quiet.{Quiet-failure, Quiet-parse_form, Quiet-get_form}
use keymaster.SecondFactor.{get_or_post, parse_form_or, otp_of_form, raise_level, send_onwards}

module _ (env : Env) (r : Request) where
  pub Quiet-get_or_post : Quiet (get_or_post env r)
  Quiet-get_or_post = search (quiet_rules, Quiet-failure)

  pub Quiet-parse_form_or : (code : ℕ) → Quiet (parse_form_or env r code)
  Quiet-parse_form_or code = search (quiet_rules, Quiet-failure, Quiet-parse_form)

  pub Quiet-otp_of_form : Quiet (otp_of_form env r)
  unfolding otp_of_form
  Quiet-otp_of_form = search (quiet_rules, Quiet-failure, Quiet-get_form) depth 8

  pub Quiet-send_onwards :
      (publish : M (Unit {0})) → Quiet publish → Quiet (send_onwards env r publish)
  unfolding send_onwards
  Quiet-send_onwards publish q = search (quiet_rules, Quiet-get_form) depth 8

  -- The cookie of the raised session: the token of the request's own one, updated to the level.
  abbrev pub Raised : RuntimeState → (auth_level : ℕ) → Cookie → Type 0
  Raised state auth_level c =
      (old : String) × (value : String) × (find_cookie auth_cookie_name r.cookies ≡ some old)
      × (update_auth_jwt_with_new_auth_level env state old auth_level ≡ ok value)
      × (c ≡ auth_cookie value 0)

  raise_level-Raised :
      (auth_level : ℕ) (message : String) (c : Cookie) (w : World)
      → Memᴰ (set_cookie c) (raise_level env r auth_level message w).1.sent
      → Memᴰ (set_cookie c) w.sent ⊎ Raised w.state auth_level c
  unfolding raise_level update_auth_cookie_authlevel
  raise_level-Raised auth_level message c w k =
      elim (Option-cases (find_cookie auth_cookie_name r.cookies)) [
        | inl absent ↦
            inl ((Quiet-failure env r status_internal_server_error message).at c w (rw absent at k))
        | inr (old, found) ↦
            elim (Result-cases (update_auth_jwt_with_new_auth_level env w.state old auth_level)) [
              | inl (e, failed) ↦ inl (
                  (Quiet-failure env r status_internal_server_error message).at c w
                    (rw (found, failed) at k))
              | inr (value, updated) ↦ elim (rw (found, updated) at k) [
                | Memᴰ.head same ↦ inr (old, value, found, updated, cc)
                | Memᴰ.tail before ↦ inl before
              ]
            ]
      ]

  -- The same, quiet steps following it.
  pub raise_then-Raised :
      {B : Type 0} (auth_level : ℕ) (message : String) (f : String → M B)
      → ((old : String) → Quiet (f old))
      → (c : Cookie) (w : World)
      → Memᴰ (set_cookie c) ((raise_level env r auth_level message >>= f) w).1.sent
      → Memᴰ (set_cookie c) w.sent ⊎ Raised w.state auth_level c
  raise_then-Raised auth_level message f q c w k =
      raise_level-Raised auth_level message c w
        (quiet_after (raise_level env r auth_level message) f q c w k)
