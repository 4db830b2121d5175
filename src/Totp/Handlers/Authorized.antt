-- ===== src/Totp/Handlers/Authorized.antt =====
-- cmd/keymasterd/2fa_totp.go: what a session has gone through when it gains the password's factor.
use keymaster.Prelude.{ℕ, true, ◌≡◌, bit_or}
use keymaster.Prelude.Int.{ℤ}
use keymaster.Result.{ok}
use keymaster.AuthType.{auth_type_any, auth_type_totp}
use keymaster.Http.{Request, Cookie}
use keymaster.State.{Env, RuntimeState, AuthInfo}
use keymaster.Handler.Quiet.{Quiet}
use keymaster.CheckAuth.Sound.{Evidence, IsSameSite}
use keymaster.SecondFactor.Quiet.{Raised}
use keymaster.Totp.{validate_user_totp}

module _ (env : Env) (r : Request) where
  -- A caller with evidence, on a POST that has passed the cross-site test.
  abbrev pub Posted : RuntimeState → ℕ → AuthInfo → Type 0
  Posted state required info =
      Evidence env r state required info × IsSameSite env r × (r.method ≡ "POST")

  -- The session cookie that is raised once the password is accepted.
  abbrev pub Accepted : RuntimeState → Cookie → Type 0
  Accepted state c =
      (info : AuthInfo) × (otp : ℤ) × (after : RuntimeState) × Posted state auth_type_any info
      × (validate_user_totp env info.username otp state ≡ (ok true, after))
      × Raised env r after (bit_or info.auth_type auth_type_totp) c
