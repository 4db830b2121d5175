-- ===== src/SecondFactor/Steps.antt =====
-- cmd/keymasterd/2fa_*.go: what the shared steps have established when they go through.
use keymaster.Prelude.{
  ℕ, String, List, Option, none, some, ◌≡◌, refl, inl, inr, arith, Option-cases,
}
use keymaster.Result.{ok}
use keymaster.Http.{Request}
use keymaster.State.{Env}
use keymaster.Handler.{World}
use keymaster.Respond.{stop_if_locked}
use keymaster.SecondFactor.{parse_form_or}

module _ (env : Env) (r : Request) where
  pub stop_if_locked-state : (w u : World) → stop_if_locked env r w ≡ (ok tt, u) → u.state ≡ w.state
  unfolding stop_if_locked
  stop_if_locked-state w u h = elim (Option-cases w.state.signer) [
    | inl sealed ↦ absurd (ground arith)
    | inr (key, unsealed) ↦ ground arith
  ]

  pub parse_form_or-state :
      (code : ℕ) (w u : World) → parse_form_or env r code w ≡ (ok tt, u) → u.state ≡ w.state
  parse_form_or-state code w u h = go r.form refl
    where
      go : (form : Option (List (String × List String))) → r.form ≡ form → u.state ≡ w.state
      go none e = absurd (ground arith)
      go (some form) e = ground arith
