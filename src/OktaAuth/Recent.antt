-- ===== src/OktaAuth/Recent.antt =====
-- lib/authenticators/okta: whose responses are kept, and what a second factor stands on.
use keymaster.Prelude.{
  ℕ, ◌≤◌, String, true, List, ◌∷◌, Memᴰ, some, ltb, ◌≡◌, inl, inr, arith, Bool-cases, Option-cases,
  [],
}
use keymaster.Prelude.Int.{ℤ}
use keymaster.Prelude.Dict.{lookup}
use keymaster.Result.{Result, ok}
use keymaster.State.{push_response_approved}
use keymaster.OktaAuth.{
  Okta, OktaApiPrimaryResponse, OktaApiMfaFactors, AuthCacheData, RecentAuth, first_factor,
  expiry_of, accepted_login, password_authenticate, get_valid_user_response, verified_totp,
  verified_push, validate_user_otp, validate_user_push,
}

-- A login: who tries it, with what, when, and how the service answers then.
pub record Login : Type 0 where
  pub okta : Okta
  pub now : ℕ
  pub username : String
  pub password : String

module _ (suffix : String) where
  -- The caches that a run of the checker comes to, with the logins of the run, the last one first:
  -- logins, passwords and pushes in any order, the service answering differently each time.
  pub data Reached : List Login → RecentAuth → Type 0 where
    fresh : Reached [] []
    logged_in :
        {history : List Login} {recent : RecentAuth} (l : Login)
        → Reached history recent
        → Reached
            (l ∷ history)
            (password_authenticate l.okta suffix l.now l.username l.password recent).1
    looked_up :
        {history : List Login} {recent : RecentAuth} (now : ℕ) (username : String)
        → Reached history recent
        → Reached history (get_valid_user_response now username recent).1

  -- An entry is what the service answered to an accepted login of the run, the user's own, and
  -- expires when that answer says.
  abbrev pub FromLogin : List Login → (username : String) → AuthCacheData → Type 0
  FromLogin history username d =
      (l : Login) × Memᴰ l history
      × (l.username ≡ username)
      × (accepted_login l.okta suffix username l.password ≡ ok (some d.response))
      × (d.expires ≡ expiry_of l.okta l.now d.response)

  abbrev pub AllFromLogin : List Login → RecentAuth → Type 0
  AllFromLogin history recent =
      (username : String) (d : AuthCacheData)
      → lookup username recent ≡ some d
      → FromLogin history username d

-- A live entry of the user.
pub record Live (now : ℕ) (username : String) (recent : RecentAuth)
    (response : OktaApiPrimaryResponse) : Type 0 where
  pub entry : AuthCacheData
  pub found : lookup username recent ≡ some entry
  pub live : now ≤ entry.expires
  pub same : entry.response ≡ response

valid-Live :
    (now : ℕ) (username : String) (recent : RecentAuth) (response : OktaApiPrimaryResponse)
    → (get_valid_user_response now username recent).0 ≡ some response
    → Live now username recent response
unfolding get_valid_user_response
valid-Live now username recent response h = elim (Option-cases (lookup username recent)) [
  | inl absent ↦ absurd (ground arith)
  | inr (d, found) ↦ elim (Bool-cases (ltb d.expires now)) [
    | inl late ↦ absurd (ground arith)
    | inr early ↦ record { entry = d; found = found; live = ground arith; same = ground arith }
  ]
]

module _ (okta : Okta) (now : ℕ) (username : String) (recent : RecentAuth) where
  -- A one-time password is accepted only on a live response of the user's own, whose first factor of
  -- that type the service has verified with it; a push is approved only likewise.
  pub validate_user_otp-Live :
      (otp_value : ℤ)
      → (validate_user_otp okta now username otp_value recent).0 ≡ ok true
      → (response : OktaApiPrimaryResponse) × (factor : OktaApiMfaFactors) × Live now username
          recent response
        × (first_factor "token:software:totp" response.factors ≡ some factor)
        × (verified_totp okta response otp_value factor ≡ ok true)
  unfolding validate_user_otp
  validate_user_otp-Live otp_value h =
      elim (Option-cases (get_valid_user_response now username recent).0) [
        | inl absent ↦ absurd (ground arith)
        | inr (response, found) ↦
            elim (Option-cases (first_factor "token:software:totp" response.factors)) [
              | inl no_factor ↦ absurd (ground arith)
              | inr (factor, first) ↦ (
                response,
                factor,
                valid-Live now username recent response found,
                first,
                ground arith,
              )
            ]
      ]

  pub validate_user_push-Live :
      (validate_user_push okta now username recent).0 ≡ ok push_response_approved
      → (response : OktaApiPrimaryResponse) × (factor : OktaApiMfaFactors) × Live now username
          recent response
        × (first_factor "push" response.factors ≡ some factor)
        × (verified_push okta response factor ≡ ok push_response_approved)
  unfolding validate_user_push
  validate_user_push-Live h = elim (Option-cases (get_valid_user_response now username recent).0) [
    | inl absent ↦ absurd (ground arith)
    | inr (response, found) ↦ elim (Option-cases (first_factor "push" response.factors)) [
      | inl no_factor ↦ absurd (ground arith)
      | inr (factor, first) ↦
          (response, factor, valid-Live now username recent response found, first, ground arith)
    ]
  ]
