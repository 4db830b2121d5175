-- ===== src/OktaAuth.antt =====
-- lib/authenticators/okta: the password checker that asks Okta, and keeps what it answers for the
-- second factor.
pub mod Recent
use Prim.Native.String.{◌++◌}
use keymaster.Prelude.{
  ℕ, ◌+◌, ◌*◌, String, Bool, true, false, not, ◌&&◌, ◌||◌, List, [], ◌∷◌, Option, none, some, ltb,
  ◌==◌, str_eq, if◌then◌else◌,
}
use keymaster.Prelude.Int.{ℤ}
use keymaster.Prelude.Dict.{Dict, lookup, insert, remove}
use keymaster.Result.{Result, ok, err, ◌>>=◌}
use keymaster.Http.{status_ok, status_unauthorized, status_forbidden}
use keymaster.Jwt.{second}
use keymaster.State.{
  PushResponse, push_response_approved, push_response_rejected, push_response_timeout,
  push_response_waiting,
}

pub record OktaApiMfaFactors : Type 0 where
  pub id : String
  pub factor_type : String
  pub vendor_name : String

pub record OktaApiPrimaryResponse : Type 0 where
  pub state_token : String
  pub expires_at_string : String
  pub status : String
  pub factors : List OktaApiMfaFactors

pub record OktaApiPushResponse : Type 0 where
  pub status : String
  pub factor_result : String

-- An answer of the service: its status, and its body as it is decoded.
pub record Answer (B : Type 0) : Type 0 where
  pub status_code : ℕ
  pub body : Result B

-- The service behind net/http, package time's RFC 3339 and fmt.Sprintf("%06d").
pub record Okta : Type 0 where
  pub login : (username password : String) → Result (Answer OktaApiPrimaryResponse)
  pub verify_totp :
      (factor_id state_token pass_code : String) → Result (Answer OktaApiPrimaryResponse)
  pub verify_push : (factor_id state_token : String) → Result (Answer OktaApiPushResponse)
  pub parse_rfc3339 : String → Result ℕ
  pub six_digits : ℤ → String

pub record AuthCacheData : Type 0 where
  pub response : OktaApiPrimaryResponse
  pub expires : ℕ

abbrev pub RecentAuth : Type 0
RecentAuth = Dict AuthCacheData

-- the first factor of a type that Okta itself serves
unfoldable pub first_factor :
    (factor_type : String) → List OktaApiMfaFactors → Option OktaApiMfaFactors
first_factor factor_type [] = none
first_factor factor_type (factor ∷ factors) =
    if str_eq factor.factor_type factor_type && str_eq factor.vendor_name "OKTA"
    then some factor
    else first_factor factor_type factors

module _ (okta : Okta) where
  -- The time that the response names, else a minute from now.
  unfoldable pub expiry_of : (now : ℕ) → OktaApiPrimaryResponse → ℕ
  expiry_of now response = elim (okta.parse_rfc3339 response.expires_at_string) [
    | err e ↦ now + 60 * second
    | ok expires ↦ expires
  ]

  -- The response of an accepted password, none for a refused one.
  unfoldable pub accepted_login :
      (username_suffix username password : String) → Result (Option OktaApiPrimaryResponse)
  accepted_login suffix username password = do
    answer ← okta.login (username ++ suffix) password
    if answer.status_code == status_unauthorized
        then ok none
        else (if not (answer.status_code == status_ok)
            then err "bad status"
            else answer.body >>= λ response. ok (
                if str_eq response.status "SUCCESS" || str_eq response.status "MFA_REQUIRED"
                then some response
                else none))

  unfoldable pub password_authenticate :
      (suffix : String) (now : ℕ) (username password : String)
      → RecentAuth
      → Result Bool × RecentAuth
  unfolding expiry_of insert
  password_authenticate suffix now username password recent =
      elim (accepted_login suffix username password) [
        | err e ↦ (err e, recent)
        | ok answer ↦ elim answer [
          | none ↦ (ok false, recent)
          | some response ↦ (
            ok true,
            insert username (record { response = response; expires = expiry_of now response })
                recent,
          )
        ]
      ]

-- The response of a user that has not expired; one that has is dropped.
unfoldable pub get_valid_user_response :
    (now : ℕ) (username : String) → RecentAuth → Option OktaApiPrimaryResponse × RecentAuth
unfolding lookup remove
get_valid_user_response now username recent = elim (lookup username recent) [
  | none ↦ (none, recent)
  | some data_of_user ↦
      if ltb data_of_user.expires now
      then (none, remove username recent)
      else (some data_of_user.response, recent)
]

module _ (okta : Okta) where
  -- what the service says of a one-time password
  unfoldable pub verified_totp :
      OktaApiPrimaryResponse → (otp_value : ℤ) → OktaApiMfaFactors → Result Bool
  verified_totp response otp_value factor = do
    answer ← okta.verify_totp factor.id response.state_token (okta.six_digits otp_value)
    if answer.status_code == status_forbidden
        then ok false
        else (if not (answer.status_code == status_ok)
            then err "bad status"
            else answer.body >>= λ verdict. ok (str_eq verdict.status "SUCCESS"))

  unfoldable pub validate_user_otp :
      (now : ℕ) (username : String) (otp_value : ℤ) → RecentAuth → Result Bool × RecentAuth
  unfolding verified_totp first_factor
  validate_user_otp now username otp_value recent =
      let (found, recent') = get_valid_user_response now username recent in
      (
        elim found [
          | none ↦ ok false
          | some response ↦ elim (first_factor "token:software:totp" response.factors) [
            | none ↦ ok false
            | some factor ↦ verified_totp response otp_value factor
          ]
        ],
        recent',
      )

  push_verdict : OktaApiPushResponse → PushResponse
  push_verdict answer =
      if str_eq answer.status "SUCCESS"
      then push_response_approved
      else if not (str_eq answer.status "MFA_CHALLENGE")
      then push_response_rejected
      else if str_eq answer.factor_result "WAITING"
      then push_response_waiting
      else if str_eq answer.factor_result "TIMEOUT"
      then push_response_timeout
      else push_response_rejected

  unfoldable pub verified_push : OktaApiPrimaryResponse → OktaApiMfaFactors → Result PushResponse
  unfolding push_verdict
  verified_push response factor = do
    answer ← okta.verify_push factor.id response.state_token
    if not (answer.status_code == status_ok)
        then err "bad status"
        else answer.body >>= λ verdict. ok (push_verdict verdict)

  unfoldable pub validate_user_push :
      (now : ℕ) (username : String) → RecentAuth → Result PushResponse × RecentAuth
  unfolding verified_push first_factor
  validate_user_push now username recent =
      let (found, recent') = get_valid_user_response now username recent in
      (
        elim found [
          | none ↦ ok push_response_rejected
          | some response ↦ elim (first_factor "push" response.factors) [
            | none ↦ ok push_response_rejected
            | some factor ↦ verified_push response factor
          ]
        ],
        recent',
      )
