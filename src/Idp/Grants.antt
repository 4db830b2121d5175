-- ===== src/Idp/Grants.antt =====
-- cmd/keymasterd/idp_oidc.go: the guards of the authorization and of the token handler, and the
-- claims that they admit.
pub mod Sound
use Prim.Native.String.{len}
use keymaster.Prelude.{
  ℕ, ◌+◌, String, Bool, true, false, not, ◌&&◌, ◌||◌, List, [], ◌∷◌, none, some, ltb, leb, ◌==◌,
  any, split_at_blanks, str_eq, if◌then◌else◌,
}
use keymaster.Result.{Result, ok, err}
use keymaster.Http.{Request, status_bad_request, status_unauthorized, status_internal_server_error}
use keymaster.Json.{JsonObject}
use keymaster.State.{Env, RuntimeState, AuthInfo}
use keymaster.Checks.{Checked, passed, require, require_ok, ◌>>=◌, ◌>>◌}
use keymaster.Respond.{form_get}
use keymaster.Jwt.{unix, idp_get_issuer, jwt_claims, max_age_seconds_auth_cookie}
use keymaster.Idp.Clients.{
  idp_open_idc_client_can_redirect, idp_open_idc_client_can_do_pkce_auth,
  idp_open_idc_valid_client_secret,
}
use keymaster.Idp.Tokens.{
  KeymasterdCodeToken, KeymasterdIdpCodeProtectedData, UserInfoToken, unmarshal_code,
  unmarshal_user_info,
}
use keymaster.Idp.Pkce.{sealed_challenge, idp_open_idc_valid_code_verifier}

abbrev pub idp_open_idc_max_auth_process_max_duration_seconds : ℕ
idp_open_idc_max_auth_process_max_duration_seconds = 300

abbrev pub token_endpoint : String
token_endpoint = "token_endpoint"

abbrev pub bearer : String
bearer = "bearer"

abbrev pub Form : Type 0
Form = List (String × List String)

abbrev pub asks_for_openid : (scope : String) → Bool
asks_for_openid scope = any (λ s. str_eq s "openid") (split_at_blanks scope)

-- the challenge that a form names
abbrev pub challenge_of : Form → KeymasterdIdpCodeProtectedData
challenge_of form = record {
  code_challenge = form_get form "code_challenge";
  code_challenge_method = form_get form "code_challenge_method";
}

-- A challenge that is there has the method S256, or none.
abbrev pub is_good_challenge : KeymasterdIdpCodeProtectedData → Bool
is_good_challenge d =
    str_eq d.code_challenge ""
    || str_eq d.code_challenge_method ""
    || str_eq d.code_challenge_method "S256"

-- "", or at least six bytes
abbrev pub is_good_nonce : (nonce : String) → Bool
is_good_nonce nonce = not (ltb (len nonce) 6 && not (str_eq nonce ""))

-- What a code that is granted stands on, and its claims.
pub record GrantedCode : Type 0 where
  pub signer : String
  pub code : KeymasterdCodeToken

pub record TokenRequest : Type 0 where
  pub client_id : String
  pub code : KeymasterdCodeToken

module _ (env : Env) where
  -- The claims of a code, once everything in the form is right.
  abbrev pub code_claims :
      RuntimeState
      → AuthInfo
      → Form
      → (jwt_id : String) (sealed : String × String) → KeymasterdCodeToken
  code_claims state auth_data form jwt_id sealed = record {
    issuer = idp_get_issuer state;
    subject = form_get form "client_id";
    issued_at = unix env.now;
    expiration = unix env.now + idp_open_idc_max_auth_process_max_duration_seconds;
    username = auth_data.username;
    auth_level = 0;
    auth_expiration = unix env.now + max_age_seconds_auth_cookie;
    nonce = form_get form "nonce";
    redirect_uri = form_get form "redirect_uri";
    scope = form_get form "scope";
    type = token_endpoint;
    jwt_id = jwt_id;
    protected_data_key = sealed.1;
    protected_data = sealed.0;
  }

  unfoldable pub granted_code : RuntimeState → AuthInfo → Form → Checked GrantedCode
  granted_code state auth_data form = do
    require (str_eq (form_get form "response_type") "code") status_bad_request
        "Unsupported or Missing response_type for Auth Handler"
    require (not (str_eq (form_get form "client_id") "")) status_bad_request
        "Empty cleint_id for Auth Handler"
    require (asks_for_openid (form_get form "scope")) status_bad_request
        "Invalid scope value for Auth Handler"
    may_redirect ←
        require_ok
          (idp_open_idc_client_can_redirect env state (form_get form "client_id")
            (form_get form "redirect_uri"))
          status_internal_server_error ""
    require may_redirect status_bad_request "redirect string not valid or clientID uknown"
    jwt_id ← require_ok env.random_text status_internal_server_error ""
    require (is_good_challenge (challenge_of form)) status_bad_request
        "Requested Code Challenge, but challenge method is invalid"
    sealed ←
        require_ok (sealed_challenge env state (challenge_of form) jwt_id)
          status_internal_server_error ""
    signer ← require_ok (env.jose_signer state.signer) status_internal_server_error ""
    require (is_good_nonce (form_get form "nonce")) status_bad_request
        "bad Nonce value...not enough entropy"
    passed (record { signer = signer; code = code_claims state auth_data form jwt_id sealed })

  -- The claims of the token in a text.
  abbrev pub read_token :
      {A : Type 0} → RuntimeState → (JsonObject → Result A) → (token_text : String) → Checked A
  read_token state unmarshal token_text = do
    token ← require_ok (env.parse_signed token_text) status_bad_request "bad code"
    require_ok (jwt_claims env state unmarshal token) status_bad_request "bad code"

  -- `url.QueryUnescape`, the text itself where it fails
  abbrev unescaped : String → String
  unescaped s = elim (env.query_unescape s) [ err e ↦ s | ok t ↦ t ]

  -- The client's name and secret: the header's, unescaped, else the form's.
  unfoldable pub client_credentials : Request → Form → Checked (String × String)
  client_credentials r form = elim r.basic_auth [
    | some basic ↦ passed (unescaped basic.user, unescaped basic.pass)
    | none ↦ do
      require
          (not (
            str_eq (form_get form "client_secret") "" && str_eq (form_get form "code_verifier") ""))
          status_unauthorized ""
      require (not (str_eq (form_get form "client_id") "")) status_unauthorized "Missing client_id"
      passed (form_get form "client_id", form_get form "client_secret")
  ]

  -- whether the client's proof is right
  unfoldable pub valid_client :
      RuntimeState → (client_id pass code_verifier : String) → KeymasterdCodeToken → Checked Bool
  valid_client state client_id pass code_verifier code = do
    let by_secret = not (str_eq pass "") && idp_open_idc_valid_client_secret state client_id pass
    if str_eq code_verifier "" then passed by_secret else do
      require (idp_open_idc_client_can_do_pkce_auth state client_id) status_unauthorized
          "Client Cannot use PKCE authentication"
      passed (idp_open_idc_valid_code_verifier env state code_verifier code || by_secret)

  -- The guards of the token handler after the form is parsed.
  unfoldable pub token_request : RuntimeState → Request → Form → Checked TokenRequest
  unfolding client_credentials valid_client
  token_request state r form = do
    require (str_eq (form_get form "grant_type") "authorization_code") status_bad_request
        "Invalid grant type"
    require (not (str_eq (form_get form "redirect_uri") "")) status_bad_request
        "Invalid redirect uri"
    require (not (str_eq (form_get form "code") "")) status_bad_request "nil code"
    code ← read_token state unmarshal_code (form_get form "code")
    credentials ← client_credentials r form
    let client_id = credentials.0
    valid ← valid_client state client_id credentials.1 (form_get form "code_verifier") code
    require valid status_unauthorized ""
    require (str_eq client_id code.subject) status_unauthorized ""
    require (leb (unix env.now) code.expiration) status_unauthorized ""
    require (str_eq code.redirect_uri (form_get form "redirect_uri")) status_unauthorized ""
    require (str_eq code.type token_endpoint) status_unauthorized ""
    passed (record { client_id = client_id; code = code })

  -- The guards of the user information handler once it has an access token.
  unfoldable pub bearer_token : RuntimeState → (access_token : String) → Checked UserInfoToken
  bearer_token state access_token = do
    require (not (str_eq access_token "")) status_bad_request "Missing access token"
    token ← require_ok (env.parse_signed access_token) status_bad_request "bad access token"
    parsed ←
        require_ok (jwt_claims env state unmarshal_user_info token) status_bad_request "bad code"
    require (leb (unix env.now) parsed.expiration) status_unauthorized ""
    require (str_eq parsed.type bearer) status_unauthorized ""
    passed parsed
