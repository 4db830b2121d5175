-- ===== src/Tests/Provider.antt =====
-- The theorems on the OpenID provider, at Alice's login to a client.
use keymaster.Prelude.{
  ◌+◌, ◌*◌, ◌≤◌, String, Bool, true, false, List, [], ◌∷◌, Memᴰ, none, some, ◌≡◌, ◌≢◌, refl, ◌↔◌,
  ◌⊎◌, inl, inr, arith, eq_iff,
}
use keymaster.Result.{ok}
use keymaster.Config.{OpenIdConnectClientConfig}
use keymaster.Http.{Request}
use keymaster.State.{AuthInfo, at}
use keymaster.Handler.{World}
use keymaster.Checks.{passed}
use keymaster.Respond.{form_get}
use keymaster.Jwt.{from_unix, second}
use keymaster.CheckAuth.{get_required_web_ui_auth_level}
use keymaster.CheckAuth.Sound.{Evidence, IsSameSite}
use keymaster.Idp.Clients.{idp_open_idc_client_can_redirect}
use keymaster.Idp.Clients.Redirects.{Allowed, can_redirect_iff}
use keymaster.Idp.Tokens.{UserInfoToken}
use keymaster.Idp.Grants.{
  Form, GrantedCode, TokenRequest, granted_code, token_request, bearer_token,
}
use keymaster.Idp.Grants.Sound.{Granting, Redeemed, Bearer}
use keymaster.Idp.Handlers.{
  idp_open_idc_authorization_handler, idp_open_idc_token_handler, idp_open_idc_userinfo_handler,
  header_token,
}
use keymaster.Idp.Authorized.{
  SentOn, Given, Informed, authorization_handler-Granting, token_handler-Redeemed,
  userinfo_handler-Bearer,
}
use keymaster.Idp.Kinds.{issued_session, readers_apart, as_session, session}
use keymaster.Idp.Exchange.{token_request-granted_code}
use keymaster.Json.{StorageStringDataJwt, marshal_auth}
use keymaster.Jwt.{get_auth_info_from_auth_jwt, get_storage_data_from_storage_string_data_jwt, unix}
use keymaster.Idp.Clients.{idp_open_idc_valid_client_secret}
use keymaster.Tests.{claims, code_example, access_example, sign_example}
use keymaster.Tests.Sessions.{laws_example, configured_example}
use keymaster.Tests.Data.{moment, env_example, state_example, cert_request, otp_request}

abbrev start : World
start = record { state = state_example; form = []; sent = [] }

abbrev login_form : Form
login_form =
    ("response_type", "code" ∷ [])
    ∷ ("client_id", "app" ∷ [])
    ∷ ("scope", "openid" ∷ [])
    ∷ ("redirect_uri", "https://app.example.com" ∷ [])
    ∷ []

abbrev login_request : Request
login_request = record otp_request { form = some login_form }

abbrev client_form : Form
client_form =
    ("grant_type", "authorization_code" ∷ [])
    ∷ ("code", "t5" ∷ [])
    ∷ ("redirect_uri", "https://app.example.com" ∷ [])
    ∷ ("client_id", "app" ∷ [])
    ∷ ("client_secret", "shh" ∷ [])
    ∷ []

abbrev client_request : Request
client_request = record cert_request { basic_auth = none; form = some client_form }

abbrev info_request : Request
info_request = record cert_request { basic_auth = none; authorization = "Bearer t6" }

abbrev sent_on : World
sent_on = (idp_open_idc_authorization_handler env_example login_request start).1

authorization_handler-Granting_example :
    (info : AuthInfo) × (form : Form) × (granted : GrantedCode) × Evidence env_example login_request
      state_example
      (get_required_web_ui_auth_level state_example)
      info
    × IsSameSite env_example login_request
    × (login_request.form ≡ some form)
    × Granting env_example state_example info form granted
    × SentOn env_example login_request form granted sent_on
unfolding idp_open_idc_authorization_handler keymaster.Respond.stop_if_locked
    keymaster.CheckAuth.check_auth keymaster.Respond.find_cookie
    keymaster.Jwt.get_auth_info_from_auth_jwt keymaster.Jwt.jwt_claims
    keymaster.Tests.verify_example keymaster.Json.unmarshal_auth keymaster.Jwt.has_sane_values
    keymaster.Jwt.idp_get_issuer keymaster.Jwt.unix keymaster.Jwt.from_unix
    get_required_web_ui_auth_level granted_code form_get keymaster.Prelude.Text.split_at_blanks
    idp_open_idc_client_can_redirect keymaster.Idp.Pkce.sealed_challenge
    keymaster.Tests.sign_example
authorization_handler-Granting_example =
    authorization_handler-Granting env_example login_request start sent_on refl

abbrev given : World
given = (idp_open_idc_token_handler env_example client_request start).1

token_handler-Redeemed_example :
    (form : Form) × (request : TokenRequest) × (client_request.form ≡ some form)
    × Redeemed env_example state_example client_request form request
    × Given env_example client_request state_example request given
unfolding idp_open_idc_token_handler token_request form_get keymaster.Jwt.jwt_claims
    keymaster.Tests.verify_example keymaster.Idp.Tokens.unmarshal_code
    keymaster.Idp.Clients.idp_open_idc_valid_client_secret keymaster.Jwt.unix
    keymaster.Jwt.get_key_fingerprint keymaster.Tests.sign_example keymaster.Jwt.idp_get_issuer
    keymaster.Idp.Clients.idp_open_idc_is_cors_origin_allowed
token_handler-Redeemed_example = token_handler-Redeemed env_example client_request start given refl

abbrev informed : World
informed = (idp_open_idc_userinfo_handler env_example info_request start).1

userinfo_handler-Bearer_example :
    (info_request.method ≡ "OPTIONS")
    ⊎ ((text : String) × (claims : UserInfoToken) × (((text ≡ header_token env_example info_request)
            × (text ≢ ""))
          ⊎ ((form : Form) × (info_request.form ≡ some form)
              × (text ≡ form_get form "access_token")))
        × Bearer env_example state_example text claims
        × Informed env_example info_request state_example claims informed)
unfolding idp_open_idc_userinfo_handler keymaster.Prelude.Text.split_at_blanks bearer_token
    keymaster.Jwt.jwt_claims keymaster.Tests.verify_example keymaster.Idp.Tokens.unmarshal_user_info
    keymaster.Jwt.unix keymaster.Idp.Attributes.user_info_of
    keymaster.Idp.Attributes.get_user_attributes
    keymaster.Idp.Clients.idp_open_idc_is_cors_origin_allowed
userinfo_handler-Bearer_example =
    userinfo_handler-Bearer env_example info_request start informed refl

readers_apart_example : session ≡ session
unfolding sign_example get_auth_info_from_auth_jwt keymaster.Jwt.jwt_claims
    keymaster.Tests.verify_example keymaster.Json.unmarshal_auth keymaster.Jwt.has_sane_values
    keymaster.Jwt.idp_get_issuer unix keymaster.Jwt.from_unix
readers_apart_example =
    readers_apart env_example (λ key. key) laws_example state_example "k" "signer" "t1" session
      (marshal_auth (claims 2)) (issued_session (claims 2) refl) refl refl (moment + 5) session
      (as_session
        (record {
          auth_type = 2;
          expires_at = from_unix 58600;
          issued_at = from_unix 1000;
          username = "alice";
        })
        refl)

abbrev alices : AuthInfo
alices = record { auth_type = 2; expires_at = moment; issued_at = moment; username = "alice" }

abbrev granted_example : GrantedCode
granted_example = record { signer = "signer"; code = code_example }

token_request-granted_code_example :
    token_request (at env_example (moment + 5 * second)) state_example client_request client_form
    ≡ passed (record { client_id = "app"; code = code_example })
unfolding granted_code sign_example idp_open_idc_valid_client_secret unix form_get
    keymaster.Prelude.Text.split_at_blanks idp_open_idc_client_can_redirect
    keymaster.Idp.Pkce.sealed_challenge keymaster.Jwt.idp_get_issuer
token_request-granted_code_example =
    token_request-granted_code env_example (λ key. key) laws_example state_example "k" refl
      configured_example alices login_form client_form granted_example "t5" "shh"
      (moment + 5 * second) client_request refl refl refl
      (record {
        grant = refl;
        code = refl;
        target = refl;
        name = refl;
        secret = refl;
        no_verifier = refl;
      })
      (ground (arith, eq_iff "t5" "")) (ground (arith, eq_iff "shh" ""))
      (ground (arith, eq_iff "https://app.example.com" "")) refl (omega arith)

abbrev client_example : OpenIdConnectClientConfig
client_example = record {
  client_id = "app";
  client_secret = "shh";
  allowed_redirect_url_re = [];
  allowed_redirect_domains = "example.com" ∷ [];
}

can_redirect_iff_example :
    (idp_open_idc_client_can_redirect env_example state_example "app" "https://app.example.com"
      ≡ ok true)
    ↔ Allowed env_example client_example "https://app.example.com"
unfolding keymaster.Idp.Clients.client_of
can_redirect_iff_example =
    can_redirect_iff env_example state_example "app" "https://app.example.com" client_example refl
      λ x m. elim m [ ]
