-- ===== src/Idp/Handlers.antt =====
-- cmd/keymasterd/idp_oidc.go: the handlers of the OpenID provider.
use Prim.Native.String.{◌++◌}
use keymaster.Prelude.{
  String, Bool, true, false, not, ◌||◌, [], ◌∷◌, none, some, split_at_blanks, str_eq, if◌then◌else◌,
}
use keymaster.Prelude.Int.{◌-ℤ◌, pos}
use keymaster.Result.{ok, err}
use keymaster.Http.{
  Request, set_username, set_header, publish_service_provider_login, redirect, token_response,
  userinfo_response, status_bad_request, status_internal_server_error, status_found,
}
use keymaster.State.{Env, RuntimeState, AuthInfo}
use keymaster.Handler.{M, ◌>>=◌, ◌>>◌, return, emit, get_state, lift, on_error, reject_if}
use keymaster.Checks.{require_ok, require, check}
use keymaster.Respond.{form_get, parse_form, get_form, stop_if_locked, write_failure_response}
use keymaster.CheckAuth.{check_auth, get_required_web_ui_auth_level}
use keymaster.Jwt.{unix, idp_get_issuer, get_key_fingerprint}
use keymaster.Idp.Clients.{idp_open_idc_is_cors_origin_allowed}
use keymaster.Idp.Tokens.{
  OpenIdConnectIdToken, UserInfoToken, marshal_code, marshal_id, marshal_user_info,
}
use keymaster.Idp.Grants.{
  Form, GrantedCode, TokenRequest, bearer, granted_code, token_request, bearer_token,
}
use keymaster.Idp.Attributes.{get_user_attributes, user_info_of}

module _ (env : Env) (r : Request) where
  -- `r.ParseForm()`, or a failure response
  abbrev pub parsed_form : M Form
  parsed_form = do
    on_error (parse_form r) (λ e. write_failure_response env r status_internal_server_error "")
    get_form

  abbrev pub allow_origin : Bool → M (Unit {0})
  allow_origin false = return tt
  allow_origin true = do
    emit (set_header "Access-Control-Allow-Origin" r.origin)
    emit (set_header "Vary" "Origin")
    emit (set_header "Access-Control-Max-Age" "7200")

  -- A token that cannot be signed is a panic.
  unfoldable pub send_code : AuthInfo → Form → GrantedCode → M (Unit {0})
  send_code auth_data form granted = do
    raw ← lift (env.sign_compact granted.signer (marshal_code granted.code))
    emit (publish_service_provider_login granted.code.redirect_uri auth_data.username)
    emit (
        redirect
          (granted.code.redirect_uri
            ++ ("?code=" ++ (raw ++ ("&state=" ++ env.query_escape (form_get form "state")))))
          status_found)

  unfoldable pub idp_open_idc_authorization_handler : M (Unit {0})
  unfolding send_code
  idp_open_idc_authorization_handler = do
    stop_if_locked env r
    state ← get_state
    auth_data ← check_auth env r (get_required_web_ui_auth_level state)
    emit (set_username auth_data.username)
    reject_if (not (str_eq r.method "GET" || str_eq r.method "POST"))
        (write_failure_response env r status_bad_request "Invalid Method for Auth Handler") ""
    form ← parsed_form
    granted ← check env r (granted_code env state auth_data form)
    send_code auth_data form granted

  abbrev pub id_claims : RuntimeState → TokenRequest → OpenIdConnectIdToken
  id_claims state request = record {
    issuer = idp_get_issuer state;
    subject = request.code.username;
    audience = request.client_id ∷ [];
    expiration = request.code.auth_expiration;
    issued_at = unix env.now;
    auth_time = 0;
    nonce = request.code.nonce;
  }

  abbrev pub access_claims : TokenRequest → UserInfoToken
  access_claims request = record {
    username = request.code.username;
    scope = request.code.scope;
    expiration = request.code.auth_expiration;
    type = bearer;
  }

  -- `state.Signer.Public()`: a panic without a signer
  abbrev pub key_id : RuntimeState → M String
  key_id state = do
    signer ← lift (elim state.signer [ none ↦ err "panic: nil" | some signer ↦ ok signer ])
    check env r (
        require_ok (get_key_fingerprint env (env.public_of signer)) status_internal_server_error
          "Internal Error")

  -- The tokens of a request that has passed. The key's identifier goes into their headers, which no
  -- reader looks at.
  unfoldable pub send_tokens : RuntimeState → TokenRequest → M (Unit {0})
  send_tokens state request = do
    kid ← key_id state
    signer ← check env r (require_ok (env.jose_signer state.signer) status_internal_server_error "")
    signed_id_token ← lift (env.sign_compact signer (marshal_id (id_claims state request)))
    signed_access_token ← lift (env.sign_compact signer (marshal_user_info (access_claims request)))
    emit (set_header "Content-Type" "application/json")
    emit (set_header "Cache-Control" "no-store")
    emit (set_header "Pragma" "no-cache")
    allow_origin (idp_open_idc_is_cors_origin_allowed env state r.origin request.client_id)
    emit (
        token_response (record {
          access_token = signed_access_token;
          token_type = "Bearer";
          expires_in = pos request.code.auth_expiration -ℤ pos (unix env.now);
          id_token = signed_id_token;
        }))

  unfoldable pub idp_open_idc_token_handler : M (Unit {0})
  unfolding send_tokens
  idp_open_idc_token_handler = do
    reject_if (not (str_eq r.method "POST"))
        (write_failure_response env r status_bad_request "Invalid Method for Auth Handler") ""
    form ← parsed_form
    state ← get_state
    request ← check env r (token_request env state r form)
    send_tokens state request

  -- the token of an Authorization header with the scheme Bearer
  unfoldable pub header_token : String
  header_token = elim (split_at_blanks r.authorization) [
    | [] ↦ ""
    | scheme ∷ rest ↦ elim rest [
      | [] ↦ ""
      | token ∷ more ↦ elim more [
        | [] ↦ if str_eq scheme "Bearer" then token else ""
        | next ∷ last ↦ ""
      ]
    ]
  ]

  -- the header's token, else the form's
  unfoldable pub access_token_of : M String
  unfolding header_token
  access_token_of =
      if not (str_eq header_token "")
      then return header_token
      else do form ← parsed_form; return (form_get form "access_token")

  -- the answer to a request for the options
  unfoldable pub send_options : M (Unit {0})
  send_options = do
    check env r
        (require (not (str_eq r.origin "")) status_bad_request "Options MUST contain origin")
    state ← get_state
    allow_origin (idp_open_idc_is_cors_origin_allowed env state r.origin "")
    emit (set_header "Access-Control-Allow-Headers" "Accept, Authorization")

  unfoldable pub send_user_info : RuntimeState → UserInfoToken → M (Unit {0})
  send_user_info state token = do
    info ← lift (
        user_info_of state token.username
          (get_user_attributes env state token.username ("mail" ∷ [])))
    emit (set_header "Content-Type" "application/json")
    allow_origin (idp_open_idc_is_cors_origin_allowed env state r.origin "")
    emit (userinfo_response info)

  unfoldable pub idp_open_idc_userinfo_handler : M (Unit {0})
  unfolding access_token_of send_options send_user_info
  idp_open_idc_userinfo_handler = do
    reject_if (not (str_eq r.method "GET" || str_eq r.method "POST" || str_eq r.method "OPTIONS"))
        (write_failure_response env r status_bad_request "Invalid Method for Userinfo Handler") ""
    if str_eq r.method "OPTIONS" then send_options else do
      access_token ← access_token_of
      state ← get_state
      token ← check env r (bearer_token env state access_token)
      send_user_info state token
