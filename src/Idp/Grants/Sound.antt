-- ===== src/Idp/Grants/Sound.antt =====
-- What the guards of the provider have established when they let a request through.
use keymaster.Prelude.{
  ◌≤◌, String, true, not, ◌&&◌, some, leb, ◌≡◌, ◌≢◌, ◌⊎◌, inl, inr, ◌∙◌, ap, sym, subst, leb→le,
  arith, str_eq, eq_iff, Bool-cases, Option-cases,
}
use keymaster.Result.{Result, ok, Result-cases}
use keymaster.Config.{OpenIdConnectClientConfig}
use keymaster.Http.{Request}
use keymaster.Json.{JsonObject}
use keymaster.State.{Env, RuntimeState, AuthInfo}
use keymaster.Checks.{passed, require, require_ok, >>=-elim, require-passed, require_ok-passed}
use keymaster.Respond.{form_get}
use keymaster.Jwt.{unix, jwt_claims}
use keymaster.Idp.Clients.{
  client_of, idp_open_idc_client_can_redirect, idp_open_idc_client_can_do_pkce_auth,
  idp_open_idc_valid_client_secret,
}
use keymaster.Idp.Clients.Redirects.{Allowed, can_redirect-Allowed}
use keymaster.Idp.Tokens.{
  KeymasterdCodeToken, KeymasterdIdpCodeProtectedData, UserInfoToken, unmarshal_code,
  unmarshal_user_info,
}
use keymaster.Idp.Pkce.{
  sealed_challenge, meets_challenge, opened_challenge, idp_open_idc_valid_code_verifier,
}
use keymaster.Idp.Grants.{
  token_endpoint, bearer, Form, asks_for_openid, challenge_of, is_good_challenge, is_good_nonce,
  GrantedCode, TokenRequest, code_claims, granted_code, read_token, client_credentials,
  valid_client, token_request, bearer_token,
}

module _ (env : Env) where
  -- What a code is granted on: the target is one that the client of the name may redirect to, and
  -- the scope asks for OpenID; the code's claims are the session's user and what the form says.
  pub record Granting (state : RuntimeState) (auth_data : AuthInfo) (form : Form)
      (granted : GrantedCode) : Type 0 where
    pub named : form_get form "client_id" ≢ ""
    pub client : OpenIdConnectClientConfig
    pub known : client_of state (form_get form "client_id") ≡ some client
    pub allowed : Allowed env client (form_get form "redirect_uri")
    pub openid : asks_for_openid (form_get form "scope") ≡ true
    pub good_method : is_good_challenge (challenge_of form) ≡ true
    pub jwt_id : String
    pub sealed : String × String
    pub sealing : sealed_challenge env state (challenge_of form) jwt_id ≡ ok sealed
    pub loaded : env.jose_signer state.signer ≡ ok granted.signer
    pub claims : granted.code ≡ code_claims env state auth_data form jwt_id sealed

  ne_of : (s : String) → not (str_eq s "") ≡ true → s ≢ ""
  ne_of s h = ground (arith, eq_iff s "")

  pub granted_code-Granting :
      (state : RuntimeState) (auth_data : AuthInfo) (form : Form) (granted : GrantedCode)
      → granted_code env state auth_data form ≡ passed granted
      → Granting state auth_data form granted
  unfolding granted_code
  granted_code-Granting state auth_data form granted h =
      >>=-elim (require (str_eq (form_get form "response_type") "code") _ _) _ h λ _ _ h1.
        >>=-elim (require (not (str_eq (form_get form "client_id") "")) _ _) _ h1 λ _ e2 h2.
          >>=-elim (require (asks_for_openid (form_get form "scope")) _ _) _ h2 λ _ e3 h3.
            >>=-elim
              (require_ok
                (idp_open_idc_client_can_redirect env state (form_get form "client_id")
                  (form_get form "redirect_uri"))
                _ _)
              _ h3
              λ may e4 h4. >>=-elim (require may _ _) _ h4 λ _ e5 h5.
                >>=-elim (require_ok env.random_text _ _) _ h5 λ jwt_id e6 h6.
                  >>=-elim (require (is_good_challenge (challenge_of form)) _ _) _ h6 λ _ e7 h7.
                    >>=-elim
                      (require_ok (sealed_challenge env state (challenge_of form) jwt_id) _ _) _ h7
                      λ sealed e8 h8.
                        >>=-elim (require_ok (env.jose_signer state.signer) _ _) _ h8
                          λ signer e9 h9.
                            >>=-elim (require (is_good_nonce (form_get form "nonce")) _ _) _ h9
                              λ _ _ h10.
                                let (client, known, allowed) =
                                  can_redirect-Allowed env state (form_get form "client_id")
                                    (form_get form "redirect_uri")
                                    (require_ok-passed _ _ _ may e4
                                      ∙ ap ok (require-passed may _ _ e5)) in
                                let same : record {
                                  signer = signer;
                                  code = code_claims env state auth_data form jwt_id sealed;
                                }
                                    ≡ granted =
                                  ground arith in
                                record {
                                  named =
                                      ne_of (form_get form "client_id") (require-passed _ _ _ e2);
                                  client = client;
                                  known = known;
                                  allowed = allowed;
                                  openid = require-passed _ _ _ e3;
                                  good_method = require-passed _ _ _ e7;
                                  jwt_id = jwt_id;
                                  sealed = sealed;
                                  sealing = require_ok-passed _ _ _ sealed e8;
                                  loaded =
                                      require_ok-passed _ _ _ signer e9
                                      ∙ ap (λ g. ok g.signer) same;
                                  claims = ap (λ g. g.code) (sym same);
                                }

  -- A client has proved who it is: by the secret that is set for it, or, without one, by the
  -- verifier of the challenge that is sealed in the code.
  abbrev pub Proved :
      RuntimeState → (client_id pass code_verifier : String) → KeymasterdCodeToken → Type 0
  Proved state client_id pass code_verifier code =
      (client : OpenIdConnectClientConfig) × (client_of state client_id ≡ some client)
      × (((pass ≢ "") × (client.client_secret ≡ pass))
          ⊎ ((client.client_secret ≡ "")
              × ((d : KeymasterdIdpCodeProtectedData) × (opened_challenge env state code ≡ ok d)
                  × (meets_challenge env d code_verifier ≡ true))))

  by_secret-Proved :
      (state : RuntimeState) (client_id pass code_verifier : String) (code : KeymasterdCodeToken)
      → (not (str_eq pass "") && idp_open_idc_valid_client_secret state client_id pass) ≡ true
      → Proved state client_id pass code_verifier code
  unfolding idp_open_idc_valid_client_secret
  by_secret-Proved state client_id pass code_verifier code h =
      elim (Option-cases (client_of state client_id)) [
        | inl absent ↦ absurd (ground arith)
        | inr (client, known) ↦ (
          client,
          known,
          inl (ground (arith, eq_iff pass ""), ground (arith, eq_iff pass client.client_secret)),
        )
      ]

  by_verifier-Proved :
      (state : RuntimeState) (client_id pass code_verifier : String) (code : KeymasterdCodeToken)
      → idp_open_idc_client_can_do_pkce_auth state client_id ≡ true
      → idp_open_idc_valid_code_verifier env state code_verifier code ≡ true
      → Proved state client_id pass code_verifier code
  unfolding idp_open_idc_client_can_do_pkce_auth idp_open_idc_valid_code_verifier
  by_verifier-Proved state client_id pass code_verifier code may valid =
      elim (Option-cases (client_of state client_id)) [
        | inl absent ↦ absurd (ground arith)
        | inr (client, known) ↦ elim (Result-cases (opened_challenge env state code)) [
          | inl (e, failed) ↦ absurd (ground arith)
          | inr (d, opened) ↦ (
            client,
            known,
            inr (ground (arith, eq_iff client.client_secret ""), (d, opened, ground arith)),
          )
        ]
      ]

  valid_client-Proved :
      (state : RuntimeState) (client_id pass code_verifier : String) (code : KeymasterdCodeToken)
      → valid_client env state client_id pass code_verifier code ≡ passed true
      → Proved state client_id pass code_verifier code
  unfolding valid_client
  valid_client-Proved state client_id pass code_verifier code h =
      elim (Bool-cases (str_eq code_verifier "")) [
        | inl absent ↦ by_secret-Proved state client_id pass code_verifier code (ground arith)
        | inr present ↦ elim (Bool-cases (idp_open_idc_client_can_do_pkce_auth state client_id)) [
          | inr may_not ↦ absurd (ground arith)
          | inl may ↦
              elim (Bool-cases (idp_open_idc_valid_code_verifier env state code_verifier code)) [
                | inl valid ↦ by_verifier-Proved state client_id pass code_verifier code may valid
                | inr invalid ↦
                    by_secret-Proved state client_id pass code_verifier code (ground arith)
              ]
        ]
      ]

  -- The token in a text, and its claims under a configured key.
  abbrev pub Read :
      {A : Type 0} → RuntimeState → (JsonObject → Result A) → (token_text : String) → A → Type 0
  Read state unmarshal token_text claims =
      (token : String) × (env.parse_signed token_text ≡ ok token)
      × (jwt_claims env state unmarshal token ≡ ok claims)

  read_token-Read :
      {A : Type 0} (state : RuntimeState) (unmarshal : JsonObject → Result A) (token_text : String)
      (claims : A)
      → read_token env state unmarshal token_text ≡ passed claims
      → Read state unmarshal token_text claims
  read_token-Read state unmarshal token_text claims h =
      >>=-elim (require_ok (env.parse_signed token_text) _ _) _ h
        λ token e1 h1. (token, require_ok-passed _ _ _ token e1, require_ok-passed _ _ _ claims h1)

  -- What tokens are given for: a code of this daemon's, unexpired, issued to the very client that
  -- has proved who it is, and for the target that is named again.
  pub record Redeemed (state : RuntimeState) (r : Request) (form : Form) (request : TokenRequest)
      : Type 0 where
    pub read : Read state unmarshal_code (form_get form "code") request.code
    pub pass : String
    pub credentials : client_credentials env r form ≡ passed (request.client_id, pass)
    pub proved : Proved state request.client_id pass (form_get form "code_verifier") request.code
    pub own : request.client_id ≡ request.code.subject
    pub live : unix env.now ≤ request.code.expiration
    pub same_target : request.code.redirect_uri ≡ form_get form "redirect_uri"
    pub a_code : request.code.type ≡ token_endpoint

  pub token_request-Redeemed :
      (state : RuntimeState) (r : Request) (form : Form) (request : TokenRequest)
      → token_request env state r form ≡ passed request
      → Redeemed state r form request
  unfolding token_request
  token_request-Redeemed state r form request h =
      >>=-elim (require (str_eq (form_get form "grant_type") "authorization_code") _ _) _ h
        λ _ _ h1.
          >>=-elim (require (not (str_eq (form_get form "redirect_uri") "")) _ _) _ h1 λ _ _ h2.
            >>=-elim (require (not (str_eq (form_get form "code") "")) _ _) _ h2 λ _ _ h3.
              >>=-elim (read_token env state unmarshal_code (form_get form "code")) _ h3
                λ code e4 h4.
                  >>=-elim (client_credentials env r form) _ h4 λ (client_id, pass) e5 h5.
                    >>=-elim
                      (valid_client env state client_id pass (form_get form "code_verifier") code) _
                      h5
                      λ valid e6 h6. >>=-elim (require valid _ _) _ h6 λ _ e7 h7.
                        >>=-elim (require (str_eq client_id code.subject) _ _) _ h7 λ _ e8 h8.
                          >>=-elim (require (leb (unix env.now) code.expiration) _ _) _ h8
                            λ _ e9 h9.
                              >>=-elim
                                (require (str_eq code.redirect_uri (form_get form "redirect_uri")) _
                                  _)
                                _ h9
                                λ _ e10 h10.
                                  >>=-elim (require (str_eq code.type token_endpoint) _ _) _ h10
                                    λ _ e11 h11.
                                      let same : record { client_id = client_id; code = code }
                                          ≡ request =
                                        ground arith in
                                      subst (Redeemed state r form) same (record {
                                        read = read_token-Read state unmarshal_code _ code e4;
                                        pass = pass;
                                        credentials = e5;
                                        proved =
                                            valid_client-Proved state client_id pass _ code
                                              (e6 ∙ ap passed (require-passed valid _ _ e7));
                                        own =
                                            (eq_iff client_id code.subject).0
                                              (require-passed _ _ _ e8);
                                        live = leb→le _ _ (require-passed _ _ _ e9);
                                        same_target =
                                            (eq_iff code.redirect_uri _).0
                                              (require-passed _ _ _ e10);
                                        a_code = (eq_iff code.type _).0 (require-passed _ _ _ e11);
                                      })

  -- What user information is given for: an unexpired token of this daemon's, of the bearer type.
  pub record Bearer (state : RuntimeState) (access_token : String) (claims : UserInfoToken)
      : Type 0 where
    pub read : Read state unmarshal_user_info access_token claims
    pub live : unix env.now ≤ claims.expiration
    pub an_access_token : claims.type ≡ bearer

  pub bearer_token-Bearer :
      (state : RuntimeState) (access_token : String) (claims : UserInfoToken)
      → bearer_token env state access_token ≡ passed claims
      → Bearer state access_token claims
  unfolding bearer_token
  bearer_token-Bearer state access_token claims h =
      >>=-elim (require (not (str_eq access_token "")) _ _) _ h λ _ _ h1.
        >>=-elim (require_ok (env.parse_signed access_token) _ _) _ h1 λ token e2 h2.
          >>=-elim (require_ok (jwt_claims env state unmarshal_user_info token) _ _) _ h2
            λ parsed e3 h3.
              >>=-elim (require (leb (unix env.now) parsed.expiration) _ _) _ h3 λ _ e4 h4.
                >>=-elim (require (str_eq parsed.type bearer) _ _) _ h4 λ _ e5 h5.
                  let same : parsed ≡ claims = ground arith in
                  subst (Bearer state access_token) same (record {
                    read = (
                      token,
                      require_ok-passed _ _ _ token e2,
                      require_ok-passed _ _ _ parsed e3,
                    );
                    live = leb→le _ _ (require-passed _ _ _ e4);
                    an_access_token = (eq_iff parsed.type _).0 (require-passed _ _ _ e5);
                  })
