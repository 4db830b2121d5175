-- ===== src/Idp/Clients.antt =====
-- cmd/keymasterd/idp_oidc.go: the clients of the OpenID provider, their secrets, and where they may
-- send a browser.
pub mod Redirects
use keymaster.Prelude.{
  String, Bool, true, false, not, ◌&&◌, List, [], ◌∷◌, Option, none, some, any, contains_text,
  ends_with, str_eq, if◌then◌else◌,
}
use keymaster.Result.{Result, ok, err, ◌>>=◌}
use keymaster.Config.{OpenIdConnectClientConfig}
use keymaster.State.{Env, RuntimeState, Url}

-- The loops over the clients stop at the first one of the name.
unfoldable pub first_client :
    (client_id : String) → List OpenIdConnectClientConfig → Option OpenIdConnectClientConfig
first_client client_id [] = none
first_client client_id (client ∷ clients) =
    if str_eq client.client_id client_id then some client else first_client client_id clients

unfoldable pub client_of : RuntimeState → (client_id : String) → Option OpenIdConnectClientConfig
unfolding first_client
client_of state client_id = first_client client_id state.config.openid_connect_idp.clients

abbrev pub is_empty : List String → Bool
is_empty [] = true
is_empty (x ∷ xs) = false

-- whether the host is in one of the domains
abbrev pub in_domains : List String → (hostname : String) → Bool
in_domains domains hostname = any (λ domain. ends_with hostname domain) domains

module _ (env : Env) where
  -- the loop over the expressions, up to the first that matches
  unfoldable pub matches_some : List String → (redirect_url : String) → Result Bool
  matches_some [] redirect_url = ok false
  matches_some (expression ∷ expressions) redirect_url =
      let rest = matches_some expressions redirect_url in
      do matched ← env.match_string expression redirect_url; if matched then ok true else rest

  -- what the parsed URL and the outcome of the expressions come to
  unfoldable pub verdict : OpenIdConnectClientConfig → Url → (matched_re : Bool) → Bool
  verdict client url matched_re =
      if not (str_eq url.scheme "https")
      then false
      else if not (str_eq url.raw_query "")
      then false
      else if contains_text url.path ".."
      then false
      else if is_empty client.allowed_redirect_domains
      then matched_re
      else (in_domains client.allowed_redirect_domains url.hostname
          && (if is_empty client.allowed_redirect_url_re then true else matched_re))

  unfoldable pub client_may_redirect :
      OpenIdConnectClientConfig → (redirect_url : String) → Result Bool
  unfolding matches_some verdict
  client_may_redirect client redirect_url =
      if is_empty client.allowed_redirect_domains && is_empty client.allowed_redirect_url_re
      then ok false
      else do
        matched_re ← matches_some client.allowed_redirect_url_re redirect_url
        ok (elim (env.parse_url redirect_url) [
          | err e ↦ false
          | ok url ↦ verdict client url matched_re
        ])

  unfoldable pub idp_open_idc_client_can_redirect :
      RuntimeState → (client_id redirect_url : String) → Result Bool
  unfolding client_of client_may_redirect
  idp_open_idc_client_can_redirect state client_id redirect_url = elim (client_of state client_id) [
    | none ↦ ok false
    | some client ↦ client_may_redirect client redirect_url
  ]

  -- with "" for the client, some domain of any client
  unfoldable pub idp_open_idc_is_cors_origin_allowed :
      RuntimeState → (origin client_id : String) → Bool
  idp_open_idc_is_cors_origin_allowed state origin client_id = elim (env.parse_url origin) [
    | err e ↦ false
    | ok url ↦
        str_eq url.scheme "https"
        && any
            (λ client.
              (if str_eq client_id "" then true else str_eq client.client_id client_id)
              && in_domains client.allowed_redirect_domains url.hostname)
            state.config.openid_connect_idp.clients
  ]

unfoldable pub idp_open_idc_valid_client_secret :
    RuntimeState → (client_id client_secret : String) → Bool
unfolding client_of
idp_open_idc_valid_client_secret state client_id client_secret = elim (client_of state client_id) [
  | none ↦ false
  | some client ↦ str_eq client_secret client.client_secret
]

-- a client without a secret
unfoldable pub idp_open_idc_client_can_do_pkce_auth : RuntimeState → (client_id : String) → Bool
unfolding client_of
idp_open_idc_client_can_do_pkce_auth state client_id = elim (client_of state client_id) [
  | none ↦ false
  | some client ↦ str_eq client.client_secret ""
]
