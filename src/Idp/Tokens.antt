-- ===== src/Idp/Tokens.antt =====
-- cmd/keymasterd/idp_oidc.go: the claims of the OpenID provider's tokens, by their field tags.
-- "omitEmpty" is no option of encoding/json: a field with that tag is always written.
pub mod RoundTrip
use keymaster.Prelude.{ℕ, String, List, [], ◌∷◌}
use keymaster.Prelude.Dict.{lookup}
use keymaster.Result.{Result, ok, ◌>>=◌}
use keymaster.Json.{
  JsonObject, text, number, texts, entry_unless, some_text, some_number, as_text, as_number,
}

pub record KeymasterdIdpCodeProtectedData : Type 0 where
  pub code_challenge : String
  pub code_challenge_method : String

pub record KeymasterdCodeToken : Type 0 where
  pub issuer : String
  pub subject : String
  pub issued_at : ℕ
  pub expiration : ℕ
  pub username : String
  pub auth_level : ℕ
  pub auth_expiration : ℕ
  pub nonce : String
  pub redirect_uri : String
  pub scope : String
  pub type : String
  pub jwt_id : String
  pub protected_data_key : String
  pub protected_data : String

pub record OpenIdConnectIdToken : Type 0 where
  pub issuer : String
  pub subject : String
  pub audience : List String
  pub expiration : ℕ
  pub issued_at : ℕ
  pub auth_time : ℕ
  pub nonce : String

pub record UserInfoToken : Type 0 where
  pub username : String
  pub scope : String
  pub expiration : ℕ
  pub type : String

unfoldable pub marshal_protected : KeymasterdIdpCodeProtectedData → JsonObject
unfolding entry_unless
marshal_protected d =
    some_text "code_challenge" d.code_challenge
      (some_text "code_challenge_method" d.code_challenge_method [])

unfoldable pub marshal_code : KeymasterdCodeToken → JsonObject
unfolding entry_unless
marshal_code c =
    ("iss", text c.issuer)
    ∷ ("sub", text c.subject)
    ∷ ("iat", number c.issued_at)
    ∷ ("exp", number c.expiration)
    ∷ ("username", text c.username)
    ∷ ("auth_level", number c.auth_level)
    ∷ ("auth_exp", number c.auth_expiration)
    ∷ ("nonce", text c.nonce)
    ∷ ("redirect_uri", text c.redirect_uri)
    ∷ ("scope", text c.scope)
    ∷ ("type", text c.type)
    ∷ ("jti", text c.jwt_id)
    ∷ some_text "protected_data_key" c.protected_data_key
        (some_text "protected_data" c.protected_data [])

unfoldable pub marshal_id : OpenIdConnectIdToken → JsonObject
unfolding entry_unless
marshal_id t =
    ("iss", text t.issuer)
    ∷ ("sub", text t.subject)
    ∷ ("aud", texts t.audience)
    ∷ ("exp", number t.expiration)
    ∷ ("iat", number t.issued_at)
    ∷ some_number "auth_time" t.auth_time (some_text "nonce" t.nonce [])

unfoldable pub marshal_user_info : UserInfoToken → JsonObject
marshal_user_info t =
    ("username", text t.username)
    ∷ ("scope", text t.scope)
    ∷ ("exp", number t.expiration)
    ∷ ("type", text t.type)
    ∷ []

unfoldable pub unmarshal_protected : JsonObject → Result KeymasterdIdpCodeProtectedData
unfolding lookup
unmarshal_protected o = do
  code_challenge ← as_text (lookup "code_challenge" o)
  code_challenge_method ← as_text (lookup "code_challenge_method" o)
  ok (record { code_challenge = code_challenge; code_challenge_method = code_challenge_method })

unfoldable pub unmarshal_code : JsonObject → Result KeymasterdCodeToken
unfolding lookup
unmarshal_code o = do
  issuer ← as_text (lookup "iss" o)
  subject ← as_text (lookup "sub" o)
  issued_at ← as_number (lookup "iat" o)
  expiration ← as_number (lookup "exp" o)
  username ← as_text (lookup "username" o)
  auth_level ← as_number (lookup "auth_level" o)
  auth_expiration ← as_number (lookup "auth_exp" o)
  nonce ← as_text (lookup "nonce" o)
  redirect_uri ← as_text (lookup "redirect_uri" o)
  scope ← as_text (lookup "scope" o)
  type ← as_text (lookup "type" o)
  jwt_id ← as_text (lookup "jti" o)
  protected_data_key ← as_text (lookup "protected_data_key" o)
  protected_data ← as_text (lookup "protected_data" o)
  ok (record {
    issuer = issuer;
    subject = subject;
    issued_at = issued_at;
    expiration = expiration;
    username = username;
    auth_level = auth_level;
    auth_expiration = auth_expiration;
    nonce = nonce;
    redirect_uri = redirect_uri;
    scope = scope;
    type = type;
    jwt_id = jwt_id;
    protected_data_key = protected_data_key;
    protected_data = protected_data;
  })

unfoldable pub unmarshal_user_info : JsonObject → Result UserInfoToken
unfolding lookup
unmarshal_user_info o = do
  username ← as_text (lookup "username" o)
  scope ← as_text (lookup "scope" o)
  expiration ← as_number (lookup "exp" o)
  type ← as_text (lookup "type" o)
  ok (record { username = username; scope = scope; expiration = expiration; type = type })
