-- ===== src/Idp/Tokens/RoundTrip.antt =====
-- The provider's claims survive their serialisation, and each kind of token keeps its type.
use keymaster.Prelude.{none, some, ◌≡◌, refl, ap, ◌∙◌, arith}
use keymaster.Prelude.Dict.{lookup}
use keymaster.Result.{ok, >>=-eq-ok}
use keymaster.Json.{
  JsonObject, text, AuthInfoJwt, StorageStringDataJwt, marshal_auth, marshal_storage,
  unmarshal_auth, unmarshal_storage, as_text, as_number, as_texts,
}
use keymaster.Json.RoundTrip.{fields}
use keymaster.Idp.Tokens.{
  KeymasterdCodeToken, KeymasterdIdpCodeProtectedData, UserInfoToken, OpenIdConnectIdToken,
  marshal_id, marshal_code, marshal_protected, marshal_user_info, unmarshal_code,
  unmarshal_protected, unmarshal_user_info,
}

pub unmarshal-marshal_code : (c : KeymasterdCodeToken) → unmarshal_code (marshal_code c) ≡ ok c
unfolding marshal_code unmarshal_code lookup
unmarshal-marshal_code c = simp fields

pub unmarshal-marshal_protected :
    (d : KeymasterdIdpCodeProtectedData) → unmarshal_protected (marshal_protected d) ≡ ok d
unfolding marshal_protected unmarshal_protected lookup
unmarshal-marshal_protected d = simp fields

pub unmarshal-marshal_user_info :
    (t : UserInfoToken) → unmarshal_user_info (marshal_user_info t) ≡ ok t
unfolding marshal_user_info unmarshal_user_info lookup
unmarshal-marshal_user_info t = refl

-- What the fields that tell the kinds apart hold, as the claims are read.
pub unmarshal_code-type :
    (o : JsonObject) (d : KeymasterdCodeToken)
    → unmarshal_code o ≡ ok d
    → as_text (lookup "type" o) ≡ ok d.type
unfolding unmarshal_code
unmarshal_code-type o d h =
    let (iss, e1, h1) = >>=-eq-ok (as_text (lookup "iss" o)) _ h in
    let (sub, e2, h2) = >>=-eq-ok (as_text (lookup "sub" o)) _ h1 in
    let (iat, e3, h3) = >>=-eq-ok (as_number (lookup "iat" o)) _ h2 in
    let (exp, e4, h4) = >>=-eq-ok (as_number (lookup "exp" o)) _ h3 in
    let (user, e5, h5) = >>=-eq-ok (as_text (lookup "username" o)) _ h4 in
    let (level, e6, h6) = >>=-eq-ok (as_number (lookup "auth_level" o)) _ h5 in
    let (auth_exp, e7, h7) = >>=-eq-ok (as_number (lookup "auth_exp" o)) _ h6 in
    let (nonce, e8, h8) = >>=-eq-ok (as_text (lookup "nonce" o)) _ h7 in
    let (uri, e9, h9) = >>=-eq-ok (as_text (lookup "redirect_uri" o)) _ h8 in
    let (scope, e10, h10) = >>=-eq-ok (as_text (lookup "scope" o)) _ h9 in
    let (type, e11, h11) = >>=-eq-ok (as_text (lookup "type" o)) _ h10 in
    let (jti, e12, h12) = >>=-eq-ok (as_text (lookup "jti" o)) _ h11 in
    let (key, e13, h13) = >>=-eq-ok (as_text (lookup "protected_data_key" o)) _ h12 in
    let (sealed, e14, h14) = >>=-eq-ok (as_text (lookup "protected_data" o)) _ h13 in
    let same : type ≡ d.type = ground arith in e11 ∙ ap ok same

pub unmarshal_user_info-type :
    (o : JsonObject) (t : UserInfoToken)
    → unmarshal_user_info o ≡ ok t
    → as_text (lookup "type" o) ≡ ok t.type
unfolding unmarshal_user_info
unmarshal_user_info-type o t h =
    let (user, e1, h1) = >>=-eq-ok (as_text (lookup "username" o)) _ h in
    let (scope, e2, h2) = >>=-eq-ok (as_text (lookup "scope" o)) _ h1 in
    let (exp, e3, h3) = >>=-eq-ok (as_number (lookup "exp" o)) _ h2 in
    let (type, e4, h4) = >>=-eq-ok (as_text (lookup "type" o)) _ h3 in
    let same : type ≡ t.type = ground arith in e4 ∙ ap ok same

pub unmarshal_auth-token_type :
    (o : JsonObject) (c : AuthInfoJwt)
    → unmarshal_auth o ≡ ok c
    → as_text (lookup "token_type" o) ≡ ok c.token_type
unfolding unmarshal_auth
unmarshal_auth-token_type o c h =
    let (iss, e1, h1) = >>=-eq-ok (as_text (lookup "iss" o)) _ h in
    let (sub, e2, h2) = >>=-eq-ok (as_text (lookup "sub" o)) _ h1 in
    let (aud, e3, h3) = >>=-eq-ok (as_texts (lookup "aud" o)) _ h2 in
    let (exp, e4, h4) = >>=-eq-ok (as_number (lookup "exp" o)) _ h3 in
    let (nbf, e5, h5) = >>=-eq-ok (as_number (lookup "nbf" o)) _ h4 in
    let (iat, e6, h6) = >>=-eq-ok (as_number (lookup "iat" o)) _ h5 in
    let (type, e7, h7) = >>=-eq-ok (as_text (lookup "token_type" o)) _ h6 in
    let (level, e8, h8) = >>=-eq-ok (as_number (lookup "auth_type" o)) _ h7 in
    let same : type ≡ c.token_type = ground arith in e7 ∙ ap ok same

pub unmarshal_storage-token_type :
    (o : JsonObject) (c : StorageStringDataJwt)
    → unmarshal_storage o ≡ ok c
    → as_text (lookup "token_type" o) ≡ ok c.token_type
unfolding unmarshal_storage
unmarshal_storage-token_type o c h =
    let (iss, e1, h1) = >>=-eq-ok (as_text (lookup "iss" o)) _ h in
    let (sub, e2, h2) = >>=-eq-ok (as_text (lookup "sub" o)) _ h1 in
    let (aud, e3, h3) = >>=-eq-ok (as_texts (lookup "aud" o)) _ h2 in
    let (nbf, e4, h4) = >>=-eq-ok (as_number (lookup "nbf" o)) _ h3 in
    let (exp, e5, h5) = >>=-eq-ok (as_number (lookup "exp" o)) _ h4 in
    let (iat, e6, h6) = >>=-eq-ok (as_number (lookup "iat" o)) _ h5 in
    let (type, e7, h7) = >>=-eq-ok (as_text (lookup "token_type" o)) _ h6 in
    let (kind, e8, h8) = >>=-eq-ok (as_number (lookup "data_type" o)) _ h7 in
    let (content, e9, h9) = >>=-eq-ok (as_text (lookup "data" o)) _ h8 in
    let same : type ≡ c.token_type = ground arith in e7 ∙ ap ok same

pub lookup_token_type-marshal_auth :
    (c : AuthInfoJwt) → lookup "token_type" (marshal_auth c) ≡ some (text c.token_type)
unfolding marshal_auth lookup
lookup_token_type-marshal_auth c = simp fields

pub lookup_token_type-marshal_storage :
    (c : StorageStringDataJwt) → lookup "token_type" (marshal_storage c) ≡ some (text c.token_type)
unfolding marshal_storage lookup
lookup_token_type-marshal_storage c = simp fields

pub lookup_type-marshal_auth : (c : AuthInfoJwt) → lookup "type" (marshal_auth c) ≡ none
unfolding marshal_auth lookup
lookup_type-marshal_auth c = simp fields

pub lookup_type-marshal_storage :
    (c : StorageStringDataJwt) → lookup "type" (marshal_storage c) ≡ none
unfolding marshal_storage lookup
lookup_type-marshal_storage c = simp fields

pub lookup_token_type-marshal_code :
    (c : KeymasterdCodeToken) → lookup "token_type" (marshal_code c) ≡ none
unfolding marshal_code lookup
lookup_token_type-marshal_code c = simp fields

pub lookup_type-marshal_code :
    (c : KeymasterdCodeToken) → lookup "type" (marshal_code c) ≡ some (text c.type)
unfolding marshal_code lookup
lookup_type-marshal_code c = refl

pub lookup_token_type-marshal_user_info :
    (t : UserInfoToken) → lookup "token_type" (marshal_user_info t) ≡ none
unfolding marshal_user_info lookup
lookup_token_type-marshal_user_info t = refl

pub lookup_type-marshal_user_info :
    (t : UserInfoToken) → lookup "type" (marshal_user_info t) ≡ some (text t.type)
unfolding marshal_user_info lookup
lookup_type-marshal_user_info t = refl

pub lookup_type-marshal_id : (t : OpenIdConnectIdToken) → lookup "type" (marshal_id t) ≡ none
unfolding marshal_id lookup
lookup_type-marshal_id t = simp fields

pub lookup_token_type-marshal_id :
    (t : OpenIdConnectIdToken) → lookup "token_type" (marshal_id t) ≡ none
unfolding marshal_id lookup
lookup_token_type-marshal_id t = simp fields
