-- ===== src/Idp/Kinds.antt =====
-- The five kinds of token that the daemon signs with one key, and the four readers: each reader
-- accepts its own kind only.
use keymaster.Prelude.{
  ℕ, String, some, ◌≡◌, refl, ◌∙◌, sym, ap, inl, inr, arith, Bool-cases, eq_iff,
}
use keymaster.Prelude.Dict.{lookup}
use keymaster.Result.{Result, ok, >>=-eq-ok}
use keymaster.Json.{
  JsonObject, AuthInfoJwt, StorageStringDataJwt, marshal_auth, marshal_storage, unmarshal_auth,
  unmarshal_storage, as_text,
}
use keymaster.Http.{Request}
use keymaster.State.{Env, RuntimeState, AuthInfo, at}
use keymaster.Checks.{passed}
use keymaster.Respond.{form_get}
use keymaster.Jwt.{
  jwt_claims, sane_storage, get_auth_info_from_auth_jwt,
  get_storage_data_from_storage_string_data_jwt,
}
use keymaster.Jwt.Laws.{JoseLaws, Verified, jwt_claims-Verified, has_sane_values_iff}
use keymaster.Jwt.Sessions.{Session, get_auth_info-Session}
use keymaster.Idp.Tokens.{
  KeymasterdCodeToken, OpenIdConnectIdToken, UserInfoToken, marshal_code, marshal_id,
  marshal_user_info, unmarshal_code, unmarshal_user_info,
}
use keymaster.Idp.Tokens.RoundTrip.{
  unmarshal_code-type, unmarshal_user_info-type, unmarshal_auth-token_type,
  unmarshal_storage-token_type, lookup_token_type-marshal_auth, lookup_token_type-marshal_storage,
  lookup_type-marshal_auth, lookup_type-marshal_storage, lookup_token_type-marshal_code,
  lookup_type-marshal_code, lookup_token_type-marshal_user_info, lookup_type-marshal_user_info,
  lookup_type-marshal_id, lookup_token_type-marshal_id,
}
use keymaster.Idp.Grants.{token_endpoint, bearer, Form, TokenRequest, token_request, bearer_token}
use keymaster.Idp.Grants.Sound.{Redeemed, token_request-Redeemed, Bearer, bearer_token-Bearer}

pub data Kind : Type 0 where
  session : Kind
  stored : Kind
  code : Kind
  access : Kind
  id : Kind

-- The payloads that the daemon signs, with their kinds.
pub data Issued : Kind → JsonObject → Type 0 where
  issued_session :
      (c : AuthInfoJwt) → c.token_type ≡ "keymaster_auth" → Issued session (marshal_auth c)
  issued_stored :
      (c : StorageStringDataJwt) → c.token_type ≡ "storage_data" → Issued stored (marshal_storage c)
  issued_code : (c : KeymasterdCodeToken) → c.type ≡ token_endpoint → Issued code (marshal_code c)
  issued_access : (t : UserInfoToken) → t.type ≡ bearer → Issued access (marshal_user_info t)
  issued_id : (t : OpenIdConnectIdToken) → Issued id (marshal_id t)

-- What the field "type" and the field "token_type" of a kind hold, "" where it is absent.
abbrev type_of : Kind → String
type_of session = ""
type_of stored = ""
type_of code = token_endpoint
type_of access = bearer
type_of id = ""

abbrev token_type_of : Kind → String
token_type_of session = "keymaster_auth"
token_type_of stored = "storage_data"
token_type_of code = ""
token_type_of access = ""
token_type_of id = ""

Issued-type :
    {kind : Kind} {payload : JsonObject}
    → Issued kind payload
    → as_text (lookup "type" payload) ≡ ok (type_of kind)
Issued-type (issued_session c e) = rw (lookup_type-marshal_auth c) refl
Issued-type (issued_stored c e) = rw (lookup_type-marshal_storage c) refl
Issued-type (issued_code c e) = rw (lookup_type-marshal_code c) (ap ok e)
Issued-type (issued_access t e) = rw (lookup_type-marshal_user_info t) (ap ok e)
Issued-type (issued_id t) = rw (lookup_type-marshal_id t) refl

Issued-token_type :
    {kind : Kind} {payload : JsonObject}
    → Issued kind payload
    → as_text (lookup "token_type" payload) ≡ ok (token_type_of kind)
Issued-token_type (issued_session c e) = rw (lookup_token_type-marshal_auth c) (ap ok e)
Issued-token_type (issued_stored c e) = rw (lookup_token_type-marshal_storage c) (ap ok e)
Issued-token_type (issued_code c e) = rw (lookup_token_type-marshal_code c) refl
Issued-token_type (issued_access t e) = rw (lookup_token_type-marshal_user_info t) refl
Issued-token_type (issued_id t) = rw (lookup_token_type-marshal_id t) refl

code_type : (kind : Kind) → type_of kind ≡ token_endpoint → kind ≡ code
code_type session e = absurd (ground (arith, eq_iff "" token_endpoint))
code_type stored e = absurd (ground (arith, eq_iff "" token_endpoint))
code_type code e = refl
code_type access e = absurd (ground (arith, eq_iff bearer token_endpoint))
code_type id e = absurd (ground (arith, eq_iff "" token_endpoint))

access_type : (kind : Kind) → type_of kind ≡ bearer → kind ≡ access
access_type session e = absurd (ground (arith, eq_iff "" bearer))
access_type stored e = absurd (ground (arith, eq_iff "" bearer))
access_type code e = absurd (ground (arith, eq_iff token_endpoint bearer))
access_type access e = refl
access_type id e = absurd (ground (arith, eq_iff "" bearer))

session_type : (kind : Kind) → token_type_of kind ≡ "keymaster_auth" → kind ≡ session
session_type session e = refl
session_type stored e = absurd (ground (arith, eq_iff "storage_data" "keymaster_auth"))
session_type code e = absurd (ground (arith, eq_iff "" "keymaster_auth"))
session_type access e = absurd (ground (arith, eq_iff "" "keymaster_auth"))
session_type id e = absurd (ground (arith, eq_iff "" "keymaster_auth"))

stored_type : (kind : Kind) → token_type_of kind ≡ "storage_data" → kind ≡ stored
stored_type session e = absurd (ground (arith, eq_iff "keymaster_auth" "storage_data"))
stored_type stored e = refl
stored_type code e = absurd (ground (arith, eq_iff "" "storage_data"))
stored_type access e = absurd (ground (arith, eq_iff "" "storage_data"))
stored_type id e = absurd (ground (arith, eq_iff "" "storage_data"))

same_text : (a b : String) → ok a ≡ ok b → a ≡ b
same_text a b e = ground arith

module _ (env : Env) (public_key : String → String) (laws : JoseLaws env public_key)
    (state : RuntimeState) (key signer text : String) (kind : Kind) (payload : JsonObject)
    (issued : Issued kind payload) (loaded : env.jose_signer (some key) ≡ ok signer)
    (made : env.sign_compact signer payload ≡ ok text) (later : ℕ) where
  -- A reader that accepts the text decodes its one payload.
  decoded :
      {A : Type 0} (unmarshal : JsonObject → Result A) (token : String) (claims : A)
      → env.parse_signed text ≡ ok token
      → Verified (at env later) state unmarshal token claims
      → unmarshal payload ≡ ok claims
  decoded unmarshal token claims parsed verified =
      let (token', parsed', checked) = laws.signed key signer payload text loaded made in
      let same : token ≡ token' = same_text _ _ (sym parsed ∙ parsed') in
      let one : verified.payload ≡ payload =
        laws.one_payload (public_key key) verified.key token payload verified.payload
          (ap (env.verify_payload (public_key key)) same ∙ checked) verified.checked in
      ap unmarshal (sym one) ∙ verified.decoded

  stored_token :
      (c : StorageStringDataJwt)
      → get_storage_data_from_storage_string_data_jwt (at env later) state text ≡ ok c
      → kind ≡ stored
  unfolding get_storage_data_from_storage_string_data_jwt
  stored_token c h =
      let (token, parsed, h1) = >>=-eq-ok (env.parse_signed text) _ h in
      let (claims, found, h2) =
        >>=-eq-ok (jwt_claims (at env later) state unmarshal_storage token) _ h1 in
      elim (Bool-cases (sane_storage (at env later) state claims)) [
        | inl sane ↦
            let (_, typed, _, _) = (has_sane_values_iff (at env later) _ _ _ _ _ _).0 sane in
            stored_type kind (
              same_text _ _ (
                sym (Issued-token_type issued)
                ∙ unmarshal_storage-token_type payload claims (
                    decoded unmarshal_storage token claims parsed (
                      jwt_claims-Verified (at env later) state unmarshal_storage token claims
                        found))
                ∙ ap ok typed))
        | inr insane ↦ absurd (ground arith)
      ]

  -- Which of the four readers accepts the text at the later time: as a session, as a stored string,
  -- as a code that tokens are given for, or as a token that user information is given for.
  pub data ReadAs : Kind → Type 0 where
    as_session :
        (info : AuthInfo)
        → get_auth_info_from_auth_jwt (at env later) state text ≡ ok info
        → ReadAs session
    as_stored :
        (c : StorageStringDataJwt)
        → get_storage_data_from_storage_string_data_jwt (at env later) state text ≡ ok c
        → ReadAs stored
    as_code :
        (r : Request) (form : Form) (request : TokenRequest)
        → form_get form "code" ≡ text
        → token_request (at env later) state r form ≡ passed request
        → ReadAs code
    as_access :
        (claims : UserInfoToken)
        → bearer_token (at env later) state text ≡ passed claims
        → ReadAs access

  -- Of the tokens that the daemon's key signs, a session cookie is the only one that is accepted as
  -- a session, a stored string's the only one that is accepted as such, a code the only one that
  -- tokens are given for, and an access token the only one that user information is given for, at
  -- any later time.
  pub readers_apart : (reader : Kind) → ReadAs reader → kind ≡ reader
  readers_apart session (as_session info h) =
      let s : Session (at env later) state text info =
        get_auth_info-Session (at env later) state text info h in
      session_type kind (
        same_text _ _ (
          sym (Issued-token_type issued)
          ∙ unmarshal_auth-token_type payload s.claims
              (decoded unmarshal_auth s.token s.claims s.parsed s.verified)
          ∙ ap ok s.a_session))
  readers_apart stored (as_stored c h) = stored_token c h
  readers_apart code (as_code r form request named h) =
      let redeemed : Redeemed (at env later) state r form request =
        token_request-Redeemed (at env later) state r form request h in
      let (token, parsed, found) = redeemed.read in
      code_type kind (
        same_text _ _ (
          sym (Issued-type issued)
          ∙ unmarshal_code-type payload request.code (
              decoded unmarshal_code token request.code (ap env.parse_signed (sym named) ∙ parsed)
                (jwt_claims-Verified (at env later) state unmarshal_code token request.code found))
          ∙ ap ok redeemed.a_code))
  readers_apart access (as_access claims h) =
      let held : Bearer (at env later) state text claims =
        bearer_token-Bearer (at env later) state text claims h in
      let (token, parsed, found) = held.read in
      access_type kind (
        same_text _ _ (
          sym (Issued-type issued)
          ∙ unmarshal_user_info-type payload claims (
              decoded unmarshal_user_info token claims parsed
                (jwt_claims-Verified (at env later) state unmarshal_user_info token claims found))
          ∙ ap ok held.an_access_token))
  readers_apart id read = elim read [ ]
