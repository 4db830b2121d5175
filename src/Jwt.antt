-- ===== src/Jwt.antt =====
-- cmd/keymasterd/jwt.go: the signed tokens of the session cookie and of stored strings.
pub mod Laws
pub mod Sessions
use Prim.Native.String.{◌++◌}
use keymaster.Prelude.{
  ℕ, ◌+◌, ◌-◌, ◌*◌, ◌/◌, String, Bool, true, false, not, ◌||◌, List, [], ◌∷◌, Option, none, some,
  ltb, str_eq, if◌then◌else◌,
}
use keymaster.Result.{Result, ok, err, ◌>>=◌}
use keymaster.Json.{
  JsonObject, AuthInfoJwt, StorageStringDataJwt, marshal_auth, marshal_storage, unmarshal_auth,
  unmarshal_storage,
}
use keymaster.State.{Env, RuntimeState, AuthInfo}

abbrev pub second : ℕ
second = 1000000000

-- the seconds from year 1 to 1970
abbrev pub unix_epoch : ℕ
unix_epoch = 62135596800

abbrev pub max_age_seconds_auth_cookie : ℕ
max_age_seconds_auth_cookie = 16 * 3600

-- `t.Unix()`, at or after 1970, and `time.Unix(s, 0)`
unfoldable pub unix : ℕ → ℕ
unix t = t / second - unix_epoch

unfoldable pub from_unix : ℕ → ℕ
from_unix s = (s + unix_epoch) * second

unfoldable pub idp_get_issuer : RuntimeState → String
idp_get_issuer state =
    let issuer : String = "https://" ++ state.host_identity in
    if str_eq state.config.base.http_address ":443"
    then issuer
    else issuer ++ state.config.base.http_address

-- `len(audience) < 1 || audience[0] != issuer`, negated
abbrev pub audience_is : String → List String → Bool
audience_is issuer [] = false
audience_is issuer (first ∷ rest) = str_eq first issuer

module _ (env : Env) where
  unfoldable pub get_key_fingerprint : String → Result String
  get_key_fingerprint key = do
    ssh_public_key ← env.ssh_public_key key
    ok (env.sha256_hex ssh_public_key)

  -- `t.Claims(key, dest)`: the payload under a key, decoded
  abbrev pub claims_under : {A : Type 0} → (JsonObject → Result A) → (token key : String) → Result A
  claims_under unmarshal token key = env.verify_payload key token >>= unmarshal

  -- the loop of JWTClaims, with the last error
  claims_loop :
      {A : Type 0}
      → (JsonObject → Result A)
      → (token : String) → List String
      → Option String
      → Result A
  claims_loop unmarshal token [] none = err "No valid key found"
  claims_loop unmarshal token [] (some e) = err e
  claims_loop unmarshal token (key ∷ keys) last = elim (claims_under unmarshal token key) [
    | ok claims ↦ ok claims
    | err e ↦ claims_loop unmarshal token keys (some e)
  ]

  unfoldable pub jwt_claims :
      {A : Type 0} → RuntimeState → (JsonObject → Result A) → (token : String) → Result A
  unfolding claims_loop
  jwt_claims state unmarshal token = claims_loop unmarshal token state.keymaster_public_keys none

  unfoldable pub gen_new_serialized_auth_jwt :
      RuntimeState → (username : String) (auth_level : ℕ) → Result String
  gen_new_serialized_auth_jwt state username auth_level = do
    signer ← env.jose_signer state.signer
    let issuer = idp_get_issuer state
    let issued_at = unix env.now
    env.sign_compact signer (
        marshal_auth (record {
          issuer = issuer;
          subject = username;
          audience = issuer ∷ [];
          expiration = issued_at + max_age_seconds_auth_cookie;
          not_before = issued_at;
          issued_at = issued_at;
          token_type = "keymaster_auth";
          auth_type = auth_level;
        }))

  -- the test "invalid JWT values" of the three readers, negated
  unfoldable pub has_sane_values :
      (issuer wanted_type : String) (its_issuer its_type : String) (audience : List String)
      (not_before : ℕ)
      → Bool
  has_sane_values issuer wanted_type its_issuer its_type audience not_before = not (
      not (str_eq its_issuer issuer)
      || not (str_eq its_type wanted_type)
      || not (audience_is issuer audience)
      || ltb (unix env.now) not_before)

  abbrev sane_auth : RuntimeState → AuthInfoJwt → Bool
  sane_auth state c =
      has_sane_values (idp_get_issuer state) "keymaster_auth" c.issuer c.token_type c.audience
        c.not_before

  abbrev pub sane_storage : RuntimeState → StorageStringDataJwt → Bool
  sane_storage state c =
      has_sane_values (idp_get_issuer state) "storage_data" c.issuer c.token_type c.audience
        c.not_before

  unfoldable pub get_auth_info_from_auth_jwt :
      RuntimeState → (serialized_token : String) → Result AuthInfo
  get_auth_info_from_auth_jwt state serialized_token = do
    token ← env.parse_signed serialized_token
    inbound ← jwt_claims state unmarshal_auth token
    if sane_auth state inbound
        then ok (record {
          auth_type = inbound.auth_type;
          expires_at = from_unix inbound.expiration;
          issued_at = from_unix inbound.issued_at;
          username = inbound.subject;
        })
        else err "invalid JWT values"

  unfoldable pub update_auth_jwt_with_new_auth_level :
      RuntimeState → (token : String) (new_auth_level : ℕ) → Result String
  update_auth_jwt_with_new_auth_level state in_token new_auth_level = do
    signer ← env.jose_signer state.signer
    token ← env.parse_signed in_token
    parsed ← jwt_claims state unmarshal_auth token
    if sane_auth state parsed
        then env.sign_compact signer (marshal_auth (record parsed { auth_type = new_auth_level }))
        else err "invalid JWT values"

  unfoldable pub gen_new_serialized_storage_string_data_jwt :
      RuntimeState
      → (username : String) (data_type : ℕ) (content : String) (expiration : ℕ) → Result String
  gen_new_serialized_storage_string_data_jwt state username data_type content expiration = do
    signer ← env.jose_signer state.signer
    let issuer = idp_get_issuer state
    let issued_at = unix env.now
    env.sign_compact signer (
        marshal_storage (record {
          issuer = issuer;
          subject = username;
          audience = issuer ∷ [];
          not_before = issued_at;
          expiration = expiration;
          issued_at = issued_at;
          token_type = "storage_data";
          data_type = data_type;
          content = content;
        }))

  unfoldable pub get_storage_data_from_storage_string_data_jwt :
      RuntimeState → (serialized_token : String) → Result StorageStringDataJwt
  get_storage_data_from_storage_string_data_jwt state serialized_token = do
    token ← env.parse_signed serialized_token
    inbound ← jwt_claims state unmarshal_storage token
    if sane_storage state inbound then ok inbound else err "invalid JWT values"
