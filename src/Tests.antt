-- ===== src/Tests.antt =====
-- A daemon and its surroundings with concrete values, on which the theorems are applied.
pub mod Sessions
pub mod Handlers
pub mod Data
pub mod Parts
pub mod Blocks
pub mod Provider
pub mod Stores
pub mod Administration
use keymaster.Prelude.{
  ℕ, ◌+◌, ◌*◌, String, Bool, true, false, not, ◌&&◌, List, [], ◌∷◌, Option, none, some, ◌≡◌, refl,
  arith, str_eq, eq_iff, ◌==◌, if◌then◌else◌, Bool-cases, ap, inl, inr, ◌∙◌, sym,
}
use keymaster.Prelude.Int.{ℤ, pos}
use keymaster.Prelude.Dict.{lookup}
use keymaster.Result.{Result, ok, err}
use keymaster.Config.{AppConfigFile}
use keymaster.Profile.{UserProfile}
use keymaster.Keys.{PublicKey, ed25519}
use keymaster.Json.{
  JsonValue, JsonObject, text, number, texts, AuthInfoJwt, marshal_auth, marshal_storage,
}
use keymaster.Idp.Tokens.{
  KeymasterdCodeToken, UserInfoToken, marshal_code, marshal_id, marshal_user_info,
}
use keymaster.State.{Env, RuntimeState, answers}
use keymaster.Jwt.{second, unix_epoch}
use keymaster.Jwt.Laws.{JoseLaws}
use keymaster.Http.{Request}

texts_eq : List String → List String → Bool
texts_eq [] [] = true
texts_eq (a ∷ xs) (b ∷ ys) = str_eq a b && texts_eq xs ys
texts_eq [] (b ∷ ys) = false
texts_eq (a ∷ xs) [] = false

texts_eq_sound : (xs ys : List String) → texts_eq xs ys ≡ true → xs ≡ ys
unfolding texts_eq
texts_eq_sound [] [] h = refl
texts_eq_sound (a ∷ xs) (b ∷ ys) h = ground (arith, eq_iff a b, texts_eq_sound xs ys)
texts_eq_sound [] (b ∷ ys) h = absurd (ground arith)
texts_eq_sound (a ∷ xs) [] h = absurd (ground arith)

value_eq : JsonValue → JsonValue → Bool
unfolding texts_eq
value_eq (text a) (text b) = str_eq a b
value_eq (number a) (number b) = a == b
value_eq (texts a) (texts b) = texts_eq a b
value_eq _ _ = false

value_eq_sound : (a b : JsonValue) → value_eq a b ≡ true → a ≡ b
unfolding value_eq
value_eq_sound (text a) (text b) h = ground (arith, eq_iff a b)
value_eq_sound (number a) (number b) h = ground arith
value_eq_sound (texts a) (texts b) h = ap texts (texts_eq_sound a b h)
value_eq_sound (text a) (number b) h = absurd (ground arith)
value_eq_sound (text a) (texts b) h = absurd (ground arith)
value_eq_sound (number a) (text b) h = absurd (ground arith)
value_eq_sound (number a) (texts b) h = absurd (ground arith)
value_eq_sound (texts a) (text b) h = absurd (ground arith)
value_eq_sound (texts a) (number b) h = absurd (ground arith)

object_eq : JsonObject → JsonObject → Bool
unfolding value_eq
object_eq [] [] = true
object_eq ((k, a) ∷ xs) ((j, b) ∷ ys) = str_eq k j && (value_eq a b && object_eq xs ys)
object_eq [] (b ∷ ys) = false
object_eq (a ∷ xs) [] = false

object_eq_sound : (xs ys : JsonObject) → object_eq xs ys ≡ true → xs ≡ ys
unfolding object_eq
object_eq_sound [] [] h = refl
object_eq_sound ((k, a) ∷ xs) ((j, b) ∷ ys) h =
    ground (arith, eq_iff k j, value_eq_sound a b, object_eq_sound xs ys)
object_eq_sound [] (b ∷ ys) h = absurd (ground arith)
object_eq_sound (a ∷ xs) [] h = absurd (ground arith)

abbrev pub claims : (level : ℕ) → AuthInfoJwt
claims level = record {
  issuer = "https://h";
  subject = "alice";
  audience = "https://h" ∷ [];
  expiration = 58600;
  not_before = 1000;
  issued_at = 1000;
  token_type = "keymaster_auth";
  auth_type = level;
}

-- the payloads that the example's key signs: sessions at three levels, and a stored string
abbrev payload_1 : JsonObject
unfolding marshal_auth
payload_1 = marshal_auth (claims 2)

abbrev payload_2 : JsonObject
unfolding marshal_auth
payload_2 = marshal_auth (claims 66)

abbrev payload_3 : JsonObject
unfolding marshal_storage
payload_3 = marshal_storage (record {
  issuer = "https://h";
  subject = "alice";
  audience = "https://h" ∷ [];
  not_before = 1000;
  expiration = 2000;
  issued_at = 1000;
  token_type = "storage_data";
  data_type = 1;
  content = "x";
})

abbrev payload_4 : JsonObject
unfolding marshal_auth
payload_4 = marshal_auth (claims 18)

-- the provider's tokens for Alice: a code, an access token and an identity token
abbrev pub code_example : KeymasterdCodeToken
code_example = record {
  issuer = "https://h";
  subject = "app";
  issued_at = 1000;
  expiration = 1300;
  username = "alice";
  auth_level = 0;
  auth_expiration = 58600;
  nonce = "";
  redirect_uri = "https://app.example.com";
  scope = "openid";
  type = "token_endpoint";
  jwt_id = "random";
  protected_data_key = "";
  protected_data = "";
}

abbrev payload_5 : JsonObject
unfolding marshal_code
payload_5 = marshal_code code_example

abbrev pub access_example : UserInfoToken
access_example = record {
  username = "alice";
  scope = "openid";
  expiration = 58600;
  type = "bearer";
}

abbrev payload_6 : JsonObject
unfolding marshal_user_info
payload_6 = marshal_user_info access_example

abbrev payload_7 : JsonObject
unfolding marshal_id
payload_7 = marshal_id (record {
  issuer = "https://h";
  subject = "alice";
  audience = "app" ∷ [];
  expiration = 58600;
  issued_at = 1000;
  auth_time = 0;
  nonce = "";
})

unfoldable pub sign_example : (signer : String) (payload : JsonObject) → Result String
unfolding object_eq payload_1 payload_2 payload_3 payload_4 payload_5 payload_6 payload_7
sign_example signer payload =
    if object_eq payload payload_1
    then ok "t1"
    else if object_eq payload payload_2
    then ok "t2"
    else if object_eq payload payload_3
    then ok "t3"
    else if object_eq payload payload_4
    then ok "t4"
    else if object_eq payload payload_5
    then ok "t5"
    else if object_eq payload payload_6
    then ok "t6"
    else if object_eq payload payload_7
    then ok "t7"
    else err "refused"

unfoldable pub verify_example : (key token : String) → Result JsonObject
unfolding payload_1 payload_2 payload_3 payload_4 payload_5 payload_6 payload_7
verify_example key token =
    if str_eq token "t1"
    then ok payload_1
    else if str_eq token "t2"
    then ok payload_2
    else if str_eq token "t3"
    then ok payload_3
    else if str_eq token "t4"
    then ok payload_4
    else if str_eq token "t5"
    then ok payload_5
    else if str_eq token "t6"
    then ok payload_6
    else if str_eq token "t7"
    then ok payload_7
    else err "no such token"

verified_t1 : (key : String) → verify_example key "t1" ≡ ok payload_1
unfolding verify_example
verified_t1 key = refl

verified_t2 : (key : String) → verify_example key "t2" ≡ ok payload_2
unfolding verify_example
verified_t2 key = refl

verified_t3 : (key : String) → verify_example key "t3" ≡ ok payload_3
unfolding verify_example
verified_t3 key = refl

verified_t4 : (key : String) → verify_example key "t4" ≡ ok payload_4
unfolding verify_example
verified_t4 key = refl

verified_t5 : (key : String) → verify_example key "t5" ≡ ok payload_5
unfolding verify_example
verified_t5 key = refl

verified_t6 : (key : String) → verify_example key "t6" ≡ ok payload_6
unfolding verify_example
verified_t6 key = refl

verified_t7 : (key : String) → verify_example key "t7" ≡ ok payload_7
unfolding verify_example
verified_t7 key = refl

-- A text that stands for a known payload, or for what the rest of the table gives.
signed_from :
    (key token line : String) (payload known : JsonObject) (rest : Result String)
    → verify_example key token ≡ ok known
    → (rest ≡ ok line → verify_example key line ≡ ok payload)
    → (if object_eq payload known then ok token else rest) ≡ ok line
    → verify_example key line ≡ ok payload
signed_from key token line payload known rest verified later h =
    elim (Bool-cases (object_eq payload known)) [
      | inl a ↦
          let e : token ≡ line = ground arith in rw (← e, object_eq_sound payload known a) verified
      | inr a ↦ later (ground arith)
    ]

pub signed_example :
    (key signer : String) (payload : JsonObject) (line : String)
    → sign_example signer payload ≡ ok line
    → verify_example key line ≡ ok payload
unfolding sign_example
signed_example key signer payload line =
    signed_from key "t1" line payload payload_1 _ (verified_t1 key) (
      signed_from key "t2" line payload payload_2 _ (verified_t2 key) (
        signed_from key "t3" line payload payload_3 _ (verified_t3 key) (
          signed_from key "t4" line payload payload_4 _ (verified_t4 key) (
            signed_from key "t5" line payload payload_5 _ (verified_t5 key) (
              signed_from key "t6" line payload payload_6 _ (verified_t6 key) (
                signed_from key "t7" line payload payload_7 _ (verified_t7 key)
                  (λ h. absurd (ground arith))))))))
