-- ===== src/Tests/Sessions.antt =====
-- The theorems on tokens, at a signed session.
use keymaster.Prelude.{◌+◌, Memᴰ, ◌≡◌, ◌≢◌, refl, arith}
use keymaster.Result.{ok}
use keymaster.Json.{JsonObject}
use keymaster.State.{AuthInfo, at}
use keymaster.Jwt.{
  second, unix_epoch, from_unix, unix, idp_get_issuer, gen_new_serialized_auth_jwt,
  update_auth_jwt_with_new_auth_level, gen_new_serialized_storage_string_data_jwt,
  get_auth_info_from_auth_jwt,
}
use keymaster.Jwt.Laws.{JoseLaws}
use keymaster.Jwt.Sessions.{get_auth_info-gen_new, get_auth_info-update, get_auth_info-storage}
use keymaster.Tests.{sign_example, verify_example, signed_example}
use keymaster.Tests.Data.{moment, env_example, state_example}

pub laws_example : JoseLaws env_example (λ key. key)
unfolding verify_example
laws_example = record {
  signed = λ key signer payload text loaded made.
      (text, refl, signed_example key signer payload text made);
  one_payload = λ key other token payload payload' read read'. ground arith;
}

pub configured_example : Memᴰ "k" state_example.keymaster_public_keys
configured_example = Memᴰ.head refl

get_auth_info-gen_new_example :
    get_auth_info_from_auth_jwt (at env_example (moment + 5)) state_example "t1"
    ≡ ok (record {
      auth_type = 2;
      expires_at = from_unix 58600;
      issued_at = from_unix 1000;
      username = "alice";
    })
unfolding gen_new_serialized_auth_jwt sign_example idp_get_issuer unix
get_auth_info-gen_new_example =
    get_auth_info-gen_new env_example (λ key. key) laws_example state_example "k" refl
      configured_example "alice" "t1" 2 (moment + 5) refl (omega arith)

get_auth_info-update_example :
    (info : AuthInfo) × (get_auth_info_from_auth_jwt env_example state_example "t1" ≡ ok info)
    × (get_auth_info_from_auth_jwt (at env_example (moment + 5)) state_example "t2"
        ≡ ok (record info { auth_type = 66 }))
unfolding update_auth_jwt_with_new_auth_level keymaster.Jwt.jwt_claims verify_example
    keymaster.Json.unmarshal_auth keymaster.Jwt.has_sane_values idp_get_issuer unix sign_example
get_auth_info-update_example =
    get_auth_info-update env_example (λ key. key) laws_example state_example "k" refl
      configured_example "t1" "t2" 66 (moment + 5) refl (omega arith)

get_auth_info-storage_example :
    get_auth_info_from_auth_jwt (at env_example (moment + 5)) state_example "t3"
    ≢ ok (record { auth_type = 2; expires_at = 0; issued_at = 0; username = "alice" })
unfolding gen_new_serialized_storage_string_data_jwt sign_example idp_get_issuer unix
get_auth_info-storage_example =
    get_auth_info-storage env_example (λ key. key) laws_example state_example "k" refl
      configured_example "alice" "x" "t3" 1 2000 (moment + 5)
      (record { auth_type = 2; expires_at = 0; issued_at = 0; username = "alice" }) refl
