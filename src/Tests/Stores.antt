-- ===== src/Tests/Stores.antt =====
-- The theorems on the password checkers, with a store in memory, and on the cleanup.
use keymaster.Prelude.{
  ℕ, ◌+◌, ◌*◌, ◌≤◌, ◌<◌, String, Bool, true, false, List, [], ◌∷◌, Memᴰ, Option, none, some, ◌≡◌,
  ◌≢◌, refl, ◌⊎◌, inl, inr, ◌↔◌, arith, if◌then◌else◌, str_eq, eq_iff,
}
use keymaster.Result.{ok, err}
use keymaster.Jwt.{second, unix}
use keymaster.Store.{SimpleStore, StoreLaws}
use keymaster.Store.Memory.{MemDatum, MemStore, upsert_signed, delete_signed, get_signed}
use keymaster.Store.Memory.Laws.{memory, memory-StoreLaws}
use keymaster.Ldap.{
  Servers, Crypto, PasswordAuthenticator, password_data_type, password_authenticate, first_answer,
}
use keymaster.Ldap.Offline.{Remembered, offline_until, offline_expired, refused_forgets}
use keymaster.OktaAuth
use keymaster.OktaAuth.{
  Okta, OktaApiPrimaryResponse, OktaApiPushResponse, AuthCacheData, RecentAuth,
}
use keymaster.OktaAuth.Recent.{Login}
use keymaster.State.{PushPollTransaction, LocalUserData, PendingAuth2Request}
use keymaster.Cleanup.{perform_state_cleanup, perform_state_cleanup_iff}
use keymaster.Tests.Data.{moment, state_example}

-- Argon2 as the password itself, and one server that takes "secret", or none that answers.
abbrev crypto_example : Crypto
crypto_example = record {
  argon2_make_new_hash = λ password. ok password;
  argon2_compare_hash_and_password = λ hash password. str_eq hash password;
  convert_to_bind_dn = λ username pattern. username;
}

abbrev up : Servers
up = λ url bind_dn password. ok (str_eq password "secret")

abbrev down : Servers
down = λ url bind_dn password. err "down"

abbrev checker : PasswordAuthenticator
checker = record {
  ldap_url = "ldaps://a" ∷ [];
  bind_pattern = "uid=%s" ∷ [];
  expiration_duration = 3600 * second;
}

abbrev remembering : MemStore
remembering =
    (
      ("alice", password_data_type),
      record { content = "secret"; expiration = unix (moment + 3600 * second) },
    )
    ∷ []

remembered :
    Remembered memory memory-StoreLaws crypto_example checker "alice" up moment "secret" []
      remembering
unfolding first_answer upsert_signed keymaster.Store.Memory.remove_datum
    keymaster.Ldap.password_authenticate keymaster.Ldap.update_or_delete_password_hash
remembered = record {
  answered = refl;
  hash = "secret";
  hashed = refl;
  working = λ key content type expiration. (_, refl);
  run = refl;
}

offline_until_example :
    ((password_authenticate memory crypto_example checker down
        (moment + 60 * second)
        "alice"
        "secret"
        remembering).0
      ≡ true)
    × ((password_authenticate memory crypto_example checker down
          (moment + 60 * second)
          "alice"
          "guess"
          remembering).0
        ≡ false)
unfolding remembered first_answer unix
offline_until_example =
    offline_until memory memory-StoreLaws crypto_example checker "alice" up down moment
      (moment + 60 * second) "secret" "guess" [] remembering remembered refl (omega arith)
      (omega arith) refl refl

offline_expired_example :
    (password_authenticate memory crypto_example checker down
      (moment + 7200 * second)
      "alice"
      "secret"
      remembering).0
    ≡ false
unfolding first_answer unix
offline_expired_example =
    offline_expired memory memory-StoreLaws crypto_example checker "alice" up down moment
      (moment + 7200 * second) "secret" "secret" [] remembering remembered (omega arith) refl

-- The server that takes "changed" only refuses the password that is remembered.
abbrev changed : Servers
changed = λ url bind_dn password. ok (str_eq password "changed")

refused_forgets_example :
    (password_authenticate memory crypto_example checker changed
        (moment + 60 * second)
        "alice"
        "secret"
        remembering
      ≡ (false, []))
    × ((password_authenticate memory crypto_example checker down
          (moment + 90 * second)
          "alice"
          "secret"
          []).0
        ≡ false)
unfolding first_answer get_signed delete_signed unix keymaster.Store.Memory.find_datum
    keymaster.Store.Memory.remove_datum
refused_forgets_example =
    refused_forgets memory memory-StoreLaws crypto_example checker "alice" changed down
      (moment + 60 * second) (moment + 90 * second) "secret" "secret" "secret" remembering
      remembering [] refl refl refl refl refl

abbrev okta_response : OktaApiPrimaryResponse
okta_response = record {
  state_token = "token";
  expires_at_string = "soon";
  status = "SUCCESS";
  factors = [];
}

abbrev okta_example : Okta
okta_example = record {
  login = λ username password. ok (record {
    status_code = if str_eq password "secret" then 200 else 401;
    body = ok okta_response;
  });
  verify_totp = λ factor token code. ok (record { status_code = 200; body = ok okta_response });
  verify_push = λ factor token. err "unused";
  parse_rfc3339 = λ s. ok (moment + 300 * second);
  six_digits = λ n. "123456";
}

abbrev okta_entry : AuthCacheData
okta_entry = record { response = okta_response; expires = moment + 300 * second }

abbrev okta_login : Login
okta_login = record { okta = okta_example; now = moment; username = "alice"; password = "secret" }

perform_state_cleanup_iff_example :
    ((key : String) (v : PushPollTransaction)
      → Memᴰ (key, v) (perform_state_cleanup (moment + 1) state_example).vip_push_cookie
        ↔ (Memᴰ (key, v) state_example.vip_push_cookie × (moment + 1 ≤ v.expires_at)))
    × ((key : String) (v : LocalUserData)
        → Memᴰ (key, v) (perform_state_cleanup (moment + 1) state_example).local_auth_data
          ↔ (Memᴰ (key, v) state_example.local_auth_data × (moment + 1 ≤ v.expires_at)))
    × ((key : String) (v : PendingAuth2Request)
        → Memᴰ (key, v) (perform_state_cleanup (moment + 1) state_example).pending_oauth2
          ↔ (Memᴰ (key, v) state_example.pending_oauth2 × (moment + 1 ≤ v.expires_at)))
perform_state_cleanup_iff_example = perform_state_cleanup_iff (moment + 1) state_example
