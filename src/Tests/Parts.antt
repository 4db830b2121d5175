-- ===== src/Tests/Parts.antt =====
-- The theorems on the smaller parts, at concrete values.
use keymaster.Prelude.{
  ℕ, ◌+◌, ◌*◌, ◌≤◌, String, Bool, true, false, List, [], ◌∷◌, Option, some, none, ◌≡◌, ◌≢◌, refl,
  arith, str_eq, starts_with,
}
use keymaster.Prelude.Int.{pos}
use keymaster.Result.{ok}
use keymaster.AdminCache.{get}
use keymaster.AdminCache.History.{Entry, after, promised, get-after}
use keymaster.CertHandler.{limit_duration}
use keymaster.CertHandler.Grants.{WithinDay, limit_duration-WithinDay}
use keymaster.IpRestricted.{encode_ip_address_choice, decode_ip_v4_address_choice}
use keymaster.IpRestricted.Decoding.{decode-encode}
use keymaster.Json.{
  StorageStringDataJwt, marshal_auth, unmarshal_auth, marshal_storage, unmarshal_storage,
}
use keymaster.Json.RoundTrip.{unmarshal-marshal_auth, unmarshal-marshal_storage}
use keymaster.Net.{IpNet, BitString, contains_ip}
use keymaster.State.{AuthInfo, RuntimeState}
use keymaster.Storage.{load_user_profile, save_user_profile}
use keymaster.Storage.RoundTrip.{load_user_profile-save}
use keymaster.Tests.{claims}
use keymaster.Tests.Data.{moment, env_example, state_example, alice}

abbrev entries : List Entry
entries =
    record { at = 9; user = "bob"; answer = false }
    ∷ record { at = 5; user = "alice"; answer = true }
    ∷ []

get-after_example : get (after 10 entries) 12 "alice" ≡ promised 10 entries 12 "alice"
get-after_example = get-after 10 12 "alice" entries

abbrev old_session : AuthInfo
old_session = record { auth_type = 2; expires_at = moment; issued_at = moment; username = "alice" }

limit_duration-WithinDay_example :
    WithinDay env_example old_session (limit_duration env_example old_session (pos 5))
limit_duration-WithinDay_example =
    limit_duration-WithinDay env_example old_session (pos 5) (omega arith)

abbrev block : IpNet
block = record { ip = 10 ∷ 1 ∷ 0 ∷ 0 ∷ []; ones = 12; bits = 32 }

decode-encode_example :
    (encoded : BitString) × (decoded : IpNet) × (encode_ip_address_choice block ≡ ok encoded)
    × (decode_ip_v4_address_choice encoded ≡ ok decoded)
    × ((ip : List ℕ) → contains_ip decoded ip ≡ contains_ip block ip)
unfolding keymaster.Net.to4
decode-encode_example = decode-encode block (10 ∷ 1 ∷ 0 ∷ 0 ∷ []) refl (omega arith) refl

unmarshal-marshal_auth_example : unmarshal_auth (marshal_auth (claims 2)) ≡ ok (claims 2)
unmarshal-marshal_auth_example = unmarshal-marshal_auth (claims 2)

abbrev stored : StorageStringDataJwt
stored = record {
  issuer = "h";
  subject = "alice";
  audience = "h" ∷ [];
  not_before = 0;
  expiration = 9;
  issued_at = 1;
  token_type = "storage_data";
  data_type = 0;
  content = "";
}

unmarshal-marshal_storage_example : unmarshal_storage (marshal_storage stored) ≡ ok stored
unmarshal-marshal_storage_example = unmarshal-marshal_storage stored

abbrev saved_state : RuntimeState
saved_state = record state_example { db = ("alice", alice) ∷ ("bob", alice) ∷ [] }

load_user_profile-save_example :
    (load_user_profile env_example saved_state "bob"
      ≡ ok (record { profile = alice; found = true; from_cache = false }))
    × ((other : String)
        → str_eq "bob" other ≡ false
        → load_user_profile env_example saved_state other
          ≡ load_user_profile env_example state_example other)
unfolding save_user_profile keymaster.Prelude.Dict.insert
load_user_profile-save_example =
    load_user_profile-save env_example env_example state_example saved_state "bob" alice refl refl
