-- ===== src/Storage.antt =====
-- cmd/keymasterd/storage.go: the profile of a user, read from the primary database or, where that does
-- not answer in time, from its local copy. A stored profile is kept decoded.
pub mod RoundTrip
use keymaster.Prelude.{String, Bool, List, true, false, [], Option, none, some}
use keymaster.Prelude.Dict.{Dict, lookup, insert, remove, keys}
use keymaster.Result.{Result, ok, err}
use keymaster.Profile.{UserProfile}
use keymaster.State.{Env, RuntimeState, Primary, answers, fails, times_out}

abbrev pub default_profile : UserProfile
default_profile = record {
  u2f_auth_data = [];
  registration_challenge = none;
  pending_totp_secret = none;
  last_successful_totp_counter = 0;
  totp_auth_data = [];
  bootstrap_otp = record { expires_at = 0; sha512_hash = none };
  user_has_registered_2nd_factor = false;
}

pub record LoadedProfile : Type 0 where
  pub profile : UserProfile
  pub found : Bool
  pub from_cache : Bool

-- a missing row is the default profile
unfoldable pub row_of : Option UserProfile → (from_cache : Bool) → LoadedProfile
row_of none from_cache = record {
  profile = default_profile;
  found = false;
  from_cache = from_cache;
}
row_of (some profile) from_cache = record {
  profile = profile;
  found = true;
  from_cache = from_cache;
}

module _ (env : Env) where
  unfoldable pub load_user_profile : RuntimeState → (username : String) → Result LoadedProfile
  unfolding row_of
  load_user_profile state username = elim env.primary [
    | answers ↦ ok (row_of (lookup username state.db) false)
    | fails e ↦ err e
    | times_out ↦ elim env.cache_error [
      | none ↦ ok (row_of (lookup username state.cache_db) true)
      | some e ↦ err e
    ]
  ]

  unfoldable pub save_user_profile :
      RuntimeState → (username : String) → UserProfile → Result RuntimeState
  save_user_profile state username profile = elim env.save_error [
    | some e ↦ err e
    | none ↦ ok (record state { db = insert username profile state.db })
  ]

  unfoldable pub delete_user_profile : RuntimeState → (username : String) → Result RuntimeState
  delete_user_profile state username = elim env.save_error [
    | some e ↦ err e
    | none ↦ ok (record state { db = remove username state.db })
  ]

  -- the users of the primary database, or of its copy where it does not answer in time, and which
  unfoldable pub get_users : RuntimeState → Result (List String × Bool)
  get_users state = elim env.primary [
    | answers ↦ ok (keys state.db, false)
    | fails e ↦ err e
    | times_out ↦ elim env.cache_error [ none ↦ ok (keys state.cache_db, true) | some e ↦ err e ]
  ]
