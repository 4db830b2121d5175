-- ===== src/Storage/RoundTrip.antt =====
-- cmd/keymasterd/storage.go: a profile that was saved is the one that is loaded.
use keymaster.Prelude.{String, true, false, ◌≡◌, refl, inl, inr, arith, str_eq, Option-cases}
use keymaster.Prelude.Dict.{insert, lookup-insert_self, lookup-insert_ne}
use keymaster.Result.{ok}
use keymaster.Profile.{UserProfile}
use keymaster.State.{Env, RuntimeState, answers}
use keymaster.Storage.{load_user_profile, save_user_profile}

module _ (env later : Env) where
  -- Where the save goes through and the primary database answers afterwards, the user's profile is
  -- the saved one, found, and not from the cache; every other user's is what it was.
  pub load_user_profile-save :
      (state saved : RuntimeState) (username : String) (profile : UserProfile)
      → save_user_profile env state username profile ≡ ok saved
      → later.primary ≡ answers
      → (load_user_profile later saved username
          ≡ ok (record { profile = profile; found = true; from_cache = false }))
        × ((other : String)
            → str_eq username other ≡ false
            → load_user_profile later saved other ≡ load_user_profile later state other)
  unfolding load_user_profile save_user_profile
  load_user_profile-save state saved username profile h up = elim (Option-cases env.save_error) [
    | inr (e, failed) ↦ absurd (ground arith)
    | inl none' ↦
        let written : insert username profile state.db ≡ saved.db = ground arith in
        (
          rw (up, ← written, lookup-insert_self username profile state.db) refl,
          λ other apart.
              rw (up, ← written, lookup-insert_ne username other profile state.db apart) refl,
        )
  ]
