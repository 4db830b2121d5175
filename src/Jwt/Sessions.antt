-- ===== src/Jwt/Sessions.antt =====
-- Session cookies from their making to their reading, and the separation from stored strings.
use keymaster.Prelude.{
  ℕ, ◌+◌, ◌≤◌, String, true, Memᴰ, some, ◌≡◌, refl, ◌≢◌, ◌∙◌, sym, ap, inl, inr, arith, Bool-cases,
  eq_refl, eq_iff, if◌then◌else◌,
}
use keymaster.Result.{ok, err, >>=-eq-ok}
use keymaster.Json.{
  JsonObject, AuthInfoJwt, StorageStringDataJwt, marshal_auth, marshal_storage, unmarshal_auth,
}
use keymaster.Json.RoundTrip.{unmarshal-marshal_auth, unmarshal_auth-marshal_storage}
use keymaster.State.{Env, RuntimeState, AuthInfo, at}
use keymaster.Jwt.{
  unix, from_unix, max_age_seconds_auth_cookie, audience_is, jwt_claims, idp_get_issuer, sane_auth,
  gen_new_serialized_auth_jwt, get_auth_info_from_auth_jwt, update_auth_jwt_with_new_auth_level,
  gen_new_serialized_storage_string_data_jwt,
}
use keymaster.Jwt.Laws.{
  JoseLaws, Verified, jwt_claims-Verified, jwt_claims-eq-ok, has_sane_values_iff,
}

-- The session that claims stand for.
abbrev info_of : AuthInfoJwt → AuthInfo
info_of c = record {
  auth_type = c.auth_type;
  expires_at = from_unix c.expiration;
  issued_at = from_unix c.issued_at;
  username = c.subject;
}

module _ (env : Env) where
  -- What is known of a session that a cookie was accepted for.
  pub record Session (state : RuntimeState) (text : String) (info : AuthInfo) : Type 0 where
    pub token : String
    pub parsed : env.parse_signed text ≡ ok token
    pub claims : AuthInfoJwt
    pub verified : Verified env state unmarshal_auth token claims
    pub from_here : claims.issuer ≡ idp_get_issuer state
    pub a_session : claims.token_type ≡ "keymaster_auth"
    pub for_here : audience_is (idp_get_issuer state) claims.audience ≡ true
    pub begun : claims.not_before ≤ unix env.now
    pub same : info ≡ info_of claims

  -- A cookie is accepted only if it parses, a configured public key checks its payload, and the
  -- claims name this daemon as issuer and first audience, are of the session type and have begun;
  -- the level, user and times are then the claims' own.
  pub get_auth_info-Session :
      (state : RuntimeState) (text : String) (info : AuthInfo)
      → get_auth_info_from_auth_jwt env state text ≡ ok info
      → Session state text info
  unfolding get_auth_info_from_auth_jwt
  get_auth_info-Session state text info h =
      let (token, parsed, h1) = >>=-eq-ok (env.parse_signed text) _ h in
      let (claims, found, h2) = >>=-eq-ok (jwt_claims env state unmarshal_auth token) _ h1 in
      elim (Bool-cases (sane_auth env state claims)) [
        | inl sane ↦
            let (a, b, c, d) = (has_sane_values_iff env _ _ _ _ _ _).0 sane in
            record {
              token = token;
              parsed = parsed;
              claims = claims;
              verified = jwt_claims-Verified env state unmarshal_auth token claims found;
              from_here = a;
              a_session = b;
              for_here = c;
              begun = d;
              same = ground arith;
            }
        | inr insane ↦ absurd (ground arith)
      ]

pub JoseLaws-at :
    {env : Env} {public_key : String → String} (t : ℕ)
    → JoseLaws env public_key
    → JoseLaws (at env t) public_key
JoseLaws-at t laws = record { signed = laws.signed; one_payload = laws.one_payload }

module _ (env : Env) (public_key : String → String) (laws : JoseLaws env public_key)
    (state : RuntimeState) (key : String) (unsealed : state.signer ≡ some key)
    (configured : Memᴰ (public_key key) state.keymaster_public_keys) where
  -- A token of sane claims that the daemon's key has signed is accepted at any later time.
  signed-get_auth_info :
      (signer text : String) (c : AuthInfoJwt) (later : ℕ)
      → env.jose_signer (some key) ≡ ok signer
      → env.sign_compact signer (marshal_auth c) ≡ ok text
      → sane_auth (at env later) state c ≡ true
      → get_auth_info_from_auth_jwt (at env later) state text ≡ ok (info_of c)
  unfolding get_auth_info_from_auth_jwt
  signed-get_auth_info signer text c later loaded made sane =
      let (token, parsed, checked) = laws.signed key signer (marshal_auth c) text loaded made in
      let found : jwt_claims (at env later) state unmarshal_auth token ≡ ok c =
        jwt_claims-eq-ok (at env later) (JoseLaws-at later laws) state unmarshal_auth
          (public_key key) token (marshal_auth c) c configured checked (unmarshal-marshal_auth c) in
      rw (parsed, found, sane) refl

  loaded_key :
      (signer : String)
      → env.jose_signer state.signer ≡ ok signer
      → env.jose_signer (some key) ≡ ok signer
  loaded_key signer h = ap env.jose_signer (sym unsealed) ∙ h

  read_accepts :
      (other : Env) (text token : String) (c : AuthInfoJwt)
      → other.parse_signed text ≡ ok token
      → jwt_claims other state unmarshal_auth token ≡ ok c
      → sane_auth other state c ≡ true
      → get_auth_info_from_auth_jwt other state text ≡ ok (info_of c)
  unfolding get_auth_info_from_auth_jwt
  read_accepts other text token c parsed found sane = rw (parsed, found, sane) refl

  update_made :
      (c : AuthInfoJwt) (signer : String) (level : ℕ) (text' : String)
      → sane_auth env state c ≡ true
      → (if sane_auth env state c
          then env.sign_compact signer (marshal_auth (record c { auth_type = level }))
          else err "invalid JWT values")
        ≡ ok text'
      → env.sign_compact signer (marshal_auth (record c { auth_type = level })) ≡ ok text'
  update_made c signer level text' sane h = ground arith

  -- A token of sane claims stays so.
  sane-later :
      (c : AuthInfoJwt) (level later : ℕ)
      → sane_auth env state c ≡ true
      → env.now ≤ later
      → sane_auth (at env later) state (record c { auth_type = level }) ≡ true
  unfolding unix
  sane-later c level later sane le =
      let (a, b, d, e) = (has_sane_values_iff env _ _ _ _ _ _).0 sane in
      (has_sane_values_iff (at env later) _ _ _ _ _ _).1 (a, b, d, omega arith)

  stored_type :
      (c : StorageStringDataJwt) (d : AuthInfoJwt)
      → unmarshal_auth (marshal_storage c) ≡ ok d
      → d.token_type ≡ c.token_type
  stored_type c d h = ground (arith, unmarshal_auth-marshal_storage c)

  other_type :
      (later : ℕ) (text token : String) (info : AuthInfo) (payload : JsonObject)
      → env.parse_signed text ≡ ok token
      → env.verify_payload (public_key key) token ≡ ok payload
      → ((c : AuthInfoJwt) → unmarshal_auth payload ≡ ok c → c.token_type ≡ "storage_data")
      → ¬ Session (at env later) state text info
  other_type later text token info payload parsed checked typed s =
      let same_token : s.token ≡ token = ground (arith, s.parsed) in
      let same_payload : s.verified.payload ≡ payload =
        laws.one_payload (public_key key) s.verified.key token payload s.verified.payload checked
          (rw same_token at s.verified.checked) in
      let stored : s.claims.token_type ≡ "storage_data" =
        typed s.claims (ap unmarshal_auth (sym same_payload) ∙ s.verified.decoded) in
      ground (arith, eq_iff "storage_data" "keymaster_auth", s.a_session, stored)

  -- A session cookie that the daemon makes is accepted by it at any later time, with the level and
  -- the user it was made for, issued when it was made and expiring sixteen hours after that, in
  -- whole seconds. The daemon is unsealed and its public key is among the configured ones.
  pub get_auth_info-gen_new :
      (username text : String) (level later : ℕ)
      → gen_new_serialized_auth_jwt env state username level ≡ ok text
      → env.now ≤ later
      → get_auth_info_from_auth_jwt (at env later) state text
        ≡ ok (record {
          auth_type = level;
          expires_at = from_unix (unix env.now + max_age_seconds_auth_cookie);
          issued_at = from_unix (unix env.now);
          username = username;
        })
  unfolding gen_new_serialized_auth_jwt unix
  get_auth_info-gen_new username text level later h le =
      let (signer, loaded, made) = >>=-eq-ok (env.jose_signer state.signer) _ h in
      signed-get_auth_info signer text _ later (loaded_key signer loaded) made (
        (has_sane_values_iff (at env later) _ _ _ _ _ _).1
          (refl, refl, eq_refl (idp_get_issuer state), omega arith))

  -- Raising the level of a session: the new cookie stands for the very session of the old one, but
  -- for its level. User, issue time and expiry stay, whenever the new cookie is read later.
  pub get_auth_info-update :
      (text text' : String) (level later : ℕ)
      → update_auth_jwt_with_new_auth_level env state text level ≡ ok text'
      → env.now ≤ later
      → (info : AuthInfo) × (get_auth_info_from_auth_jwt env state text ≡ ok info)
        × (get_auth_info_from_auth_jwt (at env later) state text'
            ≡ ok (record info { auth_type = level }))
  unfolding update_auth_jwt_with_new_auth_level
  get_auth_info-update text text' level later h le =
      let (signer, loaded, h1) = >>=-eq-ok (env.jose_signer state.signer) _ h in
      let (token, parsed, h2) = >>=-eq-ok (env.parse_signed text) _ h1 in
      let (claims, found, h3) = >>=-eq-ok (jwt_claims env state unmarshal_auth token) _ h2 in
      elim (Bool-cases (sane_auth env state claims)) [
        | inl sane ↦ (
          info_of claims,
          read_accepts env text token claims parsed found sane,
          signed-get_auth_info signer text' (record claims { auth_type = level }) later
              (loaded_key signer loaded) (update_made claims signer level text' sane h3)
              (sane-later claims level later sane le),
        )
        | inr insane ↦ absurd (ground arith)
      ]

  -- A stored string's token is never accepted as a session cookie, although the same key signs both.
  pub get_auth_info-storage :
      (username content text : String) (data_type expiration later : ℕ) (info : AuthInfo)
      → gen_new_serialized_storage_string_data_jwt env state username data_type content expiration
        ≡ ok text
      → get_auth_info_from_auth_jwt (at env later) state text ≢ ok info
  unfolding gen_new_serialized_storage_string_data_jwt
  get_auth_info-storage username content text data_type expiration later info h accepted =
      let (signer, loaded, made) = >>=-eq-ok (env.jose_signer state.signer) _ h in
      let (token, parsed, checked) =
        laws.signed key signer _ text (loaded_key signer loaded) made in
      other_type later text token info _ parsed checked (stored_type _)
        (get_auth_info-Session (at env later) state text info accepted)
