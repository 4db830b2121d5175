-- ===== src/Jwt/Laws.antt =====
-- What the tokens' code relies on of go-jose, and what its parts do.
use keymaster.Prelude.{
  ℕ, ◌≤◌, String, true, List, [], ◌∷◌, Memᴰ, Option, none, some, ◌≡◌, refl, ◌∙◌, ap, ◌↔◌, inl, inr,
  arith, eq_iff,
}
use keymaster.Result.{Result, ok, >>=-eq-ok, Result-cases}
use keymaster.Json.{JsonObject}
use keymaster.State.{Env, RuntimeState}
use keymaster.Jwt.{unix, audience_is, claims_under, claims_loop, jwt_claims, has_sane_values}

-- A token that a signer made is read back under the signer's public key, and a token has one payload
-- whatever key checks it.
pub record JoseLaws (env : Env) (public_key : String → String) : Type 0 where
  pub signed :
      (key signer : String) (payload : JsonObject) (text : String)
      → env.jose_signer (some key) ≡ ok signer
      → env.sign_compact signer payload ≡ ok text
      → (token : String) × (env.parse_signed text ≡ ok token)
        × (env.verify_payload (public_key key) token ≡ ok payload)
  pub one_payload :
      (key other token : String) (payload payload' : JsonObject)
      → env.verify_payload key token ≡ ok payload
      → env.verify_payload other token ≡ ok payload'
      → payload' ≡ payload

module _ (env : Env) where
  -- The claims of a token that some configured key checks.
  pub record Verified {A : Type 0} (state : RuntimeState) (unmarshal : JsonObject → Result A)
      (token : String) (claims : A) : Type 0 where
    pub key : String
    pub configured : Memᴰ key state.keymaster_public_keys
    pub payload : JsonObject
    pub checked : env.verify_payload key token ≡ ok payload
    pub decoded : unmarshal payload ≡ ok claims

  claims_loop_sound :
      {A : Type 0} (unmarshal : JsonObject → Result A) (token : String) (keys : List String)
      (last : Option String) (claims : A)
      → claims_loop env unmarshal token keys last ≡ ok claims
      → (key : String) × Memᴰ key keys × (claims_under env unmarshal token key ≡ ok claims)
  unfolding claims_loop
  claims_loop_sound unmarshal token [] none claims h = cc
  claims_loop_sound unmarshal token [] (some e) claims h = cc
  claims_loop_sound unmarshal token (key ∷ keys) last claims h =
      elim (Result-cases (claims_under env unmarshal token key)) [
        | inl (e, failed) ↦
            let (k, m, c) =
              claims_loop_sound unmarshal token keys (some e) claims
                (rw (failed, claims_loop) at h) in
            (k, Memᴰ.tail m, c)
        | inr (c, done) ↦ (key, Memᴰ.head refl, done ∙ (rw (done, claims_loop) at h))
      ]

  pub jwt_claims-Verified :
      {A : Type 0} (state : RuntimeState) (unmarshal : JsonObject → Result A) (token : String)
      (claims : A)
      → jwt_claims env state unmarshal token ≡ ok claims
      → Verified state unmarshal token claims
  unfolding jwt_claims
  jwt_claims-Verified state unmarshal token claims h =
      let (key, m, under) =
        claims_loop_sound unmarshal token state.keymaster_public_keys none claims h in
      let (payload, checked, decoded) = >>=-eq-ok (env.verify_payload key token) unmarshal under in
      record { key = key; configured = m; payload = payload; checked = checked; decoded = decoded }

  claims_loop_complete :
      {A : Type 0} (unmarshal : JsonObject → Result A) (token : String) (payload : JsonObject)
      (claims : A) (keys : List String) (last : Option String) (key : String)
      → ((other : String) (p : JsonObject) → env.verify_payload other token ≡ ok p → p ≡ payload)
      → unmarshal payload ≡ ok claims
      → Memᴰ key keys
      → env.verify_payload key token ≡ ok payload
      → claims_loop env unmarshal token keys last ≡ ok claims
  unfolding claims_loop
  claims_loop_complete unmarshal token payload claims [] last key unique decoded m checked =
      elim m [ ]
  claims_loop_complete unmarshal token payload claims (x ∷ keys) last key unique decoded
        (Memᴰ.head e) checked =
      rw (← e, claims_loop, checked, decoded) refl
  claims_loop_complete unmarshal token payload claims (x ∷ keys) last key unique decoded
        (Memᴰ.tail m) checked =
      elim (Result-cases (env.verify_payload x token)) [
        | inl (e, failed) ↦
            rw (failed, claims_loop)
              (claims_loop_complete unmarshal token payload claims keys (some e) key unique decoded
                m checked)
        | inr (p, done) ↦ rw (done, claims_loop, ap unmarshal (unique x p done), decoded) refl
      ]

  -- A payload that a configured key checks is decoded whatever keys come before that one.
  pub jwt_claims-eq-ok :
      {A : Type 0} {public_key : String → String} (laws : JoseLaws env public_key)
      (state : RuntimeState) (unmarshal : JsonObject → Result A) (key token : String)
      (payload : JsonObject) (claims : A)
      → Memᴰ key state.keymaster_public_keys
      → env.verify_payload key token ≡ ok payload
      → unmarshal payload ≡ ok claims
      → jwt_claims env state unmarshal token ≡ ok claims
  unfolding jwt_claims
  jwt_claims-eq-ok laws state unmarshal key token payload claims m checked decoded =
      claims_loop_complete unmarshal token payload claims state.keymaster_public_keys none key
        (λ other p h. laws.one_payload key other token payload p checked h) decoded m checked

  -- The tests of `has_sane_values`, spelled out.
  pub has_sane_values_iff :
      (issuer wanted its_issuer its_type : String) (audience : List String) (not_before : ℕ)
      → (has_sane_values env issuer wanted its_issuer its_type audience not_before ≡ true) ↔ (
          (its_issuer ≡ issuer)
          × (its_type ≡ wanted)
          × (audience_is issuer audience ≡ true)
          × (not_before ≤ unix env.now))
  unfolding has_sane_values
  has_sane_values_iff issuer wanted its_issuer its_type audience not_before =
      ground (arith, eq_iff its_issuer issuer, eq_iff its_type wanted)
