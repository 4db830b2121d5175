-- ===== src/Idp/Pkce.antt =====
-- cmd/keymasterd/idp_oidc.go and 2fa_totp.go: the code challenge, sealed under a key that only this
-- daemon's signer can recover.
use Prim.Native.String.{len, slice}
use keymaster.Prelude.{
  ℕ, String, Bool, false, ◌||◌, List, [], ◌∷◌, none, some, ltb, str_eq, if◌then◌else◌,
}
use keymaster.Prelude.Dict.{lookup}
use keymaster.Result.{Result, ok, err, ◌>>=◌}
use keymaster.Json.{JsonObject, texts, as_texts}
use keymaster.State.{Env, RuntimeState}
use keymaster.Totp.{decrypt_with_public_keys}
use keymaster.Idp.Tokens.{
  KeymasterdIdpCodeProtectedData, KeymasterdCodeToken, marshal_protected, unmarshal_protected,
}

-- the size of the nonce of AES-GCM
abbrev nonce_size : ℕ
nonce_size = 12

-- EncryptedKeySet, whose byte strings are written in base64
abbrev marshal_keyset : List String → JsonObject
marshal_keyset rsa_oaep = ("rsa_oaep", texts rsa_oaep) ∷ []

module _ (env : Env) where
  encrypt_all : (public_keys : List String) (clear_text : String) → Result (List String)
  encrypt_all [] clear_text = ok []
  encrypt_all (key ∷ keys) clear_text =
      let rest = encrypt_all keys clear_text in
      elim (env.rsa_encrypt key clear_text) [
        | none ↦ rest
        | some encrypted ↦ do
          cipher_text ← encrypted
          cipher_texts ← rest
          ok (cipher_text ∷ cipher_texts)
      ]

  unfoldable pub encrypt_with_public_keys :
      RuntimeState → (clear_text : String) → Result (List String)
  unfolding encrypt_all
  encrypt_with_public_keys state clear_text = do
    cipher_texts ← encrypt_all state.keymaster_public_keys clear_text
    elim cipher_texts [ [] ↦ err "cannot encrypt with any key" | first ∷ rest ↦ ok (first ∷ rest) ]

  unfoldable pub encrypt_key_and_serialize : RuntimeState → (key : String) → Result String
  unfolding encrypt_with_public_keys
  encrypt_key_and_serialize state key = do
    rsa_oaep ← encrypt_with_public_keys state key
    env.json_text (marshal_keyset rsa_oaep)

  unfoldable pub deserialize_keyset_into_plaintext_key :
      RuntimeState → (serialized_key_set : String) → Result String
  unfolding lookup
  deserialize_keyset_into_plaintext_key state serialized_key_set = do
    o ← env.json_object serialized_key_set
    rsa_oaep ← as_texts (lookup "rsa_oaep" o)
    decrypt_with_public_keys env state.signer rsa_oaep

  -- A nonce that is too short is a panic.
  trimmed_nonce : (nonce : String) → Result String
  trimmed_nonce nonce =
      if ltb (len nonce) nonce_size
      then err "panic: slice bounds out of range"
      else ok (slice nonce 0 nonce_size)

  unfoldable pub seal_encode_data : (plain_text nonce key : String) → Result String
  unfolding trimmed_nonce
  seal_encode_data plain_text nonce key = do
    short ← trimmed_nonce nonce
    env.aes_gcm_seal key short plain_text

  unfoldable pub decode_open_data : (cipher_text nonce key : String) → Result String
  unfolding trimmed_nonce
  decode_open_data cipher_text nonce key = do
    short ← trimmed_nonce nonce
    env.aes_gcm_open key short cipher_text

  -- what the challenge of a method accepts
  abbrev pub meets_challenge : KeymasterdIdpCodeProtectedData → (code_verifier : String) → Bool
  meets_challenge d code_verifier =
      if str_eq d.code_challenge_method "" || str_eq d.code_challenge_method "plain"
      then str_eq code_verifier d.code_challenge
      else if str_eq d.code_challenge_method "S256"
      then str_eq (env.sha256_base64 code_verifier) d.code_challenge
      else false

  unfoldable pub opened_challenge :
      RuntimeState → KeymasterdCodeToken → Result KeymasterdIdpCodeProtectedData
  unfolding deserialize_keyset_into_plaintext_key decode_open_data
  opened_challenge state code = do
    key ← deserialize_keyset_into_plaintext_key state code.protected_data_key
    plain_text ← decode_open_data code.protected_data code.jwt_id key
    o ← env.json_object plain_text
    unmarshal_protected o

  unfoldable pub idp_open_idc_valid_code_verifier :
      RuntimeState → (code_verifier : String) → KeymasterdCodeToken → Bool
  unfolding opened_challenge
  idp_open_idc_valid_code_verifier state code_verifier code = elim (opened_challenge state code) [
    | err e ↦ false
    | ok d ↦ meets_challenge d code_verifier
  ]

  -- the challenge of an authorization request, sealed with the code's identifier as the nonce: the
  -- cipher text and the key set
  unfoldable pub sealed_challenge :
      RuntimeState → KeymasterdIdpCodeProtectedData → (jwt_id : String) → Result (String × String)
  unfolding encrypt_key_and_serialize seal_encode_data
  sealed_challenge state d jwt_id = if str_eq d.code_challenge "" then ok ("", "") else do
    plain_text ← env.json_text (marshal_protected d)
    key ← env.random_bytes
    key_set ← encrypt_key_and_serialize state key
    cipher_text ← seal_encode_data plain_text jwt_id key
    ok (cipher_text, key_set)
