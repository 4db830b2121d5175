-- ===== src/Unseal.antt =====
-- cmd/keymasterd/unseal.go and config.go: how a daemon gets its keys, and who is told of it.
pub mod Opened
use Prim.Native.String.{◌++◌}
use keymaster.Prelude.{
  ℕ, zero, suc, String, Bool, true, false, not, ◌||◌, List, [], ◌∷◌, ◌++◌ as append, Option, none,
  some, is_some, str_eq, if◌then◌else◌,
}
use keymaster.Prelude.Dict.{lookup}
use keymaster.Result.{Result, ok, err}
use keymaster.Result
use keymaster.Http.{
  Request, Certificate, write_header, write, status_ok, status_bad_request, status_forbidden,
  status_internal_server_error, status_service_unavailable,
}
use keymaster.State.{
  Env, RuntimeState, SignerKind, rsa_signer, ecdsa_signer, ed25519_signer_kind, other_signer,
}
use keymaster.Handler.{
  M, ◌>>=◌, ◌>>◌, return, fail, emit, get_state, put_state, lift, on_error, reject_if,
}
use keymaster.Respond.{get_form, write_failure_response}
use keymaster.CertGen.{get_signer_from_pem_bytes, gen_self_signed_ca_cert}
use keymaster.Jwt.{get_key_fingerprint}

abbrev pub is_unsealed : RuntimeState → Bool
is_unsealed state = is_some state.signer

unfoldable pub readyz_handler : M (Unit {0})
readyz_handler = do
  state ← get_state
  if is_unsealed state
      then (emit (write_header status_ok) >> emit (write "OK\n"))
      else (emit (write_header status_service_unavailable) >> emit (write "not ready\n"))

module _ (env : Env) where
  -- whether a key of the fingerprint is among the keys
  unfoldable pub has_fingerprint : (fingerprint : String) → List String → Result Bool
  has_fingerprint fingerprint [] = ok false
  has_fingerprint fingerprint (key ∷ keys) =
      let rest = has_fingerprint fingerprint keys in
      Result.◌>>=◌ (get_key_fingerprint env key)
        λ fp. Result.◌>>=◌ rest λ found. ok (str_eq fingerprint fp || found)

  -- The signer's public key among the configured ones: added unless one has its fingerprint. The
  -- callers drop an error, after which the keys are as before.
  unfoldable pub signer_public_key_to_keymaster_keys :
      (signer : String) → RuntimeState → RuntimeState
  unfolding has_fingerprint
  signer_public_key_to_keymaster_keys signer state =
      elim (Result.◌>>=◌ (get_key_fingerprint env (env.public_of signer))
        λ fingerprint. has_fingerprint fingerprint state.keymaster_public_keys) [
          | err e ↦ state
          | ok found ↦ if found then state else record state {
            keymaster_public_keys = append state.keymaster_public_keys (env.public_of signer ∷ []);
          }
        ]

  unfoldable pub generate_ca_der : RuntimeState → (signer : String) → Result String
  generate_ca_der state signer =
      gen_self_signed_ca_cert env state.host_identity
        (elim state.kerberos_realm [ none ↦ state.host_identity | some realm ↦ realm ]) signer

  abbrev is_ed25519 : SignerKind → Bool
  is_ed25519 ed25519_signer_kind = true
  is_ed25519 _ = false

  -- The Ed25519 key, where there is one, which must be of that kind.
  load_ed25519_signer : (ed25519_pem : String) → RuntimeState → Result RuntimeState
  load_ed25519_signer ed25519_pem state =
      if str_eq ed25519_pem "" then ok state else elim (get_signer_from_pem_bytes env ed25519_pem) [
        | err e ↦ err e
        | ok (kind, key) ↦
            if is_ed25519 kind
            then ok (record state { ed25519_signer = some key })
            else err "not really an Ed25519 key"
      ]

  -- whether the signer may be of a kind
  abbrev signs_certificates : SignerKind → Bool
  signs_certificates rsa_signer = true
  signs_certificates ecdsa_signer = true
  signs_certificates _ = false

  -- The signer, an RSA or ECDSA key, with the authority's certificate.
  load_signer : (signer_pem : String) → RuntimeState → Result String × RuntimeState
  load_signer signer_pem state = elim (get_signer_from_pem_bytes env signer_pem) [
    | err e ↦ (err e, state)
    | ok (kind, key) ↦
        if signs_certificates kind
        then elim (generate_ca_der state key) [
          | err e ↦ (err e, record state { ca_cert_der = "" })
          | ok der ↦ (ok key, record state { ca_cert_der = der; signer = some key })
        ]
        else (err "not a valid Signer key", state)
  ]

  -- The signer that is loaded, or an error, with the state that is left: what was set before an error
  -- stays set, but the signer is set last.
  unfoldable pub load_signers_from_pem_data :
      (signer_pem ed25519_pem : String) → RuntimeState → Result String × RuntimeState
  unfolding load_ed25519_signer load_signer
  load_signers_from_pem_data signer_pem ed25519_pem state =
      elim (load_ed25519_signer ed25519_pem state) [
        | err e ↦ (err e, state)
        | ok state' ↦ load_signer signer_pem state'
      ]

  -- The prompt for the passphrase answers once.
  unfoldable pub pgp_decrypt_file_data : (cipher_text password : String) → Result String
  pgp_decrypt_file_data cipher_text password = elim (env.armor_decode cipher_text) [
    | err e ↦ err "cannot decode armored file"
    | ok body ↦ env.openpgp_read_message body password
  ]

  decrypt_ed25519 : (cipher_text password : String) → Result String
  decrypt_ed25519 cipher_text password =
      if str_eq cipher_text "" then ok "" else pgp_decrypt_file_data cipher_text password

  -- The loaded signer; the message on `SignerIsReady` wakes main up.
  unfoldable pub unseal_ca : (password : String) → RuntimeState → Result String × RuntimeState
  unfolding decrypt_ed25519 load_signers_from_pem_data signer_public_key_to_keymaster_keys
  unseal_ca password state =
      if is_unsealed state
      then (err "signer not null, already unlocked", state)
      else elim (pgp_decrypt_file_data state.ssh_ca_raw_file_content password) [
        | err e ↦ (err e, state)
        | ok signer_pem ↦ elim (decrypt_ed25519 state.ed25519_ca_file_content password) [
          | err e ↦ (err e, state)
          | ok ed25519_pem ↦
              let (loaded, state') = load_signers_from_pem_data signer_pem ed25519_pem state in
              elim loaded [
                | err e ↦ (err e, state')
                | ok signer ↦ (ok signer, signer_public_key_to_keymaster_keys signer state')
              ]
        ]
      ]

  -- One attempt: the secret with its passwords, or why it could not be had.
  unfoldable pub try_aws_unseal :
      (key : String) (secrets : Result (List (String × String)))
      → RuntimeState
      → Result String × RuntimeState
  unfolding lookup
  try_aws_unseal key secrets state = elim secrets [
    | err e ↦ (err e, state)
    | ok passwords ↦ elim (lookup key passwords) [
      | none ↦ (err "key not found in secret", state)
      | some password ↦ unseal_ca password state
    ]
  ]

  -- The loop of autoUnsealAwsLoop, on fuel; `secrets` lists what the attempts are given, one every
  -- five minutes. It is over once the daemon is unsealed.
  unfoldable pub auto_unseal_aws_loop :
      (fuel : ℕ) (key : String) (secrets : ℕ → Result (List (String × String)))
      → RuntimeState
      → Bool × RuntimeState
  unfolding try_aws_unseal
  auto_unseal_aws_loop zero key secrets state = (false, state)
  auto_unseal_aws_loop (suc fuel) key secrets state =
      if is_unsealed state
      then (true, state)
      else (let (tried, state') = try_aws_unseal key (secrets 0) state in
          let rest = auto_unseal_aws_loop fuel key (λ n. secrets (suc n)) state' in
          elim tried [ ok signer ↦ (true, state') | err e ↦ rest ])

  module _ (r : Request) where
    -- the first value of a form's key; an empty list is a panic
    first_password : List (String × List String) → Result String
    unfolding lookup
    first_password form = elim (lookup "ssh_ca_password" form) [
      | none ↦ err "missing ssh_ca_password"
      | some values ↦ elim values [ [] ↦ err "panic: index out of range" | value ∷ rest ↦ ok value ]
    ]

    -- whether the connection has verified chains, or what it is refused with
    unfoldable pub is_verified_client : M (Unit {0})
    is_verified_client = elim r.tls [
      | none ↦ write_failure_response env r status_internal_server_error "" >> fail "We require TLS"
      | some chains ↦ elim chains [
        | [] ↦ write_failure_response env r status_forbidden "" >> fail "Forbidden"
        | chain ∷ rest ↦ return tt
      ]
    ]

    -- An error of ParseForm is dropped: the form is then what it has read, here nothing.
    unfoldable pub secret_injector_handler : M (Unit {0})
    unfolding first_password is_verified_client
    secret_injector_handler = do
      is_verified_client
      let form : List (String × List String) = elim r.form [ none ↦ [] | some form ↦ form ]
      password ←
          on_error (lift (first_password form))
            (λ e. write_failure_response env r status_bad_request "Invalid Post, missing data")
      state ← get_state
      let unsealed = unseal_ca password state
      put_state unsealed.1
      signer ←
          on_error (lift unsealed.0)
            (λ e. write_failure_response env r status_bad_request ("Invalid Post, " ++ e))
      emit (write_header status_ok)
      emit (write "OK\n")
