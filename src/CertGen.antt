-- ===== src/CertGen.antt =====
-- lib/certgen/certgen.go: the strength a key must have, and the certificates made for a user.
use Prim.Native.String.{◌++◌}
use keymaster.Prelude.{
  ℕ, suc, ◌+◌, ◌-◌, ◌*◌, ◌/◌, ◌%◌, ◌^◌, String, Bool, true, false, List, [], ◌∷◌, ◌++◌ as append,
  Option, none, some, ltb, str_eq, if◌then◌else◌,
}
use keymaster.Prelude.Int.{ℤ, pos, negsuc, ◌+ℤ◌}
use keymaster.Result.{Result, ok, err, ◌>>=◌}
use keymaster.Keys.{PublicKey, rsa, ecdsa, ed25519, other_key, SshCertificate, X509Template}
use keymaster.State.{Env, SignerKind, other_signer}
use keymaster.Jwt.{second, unix}

unfoldable pub validate_public_key_strength : PublicKey → Bool
validate_public_key_strength (rsa size exponent text) =
    if ltb size 256 then false else if ltb exponent 65537 then false else true
validate_public_key_strength (ecdsa bit_size text) = if ltb bit_size 255 then false else true
validate_public_key_strength (ed25519 text) = true
validate_public_key_strength (other_key text) = false

abbrev u64_mod : ℕ
u64_mod = 2 ^ 64

-- `currentEpoch + uint64(duration.Seconds())`: the seconds are cut towards zero, and a negative
-- number of them becomes its two's complement, as the conversion does on amd64.
unfoldable pub expire_epoch : (current : ℕ) → (duration : ℤ) → ℕ
expire_epoch current (pos n) = (current + n / second) % u64_mod
expire_epoch current (negsuc n) = (current + (u64_mod - suc n / second)) % u64_mod

-- `(currentEpoch << 32) | nBig`, the low half being free
unfoldable pub serial_of : (current low : ℕ) → ℕ
serial_of current low = current * 2 ^ 32 % u64_mod + low

abbrev ssh_extensions : List String
ssh_extensions =
    "permit-X11-forwarding" ∷ "permit-agent-forwarding" ∷ "permit-port-forwarding" ∷ "permit-pty"
    ∷ "permit-user-rc" ∷ []

module _ (env : Env) where
  -- the certificate, and the line of its file
  unfoldable pub gen_ssh_cert_file_string :
      (username user_pub_key signer host_identity : String) (duration : ℤ)
      → Result (String × SshCertificate)
  gen_ssh_cert_file_string username user_pub_key signer host_identity duration = do
    user_key ← env.parse_authorized_key user_pub_key
    let current_epoch = unix env.now
    low ← env.rand_int 0xFFFFFFFF
    let cert : SshCertificate = record {
      key = user_key;
      is_user_cert = true;
      valid_principals = username ∷ [];
      key_id = host_identity ++ "_" ++ username;
      valid_after = current_epoch;
      valid_before = expire_epoch current_epoch duration;
      serial = serial_of current_epoch low;
      extensions = ssh_extensions;
    }
    text ← env.sign_ssh_cert signer cert
    ok (text, cert)

  unfoldable pub gen_san_extension :
      (user_name : String) → Option String → Result (List (String × String))
  gen_san_extension user_name none = ok []
  gen_san_extension user_name (some realm) = do
    value ← env.kerberos_name user_name realm
    ok (("2.5.29.17", value) ∷ [])

  unfoldable pub get_group_list_extension : List String → Result (List (String × String))
  get_group_list_extension [] = ok []
  get_group_list_extension (group ∷ groups) = do
    value ← env.marshal_groups (group ∷ groups)
    ok (("1.3.6.1.4.1.9586.100.7.2", value) ∷ [])

  -- the template and the certificate
  unfoldable pub gen_user_x509_cert :
      (user_name : String) (user_pub : PublicKey) (ca_cert ca_priv : String)
      (kerberos_realm : Option String) (duration : ℤ) (groups organizations : List String)
      → Result (X509Template × String)
  gen_user_x509_cert user_name user_pub ca_cert ca_priv kerberos_realm duration groups
        organizations =
      do
        serial_number ← env.rand_int (2 ^ 128)
        san_extension ← gen_san_extension user_name kerberos_realm
        group_list_extension ← get_group_list_extension groups
        let template : X509Template = record {
          serial_number = serial_number;
          common_name = user_name;
          subject_serial_number = "";
          organizations = organizations;
          not_before = env.now;
          not_after = pos env.now +ℤ duration;
          key_usage = "DigitalSignature" ∷ "KeyEncipherment" ∷ "KeyAgreement" ∷ [];
          ext_key_usage = "ClientAuth" ∷ "1.3.6.1.5.2.3.4" ∷ [];
          is_ca = false;
          extra_extensions = append group_list_extension san_extension;
        }
        der ← env.create_certificate template ca_cert user_pub ca_priv
        ok (template, der)

  -- a key that is one of the three kinds
  abbrev is_recognized : SignerKind → Bool
  is_recognized other_signer = false
  is_recognized _ = true

  abbrev recognized : SignerKind × String → Result (SignerKind × String)
  recognized parsed = if is_recognized parsed.0 then ok parsed else err "Type not recognized"

  unfoldable pub get_signer_from_pem_bytes : String → Result (SignerKind × String)
  get_signer_from_pem_bytes private_key = elim (env.pem_decode private_key) [
    | none ↦ err "Cannot decode Private Key"
    | some (block_type, bytes) ↦
        if str_eq block_type "RSA PRIVATE KEY"
        then env.parse_pkcs1_private_key bytes
        else if str_eq block_type "EC PRIVATE KEY"
        then env.parse_ec_private_key bytes
        else if str_eq block_type "PRIVATE KEY"
        then env.parse_pkcs8_private_key bytes >>= recognized
        else if str_eq block_type "OPENSSH PRIVATE KEY"
        then env.parse_raw_private_key private_key >>= recognized
        else err "Cannot process that key"
  ]

  -- An authority for eight years. Its serial number in the subject is a hash of its signature on its
  -- name.
  unfoldable pub gen_self_signed_ca_cert :
      (common_name organization ca_priv : String) → Result String
  gen_self_signed_ca_cert common_name organization ca_priv = do
    serial_number ← env.rand_int (2 ^ 128)
    signed_cn ← env.signature_of ca_priv (env.sha256 common_name)
    let template : X509Template = record {
      serial_number = serial_number;
      common_name = common_name;
      subject_serial_number = env.base64_std (env.sha256 signed_cn);
      organizations = organization ∷ [];
      not_before = env.now;
      not_after = pos (env.now + 24 * 365 * 8 * 3600 * second);
      key_usage = "DigitalSignature" ∷ "KeyEncipherment" ∷ "CertSign" ∷ [];
      ext_key_usage = [];
      is_ca = true;
      extra_extensions = [];
    }
    env.create_self_signed template (env.public_key_of ca_priv) ca_priv
