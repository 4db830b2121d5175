-- ===== src/Keys.antt =====
-- The keys and certificates of lib/certgen: what the crypto libraries hold of them that the code
-- reads, and the fields that it fills in.
use keymaster.Prelude.{ℕ, String, Bool, List, Option}
use keymaster.Prelude.Int.{ℤ}

-- A public key: the size in bytes and exponent of an RSA key, the size in bits of a curve, and the
-- serialised key.
pub data PublicKey : Type 0 where
  rsa : (size exponent : ℕ) (text : String) → PublicKey
  ecdsa : (bit_size : ℕ) (text : String) → PublicKey
  ed25519 : (text : String) → PublicKey
  other_key : (text : String) → PublicKey

-- `crypto_key` is none where the key is no ssh.CryptoPublicKey.
pub record SshKey : Type 0 where
  pub algorithm : String
  pub crypto_key : Option PublicKey

-- Times are Unix seconds in 64 bits.
pub record SshCertificate : Type 0 where
  pub key : SshKey
  pub is_user_cert : Bool
  pub valid_principals : List String
  pub key_id : String
  pub valid_after : ℕ
  pub valid_before : ℕ
  pub serial : ℕ
  pub extensions : List String

-- Times are nanoseconds since year 1; an end before that is possible in principle.
pub record X509Template : Type 0 where
  pub serial_number : ℕ
  pub common_name : String
  pub subject_serial_number : String
  pub organizations : List String
  pub not_before : ℕ
  pub not_after : ℤ
  pub key_usage : List String
  pub ext_key_usage : List String
  pub is_ca : Bool
  pub extra_extensions : List (String × String)
