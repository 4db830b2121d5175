-- ===== src/Tests/Blocks.antt =====
-- The verdict on an address, at a certificate for one block.
use keymaster.Prelude.{
  ℕ, String, Bool, true, false, ◌&&◌, List, [], ◌∷◌, ◌≡◌, refl, arith, ◌==◌, if◌then◌else◌, any,
  All, Bool-cases, inl, inr,
}
use keymaster.Result.{Result, ok, err}
use keymaster.Net.{IpNet, BitString, IpAddressFamily, contains_ip}
use keymaster.Http.{Certificate}
use keymaster.State.{Env}
use keymaster.IpRestricted.{remote_bytes, verify_ip_restricted_x509_cert_ip}
use keymaster.IpRestricted.Decoding.{IsPadded}
use keymaster.IpRestricted.Verdict.{verify-gen_delegation}
use keymaster.Tests.Data.{env_example}

numbers_eq : List ℕ → List ℕ → Bool
numbers_eq [] [] = true
numbers_eq (a ∷ xs) (b ∷ ys) = a == b && numbers_eq xs ys
numbers_eq [] (b ∷ ys) = false
numbers_eq (a ∷ xs) [] = false

numbers_eq_sound : (xs ys : List ℕ) → numbers_eq xs ys ≡ true → xs ≡ ys
unfolding numbers_eq
numbers_eq_sound [] [] h = refl
numbers_eq_sound (a ∷ xs) (b ∷ ys) h = ground (arith, numbers_eq_sound xs ys)
numbers_eq_sound [] (b ∷ ys) h = absurd (ground arith)
numbers_eq_sound (a ∷ xs) [] h = absurd (ground arith)

-- Whether the families are the one of IPv4 with the one block 10.16.0.0/12.
is_block : List IpAddressFamily → Bool
unfolding numbers_eq
is_block (family ∷ []) = elim family.addresses [
  | [] ↦ false
  | address ∷ more ↦ elim more [
    | [] ↦
        numbers_eq family.address_family (0 ∷ 1 ∷ 1 ∷ [])
        && (numbers_eq address.bytes (10 ∷ 16 ∷ []) && address.bit_length == 12)
    | next ∷ rest ↦ false
  ]
]
is_block [] = false
is_block (family ∷ next ∷ rest) = false

abbrev encoded_block : List IpAddressFamily
encoded_block =
    record {
      address_family = 0 ∷ 1 ∷ 1 ∷ [];
      addresses = record { bytes = 10 ∷ 16 ∷ []; bit_length = 12 } ∷ [];
    }
    ∷ []

is_block_sound :
    (families : List IpAddressFamily) → is_block families ≡ true → families ≡ encoded_block
unfolding is_block
is_block_sound [] h = absurd (ground arith)
is_block_sound (family ∷ next ∷ rest) h = absurd (ground arith)
is_block_sound (family ∷ []) h = go family.address_family family.addresses h
  where
    go :
        (f : List ℕ) (addresses : List BitString)
        → is_block (record { address_family = f; addresses = addresses } ∷ []) ≡ true
        → record { address_family = f; addresses = addresses } ∷ [] ≡ encoded_block
    go f [] h' = absurd (ground arith)
    go f (address ∷ next ∷ rest) h' = absurd (ground arith)
    go f (address ∷ []) h' =
        ground (
          arith,
          numbers_eq_sound f (0 ∷ 1 ∷ 1 ∷ []),
          numbers_eq_sound address.bytes (10 ∷ 16 ∷ []),
        )

unfoldable pub marshal_block : List IpAddressFamily → Result String
unfolding is_block
marshal_block families = if is_block families then ok "block" else err "unused"

abbrev env_block : Env
env_block = record env_example {
  asn1_marshal = marshal_block;
  asn1_unmarshal = λ value. ok encoded_block;
}

abbrev v4_family : List BitString → List IpAddressFamily
v4_family addresses = record { address_family = 0 ∷ 1 ∷ 1 ∷ []; addresses = addresses } ∷ []

marshal_block_back :
    (addresses : List BitString) (value : String)
    → All IsPadded addresses
    → env_block.asn1_marshal (v4_family addresses) ≡ ok value
    → env_block.asn1_unmarshal value ≡ ok (v4_family addresses)
unfolding marshal_block
marshal_block_back addresses value padded h = elim (Bool-cases (is_block (v4_family addresses))) [
  | inl same ↦ rw (is_block_sound (v4_family addresses) same) refl
  | inr other ↦ absurd (ground arith)
]

abbrev block : IpNet
block = record { ip = 10 ∷ 16 ∷ 0 ∷ 0 ∷ []; ones = 12; bits = 32 }

abbrev cert : Certificate
cert = record {
  common_name = "robot";
  not_before = 0;
  public_key = "k";
  extensions = ("1.3.6.1.5.5.7.1.7", "block") ∷ [];
}

verify-gen_delegation_example :
    verify_ip_restricted_x509_cert_ip env_block cert "10.1.2.3:1"
    ≡ ok (any (λ b. contains_ip b (remote_bytes (env_block.parse_ip "10.1.2.3:1"))) (block ∷ []))
unfolding keymaster.Net.to4 keymaster.IpRestricted.gen_delegation_extension
    keymaster.IpRestricted.encode_ip_address_choice keymaster.IpRestricted.read_bytes marshal_block
    keymaster.Prelude.Dict.lookup keymaster.Net.mask_byte
verify-gen_delegation_example =
    verify-gen_delegation env_block marshal_block_back (block ∷ []) "1.3.6.1.5.5.7.1.7" "block" cert
      "10.1.2.3:1" "10.1.2.3:1" "443"
      (
        record {
          v4 = 10 ∷ 16 ∷ 0 ∷ 0 ∷ [];
          wide = refl;
          narrow = omega arith;
          short = refl;
          masked = (refl, (refl, (refl, (refl, tt))));
        },
        tt,
      )
      refl refl refl
