-- ===== src/IpRestricted/Verdict.antt =====
-- From the blocks that a certificate is issued for to the verdict on a remote address.
use keymaster.Prelude.{
  ℕ, ◌≤◌, String, Bool, true, false, List, [], ◌∷◌, none, some, ◌≡◌, refl, subst, inl, inr, arith,
  any, All, ◌||◌, ◌≢◌, Bool-cases,
}
use keymaster.Prelude.Dict.{lookup}
use keymaster.Result.{ok, >>=-eq-ok}
use keymaster.Net.{IpNet, BitString, to4, list_eq, contains_ip}
use keymaster.Http.{Certificate}
use keymaster.State.{Env}
use keymaster.IpRestricted.{
  oid_ip_address_delegation, ip_v4_family_encoding, encode_ip_address_choice,
  decode_ip_v4_address_choice, encode_all, contains_any, search_families, remote_bytes,
  gen_delegation_extension, verify_ip_restricted_x509_cert_ip,
}
use keymaster.IpRestricted.Decoding.{Masked, IsPadded, encode-IsPadded, decode-encode}

-- An IPv4 network in CIDR form: the address has no bit after the mask, as net.ParseCIDR gives it.
pub record IsIpV4 (block : IpNet) : Type 0 where
  pub v4 : List ℕ
  pub wide : block.bits ≡ 32
  pub narrow : block.ones ≤ 32
  pub short : to4 block.ip ≡ some v4
  pub masked : Masked block.ones 0 v4

encode_all-IsPadded :
    (blocks : List IpNet) (encoded : List BitString)
    → All IsIpV4 blocks
    → encode_all blocks ≡ ok encoded
    → All IsPadded encoded
unfolding encode_all
encode_all-IsPadded [] encoded v h = let e : [] ≡ encoded = cc in subst (All IsPadded) e tt
encode_all-IsPadded (block ∷ blocks) encoded (v, vs) h =
    let (one, made, h1) = >>=-eq-ok (encode_ip_address_choice block) _ h in
    let (rest, more, h2) = >>=-eq-ok (encode_all blocks) _ h1 in
    let e : one ∷ rest ≡ encoded = cc in
    subst (All IsPadded) e (
      encode-IsPadded block v.v4 one v.wide v.narrow v.short v.masked made,
      encode_all-IsPadded blocks rest vs more,
    )

-- The verdict on the encoded form of one block.
contains-encoded :
    (block : IpNet) (encoded : BitString) (remote : List ℕ)
    → IsIpV4 block
    → encode_ip_address_choice block ≡ ok encoded
    → (decoded : IpNet) × (decode_ip_v4_address_choice encoded ≡ ok decoded)
      × (contains_ip decoded remote ≡ contains_ip block remote)
contains-encoded block encoded remote v made =
    let (encoded', decoded, made', back, same) = decode-encode block v.v4 v.wide v.narrow v.short in
    let e : encoded' ≡ encoded = cc in (decoded, rw e at back, same remote)

contains_any-cons :
    (remote : List ℕ) (encoded : BitString) (blocks : List BitString) (decoded : IpNet)
    (answer : Bool)
    → decode_ip_v4_address_choice encoded ≡ ok decoded
    → contains_any remote blocks ≡ ok answer
    → contains_any remote (encoded ∷ blocks) ≡ ok (contains_ip decoded remote || answer)
unfolding contains_any
contains_any-cons remote encoded blocks decoded answer back rest =
    elim (Bool-cases (contains_ip decoded remote)) [
      | inl hit ↦ rw (back, hit)
      | inr miss ↦ rw (back, miss, rest)
    ]

contains_any-nil : (remote : List ℕ) → contains_any remote [] ≡ ok false
unfolding contains_any
contains_any-nil remote = refl

contains_any-encode_all :
    (remote : List ℕ) (blocks : List IpNet) (encoded : List BitString)
    → All IsIpV4 blocks
    → encode_all blocks ≡ ok encoded
    → contains_any remote encoded ≡ ok (any (λ b. contains_ip b remote) blocks)
unfolding encode_all
contains_any-encode_all remote [] encoded v h =
    let e : [] ≡ encoded = cc in rw (← e) (contains_any-nil remote)
contains_any-encode_all remote (block ∷ blocks) encoded (v, vs) h =
    let (one, made, h1) = >>=-eq-ok (encode_ip_address_choice block) _ h in
    let (rest, more, h2) = >>=-eq-ok (encode_all blocks) _ h1 in
    let (decoded, back, same) = contains-encoded block one remote v made in
    let e : one ∷ rest ≡ encoded = cc in
    rw (← e, ← same)
      (contains_any-cons remote one rest decoded _ back
        (contains_any-encode_all remote blocks rest vs more))

-- A list of one family of IPv4 addresses.
search_families-one :
    (remote : List ℕ) (addresses : List BitString) (answer : Bool)
    → contains_any remote addresses ≡ ok answer
    → search_families remote
        (record { address_family = ip_v4_family_encoding; addresses = addresses } ∷ [])
      ≡ ok answer
unfolding search_families list_eq
search_families-one remote addresses answer h = ground arith

module _ (env : Env)
    (asn1 : (addresses : List BitString) (value : String)
      → All IsPadded addresses
      → env.asn1_marshal
          (record { address_family = ip_v4_family_encoding; addresses = addresses } ∷ [])
        ≡ ok value
      → env.asn1_unmarshal value
        ≡ ok (record { address_family = ip_v4_family_encoding; addresses = addresses } ∷ [])) where
  -- A certificate that carries the extension made for a list of IPv4 networks is valid for exactly
  -- the remote addresses that lie in one of them, the host part of the address being read as the
  -- library reads it. ASN.1 is assumed to give back a family of IPv4 addresses whose strings of bits
  -- are padded with zeros to whole bytes.
  pub verify-gen_delegation :
      (blocks : List IpNet) (oid value : String) (cert : Certificate)
      (remote_addr host port : String)
      → All IsIpV4 blocks
      → gen_delegation_extension env blocks ≡ ok (oid, value)
      → lookup oid cert.extensions ≡ some value
      → env.split_host_port remote_addr ≡ ok (host, port)
      → verify_ip_restricted_x509_cert_ip env cert remote_addr
        ≡ ok (any (λ b. contains_ip b (remote_bytes (env.parse_ip host))) blocks)
  unfolding gen_delegation_extension verify_ip_restricted_x509_cert_ip
  verify-gen_delegation blocks oid value cert remote_addr host port v made found split =
      let remote = remote_bytes (env.parse_ip host) in
      let (addresses, encoded, h1) = >>=-eq-ok (encode_all blocks) _ made in
      let (bytes, marshalled, h2) = >>=-eq-ok (env.asn1_marshal _) _ h1 in
      let same_oid : oid_ip_address_delegation ≡ oid = ground arith in
      let same_value : bytes ≡ value = ground arith in
      let listed : lookup oid_ip_address_delegation cert.extensions ≡ some bytes =
        rw (same_oid, same_value) found in
      rw
        (
          split,
          listed,
          asn1 addresses bytes (encode_all-IsPadded blocks addresses v encoded) marshalled,
        )
        (search_families-one remote addresses _
          (contains_any-encode_all remote blocks addresses v encoded))

  -- A certificate without the extension is valid for no address.
  verify-no_extension :
      (cert : Certificate) (remote_addr : String)
      → lookup oid_ip_address_delegation cert.extensions ≡ none
      → verify_ip_restricted_x509_cert_ip env cert remote_addr ≢ ok true
  unfolding verify_ip_restricted_x509_cert_ip
  verify-no_extension cert remote_addr h = ground arith
