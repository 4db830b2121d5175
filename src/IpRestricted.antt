-- ===== src/IpRestricted.antt =====
-- lib/certgen/iprestricted.go: the certificate extension (RFC 3779) that binds a certificate to IPv4
-- address blocks. A read out of a slice's range, which panics in Go, is an `err` here.
pub mod Decoding
pub mod Verdict
use keymaster.Prelude.{
  ℕ, zero, suc, ◌+◌, ◌-◌, ◌/◌, String, Bool, true, false, not, List, [], ◌∷◌, ◌++◌, Option, none,
  some, length, drop, replicate, str_eq, ◌==◌, ◌!=◌, if◌then◌else◌,
}
use keymaster.Prelude.Dict.{lookup}
use keymaster.Result.{Result, ok, err, ◌>>=◌}
use keymaster.Net.{IpNet, BitString, IpAddressFamily, list_eq, v4_in_16, contains_ip}
use keymaster.Http.{Certificate}
use keymaster.State.{Env}

abbrev pub oid_ip_address_delegation : String
oid_ip_address_delegation = "1.3.6.1.5.5.7.1.7"

abbrev pub ip_v4_family_encoding : List ℕ
ip_v4_family_encoding = 0 ∷ 1 ∷ 1 ∷ []

-- n bytes of a slice, each read in range
unfoldable pub read_bytes : ℕ → List ℕ → Result (List ℕ)
read_bytes zero bytes = ok []
read_bytes (suc n) [] = err "index out of range"
read_bytes (suc n) (b ∷ bytes) = do rest ← read_bytes n bytes; ok (b ∷ rest)

unfoldable pub encode_ip_address_choice : IpNet → Result BitString
encode_ip_address_choice block = if block.bits != 32 then err "not an ipv4 address" else do
  let out_len = (block.ones + 7) / 8
  let increment : ℕ = if length block.ip == 4 then 0 else 12
  output ← read_bytes out_len (drop increment block.ip)
  ok (record { bytes = output; bit_length = block.ones })

-- `for i := 0; (i * 8) < BitLength; i++`, with the rounds left, what is left of the bytes, and the
-- places left of the four
unfoldable pub decode_bytes : ℕ → List ℕ → ℕ → Result (List ℕ)
decode_bytes zero bytes places = ok (replicate places 0)
decode_bytes (suc n) bytes zero = err "index out of range"
decode_bytes (suc n) [] (suc places) = err "index out of range"
decode_bytes (suc n) (b ∷ bytes) (suc places) = do rest ← decode_bytes n bytes places; ok (b ∷ rest)

unfoldable pub decode_ip_v4_address_choice : BitString → Result IpNet
unfolding decode_bytes
decode_ip_v4_address_choice block = do
  bytes ← decode_bytes ((block.bit_length + 7) / 8) block.bytes 4
  ok (record { ip = v4_in_16 bytes; ones = block.bit_length; bits = 32 })

encode_all : List IpNet → Result (List BitString)
encode_all [] = ok []
encode_all (block ∷ blocks) = do
  encoded ← encode_ip_address_choice block
  rest ← encode_all blocks
  ok (encoded ∷ rest)

-- the inner loop of the verdict, over the addresses of a family
contains_any : List ℕ → List BitString → Result Bool
contains_any remote [] = ok false
contains_any remote (block ∷ blocks) = do
  decoded ← decode_ip_v4_address_choice block
  let rest = contains_any remote blocks
  if contains_ip decoded remote then ok true else rest

-- the outer loop, over the families
search_families : List ℕ → List IpAddressFamily → Result Bool
unfolding contains_any
search_families remote [] = ok false
search_families remote (family ∷ families) =
    let rest = search_families remote families in
    if not (list_eq family.address_family ip_v4_family_encoding)
    then rest
    else do found ← contains_any remote family.addresses; if found then ok true else rest

abbrev pub remote_bytes : Option (List ℕ) → List ℕ
remote_bytes none = []
remote_bytes (some ip) = ip

module _ (env : Env) where
  -- the extension's identifier and value
  unfoldable pub gen_delegation_extension : List IpNet → Result (String × String)
  unfolding encode_all
  gen_delegation_extension blocks = do
    addresses ← encode_all blocks
    value ←
        env.asn1_marshal
          (record { address_family = ip_v4_family_encoding; addresses = addresses } ∷ [])
    ok (oid_ip_address_delegation, value)

  unfoldable pub verify_ip_restricted_x509_cert_ip :
      Certificate → (remote_addr : String) → Result Bool
  unfolding search_families lookup
  verify_ip_restricted_x509_cert_ip cert remote_addr = do
    (host, port) ← env.split_host_port remote_addr
    let remote = remote_bytes (env.parse_ip host)
    elim (lookup oid_ip_address_delegation cert.extensions) [
      | none ↦ ok false
      | some value ↦ env.asn1_unmarshal value >>= search_families remote
    ]
