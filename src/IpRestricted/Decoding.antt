-- ===== src/IpRestricted/Decoding.antt =====
-- A block that is encoded and decoded again holds the same addresses.
use keymaster.Prelude.{
  ℕ, zero, suc, ◌+◌, ◌*◌, ◌/◌, ◌≤◌, true, List, [], ◌∷◌, some, ◌≡◌, refl, sym, subst, ap, ◌∙◌,
  arith, bit_and, bit_and-zero, length, drop, length-drop, replicate, ◌==◌, if◌then◌else◌,
}
use keymaster.Result.{ok}
use keymaster.Net.{
  IpNet, BitString, mask_byte, mask_bytes, list_eq, v4_in_16, to4, network_number_and_mask,
  agree_under, contains_ip,
}
use keymaster.IpRestricted.{
  read_bytes, encode_ip_address_choice, decode_bytes, decode_ip_v4_address_choice,
}

-- The first n bytes, and those followed by zeros.
first : ℕ → List ℕ → List ℕ
first zero v = []
first (suc n) [] = []
first (suc n) (a ∷ v) = a ∷ first n v

kept : ℕ → List ℕ → List ℕ
kept n [] = []
kept zero (a ∷ v) = 0 ∷ kept zero v
kept (suc n) (a ∷ v) = a ∷ kept n v

read_bytes-first : (n : ℕ) (v : List ℕ) → n ≤ length v → read_bytes n v ≡ ok (first n v)
unfolding read_bytes first
read_bytes-first zero v h = refl
read_bytes-first (suc n) [] h = absurd (omega arith)
read_bytes-first (suc n) (a ∷ v) h = rw (read_bytes-first n v (omega arith))

replicate-kept : (v : List ℕ) → replicate (length v) 0 ≡ kept zero v
unfolding kept
replicate-kept [] = refl
replicate-kept (a ∷ v) = rw (replicate-kept v)

decode_bytes-first :
    (n : ℕ) (v : List ℕ) → n ≤ length v → decode_bytes n (first n v) (length v) ≡ ok (kept n v)
unfolding decode_bytes first kept
decode_bytes-first zero v h = ap ok (replicate-kept v)
decode_bytes-first (suc n) [] h = absurd (omega arith)
decode_bytes-first (suc n) (a ∷ v) h = rw (decode_bytes-first n v (omega arith))

mask_byte-zero : (ones i : ℕ) → ones ≤ 8 * i → mask_byte ones i ≡ 0
unfolding mask_byte
mask_byte-zero ones i h = ground arith

-- Bytes that the mask does not reach do not matter.
agree_under-kept :
    (n ones i k : ℕ) (v ip : List ℕ)
    → ones ≤ 8 * (i + n)
    → agree_under (kept n v) (mask_bytes ones i k) ip ≡ agree_under v (mask_bytes ones i k) ip
unfolding agree_under kept mask_bytes
agree_under-kept n ones i k [] ip h = refl
agree_under-kept zero ones i zero (a ∷ v) ip h = refl
agree_under-kept (suc n) ones i zero (a ∷ v) ip h = refl
agree_under-kept zero ones i (suc k) (a ∷ v) [] h = refl
agree_under-kept zero ones i (suc k) (a ∷ v) (b ∷ ip) h = rw (
  mask_byte-zero ones i (omega arith),
  bit_and-zero a,
  agree_under-kept zero ones (suc i) k v ip (omega arith),
)
agree_under-kept (suc n) ones i (suc k) (a ∷ v) [] h = refl
agree_under-kept (suc n) ones i (suc k) (a ∷ v) (b ∷ ip) h =
    rw (agree_under-kept n ones (suc i) k v ip (omega arith))

-- An address with an IPv4 form has its four bytes at the end.
to4-drop :
    (ip v4 : List ℕ)
    → to4 ip ≡ some v4
    → (drop (if length ip == 4 then 0 else 12) ip ≡ v4) × (length v4 ≡ 4)
unfolding to4
to4-drop ip v4 h = ground (arith, length-drop 12 ip)

list_eq_refl : (l : List ℕ) → list_eq l l ≡ true
unfolding list_eq
list_eq_refl [] = refl
list_eq_refl (a ∷ l) = ground (arith, list_eq_refl l)

to4-v4_in_16 : (v4 : List ℕ) → length v4 ≡ 4 → to4 (v4_in_16 v4) ≡ some v4
unfolding to4
to4-v4_in_16 v4 h = ground (arith, list_eq_refl v4)

network-v4 :
    (block : IpNet) (v4 : List ℕ)
    → block.bits ≡ 32
    → to4 block.ip ≡ some v4
    → length v4 ≡ 4
    → network_number_and_mask block ≡ (v4, mask_bytes block.ones 0 4)
unfolding network_number_and_mask
network-v4 block v4 wide short four = ground arith

length-kept : (n : ℕ) (v : List ℕ) → length (kept n v) ≡ length v
unfolding kept
length-kept n [] = refl
length-kept zero (a ∷ v) = omega (arith, length-kept zero v)
length-kept (suc n) (a ∷ v) = omega (arith, length-kept n v)

-- The block that `kept` bytes stand for contains the same addresses.
contains_ip-kept :
    (block : IpNet) (v4 : List ℕ) (n : ℕ) (ip : List ℕ)
    → block.bits ≡ 32
    → to4 block.ip ≡ some v4
    → length v4 ≡ 4
    → block.ones ≤ 8 * n
    → contains_ip (record { ip = v4_in_16 (kept n v4); ones = block.ones; bits = 32 }) ip
      ≡ contains_ip block ip
unfolding contains_ip
contains_ip-kept block v4 n ip wide short four enough =
    let four' : length (kept n v4) ≡ 4 = length-kept n v4 ∙ four in
    rw
      (
        network-v4 block v4 wide short four,
        network-v4 (record { ip = v4_in_16 (kept n v4); ones = block.ones; bits = 32 }) (kept n v4)
            refl (to4-v4_in_16 (kept n v4) four') four',
      )
      (agree_under-kept n block.ones 0 4 v4 _ (omega arith))

encode-first :
    (block : IpNet) (v4 : List ℕ)
    → block.bits ≡ 32
    → drop (if length block.ip == 4 then 0 else 12) block.ip ≡ v4
    → (block.ones + 7) / 8 ≤ length v4
    → encode_ip_address_choice block
      ≡ ok (record { bytes = first ((block.ones + 7) / 8) v4; bit_length = block.ones })
unfolding encode_ip_address_choice
encode-first block v4 wide dropped enough =
    rw (wide, dropped, read_bytes-first ((block.ones + 7) / 8) v4 enough) refl

decode-first :
    (ones : ℕ) (v4 : List ℕ)
    → length v4 ≡ 4
    → (ones + 7) / 8 ≤ length v4
    → decode_ip_v4_address_choice (record { bytes = first ((ones + 7) / 8) v4; bit_length = ones })
      ≡ ok (record { ip = v4_in_16 (kept ((ones + 7) / 8) v4); ones = ones; bits = 32 })
unfolding decode_ip_v4_address_choice
decode-first ones v4 four enough =
    let bytes : decode_bytes ((ones + 7) / 8) (first ((ones + 7) / 8) v4) 4
        ≡ ok (kept ((ones + 7) / 8) v4) =
      rw (← four) (decode_bytes-first ((ones + 7) / 8) v4 enough) in
    rw bytes

-- No byte has a bit that the mask does not reach.
abbrev pub Masked : (ones i : ℕ) → List ℕ → Type 0
Masked ones i [] = Unit
Masked ones i (b ∷ bytes) = (bit_and b (mask_byte ones i) ≡ b) × Masked ones (suc i) bytes

-- A string of bits in the form that DER has one form of: as many bytes as its bits need, and no bit
-- set after the last one.
abbrev pub IsPadded : BitString → Type 0
IsPadded s = (length s.bytes ≡ (s.bit_length + 7) / 8) × Masked s.bit_length 0 s.bytes

Masked-first : (n ones i : ℕ) (v : List ℕ) → Masked ones i v → Masked ones i (first n v)
unfolding first
Masked-first zero ones i v m = tt
Masked-first (suc n) ones i [] m = tt
Masked-first (suc n) ones i (a ∷ v) (here, m) = (here, Masked-first n ones (suc i) v m)

length-first : (n : ℕ) (v : List ℕ) → n ≤ length v → length (first n v) ≡ n
unfolding first
length-first zero v h = refl
length-first (suc n) [] h = absurd (omega arith)
length-first (suc n) (a ∷ v) h = omega (arith, length-first n v (omega arith))

-- A network whose address has no bit after its mask is encoded without one.
pub encode-IsPadded :
    (block : IpNet) (v4 : List ℕ) (encoded : BitString)
    → block.bits ≡ 32
    → block.ones ≤ 32
    → to4 block.ip ≡ some v4
    → Masked block.ones 0 v4
    → encode_ip_address_choice block ≡ ok encoded
    → IsPadded encoded
encode-IsPadded block v4 encoded wide narrow short masked made =
    let (dropped, four) = to4-drop block.ip v4 short in
    let enough : (block.ones + 7) / 8 ≤ length v4 = omega arith in
    let same : record { bytes = first ((block.ones + 7) / 8) v4; bit_length = block.ones }
        ≡ encoded =
      let both = sym (encode-first block v4 wide dropped enough) ∙ made in cc in
    subst IsPadded same (
      length-first ((block.ones + 7) / 8) v4 enough,
      Masked-first ((block.ones + 7) / 8) block.ones 0 v4 masked,
    )

-- A block of an IPv4 network, given in four bytes or in sixteen, goes through its encoding: both
-- directions succeed, and the decoded block contains exactly the addresses that the given one
-- contains, although the bytes under its mask's end are gone.
pub decode-encode :
    (block : IpNet) (v4 : List ℕ)
    → block.bits ≡ 32
    → block.ones ≤ 32
    → to4 block.ip ≡ some v4
    → (encoded : BitString) × (decoded : IpNet) × (encode_ip_address_choice block ≡ ok encoded)
      × (decode_ip_v4_address_choice encoded ≡ ok decoded)
      × ((ip : List ℕ) → contains_ip decoded ip ≡ contains_ip block ip)
decode-encode block v4 wide narrow short =
    let (dropped, four) = to4-drop block.ip v4 short in
    (
      record { bytes = first ((block.ones + 7) / 8) v4; bit_length = block.ones },
      record { ip = v4_in_16 (kept ((block.ones + 7) / 8) v4); ones = block.ones; bits = 32 },
      encode-first block v4 wide dropped (omega arith),
      decode-first block.ones v4 four (omega arith),
      λ ip. contains_ip-kept block v4 ((block.ones + 7) / 8) ip wide short four (omega arith),
    )
