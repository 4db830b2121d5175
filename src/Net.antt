-- ===== src/Net.antt =====
-- net.IPNet of Go's library as lib/certgen uses it, with the wire forms of
-- lib/certgen/iprestricted.go. An address is its bytes, four or sixteen; a mask is the number of its
-- ones and its width in bits.
use keymaster.Prelude.{
  ℕ, zero, suc, ◌+◌, ◌-◌, ◌*◌, ◌^◌, Bool, true, false, ◌&&◌, List, [], ◌∷◌, Option, none, some,
  bit_and, length, drop, leb, ◌==◌, if◌then◌else◌,
}

pub record IpNet : Type 0 where
  pub ip : List ℕ
  pub ones : ℕ
  pub bits : ℕ

pub record BitString : Type 0 where
  pub bytes : List ℕ
  pub bit_length : ℕ

pub record IpAddressFamily : Type 0 where
  pub address_family : List ℕ
  pub addresses : List BitString

-- Byte i of a mask with so many ones.
unfoldable pub mask_byte : (ones i : ℕ) → ℕ
mask_byte ones i =
    if leb (8 * (i + 1)) ones
    then 255
    else if leb ones (8 * i)
    then 0
    else 256 - 2 ^ (8 * (i + 1) - ones)

-- n bytes of a mask, from byte i on
unfoldable pub mask_bytes : (ones i n : ℕ) → List ℕ
mask_bytes ones i zero = []
mask_bytes ones i (suc n) = mask_byte ones i ∷ mask_bytes ones (suc i) n

unfoldable pub list_eq : List ℕ → List ℕ → Bool
list_eq [] [] = true
list_eq (a ∷ xs) (b ∷ ys) = a == b && list_eq xs ys
list_eq [] (b ∷ ys) = false
list_eq (a ∷ xs) [] = false

-- An IPv4 address in sixteen bytes, `net.IPv4(a, b, c, d)` with the four bytes in a list.
unfoldable pub v4_in_16 : List ℕ → List ℕ
v4_in_16 v4 = 0 ∷ 0 ∷ 0 ∷ 0 ∷ 0 ∷ 0 ∷ 0 ∷ 0 ∷ 0 ∷ 0 ∷ 255 ∷ 255 ∷ v4

-- `ip.To4()`
unfoldable pub to4 : List ℕ → Option (List ℕ)
unfolding list_eq v4_in_16
to4 ip =
    if length ip == 4
    then some ip
    else if length ip == 16 && list_eq ip (v4_in_16 (drop 12 ip))
    then some (drop 12 ip)
    else none

-- The network number and mask of `Contains`, both empty where they do not fit.
unfoldable pub network_number_and_mask : IpNet → List ℕ × List ℕ
network_number_and_mask n =
    let number : List ℕ = elim (to4 n.ip) [
      | some v4 ↦ v4
      | none ↦ if length n.ip == 16 then n.ip else []
    ] in
    if n.bits == 32 && length number == 4
    then (number, mask_bytes n.ones 0 4)
    else (if n.bits == 128 && length number == 4
        then (number, mask_bytes n.ones 12 4)
        else if n.bits == 128
        then (number, mask_bytes n.ones 0 16)
        else ([], []))

-- The loop of `Contains`, over bytes of equal number.
unfoldable pub agree_under : (number mask ip : List ℕ) → Bool
agree_under (a ∷ number) (m ∷ mask) (b ∷ ip) =
    bit_and a m == bit_and b m && agree_under number mask ip
agree_under [] _ [] = true
agree_under _ _ _ = false

-- `n.Contains(ip)`, where a nil address has no bytes
unfoldable pub contains_ip : IpNet → List ℕ → Bool
contains_ip n ip =
    let short : List ℕ = elim (to4 ip) [ some v4 ↦ v4 | none ↦ ip ] in
    let (number, mask) = network_number_and_mask n in agree_under number mask short
