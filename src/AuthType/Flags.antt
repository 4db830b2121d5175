-- ===== src/AuthType/Flags.antt =====
-- What setting a flag of a level does to the tests on it.
use keymaster.Prelude.{
  ℕ, ◌≡◌, true, arith, bit_and, bit_or, bit_and-bit_or_self, bit_and-bit_or_disjoint,
}
use keymaster.AuthType.{has, meets}

has-bit_or_self : (level flag : ℕ) → has (bit_or level flag) flag ≡ true
has-bit_or_self level flag = ground (arith, bit_and-bit_or_self level flag)

has-bit_or_disjoint :
    (level flag other : ℕ)
    → bit_and flag other ≡ 0
    → has (bit_or level flag) other ≡ has level other
has-bit_or_disjoint level flag other h = rw (bit_and-bit_or_disjoint level flag other h)

meets-bit_or_disjoint :
    (level flag other : ℕ)
    → bit_and flag other ≡ 0
    → meets (bit_or level flag) other ≡ meets level other
meets-bit_or_disjoint level flag other h = rw (bit_and-bit_or_disjoint level flag other h)
