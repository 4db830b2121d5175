-- ===== src/Prelude/Bits.antt =====
-- Laws of the bitwise operations at variables, from the digit recursion they stand for.
use Prim.Native.Nat.{
  ℕ, zero, suc, ◌+◌, ◌*◌, ◌/◌, ◌%◌, ◌≤◌, min, max, bit_and, bit_or, digits, bit_and-bitwise,
  bit_or-bitwise,
}
use mathlib.Core.Path.{◌≡◌, refl}
use native.Mathlib.Omega.{arith}

digits_zero :
    (rest : ℕ → ℕ) (op : ℕ → ℕ → ℕ) (n m y : ℕ) → digits rest op n 0 y ≡ digits rest op m 0 y
digits_zero rest op zero zero y = refl
digits_zero rest op zero (suc m) y = refl
digits_zero rest op (suc n) zero y = refl
digits_zero rest op (suc n) (suc m) y = refl

-- The digit recursion needs no more fuel than its first argument.
digits_fuel :
    (rest : ℕ → ℕ) (op : ℕ → ℕ → ℕ) (n m x y : ℕ)
    → x ≤ n
    → x ≤ m
    → digits rest op n x y ≡ digits rest op m x y
digits_fuel rest op n m zero y p q = digits_zero rest op n m y
digits_fuel rest op zero m (suc x) y p q = absurd (omega arith)
digits_fuel rest op (suc n) zero (suc x) y p q = absurd (omega arith)
digits_fuel rest op (suc n) (suc m) (suc x) y p q =
    rw (digits_fuel rest op n m (suc x / 2) (y / 2) (omega arith) (omega arith)) refl

pub and_lowest : (x y : ℕ) → bit_and x y ≡ bit_and (x / 2) (y / 2) * 2 + min (x % 2) (y % 2)
and_lowest zero y = omega (arith, bit_and-bitwise 0 y, bit_and-bitwise 0 (y / 2))
and_lowest (suc x) y = omega (
  arith,
  bit_and-bitwise (suc x) y,
  bit_and-bitwise (suc x / 2) (y / 2),
  digits_fuel (λ y. zero) min x (suc x / 2) (suc x / 2) (y / 2) (omega arith) (omega arith),
)

pub or_lowest : (x y : ℕ) → bit_or x y ≡ bit_or (x / 2) (y / 2) * 2 + max (x % 2) (y % 2)
or_lowest zero y = omega (arith, bit_or-bitwise 0 y, bit_or-bitwise 0 (y / 2))
or_lowest (suc x) y = omega (
  arith,
  bit_or-bitwise (suc x) y,
  bit_or-bitwise (suc x / 2) (y / 2),
  digits_fuel (λ y. y) max x (suc x / 2) (suc x / 2) (y / 2) (omega arith) (omega arith),
)

half-bit_or : (x y : ℕ) → bit_or x y / 2 ≡ bit_or (x / 2) (y / 2)
half-bit_or x y = omega (arith, or_lowest x y)

parity-bit_or : (x y : ℕ) → bit_or x y % 2 ≡ max (x % 2) (y % 2)
parity-bit_or x y = omega (arith, or_lowest x y)

-- The step of both sides, once their halves agree.
and_or_step :
    (x y z : ℕ)
    → bit_and (bit_or (x / 2) (y / 2)) (z / 2)
      ≡ bit_or (bit_and (x / 2) (z / 2)) (bit_and (y / 2) (z / 2))
    → bit_and (bit_or x y) z ≡ bit_or (bit_and x z) (bit_and y z)
and_or_step x y z ih =
    let left : bit_and (bit_or x y) z
        ≡ bit_and (bit_or (x / 2) (y / 2)) (z / 2) * 2 + min (max (x % 2) (y % 2)) (z % 2) =
      rw (and_lowest (bit_or x y) z, half-bit_or x y, parity-bit_or x y) refl in
    let half_a : bit_and x z / 2 ≡ bit_and (x / 2) (z / 2) = omega (arith, and_lowest x z) in
    let half_b : bit_and y z / 2 ≡ bit_and (y / 2) (z / 2) = omega (arith, and_lowest y z) in
    let right : bit_or (bit_and x z) (bit_and y z)
        ≡ bit_or (bit_and (x / 2) (z / 2)) (bit_and (y / 2) (z / 2)) * 2
          + max (bit_and x z % 2) (bit_and y z % 2) =
      rw (or_lowest (bit_and x z) (bit_and y z), half_a, half_b) refl in
    omega (arith, left, right, ih, and_lowest x z, and_lowest y z)

and_or_fuel :
    (fuel x y z : ℕ)
    → x ≤ fuel
    → y ≤ fuel
    → bit_and (bit_or x y) z ≡ bit_or (bit_and x z) (bit_and y z)
and_or_fuel zero zero zero z p q =
    let none_left : bit_and 0 z ≡ 0 = bit_and-bitwise 0 z in rw none_left
and_or_fuel zero (suc x) y z p q = absurd (omega arith)
and_or_fuel zero zero (suc y) z p q = absurd (omega arith)
and_or_fuel (suc fuel) x y z p q =
    and_or_step x y z (and_or_fuel fuel (x / 2) (y / 2) (z / 2) (omega arith) (omega arith))

-- `and` distributes over `or`.
pub bit_and-bit_or : (x y z : ℕ) → bit_and (bit_or x y) z ≡ bit_or (bit_and x z) (bit_and y z)
bit_and-bit_or x y z = and_or_fuel (x + y) x y z (omega arith) (omega arith)

or_zero_fuel : (fuel x : ℕ) → x ≤ fuel → bit_or x 0 ≡ x
or_zero_fuel fuel zero le = refl
or_zero_fuel zero (suc x) le = absurd (omega arith)
or_zero_fuel (suc fuel) (suc x) le =
    omega (arith, or_lowest (suc x) 0, or_zero_fuel fuel (suc x / 2) (omega arith))

pub bit_or-zero : (x : ℕ) → bit_or x 0 ≡ x
bit_or-zero x = or_zero_fuel x x (omega arith)

-- Setting flags leaves every disjoint flag as it was.
pub bit_and-bit_or_disjoint :
    (x flag other : ℕ) → bit_and flag other ≡ 0 → bit_and (bit_or x flag) other ≡ bit_and x other
bit_and-bit_or_disjoint x flag other le =
    rw (bit_and-bit_or x flag other, le) (bit_or-zero (bit_and x other))

or_absorb_fuel : (fuel x y : ℕ) → x ≤ fuel → y ≤ fuel → bit_and (bit_or x y) y ≡ y
or_absorb_fuel zero zero zero p q = refl
or_absorb_fuel zero (suc x) y p q = absurd (omega arith)
or_absorb_fuel zero zero (suc y) p q = absurd (omega arith)
or_absorb_fuel (suc fuel) x y p q =
    let ih = or_absorb_fuel fuel (x / 2) (y / 2) (omega arith) (omega arith) in
    let left : bit_and (bit_or x y) y
        ≡ bit_and (bit_or (x / 2) (y / 2)) (y / 2) * 2 + min (max (x % 2) (y % 2)) (y % 2) =
      rw (and_lowest (bit_or x y) y, half-bit_or x y, parity-bit_or x y) refl in
    omega (arith, left, ih)

-- The flags that were set are all there.
pub bit_and-bit_or_self : (x flag : ℕ) → bit_and (bit_or x flag) flag ≡ flag
bit_and-bit_or_self x flag = or_absorb_fuel (x + flag) x flag (omega arith) (omega arith)

and_zero_fuel : (fuel x : ℕ) → x ≤ fuel → bit_and x 0 ≡ 0
and_zero_fuel fuel zero le = refl
and_zero_fuel zero (suc x) le = absurd (omega arith)
and_zero_fuel (suc fuel) (suc x) le =
    omega (arith, and_lowest (suc x) 0, and_zero_fuel fuel (suc x / 2) (omega arith))

pub bit_and-zero : (x : ℕ) → bit_and x 0 ≡ 0
bit_and-zero x = and_zero_fuel x x (omega arith)
