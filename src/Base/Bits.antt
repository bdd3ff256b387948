-- ===== src/Base/Bits.antt =====
-- `|` of disjoint fields as arithmetic, at every width, from a law for the lowest bit.
use Prim.Native.Nat.{
  ℕ, zero, suc, ◌+◌, ◌-◌, ◌*◌, ◌/◌, ◌%◌, ◌^◌, ◌≤◌, ◌<◌, max, bit_or, digits, bit_or-bitwise,
}
use mathlib.Core.Path.{◌≡◌, refl, ap, ◌∙◌}
use native.Mathlib.Omega.{arith}
use native.Mathlib.Nat.{pow-suc}

-- The union of two numbers' bits in `rounds` rounds, one for each bit of the first.
abbrev union : (rounds x y : ℕ) → ℕ
union rounds x y = digits (λ rest. rest) max rounds x y

union_nothing : (rounds y : ℕ) → union rounds 0 y ≡ y
union_nothing zero y = refl
union_nothing (suc rounds) y = refl

-- A round more than the number itself changes nothing, and so do any number of them.
union-suc : (rounds x y : ℕ) → x ≤ rounds → union (suc rounds) x y ≡ union rounds x y
union-suc rounds zero y h = omega (arith, union_nothing rounds y)
union-suc zero (suc x) y h = absurd (omega arith)
union-suc (suc rounds) (suc x) y h =
    omega (arith, union-suc rounds (suc x / 2) (y / 2) (omega arith))

union_spare : (spare rounds x y : ℕ) → x ≤ rounds → union (rounds + spare) x y ≡ union rounds x y
union_spare zero rounds x y h = ap (λ (r : ℕ). union r x y) (omega arith)
union_spare (suc spare) rounds x y h =
    let more : rounds + suc spare ≡ suc (rounds + spare) = omega arith in
    ap (λ (r : ℕ). union r x y) more
    ∙ union-suc (rounds + spare) x y (omega arith)
    ∙ union_spare spare rounds x y h

half_rounds : (x y : ℕ) → union x (suc x / 2) y ≡ bit_or (suc x / 2) y
half_rounds x y =
    let half = suc x / 2 in
    ap (λ (rounds : ℕ). union rounds half y) (omega arith)
    ∙ union_spare (x - half) half half y (omega arith)
    ∙ omega (arith, bit_or-bitwise half y)

pub bit_or_step : (x y : ℕ) → bit_or x y ≡ bit_or (x / 2) (y / 2) * 2 + max (x % 2) (y % 2)
bit_or_step zero y = omega (arith, bit_or-bitwise 0 y, bit_or-bitwise 0 (y / 2))
bit_or_step (suc x) y = omega (arith, bit_or-bitwise (suc x) y, half_rounds x (y / 2))

bit_or-zero_below : (bound x : ℕ) → x < bound → bit_or x 0 ≡ x
bit_or-zero_below zero x h = absurd (omega arith)
bit_or-zero_below (suc bound) zero h = omega (arith, bit_or-bitwise 0 0)
bit_or-zero_below (suc bound) (suc x) h =
    bit_or_step (suc x) 0 ∙ omega (arith, bit_or-zero_below bound (suc x / 2) (omega arith))

pub bit_or-zero : (x : ℕ) → bit_or x 0 ≡ x
bit_or-zero x = bit_or-zero_below (suc x) x (omega arith)

-- The parity of a union is that of either side.
pub bit_or_parity : (x y : ℕ) → bit_or x y % 2 ≡ max (x % 2) (y % 2)
bit_or_parity x y = omega (arith, bit_or_step x y)

pub bit_or-one : (x : ℕ) → bit_or x 1 ≡ x / 2 * 2 + 1
bit_or-one x = omega (arith, bit_or_step x 1, bit_or-zero (x / 2))

shift_suc : (q k : ℕ) → q * 2 ^ suc k ≡ q * 2 ^ k * 2
shift_suc q k = omega (arith, ap (λ (t : ℕ). q * t) (pow-suc 2 k))

-- A field of `k` bits below a shifted one: `(q << k) | r` is a sum.
pub bit_or_fields : (k q r : ℕ) → r < 2 ^ k → bit_or (q * 2 ^ k) r ≡ q * 2 ^ k + r
bit_or_fields zero q zero fits = rw (bit_or-zero (q * 2 ^ 0)) (omega arith)
bit_or_fields zero q (suc r) fits = absurd (omega arith)
bit_or_fields (suc k) q r fits = omega (
  arith,
  shift_suc q k,
  pow-suc 2 k,
  bit_or_step (q * 2 ^ suc k) r,
  ap (λ (t : ℕ). bit_or t (r / 2)) halved,
  bit_or_fields k q (r / 2) (omega (arith, pow-suc 2 k)),
)
  where
    halved : q * 2 ^ suc k / 2 ≡ q * 2 ^ k
    halved = omega (arith, shift_suc q k)
