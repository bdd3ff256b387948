-- ===== src/String/Number.antt =====
-- `strtol` of lib/string.c, for a base that is not negative. The value is a `long` of 32 bits in two's
-- complement; loops over the string take fuel.
use joslab4_init.Base.{
  ℕ, zero, suc, ◌+◌, ◌-◌, ◌*◌, ◌^◌, Bool, true, false, ◌&&◌, ◌||◌, Option, none, some, leb, ◌==◌,
  u32, if◌then◌else◌,
}
use joslab4_init.Memory.{Memory}

unfoldable pub skip_blanks : ℕ → Memory → (s : ℕ) → Option ℕ
skip_blanks zero m s = none
skip_blanks (suc fuel) m s =
    let rest = skip_blanks fuel m (suc s) in if (m s == 32) || (m s == 9) then rest else some s

-- The place behind the sign, and whether it is a minus.
unfoldable pub read_sign : Memory → (s : ℕ) → ℕ × Bool
read_sign m s =
    if m s == 43 then (suc s, false) else if m s == 45 then (suc s, true) else (s, false)

-- The place behind the prefix of the base, and the base.
unfoldable pub read_base : Memory → (s base : ℕ) → ℕ × ℕ
read_base m s base =
    if ((base == 0) || (base == 16)) && ((m s == 48) && (m (s + 1) == 120))
    then (s + 2, 16)
    else if (base == 0) && (m s == 48)
    then (suc s, 8)
    else if base == 0
    then (s, 10)
    else (s, base)

unfoldable pub digit_of : (c : ℕ) → Option ℕ
digit_of c =
    if leb 48 c && leb c 57
    then some (c - 48)
    else if leb 97 c && leb c 122
    then some (c - 97 + 10)
    else if leb 65 c && leb c 90
    then some (c - 65 + 10)
    else none

abbrev pub is_digit : (base : ℕ) → Option ℕ → Bool
is_digit base none = false
is_digit base (some dig) = leb (dig + 1) base

abbrev pub add_digit : (base val : ℕ) → Option ℕ → ℕ
add_digit base val none = val
add_digit base val (some dig) = u32 (val * base + dig)

-- The end of the digits and the value.
unfoldable pub read_digits : ℕ → Memory → (s base val : ℕ) → Option (ℕ × ℕ)
read_digits zero m s base val = none
read_digits (suc fuel) m s base val =
    let dig = digit_of (m s) in
    let rest = read_digits fuel m (suc s) base (add_digit base val dig) in
    if is_digit base dig then rest else some (s, val)

-- The end and the value; `none` is the end of the fuel.
unfoldable pub strtol : ℕ → Memory → (s base : ℕ) → Option (ℕ × ℕ)
strtol fuel m s base = elim (skip_blanks fuel m s) [
  | none ↦ none
  | some s1 ↦
      let (s2, neg) = read_sign m s1 in
      let (s3, b) = read_base m s2 base in
      elim (read_digits fuel m s3 b 0) [
        | none ↦ none
        | some (end, val) ↦ some (end, if neg then u32 (2 ^ 32 - val) else val)
      ]
]
