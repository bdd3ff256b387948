-- ===== src/Printfmt/Number.antt =====
-- `printnum` prints the numeral of a number, padded on the left to the width.
use native.Mathlib.Nat.{mod-lt, div-add-mod', mod-eq_of_lt, suc-mul, pow-suc}
use native.Mathlib.Decide.{dec_lt}
use mathlib.Core.List.{map, map-append, append_assoc}
use joslab4_init.Base.{
  ℕ, zero, suc, ◌+◌, ◌-◌, Bool, true, ◌&&◌, ◌==◌, ltb, ◌⊎◌, if◌then◌else◌, ◌*◌, ◌/◌, ◌%◌, ◌^◌, ◌≤◌,
  ◌<◌, ◌≡◌, ◌≢◌, ◌∙◌, ap, refl, sym, false, Option, some, List, [], ◌∷◌, ◌++◌, arith, length,
  length-append, All, leb, le→leb,
}
use joslab4_init.Base.Int.{ℤ, pos, negsuc, minus_ℕ}
use joslab4_init.Printfmt.{append_to, digit_char, pads, printnum}
use joslab4_init.Printfmt.Convert.{spaces}

-- The number that the digits denote after the digits of `acc`.
abbrev pub value : (base acc : ℕ) → List ℕ → ℕ
value base acc [] = acc
value base acc (d ∷ ds) = value base (acc * base + d) ds

-- No zero leads a numeral of more than one digit.
abbrev pub IsCanonical : List ℕ → Type 0
IsCanonical [] = ⊥
IsCanonical (d ∷ []) = Unit
IsCanonical (d ∷ e ∷ ds) = d ≢ 0

-- The digits of the number `num`.
pub record IsNumeral (base num : ℕ) (ds : List ℕ) : Type 0 where
  pub digits : All (λ d. d < base) ds
  pub denotes : value base 0 ds ≡ num
  pub canonical : IsCanonical ds

value-append :
    (base acc : ℕ) (ds : List ℕ) (d : ℕ)
    → value base acc (ds ++ d ∷ []) ≡ value base acc ds * base + d
value-append base acc [] d = refl
value-append base acc (x ∷ ds) d = value-append base (acc * base + x) ds d

All-append :
    (base : ℕ) (ds : List ℕ) (d : ℕ)
    → All (λ x. x < base) ds
    → d < base
    → All (λ x. x < base) (ds ++ d ∷ [])
All-append base [] d a h = (h, tt)
All-append base (x ∷ ds) d (a, rest) h = (a, All-append base ds d rest h)

-- A numeral of a positive number can be extended.
IsCanonical-append :
    (base : ℕ) (ds : List ℕ) (d : ℕ)
    → IsCanonical ds
    → 0 < value base 0 ds
    → IsCanonical (ds ++ d ∷ [])
IsCanonical-append base [] d c h = absurd c
IsCanonical-append base (x ∷ []) d c h = omega arith
IsCanonical-append base (x ∷ y ∷ ds) d c h = c

zero_mul : (base : ℕ) → 0 * base ≡ 0
zero_mul base = omega arith

twice_le : (q base : ℕ) → 2 ≤ base → q * 2 ≤ q * base
twice_le zero base h = omega arith
twice_le (suc q) base h = omega (arith, twice_le q base h, suc-mul q base)

quotient_lt : (k num base : ℕ) → 2 ≤ base → num < 2 ^ suc k → num / base < 2 ^ k
quotient_lt k num base h fits =
    omega (arith, pow-suc 2 k, twice_le (num / base) base h, div-add-mod' num base)

quotient_pos : (num base : ℕ) → 2 ≤ base → base ≤ num → 0 < num / base
quotient_pos num base h le = elim (dec_lt 0 (num / base)) [
  | yes p ↦ p
  | no p ↦
      let none_left : num / base ≡ 0 = omega arith in
      let product : num / base * base ≡ 0 = rw none_left (zero_mul base) in
      absurd (omega (arith, product, div-add-mod' num base, mod-lt num {m = base} (omega arith)))
]

IsNumeral-append :
    (base num : ℕ) (ds : List ℕ)
    → 2 ≤ base
    → base ≤ num
    → IsNumeral base (num / base) ds
    → IsNumeral base num (ds ++ num % base ∷ [])
IsNumeral-append base num ds h le n = record {
  digits = All-append base ds (num % base) n.digits (mod-lt num (omega arith));
  denotes = omega (
    arith,
    value-append base 0 ds (num % base),
    ap (λ (x : ℕ). x * base) n.denotes,
    div-add-mod' num base,
  );
  canonical =
      IsCanonical-append base ds (num % base) n.canonical
        (omega (arith, n.denotes, quotient_pos num base h le));
}

lt→leb : (a b : ℕ) → b < a → leb a b ≡ false
lt→leb a b h = ground arith

minus_minus : (w : ℤ) (a b : ℕ) → minus_ℕ (minus_ℕ w a) b ≡ minus_ℕ w (b + a)
minus_minus (pos n) a b = ground arith
minus_minus (negsuc n) a b = ground arith

pads-spaces : (padc : ℕ) (w : ℤ) → pads padc w ≡ spaces padc (minus_ℕ w 1)
pads-spaces padc (pos zero) = ground arith
pads-spaces padc (pos (suc n)) = ground arith
pads-spaces padc (negsuc n) = refl

printnum_one :
    (fuel num base : ℕ) (width : ℤ) (padc : ℕ)
    → num < base
    → printnum (suc fuel) num base width padc
      ≡ some (spaces padc (minus_ℕ width 1) ++ digit_char num ∷ [])
unfolding printnum
printnum_one fuel num base width padc h =
    rw (lt→leb base num h, mod-eq_of_lt h, pads-spaces padc width) refl

printnum_more :
    (fuel num base : ℕ) (width : ℤ) (padc : ℕ)
    → base ≤ num
    → printnum (suc fuel) num base width padc
      ≡ append_to (printnum fuel (num / base) base (minus_ℕ width 1) padc) (digit_char (num % base))
unfolding printnum
printnum_more fuel num base width padc h = rw (le→leb base num h) refl

one_digit : (num base : ℕ) → num < base → IsNumeral base num (num ∷ [])
one_digit num base h = record {
  digits = (h, tt);
  denotes = omega (arith, zero_mul base);
  canonical = tt;
}

-- The digits before the last one, and the last one.
joined :
    (fuel num base : ℕ) (width : ℤ) (padc : ℕ) (ds : List ℕ)
    → base ≤ num
    → printnum fuel (num / base) base (minus_ℕ width 1) padc
      ≡ some (spaces padc (minus_ℕ (minus_ℕ width 1) (length ds)) ++ map digit_char ds)
    → printnum (suc fuel) num base width padc
      ≡ some (
          spaces padc (minus_ℕ width (length (ds ++ num % base ∷ [])))
          ++ map digit_char (ds ++ num % base ∷ []))
joined fuel num base width padc ds h ran =
    let d = num % base in
    let w : minus_ℕ (minus_ℕ width 1) (length ds) ≡ minus_ℕ width (length (ds ++ d ∷ [])) =
      minus_minus width 1 (length ds)
      ∙ ap (λ (n : ℕ). minus_ℕ width n) (omega (arith, length-append ds (d ∷ []))) in
    printnum_more fuel num base width padc h
    ∙ ap (λ (o : Option (List ℕ)). append_to o (digit_char d)) ran
    ∙ ap (λ (out : List ℕ). some out)
        (append_assoc (spaces padc (minus_ℕ (minus_ℕ width 1) (length ds))) (map digit_char ds)
            (digit_char d ∷ [])
          ∙ ap (λ (out : List ℕ). spaces padc (minus_ℕ (minus_ℕ width 1) (length ds)) ++ out)
              (sym (map-append digit_char ds (d ∷ [])))
          ∙ ap (λ (v : ℤ). spaces padc v ++ map digit_char (ds ++ d ∷ [])) w)

-- `printnum` ends in a base of at least 2, with one round more than the number has binary digits.
pub printnum-digits :
    (k num base : ℕ) (width : ℤ) (padc : ℕ)
    → 2 ≤ base
    → num < 2 ^ k
    → (ds : List ℕ) × (printnum (suc k) num base width padc
        ≡ some (spaces padc (minus_ℕ width (length ds)) ++ map digit_char ds))
      × IsNumeral base num ds
printnum-digits zero num base width padc h fits =
    let small : num < base = omega arith in
    (num ∷ [], printnum_one 0 num base width padc small, one_digit num base small)
printnum-digits (suc k) num base width padc h fits = elim (dec_lt num base) [
  | yes small ↦ (num ∷ [], printnum_one (suc k) num base width padc small, one_digit num base small)
  | no large ↦
      let (ds, ran, n) =
        printnum-digits k (num / base) base (minus_ℕ width 1) padc h
          (quotient_lt k num base h fits) in
      (
        ds ++ num % base ∷ [],
        joined (suc k) num base width padc ds (omega arith) ran,
        IsNumeral-append base num ds h (omega arith) n,
      )
]

-- How a digit is read back: the characters 0 to 9, and a to f.
abbrev pub IsHex : ℕ → Type 0
IsHex c = ((48 ≤ c) × (c ≤ 57)) ⊎ ((97 ≤ c) × (c ≤ 102))

abbrev pub hex_value : ℕ → ℕ
hex_value c = if leb c 57 then c - 48 else c - 87

all_below : (n : ℕ) → (ℕ → Bool) → Bool
all_below zero f = true
all_below (suc n) f = f n && all_below n f

all_below_lem : (n : ℕ) (f : ℕ → Bool) → all_below n f ≡ true → (i : ℕ) → i < n → f i ≡ true
unfolding all_below
all_below_lem zero f h i lt = absurd (omega arith)
all_below_lem (suc n) f h i lt = elim (dec_lt i n) [
  | yes below ↦ all_below_lem n f (ground arith) i below
  | no last ↦ let here : i ≡ n = omega arith in rw here (ground arith)
]

abbrev shown : ℕ → ℕ
shown d = if ltb d 10 then 48 + d else 87 + d

==-eq : (a b : ℕ) → (a == b) ≡ true → a ≡ b
==-eq a b h = ground arith

digit_char-shown : (d : ℕ) → d < 16 → digit_char d ≡ shown d
unfolding all_below
digit_char-shown d h =
    let same : (digit_char d == shown d) ≡ true =
      all_below_lem 16 (λ i. digit_char i == shown i) refl d h in
    ==-eq (digit_char d) (shown d) same

digit_char-IsHex : (d : ℕ) → d < 16 → IsHex (digit_char d) × (hex_value (digit_char d) ≡ d)
digit_char-IsHex d h = rw (digit_char-shown d h) (ground arith)

length-map : (f : ℕ → ℕ) (xs : List ℕ) → length (map f xs) ≡ length xs
length-map f [] = refl
length-map f (x ∷ xs) = ap suc (length-map f xs)

chars-IsHex :
    (base : ℕ) (ds : List ℕ)
    → base ≤ 16
    → All (λ d. d < base) ds
    → All IsHex (map digit_char ds) × (map hex_value (map digit_char ds) ≡ ds)
chars-IsHex base [] h a = (tt, refl)
chars-IsHex base (d ∷ ds) h (small, rest) =
    let (is_hex, e) = digit_char-IsHex d (omega arith) in
    let (are_hex, es) = chars-IsHex base ds h rest in
    (
      (is_hex, are_hex),
      ap (λ (x : ℕ). x ∷ map hex_value (map digit_char ds)) e ∙ ap (λ (xs : List ℕ). d ∷ xs) es,
    )

-- `printnum` in a base from 2 to 16, with one round more than the number has binary digits, ends; it
-- prints characters of 0-9 and a-f that, read as digits, are the number's numeral, the most significant
-- digit first, behind as many pad characters as the numeral is shorter than the width.
pub printnum-IsNumeral :
    (k num base : ℕ) (width : ℤ) (padc : ℕ)
    → 2 ≤ base
    → base ≤ 16
    → num < 2 ^ k
    → (cs : List ℕ) × (printnum (suc k) num base width padc
        ≡ some (spaces padc (minus_ℕ width (length cs)) ++ cs))
      × All IsHex cs
      × IsNumeral base num (map hex_value cs)
printnum-IsNumeral k num base width padc h top fits =
    let (ds, ran, n) = printnum-digits k num base width padc h fits in
    let (are_hex, e) = chars-IsHex base ds top n.digits in
    (map digit_char ds, ran ∙ rw (length-map digit_char ds) refl, are_hex, rw e n)
