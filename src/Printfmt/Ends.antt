-- ===== src/Printfmt/Ends.antt =====
-- The conversions of one argument end.
use native.Mathlib.Nat.{pow-suc}
use joslab4_init.Base.{
  ℕ, zero, suc, ◌+◌, ◌^◌, ◌≤◌, ◌<◌, ◌≡◌, ◌∙◌, ap, refl, inl, inr, Bool, true, false, not, ◌||◌,
  Option, none, some, List, [], ◌∷◌, ◌++◌, arith, length, get_or, All, leb, ◌==◌, if◌then◌else◌,
  eq→==, Bool-cases,
}
use joslab4_init.Base.Int.{ℤ, is_negative, is_positive, int32, minus_ℕ}
use joslab4_init.Base.Text.{codes}
use joslab4_init.Memory.{Memory}
use joslab4_init.Printfmt.{
  Printed, printed, no_args, out_of_fuel, and_then, printnum, Flags, no_flags,
}
use joslab4_init.Printfmt.Convert.{
  emit, next_arg, getuint, getint, signed, literal, error_string, error_text, magnitude, shown,
  put_chars, put_string, put_signed, put_error, pointer_chars, Kind, character, error, string,
  decimal, number, pointer, percent, other, put_kind,
}
use joslab4_init.Printfmt.Number.{printnum-digits}

-- A run that does not run out of fuel, and whose value, if it has one, satisfies `P`.
unfoldable pub Ends : {A : Type 0} → Printed A → (A → Type 0) → Type 0
Ends (printed out a) P = P a
Ends no_args P = Unit
Ends out_of_fuel P = ⊥

pub Ends-append :
    {A : Type 0} (out : List ℕ) (r : Printed A) (P : A → Type 0)
    → Ends r P
    → Ends
        (elim r [
          | printed more b ↦ printed (out ++ more) b
          | no_args ↦ no_args
          | out_of_fuel ↦ out_of_fuel
        ])
        P
unfolding Ends
Ends-append out (printed more a) P e = e
Ends-append out no_args P e = e
Ends-append out out_of_fuel P e = e

pub Ends-bind :
    {A B : Type 0} (r : Printed A) (k : A → Printed B) (P : A → Type 0) (Q : B → Type 0)
    → Ends r P
    → ((a : A) → P a → Ends (k a) Q)
    → Ends (and_then r k) Q
unfolding Ends
Ends-bind (printed out a) k P Q e f = Ends-append out (k a) Q (f a e)
Ends-bind no_args k P Q e f = tt
Ends-bind out_of_fuel k P Q e f = absurd e

pub Ends-printed :
    {A : Type 0} (out : List ℕ) (a : A) (P : A → Type 0) → P a → Ends (printed out a) P
unfolding Ends
Ends-printed out a P h = h

abbrev pub Any : {A : Type 0} → A → Type 0
Any a = Unit

-- The words of the arguments.
abbrev pub Words : List ℕ → Type 0
Words = All (λ (w : ℕ). w < 2 ^ 32)

pow_le : (j : ℕ) → 2 ^ 64 ≤ 2 ^ (j + 64)
pow_le zero = omega arith
pow_le (suc j) =
    let e : suc j + 64 ≡ suc (j + 64) = omega arith in
    rw e (omega (arith, pow_le j, pow-suc 2 (j + 64)))

printnum-Ends :
    (j num base : ℕ) (width : ℤ) (padc : ℕ)
    → 2 ≤ base
    → num < 2 ^ 64
    → Ends (emit (printnum (suc (j + 64)) num base width padc)) Any
printnum-Ends j num base width padc h fits =
    let (ds, ran, n) = printnum-digits (j + 64) num base width padc h (omega (arith, pow_le j)) in
    rw ran (Ends-printed _ tt Any tt)

-- A string that ends within `n` characters of its `i`th.
put_chars-Ends :
    (n fuel : ℕ) (p : Memory) (i : ℕ) (precision width : ℤ) (altflag : Bool)
    → n < fuel
    → p (i + n) ≡ 0
    → Ends (put_chars fuel p i precision width altflag) Any
unfolding put_chars
put_chars-Ends n zero p i precision width altflag h e = absurd (omega arith)
put_chars-Ends zero (suc fuel) p i precision width altflag h e =
    let here : p i ≡ 0 = ap p (omega arith) ∙ e in
    rw (eq→== (p i) 0 here) (Ends-printed [] width Any tt)
put_chars-Ends (suc n) (suc fuel) p i precision width altflag h e =
    elim (Bool-cases ((p i == 0) || not (is_negative precision || is_positive precision))) [
      | inl stop ↦ rw stop (Ends-printed [] width Any tt)
      | inr more ↦
          let left = if is_negative precision then precision else minus_ℕ precision 1 in
          rw more (
            Ends-append (shown altflag (p i) ∷ [])
              (put_chars fuel p (suc i) left (minus_ℕ width 1) altflag) Any
              (put_chars-Ends n fuel p (suc i) left (minus_ℕ width 1) altflag (omega arith)
                (ap p (omega arith) ∙ e)))
    ]

-- `limit` is more than the length of the string at `p`.
unfoldable pub Short : (limit : ℕ) → Memory → Type 0
Short limit p = (n : ℕ) × (n < limit) × (p n ≡ 0)

put_string-Ends :
    (limit : ℕ) (p : Memory) (fl : Flags) → Short limit p → Ends (put_string limit p fl) Any
unfolding put_string Short
put_string-Ends limit p fl (n, h, e) =
    Ends-bind _ _ Any Any
      (Ends-append _ _ Any (put_chars-Ends n limit p 0 _ _ fl.altflag h (ap p (omega arith) ∙ e)))
      (λ a u. Ends-printed _ tt Any tt)

put_signed-Ends :
    (j : ℕ) (num : Bool × ℕ) (fl : Flags)
    → num.1 < 2 ^ 64
    → Ends (put_signed (suc (j + 64)) num fl) Any
unfolding put_signed
put_signed-Ends j num fl h =
    Ends-bind _ _ Any Any (Ends-printed _ tt Any tt)
      (λ u v. printnum-Ends j (num.1) 10 fl.width fl.padc (omega arith) h)

literal-Short : (limit : ℕ) (text : List ℕ) → length text < limit → Short limit (literal text)
unfolding Short
literal-Short limit text h = (length text, h, past text)
  where
    past : (xs : List ℕ) → get_or xs (length xs) 0 ≡ 0
    past [] = refl
    past (x ∷ xs) = past xs

ShortText : Option (List ℕ) → Type 0
ShortText none = Unit
ShortText (some text) = length text ≤ 30

ShortText-if :
    (b : Bool) (o o' : Option (List ℕ))
    → ShortText o
    → ShortText o'
    → ShortText (if b then o else o')
ShortText-if true o o' h h' = h
ShortText-if false o o' h h' = h'

error_string-ShortText : (err : ℕ) → ShortText (error_string err)
unfolding error_string ShortText
error_string-ShortText err = ShortText-if (err == 1) _ _ (omega arith) (
    ShortText-if (err == 2) _ _ (omega arith) (
      ShortText-if (err == 3) _ _ (omega arith) (
        ShortText-if (err == 4) _ _ (omega arith) (
          ShortText-if (err == 5) _ _ (omega arith) (
            ShortText-if (err == 6) _ _ (omega arith) (
              ShortText-if (err == 7) _ _ (omega arith)
                (ShortText-if (err == 8) _ _ (omega arith) tt)))))))

put_error-Ends :
    (j err : ℕ) (o : Option (List ℕ))
    → err < 2 ^ 64
    → ShortText o
    → Ends (put_error (suc (j + 64)) err o) Any
unfolding put_error ShortText
put_error-Ends j err none h s =
    Ends-bind _ _ Any Any (Ends-printed (codes "error ") tt Any tt)
      (λ u v. put_signed-Ends j (false, err) no_flags h)
put_error-Ends j err (some text) h s =
    put_string-Ends (suc (j + 64)) (literal text) no_flags
      (literal-Short (suc (j + 64)) text (omega arith))

-- The first word, and the rest.
abbrev pub Taken : (bound : ℕ) → ℕ × List ℕ → Type 0
Taken bound a = (a.0 < bound) × Words (a.1)

next_arg-Ends : (ap : List ℕ) → Words ap → Ends (next_arg ap) (Taken (2 ^ 32))
unfolding Ends
next_arg-Ends [] h = tt
next_arg-Ends (w ∷ ap) h = h

getuint-Ends : (lflag : ℕ) (ap : List ℕ) → Words ap → Ends (getuint lflag ap) (Taken (2 ^ 64))
getuint-Ends lflag ap h =
    Ends-bind (next_arg ap) _ (Taken (2 ^ 32)) (Taken (2 ^ 64)) (next_arg-Ends ap h) (λ a t.
      elim (Bool-cases (leb 2 lflag)) [
        | inl long ↦ rw long (
            Ends-bind (next_arg (a.1)) _ (Taken (2 ^ 32)) (Taken (2 ^ 64))
              (next_arg-Ends (a.1) (t.1))
              (λ b u. Ends-printed [] _ (Taken (2 ^ 64)) (omega (arith, t.0, u.0), u.1)))
        | inr short ↦ rw short (Ends-printed [] a (Taken (2 ^ 64)) (omega (arith, t.0), t.1))
      ])

signed_lt : (size num : ℕ) → size ≤ 2 ^ 64 → num < 2 ^ 64 → (signed size num).1 < 2 ^ 64
signed_lt size num h1 h2 = ground arith

-- A signed number that can be printed, and the rest.
abbrev pub TakenSigned : (Bool × ℕ) × List ℕ → Type 0
TakenSigned a = ((a.0).1 < 2 ^ 64) × Words (a.1)

getint-Ends : (lflag : ℕ) (ap : List ℕ) → Words ap → Ends (getint lflag ap) TakenSigned
getint-Ends lflag ap h =
    Ends-bind (getuint lflag ap) _ (Taken (2 ^ 64)) TakenSigned (getuint-Ends lflag ap h) (λ a t.
      elim (Bool-cases (leb 2 lflag)) [
        | inl long ↦
            rw long
              (Ends-printed [] _ TakenSigned (signed_lt (2 ^ 64) (a.0) (omega arith) (t.0), t.1))
        | inr short ↦
            rw short
              (Ends-printed [] _ TakenSigned (signed_lt (2 ^ 32) (a.0) (omega arith) (t.0), t.1))
      ])

-- Every string in memory ends within `limit` characters.
unfoldable pub AllShort : (limit : ℕ) → Memory → Type 0
AllShort limit m = (s : ℕ) → Short limit (λ i. m (s + i))

pointer_chars-Short :
    (limit : ℕ) (m : Memory) (w : ℕ)
    → 64 < limit
    → AllShort limit m
    → Short limit (pointer_chars m w)
unfolding AllShort
pointer_chars-Short limit m w h nuls = elim (Bool-cases (w == 0)) [
  | inl null ↦ rw null (literal-Short limit (codes "(null)") (omega arith))
  | inr some_place ↦ rw some_place (nuls w)
]

magnitude_lt : (w : ℕ) → w < 2 ^ 32 → magnitude (int32 w) < 2 ^ 64
magnitude_lt w h = ground arith

error_text-ShortText : (err : ℕ) → ShortText (error_text err)
unfolding ShortText
error_text-ShortText err = ShortText-if (leb 9 err) _ _ tt (error_string-ShortText err)

-- Nothing is left to print; the arguments go on.
goes_on :
    (ap : List ℕ) (r : Printed (Unit {0}))
    → Words ap
    → Ends r Any
    → Ends (and_then r (λ u. printed [] ap)) Words
goes_on ap r w e = Ends-bind r _ Any Words e (λ u v. Ends-printed [] ap Words w)

-- The base of a number has at least two digits.
abbrev pub BaseOk : Kind → Type 0
BaseOk (number base) = 2 ≤ base
BaseOk _ = Unit

pub put_kind-Ends :
    (j : ℕ) (m : Memory) (kind : Kind) (fl : Flags) (ap : List ℕ)
    → AllShort (suc (j + 64)) m
    → Words ap
    → BaseOk kind
    → Ends (put_kind (suc (j + 64)) m kind fl ap) Words
unfolding put_kind
put_kind-Ends j m character fl ap nuls w b =
    Ends-bind (next_arg ap) _ (Taken (2 ^ 32)) Words (next_arg-Ends ap w)
      (λ a t. Ends-printed _ (a.1) Words (t.1))
put_kind-Ends j m error fl ap nuls w b =
    Ends-bind (next_arg ap) _ (Taken (2 ^ 32)) Words (next_arg-Ends ap w) (λ a t.
      let err = magnitude (int32 (a.0)) in
      goes_on (a.1) _ (t.1) (
        put_error-Ends j err (error_text err) (magnitude_lt (a.0) (t.0))
          (error_text-ShortText err)))
put_kind-Ends j m string fl ap nuls w b =
    Ends-bind (next_arg ap) _ (Taken (2 ^ 32)) Words (next_arg-Ends ap w) (λ a t.
      goes_on (a.1) _ (t.1) (
        put_string-Ends (suc (j + 64)) (pointer_chars m (a.0)) fl
          (pointer_chars-Short (suc (j + 64)) m (a.0) (omega arith) nuls)))
put_kind-Ends j m decimal fl ap nuls w b =
    Ends-bind (getint fl.lflag ap) _ TakenSigned Words (getint-Ends fl.lflag ap w)
      (λ a t. goes_on (a.1) _ (t.1) (put_signed-Ends j (a.0) fl (t.0)))
put_kind-Ends j m (number base) fl ap nuls w b =
    Ends-bind (getuint fl.lflag ap) _ (Taken (2 ^ 64)) Words (getuint-Ends fl.lflag ap w)
      (λ a t. goes_on (a.1) _ (t.1) (printnum-Ends j (a.0) base fl.width fl.padc b (t.0)))
put_kind-Ends j m pointer fl ap nuls w b =
    Ends-bind (next_arg ap) _ (Taken (2 ^ 32)) Words (next_arg-Ends ap w) (λ a t.
      goes_on (a.1) _ (t.1) (
        Ends-bind (printed (codes "0x") tt) _ Any Any (Ends-printed (codes "0x") tt Any tt)
          (λ u v. printnum-Ends j (a.0) 16 fl.width fl.padc (omega arith) (omega (arith, t.0)))))
put_kind-Ends j m percent fl ap nuls w b = Ends-printed _ ap Words w
put_kind-Ends j m other fl ap nuls w b = Ends-printed _ ap Words w
