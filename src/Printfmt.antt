-- ===== src/Printfmt.antt =====
-- lib/printfmt.c: formatted output, as the list of the characters that `putch` is called with. A
-- `va_list` is the list of the 32-bit words that are left of the arguments. An `int` that is computed
-- from the format is an integer without bound (C leaves its overflow undefined). Loops take fuel:
-- `limit` for those inside an escape sequence and over strings.
pub mod Convert
pub mod Number
pub mod Buffer
pub mod Cprintf
pub mod Text
pub mod Ends
pub mod Escapes
pub mod Termination
use joslab4_init.Base.{
  ℕ, zero, suc, ◌+◌, ◌-◌, ◌*◌, ◌/◌, ◌%◌, ◌^◌, Bool, true, false, not, ◌&&◌, ◌||◌, Option, none,
  some, List, [], ◌∷◌, ◌++◌, ltb, leb, ◌==◌, ◌!=◌, update, u32, get_or, replicate, if◌then◌else◌,
}
use joslab4_init.Base.Int.{ℤ, pos, negsuc, minus_ℕ, is_positive, is_negative, int32}
use joslab4_init.Base.Text.{codes}
use joslab4_init.Memory.{Memory}
use joslab4_init.String.{strnlen}

-- `no_args` is a read past the last argument.
pub data Printed (A : Type 0) : Type 0 where
  printed : List ℕ → A → Printed A
  no_args : Printed A
  out_of_fuel : Printed A

abbrev pub and_then : {A B : Type 0} → Printed A → (A → Printed B) → Printed B
and_then (printed out a) k = elim (k a) [
  | printed more b ↦ printed (out ++ more) b
  | no_args ↦ no_args
  | out_of_fuel ↦ out_of_fuel
]
and_then no_args k = no_args
and_then out_of_fuel k = out_of_fuel

infixl 5 ◌>>=◌
abbrev pub ◌>>=◌ : {A B : Type 0} → Printed A → (A → Printed B) → Printed B
c >>= k = and_then c k

-- "0123456789abcdef"[d]: index 16 reads the NUL. A larger one is outside the literal, and no call has
-- one, since every base is 8, 10 or 16; it gives 0 too here.
abbrev pub digit_char : ℕ → ℕ
digit_char d = get_or (codes "0123456789abcdef") d 0

-- `while (--width > 0) putch(padc, putdat);`
abbrev pub pads : ℕ → ℤ → List ℕ
pads padc (pos n) = replicate padc (n - 1)
pads padc (negsuc n) = []

abbrev pub append_to : Option (List ℕ) → ℕ → Option (List ℕ)
append_to none c = none
append_to (some out) c = some (out ++ c ∷ [])

unfoldable pub printnum : (fuel num base : ℕ) → (width : ℤ) → (padc : ℕ) → Option (List ℕ)
printnum zero num base width padc = none
printnum (suc fuel) num base width padc =
    let rest = printnum fuel (num / base) base (minus_ℕ width 1) padc in
    append_to (if leb base num then rest else some (pads padc width)) (digit_char (num % base))

pub record Flags : Type 0 where
  pub padc : ℕ
  pub width : ℤ
  pub precision : ℤ
  pub lflag : ℕ
  pub altflag : Bool

abbrev pub no_flags : Flags
no_flags = record { padc = 32; width = negsuc 0; precision = negsuc 0; lflag = 0; altflag = false }

-- The loop of the width field: the number and the place behind it.
unfoldable pub read_number : (fuel : ℕ) → Memory → (fmt ch precision : ℕ) → Option (ℕ × ℕ)
read_number zero m fmt ch precision = none
read_number (suc fuel) m fmt ch precision =
    let p = precision * 10 + (ch - 48) in
    let rest = read_number fuel m (suc fmt) (m fmt) p in
    if ltb (m fmt) 48 || ltb 57 (m fmt) then some (p, fmt) else rest

-- `process_precision`
abbrev pub with_precision : ℤ → Flags → Flags
with_precision p fl =
    if is_negative fl.width
    then record fl { width = p; precision = negsuc 0 }
    else record fl { precision = p }

-- One round of `reswitch`: a flag, or the character that ends the escape sequence.
pub data Step : Type 0 where
  flag : (fmt : ℕ) → Flags → (ap : List ℕ) → Step
  conversion : (ch : ℕ) → Step
  lacks_args : Step
  lacks_fuel : Step

abbrev pub number_step : Option (ℕ × ℕ) → Flags → List ℕ → Step
number_step none fl ap = lacks_fuel
number_step (some (p, fmt)) fl ap = flag fmt (with_precision (pos p) fl) ap

abbrev pub star_step : (fmt : ℕ) → Flags → List ℕ → Step
star_step fmt fl [] = lacks_args
star_step fmt fl (w ∷ ap) = flag fmt (with_precision (int32 w) fl) ap

unfoldable pub step : (limit : ℕ) → Memory → (fmt : ℕ) → Flags → List ℕ → Step
step limit m fmt fl ap =
    let ch = m fmt in
    let next = suc fmt in
    if ch == 45
    then flag next (record fl { padc = 45 }) ap
    else if ch == 48
    then flag next (record fl { padc = 48 }) ap
    else if leb 49 ch && leb ch 57
    then number_step (read_number limit m next ch 0) fl ap
    else if ch == 42
    then star_step next fl ap
    else if ch == 46
    then flag next (if is_negative fl.width then record fl { width = pos 0 } else fl) ap
    else if ch == 35
    then flag next (record fl { altflag = true }) ap
    else if ch == 108
    then flag next (record fl { lflag = fl.lflag + 1 }) ap
    else conversion ch

-- Where the escape sequence ends: the character, the place behind it, the flags and the arguments.
pub record Escape : Type 0 where
  pub ch : ℕ
  pub fmt : ℕ
  pub flags : Flags
  pub ap : List ℕ

unfoldable pub read_escape : (fuel limit : ℕ) → Memory → (fmt : ℕ) → Flags → List ℕ → Printed Escape
read_escape zero limit m fmt fl ap = out_of_fuel
read_escape (suc fuel) limit m fmt fl ap = elim (step limit m fmt fl ap) [
  | flag fmt' fl' ap' ↦ read_escape fuel limit m fmt' fl' ap'
  | conversion c ↦ printed [] (record { ch = c; fmt = suc fmt; flags = fl; ap = ap })
  | lacks_args ↦ no_args
  | lacks_fuel ↦ out_of_fuel
]
