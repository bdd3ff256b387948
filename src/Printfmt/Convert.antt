-- ===== src/Printfmt/Convert.antt =====
-- lib/printfmt.c: the conversions, and `vprintfmt`.
use joslab4_init.Base.{
  ℕ, zero, suc, ◌+◌, ◌-◌, ◌*◌, ◌^◌, Bool, true, false, not, ◌&&◌, ◌||◌, Option, none, some, List,
  [], ◌∷◌, ltb, leb, ◌==◌, ◌!=◌, get_or, replicate, if◌then◌else◌,
}
use joslab4_init.Base.Int.{ℤ, pos, negsuc, minus_ℕ, is_positive, is_negative, int32, size_of}
use joslab4_init.Base.Text.{codes}
use joslab4_init.Memory.{Memory}
use joslab4_init.String.{strnlen}
use joslab4_init.Printfmt.{
  Printed, printed, no_args, out_of_fuel, and_then, ◌>>=◌, printnum, Flags, no_flags, Escape,
  read_escape,
}

abbrev pub emit : Option (List ℕ) → Printed (Unit {0})
emit none = out_of_fuel
emit (some out) = printed out tt

-- One word of the arguments; the words of a `long long` stand low word first.
abbrev pub next_arg : List ℕ → Printed (ℕ × List ℕ)
next_arg [] = no_args
next_arg (w ∷ ap) = printed [] (w, ap)

abbrev pub getuint : (lflag : ℕ) → List ℕ → Printed (ℕ × List ℕ)
getuint lflag ap = next_arg ap >>= λ a.
    if leb 2 lflag
    then (next_arg (a.1) >>= λ b. printed [] (a.0 + b.0 * 2 ^ 32, b.1))
    else printed [] a

-- Of a signed number, whether it is negative, and the number that is printed for it.
abbrev pub signed : (size num : ℕ) → Bool × ℕ
signed size num = if leb size (2 * num) then (true, size - num) else (false, num)

abbrev pub getint : (lflag : ℕ) → List ℕ → Printed ((Bool × ℕ) × List ℕ)
getint lflag ap = getuint lflag ap >>= λ a.
    printed [] (signed (if leb 2 lflag then 2 ^ 64 else 2 ^ 32) (a.0), a.1)

-- The characters of a literal, with the NUL.
abbrev pub literal : List ℕ → Memory
literal text i = get_or text i 0

abbrev pub maxerror : ℕ
maxerror = 9

unfoldable pub error_string : (err : ℕ) → Option (List ℕ)
error_string err =
    if err == 1
    then some (codes "unspecified error")
    else if err == 2
    then some (codes "bad environment")
    else if err == 3
    then some (codes "invalid parameter")
    else if err == 4
    then some (codes "out of memory")
    else if err == 5
    then some (codes "out of environments")
    else if err == 6
    then some (codes "segmentation fault")
    else if err == 7
    then some (codes "env is not recving")
    else if err == 8
    then some (codes "unexpected end of file")
    else none

-- The character that is printed for `ch`.
abbrev pub shown : (altflag : Bool) → (ch : ℕ) → ℕ
shown altflag ch = if altflag && (ltb ch 32 || ltb 126 ch) then 63 else ch

-- The loop over the characters of a string from the `i`th on, with what is left of `width`.
unfoldable pub put_chars :
    (fuel : ℕ) (p : Memory) (i : ℕ) (precision width : ℤ) (altflag : Bool) → Printed ℤ
put_chars zero p i precision width altflag = out_of_fuel
put_chars (suc fuel) p i precision width altflag =
    let left = if is_negative precision then precision else minus_ℕ precision 1 in
    let rest = put_chars fuel p (suc i) left (minus_ℕ width 1) altflag in
    if (p i == 0) || not (is_negative precision || is_positive precision)
    then printed [] width
    else and_then (printed (shown altflag (p i) ∷ []) tt) (λ _. rest)

-- `for (; width > 0; width--) putch(c, putdat);`
abbrev pub spaces : (c : ℕ) → ℤ → List ℕ
spaces c (pos n) = replicate c n
spaces c (negsuc n) = []

-- The conversion `s`; its first loop leaves a `width` that was positive at 0.
unfoldable pub put_string : (limit : ℕ) → Memory → Flags → Printed (Unit {0})
put_string limit p fl =
    let before = minus_ℕ fl.width (strnlen p 0 (size_of fl.precision)) in
    let padded = is_positive fl.width && (fl.padc != 45) in
    let width = if not padded then fl.width else if is_positive before then pos 0 else before in
    printed (if padded then spaces fl.padc before else []) tt
    >>= (λ _. put_chars limit p 0 fl.precision width fl.altflag)
    >>= λ after. printed (spaces 32 after) tt

unfoldable pub put_signed : (limit : ℕ) → Bool × ℕ → Flags → Printed (Unit {0})
put_signed limit num fl = printed (if num.0 then 45 ∷ [] else []) tt >>= λ _.
    emit (printnum limit (num.1) 10 fl.width fl.padc)

abbrev pub magnitude : ℤ → ℕ
magnitude (pos n) = n
magnitude (negsuc n) = n + 1

abbrev pub error_text : (err : ℕ) → Option (List ℕ)
error_text err = if leb maxerror err then none else error_string err

-- `printfmt` with "error %d", or with "%s".
unfoldable pub put_error : (limit err : ℕ) → Option (List ℕ) → Printed (Unit {0})
put_error limit err none =
    printed (codes "error ") tt >>= λ _. put_signed limit (false, err) no_flags
put_error limit err (some p) = put_string limit (literal p) no_flags

-- `for (fmt--; fmt[-1] != '%'; fmt--)`, from behind the first `fmt--`.
unfoldable pub rewind : Memory → (fmt : ℕ) → ℕ
rewind m zero = zero
rewind m (suc fmt) = let before = rewind m fmt in if m fmt == 37 then suc fmt else before

abbrev pub pointer_chars : Memory → ℕ → Memory
pointer_chars m w = if w == 0 then literal (codes "(null)") else λ i. m (w + i)

-- The conversions of one argument.
pub data Kind : Type 0 where
  character error string decimal percent other : Kind
  number : (base : ℕ) → Kind
  pointer : Kind

unfoldable pub kind_of : ℕ → Kind
kind_of ch =
    if ch == 99
    then character
    else if ch == 101
    then error
    else if ch == 115
    then string
    else if ch == 100
    then decimal
    else if ch == 117
    then number 10
    else if ch == 111
    then number 8
    else if ch == 112
    then pointer
    else if ch == 120
    then number 16
    else if ch == 37
    then percent
    else other

-- The cases of the switch, with what is left of the arguments.
unfoldable pub put_kind : (limit : ℕ) → Memory → Kind → Flags → List ℕ → Printed (List ℕ)
put_kind limit m character fl ap = next_arg ap >>= λ a. printed (a.0 ∷ []) (a.1)
put_kind limit m error fl ap = next_arg ap >>= λ a.
    let err = magnitude (int32 (a.0)) in
    put_error limit err (error_text err) >>= λ _. printed [] (a.1)
put_kind limit m string fl ap =
    next_arg ap >>= λ a. put_string limit (pointer_chars m (a.0)) fl >>= λ _. printed [] (a.1)
put_kind limit m decimal fl ap =
    getint fl.lflag ap >>= λ a. put_signed limit (a.0) fl >>= λ _. printed [] (a.1)
put_kind limit m (number base) fl ap = getuint fl.lflag ap >>= λ a.
    emit (printnum limit (a.0) base fl.width fl.padc) >>= λ _. printed [] (a.1)
put_kind limit m pointer fl ap = next_arg ap >>= λ a.
    printed (codes "0x") tt >>= (λ _. emit (printnum limit (a.0) 16 fl.width fl.padc)) >>= λ _.
    printed [] (a.1)
put_kind limit m percent fl ap = printed (37 ∷ []) ap
put_kind limit m other fl ap = printed (37 ∷ []) ap

-- Where the format goes on.
abbrev pub resume_at : Memory → Kind → (fmt : ℕ) → ℕ
resume_at m other fmt = rewind m (fmt - 1)
resume_at m _ fmt = fmt

unfoldable pub convert : (limit : ℕ) → Memory → Escape → Printed (ℕ × List ℕ)
convert limit m e = put_kind limit m (kind_of e.ch) e.flags e.ap >>= λ ap.
    printed [] (resume_at m (kind_of e.ch) e.fmt, ap)

-- One round of the outer loop: nothing at the NUL that ends the format.
unfoldable pub piece : (limit : ℕ) → Memory → (fmt : ℕ) → List ℕ → Printed (Option (ℕ × List ℕ))
piece limit m fmt ap =
    if m fmt == 0
    then printed [] none
    else if m fmt != 37
    then printed (m fmt ∷ []) (some (suc fmt, ap))
    else read_escape limit limit m (suc fmt) no_flags ap >>= convert limit m >>= λ next.
        printed [] (some next)

unfoldable pub vprintfmt : (fuel limit : ℕ) → Memory → (fmt : ℕ) → List ℕ → Printed (Unit {0})
vprintfmt zero limit m fmt ap = out_of_fuel
vprintfmt (suc fuel) limit m fmt ap = piece limit m fmt ap >>= λ o. elim o [
  | none ↦ printed [] tt
  | some next ↦ vprintfmt fuel limit m (next.0) (next.1)
]
