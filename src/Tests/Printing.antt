-- ===== src/Tests/Printing.antt =====
-- Tests on formatted printing. A literal stands at address 0.
use Prim.Native.Nat.{min}
use mathlib.Core.List.{map}
use joslab4_init.Base.{
  if◌then◌else◌, ◌==◌, ◌⊎◌, inl, ◌<◌, ℕ, ◌+◌, ◌≤◌, ◌≡◌, refl, some, arith, length, take, All, List,
  [], ◌∷◌, ◌++◌,
}
use joslab4_init.Base.Int.{ℤ, pos, negsuc, minus_ℕ}
use joslab4_init.Base.Text.{codes}
use joslab4_init.Memory.{Memory}
use joslab4_init.String.{strnlen, strnlen_loop}
use joslab4_init.String.Copy.{HasChars, SameOutside}
use joslab4_init.Machine.{e_inval}
use joslab4_init.Printfmt.{printed, no_args, printnum, read_number, step, read_escape}
use joslab4_init.Printfmt.Convert.{
  literal, spaces, error_string, put_chars, put_string, put_signed, put_error, rewind, kind_of,
  put_kind, convert, piece, vprintfmt,
}
use joslab4_init.Printfmt.Number.{IsHex, hex_value, IsNumeral, printnum-IsNumeral}
use joslab4_init.Printfmt.Buffer.{Sprinted, count, vsnprintf, bytes, vsnprintf-HasChars}
use joslab4_init.Printfmt.Text.{vprintfmt_text}
use joslab4_init.Printfmt.Cprintf.{cprinted, vcprintf, concat, vcprintf-concat}
use joslab4_init.Printfmt.Termination.{vprintfmt_returns}

vprintfmt_number :
    vprintfmt 40 40 (literal (codes "[%5x|%-d|%05d]%%%k")) 0 (255 ∷ 7 ∷ (4294967254) ∷ [])
    ≡ printed (codes "[   ff|7|-00042]%%k") tt
unfolding vprintfmt piece convert put_kind kind_of rewind put_error put_signed put_string put_chars
    error_string printnum read_number step read_escape strnlen strnlen_loop
vprintfmt_number = refl

vprintfmt_string :
    vprintfmt 40 40 (literal (codes "%e %.*s;%4s")) 0 (4294967292 ∷ 3 ∷ 0 ∷ 0 ∷ [])
    ≡ printed (codes "out of memory (nu;(null)") tt
unfolding vprintfmt piece convert put_kind kind_of rewind put_error put_signed put_string put_chars
    error_string printnum read_number step read_escape strnlen strnlen_loop
vprintfmt_string = refl

printnum-IsNumeral_example :
    (cs : List ℕ) × (printnum 9 255 16 (pos 4) 32
      ≡ some (spaces 32 (minus_ℕ (pos 4) (length cs)) ++ cs))
    × All IsHex cs
    × IsNumeral 16 255 (map hex_value cs)
printnum-IsNumeral_example =
    printnum-IsNumeral 8 255 16 (pos 4) 32 (omega arith) (omega arith) (omega arith)

abbrev format : Memory
format = literal (codes "%e %.*s;%4s")

abbrev words : List ℕ
words = 4294967292 ∷ 3 ∷ 0 ∷ 0 ∷ []

abbrev shown_text : List ℕ
shown_text = codes "out of memory (nu;(null)"

-- The text "hello" at 0, also in a memory that has changed in the 5 bytes from 100 on.
abbrev greeting : Memory
greeting = literal (codes "hello")

prints_hello :
    (m1 : Memory)
    → SameOutside 100 5 greeting m1
    → vprintfmt 40 40 m1 0 [] ≡ printed (codes "hello") tt
prints_hello m1 same =
    vprintfmt_text 40 40 m1 0 (codes "hello") []
      (
        at 0 (omega arith),
        omega arith,
        (
          at 1 (omega arith),
          omega arith,
          (
            at 2 (omega arith),
            omega arith,
            (
              at 3 (omega arith),
              omega arith,
              (at 4 (omega arith), omega arith, at 5 (omega arith)),
            ),
          ),
        ),
      )
      (omega arith, (omega arith, (omega arith, (omega arith, (omega arith, tt))))) (omega arith)
  where
    at : (i : ℕ) → i < 100 → m1 i ≡ greeting i
    at i h = same i (inl h)

vsnprintf-HasChars_example :
    ((m' : Memory) × (vsnprintf 40 40 greeting 100 (pos 5) 0 [] ≡ count 5 m')
      × HasChars m' 100 (bytes (take 4 (codes "hello")))
      × (m' (100 + min 4 5) ≡ 0)
      × SameOutside 100 5 greeting m')
    × ((n : ℤ) → vsnprintf 40 40 greeting 0 n 0 [] ≡ Sprinted.error e_inval)
    × (vsnprintf 40 40 greeting 100 (pos 0) 0 [] ≡ Sprinted.error e_inval)
    × ((k : ℕ) → vsnprintf 40 40 greeting 100 (negsuc k) 0 [] ≡ Sprinted.error e_inval)
vsnprintf-HasChars_example =
    vsnprintf-HasChars 40 40 greeting 100 4 0 [] (codes "hello") (omega arith) (omega arith)
      prints_hello

vcprintf-concat_example :
    (calls : List (List ℕ)) × (vcprintf (λ i. 0) 40 40 format 0 words
      ≡ cprinted calls (length shown_text))
    × (concat calls ≡ bytes shown_text)
    × All (λ (xs : List ℕ). length xs ≤ 255) calls
vcprintf-concat_example = vcprintf-concat (λ i. 0) 40 40 format 0 words shown_text vprintfmt_string

-- The format "%d" at 0.
abbrev percent_d : Memory
percent_d a = if a == 0 then 37 else if a == 1 then 100 else 0

vprintfmt_returns_example :
    ((out : List ℕ) × (vprintfmt 3 65 percent_d 0 (4294967295 ∷ []) ≡ printed out tt))
    ⊎ (vprintfmt 3 65 percent_d 0 (4294967295 ∷ []) ≡ no_args)
vprintfmt_returns_example =
    vprintfmt_returns 3 0 percent_d 0 (37 ∷ 100 ∷ []) (4294967295 ∷ [])
      (refl, omega arith, (refl, omega arith, refl)) (omega arith) (omega arith)
      (λ s. (2, omega arith, ground arith)) (omega arith, tt)
