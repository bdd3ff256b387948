-- ===== src/Tests/Lines.antt =====
-- Tests on the monitor's lines.
use mathlib.Core.List.{map}
use joslab4_init.Base.{
  ℕ, ◌+◌, ◌≡◌, ◌⊎◌, ◌≤◌, ◌<◌, refl, some, List, [], ◌∷◌, arith, length, false, true,
}
use joslab4_init.Base.Int.{pos}
use joslab4_init.Base.Text.{codes}
use joslab4_init.Memory.{Memory, IsString}
use joslab4_init.Printfmt.Convert.{literal}
use joslab4_init.Readline.{Line, line, readline, edit, edited, HoldsLine, readline-edited}
use joslab4_init.Monitor.{args, too_many, parse_args}
use joslab4_init.Monitor.Arguments.{starts, Blanked, parse_args-starts}

abbrev typed : List ℕ
typed = 105 ∷ 104 ∷ []

-- "hj", a backspace, "i" and a newline.
abbrev keys : List ℕ
keys = 104 ∷ 106 ∷ 8 ∷ 105 ∷ 10 ∷ []

keys-edited : edited keys [] ≡ some typed
unfolding edited edit
keys-edited = refl

readline-edited_example :
    (s : Line) × (readline true (map pos keys) (λ a. 0) ≡ line s)
    × HoldsLine s.buf typed
    × (s.i ≡ length typed)
    × (s.buf (length typed) ≡ 0)
    × (length typed ≤ 1023)
    × ((a : ℕ) → 1024 ≤ a → s.buf a ≡ 0)
readline-edited_example = readline-edited true keys (λ a. 0) typed keys-edited

-- A DEL key on an empty line is stored.
del_stored : edited (127 ∷ 10 ∷ []) [] ≡ some (127 ∷ [])
unfolding edited edit
del_stored = refl

command_line : Memory
command_line = literal (codes " help me")

command_line-IsString : IsString command_line 0 (codes " help me")
unfolding command_line
command_line-IsString = (
  refl,
  omega arith,
  (
    refl,
    omega arith,
    (
      refl,
      omega arith,
      (
        refl,
        omega arith,
        (refl, omega arith, (refl, omega arith, (refl, omega arith, (refl, omega arith, refl)))),
      ),
    ),
  ),
)

word_starts : starts false 0 (codes " help me") ≡ 1 ∷ 6 ∷ []
unfolding starts
word_starts = refl

parse_args-starts_example :
    ((m' : Memory) × (parse_args 11 11 command_line 0 []
        ≡ args m' (starts false 0 (codes " help me")))
      × (length (starts false 0 (codes " help me")) ≤ 15)
      × Blanked command_line m' 0 (0 + length (codes " help me")))
    ⊎ ((parse_args 11 11 command_line 0 [] ≡ too_many)
        × (15 < length (starts false 0 (codes " help me"))))
parse_args-starts_example =
    parse_args-starts 10 command_line 0 (codes " help me") command_line-IsString (omega arith)
