-- ===== src/Tests/Strings.antt =====
-- Tests on strings: "abc" stands at 100, "abd" at 200, and elsewhere are zeroes.
use joslab4_init.Base.{ℕ, ◌≡◌, refl, some, List, [], ◌∷◌, arith, ◌==◌, if◌then◌else◌}
use joslab4_init.Memory.{Memory, IsString}
use joslab4_init.String.{strcmp, memmove}
use joslab4_init.String.Compare.{Ordered, strcmp-Ordered}
use joslab4_init.Base.Int.{ℤ}
use joslab4_init.String.Move.{memmove_lem}
use joslab4_init.String.Number.{strtol, skip_blanks, read_sign, read_base, read_digits, digit_of}

abbrev bytes : Memory
bytes a =
    if a == 100
    then 97
    else if a == 101
    then 98
    else if a == 102
    then 99
    else if a == 200
    then 97
    else if a == 201
    then 98
    else if a == 202
    then 100
    else 0

abbrev abc : List ℕ
abc = 97 ∷ 98 ∷ 99 ∷ []

abbrev abd : List ℕ
abd = 97 ∷ 98 ∷ 100 ∷ []

bytes-abc : IsString bytes 100 abc
bytes-abc = (refl, omega arith, (refl, omega arith, (refl, omega arith, refl)))

bytes-abd : IsString bytes 200 abd
bytes-abd = (refl, omega arith, (refl, omega arith, (refl, omega arith, refl)))

strcmp-Ordered_example : (r : ℤ) × (strcmp 4 bytes 100 200 ≡ some r) × Ordered r abc abd
strcmp-Ordered_example = strcmp-Ordered 4 bytes 100 200 abc abd bytes-abc bytes-abd (omega arith)

-- The destination overlaps the source.
memmove_lem_example : memmove bytes 101 100 3 103 ≡ 99
memmove_lem_example = memmove_lem bytes 101 100 3 103 (omega arith) (omega arith)

-- " -0x1F"
abbrev number : Memory
number a =
    if a == 0
    then 32
    else if a == 1
    then 45
    else if a == 2
    then 48
    else if a == 3
    then 120
    else if a == 4
    then 49
    else if a == 5
    then 70
    else 0

strtol_hex : strtol 9 number 0 0 ≡ some (6, 4294967265)
unfolding strtol skip_blanks read_sign read_base read_digits digit_of
strtol_hex = refl
