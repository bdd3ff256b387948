-- ===== src/Tests/Stabs.antt =====
-- Tests on the search of the stabs.
use joslab4_init.Base.{
  ℕ, ◌*◌, ◌≡◌, refl, some, List, [], ◌∷◌, arith, ◌==◌, if◌then◌else◌, get_or, ◌++◌,
}
use joslab4_init.String.{strfind}
use joslab4_init.Base.Int.{pos}
use joslab4_init.Kdebug.{
  Stab, Stabs, find_back, search_round, search_loop, rightmost, stab_binsearch,
}
use joslab4_init.Kdebug.Binsearch.{IsRegion, stab_binsearch-IsRegion}
use joslab4_init.Kdebug.Debuginfo.{
  UserStabData, string_at, found, file_stab, count_args, find_line, find_function, describe,
}

abbrev stab : (type value : ℕ) → Stab
stab type value = record { n_strx = 0; n_type = type; n_other = 0; n_desc = 0; n_value = value }

-- A function every ten bytes.
abbrev functions : Stabs
functions i = stab 0x24 (10 * i)

stab_binsearch-IsRegion_example :
    (m end : ℕ) × (stab_binsearch 20 functions 0 5 0x24 25 ≡ some (pos m, end))
    × IsRegion functions 0x24 0 5 25 m end
stab_binsearch-IsRegion_example =
    stab_binsearch-IsRegion functions 0 5 0x24 25 1 20 (λ i j h1 h2 h3 e1 e2. omega arith)
      (λ i h1 h2 e. omega arith) (omega arith) (omega arith) (omega arith) refl (omega arith)
      (omega arith)

-- A file, and its functions behind it.
abbrev later_functions : Stabs
later_functions i = if i == 0 then stab 0x64 0 else stab 0x24 (10 * i)

-- Functions at 0 and at 1: the search for 0 ends at the second.
abbrev adjacent : Stabs
adjacent i = stab 0x24 i

adjacent_misses : stab_binsearch 20 adjacent 0 2 0x24 0 ≡ some (pos 1, 2)
unfolding stab_binsearch search_loop search_round find_back rightmost
adjacent_misses = refl

abbrev bytes_of : (n_strx type n_desc value : ℕ) → List ℕ
bytes_of n_strx type n_desc value =
    n_strx ∷ 0 ∷ 0 ∷ 0 ∷ type ∷ 0 ∷ n_desc ∷ 0 ∷ value ∷ 0 ∷ 0 ∷ 0 ∷ []

-- A file with the function "f:F" at 100, whose lines 10 and 11 start at 100 and 108, and a bracket
-- behind them; the strings are at 84.
abbrev image : List ℕ
image =
    bytes_of 0 0x64 0 0
    ++ bytes_of 1 0x64 0 100
    ++ bytes_of 3 0x24 0 100
    ++ bytes_of 0 0x44 10 0
    ++ bytes_of 0 0x44 11 8
    ++ bytes_of 0 0xc0 0 0
    ++ bytes_of 0 0x64 0 200
    ++ 0 ∷ 97 ∷ 0 ∷ 102 ∷ 58 ∷ 70 ∷ 0 ∷ []

abbrev table : UserStabData
table = record { stabs = 0; stab_end = 84; stabstr = 84; stabstr_end = 91 }

-- The address is on line 11, but the line is taken from the bracket's stab.
wrong_line :
    describe 40 (λ a. get_or image a 0) table 109
    ≡ found (record {
      eip_file = string_at 85;
      eip_line = 0;
      eip_fn_name = string_at 87;
      eip_fn_namelen = 1;
      eip_fn_addr = 100;
      eip_fn_narg = 0;
    })
unfolding describe find_function find_line file_stab count_args stab_binsearch search_loop
    search_round find_back rightmost strfind
wrong_line = refl
