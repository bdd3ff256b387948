-- ===== src/Monitor.antt =====
-- `runcmd` of kern/monitor.c: the arguments of a command line, and the command they name.
pub mod Arguments
pub mod Backtrace
use joslab4_init.Base.{
  ℕ, zero, suc, ◌+◌, Bool, true, false, not, ◌&&◌, Option, none, some, List, [], ◌∷◌, ◌++◌, length,
  has, ◌==◌, ◌!=◌, update, if◌then◌else◌,
}
use joslab4_init.Base.Text.{codes}
use joslab4_init.Memory.{Memory}

-- `strchr(WHITESPACE, c)` for a `c` that is not NUL.
abbrev pub is_white : ℕ → Bool
is_white c = has c (9 ∷ 13 ∷ 10 ∷ 32 ∷ [])

abbrev pub maxargs : ℕ
maxargs = 16

unfoldable pub skip_white : (fuel : ℕ) → Memory → (buf : ℕ) → Option (Memory × ℕ)
skip_white zero m buf = none
skip_white (suc fuel) m buf =
    let rest = skip_white fuel (update m buf 0) (suc buf) in
    if (m buf != 0) && is_white (m buf) then rest else some (m, buf)

unfoldable pub scan_word : (fuel : ℕ) → Memory → (buf : ℕ) → Option ℕ
scan_word zero m buf = none
scan_word (suc fuel) m buf =
    let rest = scan_word fuel m (suc buf) in
    if (m buf != 0) && not (is_white (m buf)) then rest else some buf

-- The memory and `argv`.
pub data Parsed : Type 0 where
  args : Memory → List ℕ → Parsed
  too_many : Parsed
  lacks_fuel : Parsed

abbrev pub after_word : (ℕ → Parsed) → Option ℕ → Parsed
after_word next none = lacks_fuel
after_word next (some b2) = next b2

-- A round behind its white space; `next` is the next round.
abbrev pub after_white :
    (next : Memory → ℕ → List ℕ → Parsed) (limit : ℕ) (argv : List ℕ) → Option (Memory × ℕ) → Parsed
after_white next limit argv none = lacks_fuel
after_white next limit argv (some (m1, b1)) =
    if m1 b1 == 0
    then args m1 argv
    else if length argv == 15
    then too_many
    else after_word (λ b2. next m1 b2 (argv ++ b1 ∷ [])) (scan_word limit m1 b1)

-- `limit` rounds for each of the loops inside.
unfoldable pub parse_args : (fuel limit : ℕ) → Memory → (buf : ℕ) → (argv : List ℕ) → Parsed
parse_args zero limit m buf argv = lacks_fuel
parse_args (suc fuel) limit m buf argv =
    after_white (λ m1 b2 more. parse_args fuel limit m1 b2 more) limit argv (skip_white limit m buf)

pub data Command : Type 0 where
  help kerninfo backtrace : Command

abbrev pub commands : List (List ℕ × Command)
commands = (codes "help", help) ∷ (codes "kerninfo", kerninfo) ∷ (codes "backtrace", backtrace) ∷ []

-- `strcmp(p, name) == 0`
unfoldable pub is_name : Memory → (p : ℕ) → List ℕ → Bool
is_name m p [] = m p == 0
is_name m p (c ∷ name) = (m p == c) && is_name m (suc p) name

unfoldable pub find_command : Memory → (p : ℕ) → List (List ℕ × Command) → Option Command
find_command m p [] = none
find_command m p ((name, command) ∷ rest) =
    let other = find_command m p rest in if is_name m p name then some command else other

-- What `runcmd` does with a line: nothing, a message, or a call of a command's function.
pub data Action : Type 0 where
  nothing : Action
  too_many_arguments : Action
  unknown_command : (name : ℕ) → Action
  call : Command → Memory → (argv : List ℕ) → Action
  out_of_fuel : Action

abbrev pub action : Parsed → Action
action lacks_fuel = out_of_fuel
action too_many = too_many_arguments
action (args m []) = nothing
action (args m (a ∷ argv)) = elim (find_command m a commands) [
  | none ↦ unknown_command a
  | some c ↦ call c m (a ∷ argv)
]

unfoldable pub runcmd : (fuel : ℕ) → Memory → (buf : ℕ) → Action
runcmd fuel m buf = action (parse_args fuel fuel m buf [])
