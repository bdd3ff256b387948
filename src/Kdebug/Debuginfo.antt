-- ===== src/Kdebug/Debuginfo.antt =====
-- `debuginfo_eip` of kern/kdebug.c. `mem` is the memory of the current address space, and the
-- addresses that the linker gives the kernel's tables are a parameter.
use joslab4_init.Base.{
  ℕ, ◌+◌, ◌-◌, ◌*◌, ◌/◌, ◌^◌, ◌&&◌, ◌||◌, Option, none, some, zero, suc, ltb, leb, ◌==◌, ◌!=◌, u32,
  if◌then◌else◌,
}
use joslab4_init.Base.Int.{ℤ, pos, negsuc, sub_ℕ, size_of}
use joslab4_init.Memory.{Memory, word16, word}
use joslab4_init.Mmu.{ulim, pte_u}
use joslab4_init.Machine.{Error, M, pure, ◌>>=◌}
use joslab4_init.String.{strfind}
use joslab4_init.Pmap.{user_mem_check}
use joslab4_init.Kdebug.{Stabs, stab_binsearch}

abbrev pub n_fun : ℕ
n_fun = 0x24

abbrev pub n_sline : ℕ
n_sline = 0x44

abbrev pub n_so : ℕ
n_so = 0x64

abbrev pub n_sol : ℕ
n_sol = 0x84

abbrev pub n_psym : ℕ
n_psym = 0xa0

-- The table at an address, by the layout of `struct Stab`.
abbrev pub stabs_at : Memory → ℕ → Stabs
stabs_at mem stabs i =
    let a = stabs + 12 * i in
    record {
      n_strx = word mem a;
      n_type = mem (a + 4);
      n_other = mem (a + 5);
      n_desc = word16 mem (a + 6);
      n_value = word mem (a + 8);
    }

pub record UserStabData : Type 0 where
  pub stabs : ℕ
  pub stab_end : ℕ
  pub stabstr : ℕ
  pub stabstr_end : ℕ

abbrev pub ustabdata : ℕ
ustabdata = 0x200000

abbrev pub read_usd : Memory → UserStabData
read_usd mem = record {
  stabs = word mem ustabdata;
  stab_end = word mem (ustabdata + 4);
  stabstr = word mem (ustabdata + 8);
  stabstr_end = word mem (ustabdata + 12);
}

-- `stab_end - stabs`, a number of stabs.
abbrev pub stab_count : UserStabData → ℤ
stab_count t =
    if leb t.stabs t.stab_end
    then pos ((t.stab_end - t.stabs) / 12)
    else sub_ℕ 0 ((t.stabs - t.stab_end) / 12)

-- `check` runs if the one before it passed.
abbrev pub then_check : M (Option Error) → M (Option Error) → M (Option Error)
then_check c d = c >>= λ e. elim e [ none ↦ d | some x ↦ pure (some x) ]

abbrev pub if_passed : UserStabData → Option Error → Option UserStabData
if_passed t none = some t
if_passed t (some e) = none

-- The tables for an address, or nothing where `debuginfo_eip` returns -1.
unfoldable pub find_tables :
    (kernel : UserStabData) → Memory → (env_pgdir addr : ℕ) → M (Option UserStabData)
find_tables kernel mem env_pgdir addr =
    let usd = read_usd mem in
    if leb ulim addr
    then pure (some kernel)
    else (then_check (user_mem_check env_pgdir ustabdata 16 pte_u) (
          then_check (user_mem_check env_pgdir usd.stabs (size_of (stab_count usd)) pte_u) (
            user_mem_check env_pgdir usd.stabstr (u32 (usd.stabstr_end + 2 ^ 32 - usd.stabstr))
              pte_u))
        >>= λ e. pure (if_passed usd e))

-- A string: "<unknown>", or the one at an address.
pub data Name : Type 0 where
  unknown : Name
  string_at : ℕ → Name

pub record Eipdebuginfo : Type 0 where
  pub eip_file : Name
  pub eip_line : ℕ
  pub eip_fn_name : Name
  pub eip_fn_namelen : ℕ
  pub eip_fn_addr : ℕ
  pub eip_fn_narg : ℕ

abbrev pub initial : (addr : ℕ) → Eipdebuginfo
initial addr = record {
  eip_file = unknown;
  eip_line = 0;
  eip_fn_name = unknown;
  eip_fn_namelen = 9;
  eip_fn_addr = addr;
  eip_fn_narg = 0;
}

-- `outside` is a read of `stabs[-1]`.
pub data Described : Type 0 where
  found : Eipdebuginfo → Described
  not_found : Eipdebuginfo → Described
  outside : Described
  lacks_fuel : Described

-- A search, and what follows with its range.
abbrev pub with_region : Option (ℤ × ℕ) → (ℕ → ℕ → Described) → Described
with_region none k = lacks_fuel
with_region (some (negsuc l, end)) k = outside
with_region (some (pos l, end)) k = k l end

abbrev pub table_string : UserStabData → (n_strx : ℕ) → Name → Name
table_string t n_strx name =
    if ltb n_strx (t.stabstr_end - t.stabstr) then string_at (t.stabstr + n_strx) else name

abbrev pub namelen : (fuel : ℕ) → Memory → Name → Option ℕ
namelen fuel mem unknown = some 9
namelen fuel mem (string_at s) = elim (strfind fuel mem s 58) [
  | none ↦ none
  | some e ↦ some (e - s)
]

-- Back from the line's stab, `l - 1`, to the stab of a file's name in the range from `lfile`.
unfoldable pub file_stab : Stabs → (lfile l : ℕ) → Option ℕ
file_stab stabs lfile zero = none
file_stab stabs lfile (suc l) =
    let rest = file_stab stabs lfile l in
    let s = stabs l in
    if ltb l lfile
    then none
    else if (s.n_type == n_sol) || ((s.n_type == n_so) && (s.n_value != 0))
    then some l
    else rest

abbrev pub with_file : UserStabData → Stabs → Option ℕ → Eipdebuginfo → Eipdebuginfo
with_file t stabs none info = info
with_file t stabs (some l) info = record info {
  eip_file = table_string t (stabs l).n_strx info.eip_file;
}

-- How many of the next `n` stabs are parameters, up to the first that is none.
unfoldable pub count_args : Stabs → (lline n : ℕ) → ℕ
count_args stabs lline zero = 0
count_args stabs lline (suc n) =
    let rest = count_args stabs (suc lline) n in
    if (stabs lline).n_type == n_psym then suc rest else 0

-- From the search for the line on; `rfun` and `rline` are ends of ranges.
unfoldable pub find_line :
    (fuel : ℕ)
    → UserStabData
    → Stabs
    → (lfile lfun rfun lline rline addr : ℕ) → Eipdebuginfo
    → Described
find_line fuel t stabs lfile lfun rfun lline rline addr info =
    with_region (stab_binsearch fuel stabs lline rline n_sline addr) (λ l end.
      if ltb l end
      then (let lined = record info { eip_line = (stabs (end - 1)).n_desc } in
          found (record (with_file t stabs (file_stab stabs lfile (suc l)) lined) {
            eip_fn_narg = count_args stabs (lfun + 1) (rfun - 1 - (lfun + 1));
          }))
      else not_found info)

abbrev pub with_namelen : Option ℕ → Eipdebuginfo → (Eipdebuginfo → Described) → Described
with_namelen none info k = lacks_fuel
with_namelen (some n) info k = k (record info { eip_fn_namelen = n })

unfoldable pub find_function :
    (fuel : ℕ) → Memory → UserStabData → Stabs → (lfile rfile addr : ℕ) → Eipdebuginfo → Described
find_function fuel mem t stabs lfile rfile addr info =
    with_region (stab_binsearch fuel stabs lfile rfile n_fun addr) (λ lfun rfun.
      if ltb lfun rfun
      then (let s = stabs lfun in
          let named = record info {
            eip_fn_name = table_string t s.n_strx info.eip_fn_name;
            eip_fn_addr = s.n_value;
          } in
          with_namelen (namelen fuel mem named.eip_fn_name) named
            (find_line fuel t stabs lfile lfun rfun lfun rfun (u32 (addr + 2 ^ 32 - s.n_value))))
      else with_namelen (namelen fuel mem info.eip_fn_name) (record info { eip_fn_addr = addr })
          (find_line fuel t stabs lfile lfun rfun lfile rfile addr))

-- The number of stabs as the end of a range.
abbrev pub end_of : ℤ → ℕ
end_of (pos n) = n
end_of (negsuc n) = 0

unfoldable pub describe : (fuel : ℕ) → Memory → UserStabData → (addr : ℕ) → Described
describe fuel mem t addr =
    let stabs = stabs_at mem t.stabs in
    if leb t.stabstr_end t.stabstr || (mem (t.stabstr_end - 1) != 0)
    then not_found (initial addr)
    else with_region (stab_binsearch fuel stabs 0 (end_of (stab_count t)) n_so addr) (λ lfile rfile.
      if lfile == 0
      then not_found (initial addr)
      else find_function fuel mem t stabs lfile rfile addr (initial addr))

abbrev pub describe_in : (fuel : ℕ) → Memory → (addr : ℕ) → Option UserStabData → Described
describe_in fuel mem addr none = not_found (initial addr)
describe_in fuel mem addr (some t) = describe fuel mem t addr

unfoldable pub debuginfo_eip :
    (fuel : ℕ) (kernel : UserStabData) → Memory → (env_pgdir addr : ℕ) → M Described
debuginfo_eip fuel kernel mem env_pgdir addr =
    find_tables kernel mem env_pgdir addr >>= λ t. pure (describe_in fuel mem addr t)
