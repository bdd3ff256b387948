-- ===== src/Kdebug.antt =====
-- kern/kdebug.c: the search of the stabs. A range of indices, `l` to `r` in C, is kept with its end,
-- `r + 1`, which is never negative.
pub mod Scan
pub mod Binsearch
pub mod Debuginfo
use joslab4_init.Base.{
  ℕ, zero, suc, ◌+◌, ◌-◌, ◌/◌, Bool, true, false, Option, none, some, ltb, ◌==◌, u32, if◌then◌else◌,
}
use joslab4_init.Base.Int.{ℤ, pos, negsuc, minus_ℕ}

pub record Stab : Type 0 where
  pub n_strx : ℕ
  pub n_type : ℕ
  pub n_other : ℕ
  pub n_desc : ℕ
  pub n_value : ℕ

abbrev pub Stabs : Type 0
Stabs = ℕ → Stab

-- From the index before `m` down to `l`, the first stab of the type.
unfoldable pub find_back : Stabs → (type l m : ℕ) → Option ℕ
find_back stabs type l zero = none
find_back stabs type l (suc m) =
    let rest = find_back stabs type l m in
    if ltb m l then none else if (stabs m).n_type == type then some m else rest

-- The variables of `stab_binsearch`; `left` and `right` stand for `*region_left` and `*region_right`.
pub record Search : Type 0 where
  pub l : ℕ
  pub r : ℕ
  pub left : ℕ
  pub right : ℕ
  pub any_matches : Bool
  pub addr : ℕ

abbrev pub middle : (l r : ℕ) → ℕ
middle l r = (l + (r - 1)) / 2

-- The rest of a round, for the index at which the inner loop stops.
abbrev pub narrow : Stabs → Search → Option ℕ → Search
narrow stabs s none = record s { l = middle s.l s.r + 1 }
narrow stabs s (some m) =
    if ltb (stabs m).n_value s.addr
    then record s { any_matches = true; left = m; l = middle s.l s.r + 1 }
    else if ltb s.addr (stabs m).n_value
    then record s { any_matches = true; right = m; r = m }
    else record s { any_matches = true; left = m; l = m; addr = u32 (s.addr + 1) }

unfoldable pub search_round : Stabs → (type : ℕ) → Search → Search
search_round stabs type s = narrow stabs s (find_back stabs type s.l (middle s.l s.r + 1))

unfoldable pub search_loop : (fuel : ℕ) → Stabs → (type : ℕ) → Search → Option Search
search_loop zero stabs type s = none
search_loop (suc fuel) stabs type s =
    let rest = search_loop fuel stabs type (search_round stabs type s) in
    if ltb s.l s.r then rest else some s

-- From `l` down to `left`.
unfoldable pub rightmost : Stabs → (type left l : ℕ) → ℕ
rightmost stabs type left zero = zero
rightmost stabs type left (suc l) =
    let rest = rightmost stabs type left l in
    if ltb left (suc l) then (if (stabs (suc l)).n_type == type then suc l else rest) else suc l

-- The last loop, for a `*region_right` of -1 too.
abbrev pub rightmost_of : Stabs → (type left : ℕ) → ℤ → ℤ
rightmost_of stabs type left (pos l) = pos (rightmost stabs type left l)
rightmost_of stabs type left (negsuc l) = negsuc l

abbrev pub region : Stabs → (type : ℕ) → Search → ℤ × ℕ
region stabs type s =
    if s.any_matches
    then (rightmost_of stabs type s.left (minus_ℕ (pos s.right) 1), s.right)
    else (pos s.left, s.left)

abbrev pub map_region : Stabs → (type : ℕ) → Option Search → Option (ℤ × ℕ)
map_region stabs type none = none
map_region stabs type (some s) = some (region stabs type s)

-- The new `*region_left`, and the end of the region.
unfoldable pub stab_binsearch : (fuel : ℕ) → Stabs → (left right type addr : ℕ) → Option (ℤ × ℕ)
stab_binsearch fuel stabs left right type addr = map_region stabs type (
    search_loop fuel stabs type (record {
      l = left;
      r = right;
      left = left;
      right = right;
      any_matches = false;
      addr = addr;
    }))
