-- ===== src/Spinlock.antt =====
-- kern/spinlock.c with DEBUG_SPINLOCK, as kern/spinlock.h defines it: CPUs that call `spin_lock` and
-- `spin_unlock` of one lock in turn, interleaved between their accesses to the lock. The test
-- `holding` is one step: only a CPU itself makes `lock->cpu` point to it. The saved call stack is
-- left out.
pub mod Exclusion
use joslab4_init.Base.{
  ℕ, Bool, true, false, not, ◌&&◌, Option, none, some, List, [], ◌∷◌, ◌==◌, ◌!=◌, update,
  if◌then◌else◌,
}

-- Where a CPU stands: before a call of `spin_lock`, before the exchange of its loop, before
-- `lk->cpu = thiscpu`, between the calls, and before the exchange of `spin_unlock`.
pub data Place : Type 0 where
  outside spinning taken inside leaving : Place

pub record System : Type 0 where
  pub locked : ℕ
  pub cpu : Option ℕ
  pub place : ℕ → Place

abbrev pub is_cpu : Option ℕ → ℕ → Bool
is_cpu none c = false
is_cpu (some d) c = d == c

unfoldable pub holding : ℕ → System → Bool
holding c s = (s.locked != 0) && is_cpu s.cpu c

-- The old value and the new one.
abbrev pub xchg : (value new : ℕ) → ℕ × ℕ
xchg value new = (value, new)

abbrev pub go : ℕ → Place → System → System
go c p s = record s { place = update s.place c p }

-- What CPU `c` does next at a place; `none` is a panic.
unfoldable pub turn_at : Place → (c : ℕ) → System → Option System
turn_at outside c s = if holding c s then none else some (go c spinning s)
turn_at spinning c s =
    let (old, new) = xchg s.locked 1 in
    some (go c (if old != 0 then spinning else taken) (record s { locked = new }))
turn_at taken c s = some (go c inside (record s { cpu = some c }))
turn_at inside c s =
    if not (holding c s) then none else some (go c leaving (record s { cpu = none }))
turn_at leaving c s = some (go c outside (record s { locked = (xchg s.locked 0).1 }))

unfoldable pub turn : (c : ℕ) → System → Option System
turn c s = turn_at (s.place c) c s

-- The turns of a schedule, the first CPU first.
unfoldable pub turns : List ℕ → System → Option System
turns [] s = some s
turns (c ∷ cs) s = elim (turn c s) [ none ↦ none | some s' ↦ turns cs s' ]

-- `kernel_lock` before it is used
abbrev pub unlocked : System
unlocked = record { locked = 0; cpu = none; place = λ c. outside }
