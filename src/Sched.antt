-- ===== src/Sched.antt =====
-- kern/sched.c, and what kern/env.c, kern/spinlock.c and kern/pmap.c do with the CPU: `env_run`,
-- `env_destroy`, `unlock_kernel`, `user_mem_assert`. The monitor's loop ends only if a command
-- returns a negative number, which none does.
pub mod Switch
use joslab4_init.Base.{
  ℕ, zero, suc, ◌+◌, ◌^◌, ◌%◌, Bool, true, false, not, ◌&&◌, ◌||◌, Option, none, some, ◌==◌, ◌!=◌,
  update, u32, if◌then◌else◌, bit_or,
}
use joslab4_init.Mmu.{pte_u}
use joslab4_init.Machine.{Error}
use joslab4_init.Pmap.{user_mem_check}
use joslab4_init.Kernel.{
  Env, EnvStatus, env_free, env_dying, env_runnable, env_running, env_not_runnable, Kernel,
  CpuStatus, cpu_halted, Exit, user_mode, halted, in_monitor, Outcome, returned, left, panicked, K,
  and_then, ◌>>=◌, ◌>>◌, lift, curenv, set_curenv, set_env, lcr3, pgdir_or_null,
}
use joslab4_init.Env.{nenv, is_running, same_env}
use joslab4_init.Env.Free.{free_env}

-- The test of the loop of `sched_halt`.
abbrev pub is_alive : EnvStatus → Bool
is_alive env_runnable = true
is_alive env_running = true
is_alive env_dying = true
is_alive _ = false

-- Whether one of the first `n` environments is alive.
unfoldable pub some_alive : ℕ → Kernel → Bool
some_alive zero k = false
some_alive (suc n) k = some_alive n k || is_alive (k.envs n).env_status

-- `lk->locked && lk->cpu == thiscpu`
abbrev pub holding_lock : Kernel → Bool
holding_lock k = (k.locked != 0) && same_env k.cpunum k.lock_cpu

unfoldable pub unlock_kernel : K (Unit {0})
unlock_kernel k =
    if not (holding_lock k)
    then panicked
    else returned tt (record k { locked = 0; lock_cpu = none })

-- The CPU is marked as halted, with no environment and the kernel's directory.
abbrev pub idle_cpu : Kernel → Kernel
idle_cpu k =
    let k1 = lcr3 k.kern_pgdir (set_curenv none k) in
    record k1 { cpu_status = update k1.cpu_status k1.cpunum cpu_halted }

unfoldable pub sched_halt : K (Unit {0})
sched_halt k =
    if not (some_alive nenv k)
    then left in_monitor k
    else (unlock_kernel >> left halted) (idle_cpu k)

unfoldable pub sched_yield : K (Unit {0})
sched_yield = sched_halt

unfoldable pub env_destroy : ℕ → K (Unit {0})
env_destroy e k =
    if is_running (k.envs e).env_status && not (same_env e (curenv k))
    then returned tt (set_env e (record (k.envs e) { env_status = env_dying }) k)
    else (free_env e >> λ k1.
          if same_env e (curenv k1) then sched_yield (set_curenv none k1) else returned tt k1)
        k

-- `if (curenv && curenv->env_status == ENV_RUNNING) curenv->env_status = ENV_RUNNABLE;`
unfoldable pub preempt : Option ℕ → Kernel → Kernel
preempt none k = k
preempt (some c) k =
    if is_running (k.envs c).env_status
    then set_env c (record (k.envs c) { env_status = env_runnable }) k
    else k

-- `curenv = e; curenv->env_status = ENV_RUNNING; curenv->env_runs++;`
abbrev pub dispatch : ℕ → Kernel → Kernel
dispatch e k =
    set_env e
      (record (k.envs e) { env_status = env_running; env_runs = u32 ((k.envs e).env_runs + 1) })
      (set_curenv (some e) k)

-- `env_pop_tf`, up to the `iret`.
unfoldable pub env_pop_tf : ℕ → K (Unit {0})
env_pop_tf e k = left (user_mode e) (set_env e (record (k.envs e) { env_cpunum = k.cpunum }) k)

-- `lcr3(PADDR(curenv->env_pgdir)); env_pop_tf(&curenv->env_tf);`, where `PADDR` of a null pointer
-- panics.
unfoldable pub launch : Option ℕ → (e : ℕ) → K (Unit {0})
unfolding env_pop_tf
launch none e k = panicked
launch (some d) e k = env_pop_tf e (lcr3 d k)

unfoldable pub env_run : ℕ → K (Unit {0})
env_run e k = let k' = dispatch e (preempt (curenv k) k) in launch (k'.envs e).env_pgdir e k'

unfoldable pub user_mem_assert : (e va len perm : ℕ) → K (Unit {0})
user_mem_assert e va len perm k =
    let d = pgdir_or_null (k.envs e).env_pgdir in
    (lift (user_mem_check d va len (bit_or perm pte_u)) >>= λ r. elim r [
      | none ↦ returned tt
      | some _ ↦ env_destroy e
    ])
      k
