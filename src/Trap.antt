-- ===== src/Trap.antt =====
-- kern/trap.c: `trap` and what it calls, and the system call handler of kern/syscall.c, which panics
-- before its switch. `panicstr` is whether another CPU has called `panic`, `fl_if` whether interrupts
-- are enabled.
pub mod Outcomes
pub mod Gates
use joslab4_init.Base.{
  ℕ, ◌+◌, ◌%◌, Bool, true, false, not, ◌&&◌, Option, none, some, ◌==◌, ◌!=◌, update, if◌then◌else◌,
}
use joslab4_init.Kernel.{
  Trapframe, Env, EnvStatus, env_dying, Kernel, CpuStatus, cpu_unused, cpu_started, cpu_halted,
  Exit, halted, in_monitor, Outcome, returned, left, panicked, fault, out_of_fuel, K, and_then,
  ◌>>=◌, ◌>>◌, curenv, set_curenv, set_env,
}
use joslab4_init.Env.{is_running, gd_kt}
use joslab4_init.Env.Free.{free_env}
use joslab4_init.Sched.{holding_lock, sched_yield, env_destroy, env_run}

abbrev pub t_brkpt : ℕ
t_brkpt = 3

abbrev pub t_pgflt : ℕ
t_pgflt = 14

abbrev pub t_syscall : ℕ
t_syscall = 48

abbrev pub irq_offset : ℕ
irq_offset = 32

abbrev pub irq_spurious : ℕ
irq_spurious = 7

-- The assignment of the result to `reg_eax` is not reached.
unfoldable pub syscall : (syscallno a1 a2 a3 a4 a5 : ℕ) → K ℕ
syscall syscallno a1 a2 a3 a4 a5 k = panicked

abbrev pub set_eax : (e r : ℕ) → Kernel → Kernel
set_eax e r k =
    let v = k.envs e in
    let tf = v.env_tf in
    set_env e (record v { env_tf = record tf { tf_regs = record tf.tf_regs { reg_eax = r } } }) k

-- `env_destroy(curenv)`
abbrev pub destroy_curenv : Option ℕ → K (Unit {0})
destroy_curenv none = λ k. fault
destroy_curenv (some c) = env_destroy c

unfoldable pub page_fault_handler : K (Unit {0})
page_fault_handler k = destroy_curenv (curenv k) k

-- `tf` is the saved frame of `curenv` for traps from user mode, the only ones that get past the first
-- test; the result of a system call is stored into it.
unfoldable pub trap_dispatch : Trapframe → K (Unit {0})
trap_dispatch tf k =
    let regs = tf.tf_regs in
    if tf.tf_cs % 4 == 0
    then panicked
    else if tf.tf_trapno == t_syscall
    then (syscall regs.reg_eax regs.reg_edx regs.reg_ecx regs.reg_ebx regs.reg_edi regs.reg_esi
          >>= λ r k'. elim (curenv k') [ none ↦ fault | some c ↦ returned tt (set_eax c r k') ])
        k
    else if tf.tf_trapno == t_pgflt
    then page_fault_handler k
    else if tf.tf_trapno == t_brkpt
    then left in_monitor k
    else if tf.tf_trapno == irq_offset + irq_spurious
    then returned tt k
    else if tf.tf_cs == gd_kt
    then panicked
    else destroy_curenv (curenv k) k

-- `lock_kernel`: the CPU spins for good (its fuel is used up) if the lock stays taken.
unfoldable pub lock_kernel : K (Unit {0})
lock_kernel k =
    if holding_lock k
    then panicked
    else if k.locked != 0
    then out_of_fuel
    else returned tt (record k { locked = 1; lock_cpu = some k.cpunum })

abbrev pub is_halted : CpuStatus → Bool
is_halted cpu_halted = true
is_halted _ = false

abbrev pub is_dying : EnvStatus → Bool
is_dying env_dying = true
is_dying _ = false

-- The trap came from user mode: the environment's frame is saved, or a zombie is freed.
unfoldable pub from_user : Trapframe → Option ℕ → K (Unit {0})
from_user tf none k = panicked
from_user tf (some c) k =
    ((λ k1.
          if is_dying (k1.envs c).env_status
          then (free_env c >> λ k2. sched_yield (set_curenv none k2)) k1
          else returned tt k1)
        >> λ k3. returned tt (set_env c (record (k3.envs c) { env_tf = tf }) k3))
      k

-- After the dispatch.
unfoldable pub resume : Option ℕ → K (Unit {0})
resume none k = sched_yield k
resume (some c) k = if is_running (k.envs c).env_status then env_run c k else sched_yield k

-- `xchg(&thiscpu->cpu_status, CPU_STARTED) == CPU_HALTED`
unfoldable pub wake : K (Unit {0})
wake k =
    let old = k.cpu_status k.cpunum in
    let k' = record k { cpu_status = update k.cpu_status k.cpunum cpu_started } in
    if is_halted old then lock_kernel k' else returned tt k'

unfoldable pub trap : (panicstr fl_if : Bool) → Trapframe → K (Unit {0})
trap panicstr fl_if tf k =
    if panicstr
    then left halted k
    else (wake >> λ k1.
          if fl_if
          then panicked
          else ((if tf.tf_cs % 4 == 3 then from_user tf (curenv k1) else returned tt)
                >> trap_dispatch tf
                >> λ k2. resume (curenv k2) k2)
              k1)
        k
