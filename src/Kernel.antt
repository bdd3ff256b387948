-- ===== src/Kernel.antt =====
-- The state of the kernel and the monad of its handlers: inc/env.h, inc/trap.h, kern/cpu.h.
-- A `struct Env *` is its index in `envs`. Numbers of type `int32_t`, an `envid_t` among them, are
-- held as `uint32_t` in two's complement. `cprintf` to the console is left out.
use joslab4_init.Base.{ℕ, Option, none, some, update}
use joslab4_init.Machine
use joslab4_init.Machine.{Machine, Error, M, Run}

pub record PushRegs : Type 0 where
  pub reg_edi : ℕ
  pub reg_esi : ℕ
  pub reg_ebp : ℕ
  pub reg_oesp : ℕ
  pub reg_ebx : ℕ
  pub reg_edx : ℕ
  pub reg_ecx : ℕ
  pub reg_eax : ℕ

-- `struct Trapframe` less its padding
pub record Trapframe : Type 0 where
  pub tf_regs : PushRegs
  pub tf_es : ℕ
  pub tf_ds : ℕ
  pub tf_trapno : ℕ
  pub tf_err : ℕ
  pub tf_eip : ℕ
  pub tf_cs : ℕ
  pub tf_eflags : ℕ
  pub tf_esp : ℕ
  pub tf_ss : ℕ

pub data EnvStatus : Type 0 where
  env_free env_dying env_runnable env_running env_not_runnable : EnvStatus

pub data EnvType : Type 0 where
  env_type_user : EnvType

pub record Env : Type 0 where
  pub env_tf : Trapframe
  pub env_link : Option ℕ
  pub env_id : ℕ
  pub env_parent_id : ℕ
  pub env_type : EnvType
  pub env_status : EnvStatus
  pub env_runs : ℕ
  pub env_cpunum : ℕ
  pub env_pgdir : Option ℕ  -- the frame of the page directory
  pub env_pgfault_upcall : ℕ
  pub env_ipc_recving : ℕ
  pub env_ipc_dstva : ℕ
  pub env_ipc_value : ℕ
  pub env_ipc_from : ℕ
  pub env_ipc_perm : ℕ

pub data CpuStatus : Type 0 where
  cpu_unused cpu_started cpu_halted : CpuStatus

-- `cpunum` is the CPU that runs the code; `cpu_env` and `cpu_status` are fields of `cpus`, and `cr3`
-- is the register of each CPU, as a frame.
pub record Kernel : Type 0 where
  pub machine : Machine
  pub envs : ℕ → Env
  pub env_free_list : Option ℕ
  pub cpunum : ℕ
  pub cpu_env : ℕ → Option ℕ
  pub cpu_status : ℕ → CpuStatus
  pub cr3 : ℕ → ℕ
  pub kern_pgdir : ℕ
  pub locked : ℕ  -- `kernel_lock.locked`
  pub lock_cpu : Option ℕ  -- `kernel_lock.cpu`

-- How control leaves the kernel for good: `iret` into an environment, `hlt`, or the monitor's loop.
pub data Exit : Type 0 where
  user_mode : ℕ → Exit
  halted : Exit
  in_monitor : Exit

-- `fault` is a read or write through NULL.
pub data Outcome (A : Type 0) : Type 0 where
  returned : A → Kernel → Outcome A
  left : Exit → Kernel → Outcome A
  panicked : Outcome A
  fault : Outcome A
  out_of_fuel : Outcome A

abbrev pub K : Type 0 → Type 0
K A = Kernel → Outcome A

abbrev pub pure : {A : Type 0} → A → K A
pure a = returned a

abbrev pub and_then : {A B : Type 0} → Outcome A → (A → K B) → Outcome B
and_then (returned a k) f = f a k
and_then (left e k) f = left e k
and_then panicked f = panicked
and_then fault f = fault
and_then out_of_fuel f = out_of_fuel

infixl 5 ◌>>=◌ ◌>>◌
abbrev pub ◌>>=◌ : {A B : Type 0} → K A → (A → K B) → K B
c >>= f = λ k. and_then (c k) f

abbrev pub ◌>>◌ : {B : Type 0} → K (Unit {0}) → K B → K B
c >> d = c >>= λ _. d

-- An operation of kern/pmap.c on the kernel's memory.
abbrev pub on_machine : {A : Type 0} → Kernel → Run A → Outcome A
on_machine k (Machine.ok a m) = returned a (record k { machine = m })
on_machine k Machine.panicked = panicked
on_machine k Machine.out_of_fuel = out_of_fuel

abbrev pub lift : {A : Type 0} → M A → K A
lift c k = on_machine k (c k.machine)

-- `curenv`
abbrev pub curenv : Kernel → Option ℕ
curenv k = k.cpu_env k.cpunum

abbrev pub set_curenv : Option ℕ → Kernel → Kernel
set_curenv e k = record k { cpu_env = update k.cpu_env k.cpunum e }

abbrev pub set_env : ℕ → Env → Kernel → Kernel
set_env e v k = record k { envs = update k.envs e v }

-- `lcr3(PADDR(pgdir))`
abbrev pub lcr3 : ℕ → Kernel → Kernel
lcr3 pgdir k = record k { cr3 = update k.cr3 k.cpunum pgdir }

-- The frame that a null `env_pgdir` would have in the map at KERNBASE: no page directory has it.
abbrev pub null_frame : ℕ
null_frame = 0x10000

abbrev pub pgdir_or_null : Option ℕ → ℕ
pgdir_or_null none = null_frame
pgdir_or_null (some d) = d

-- `curenv->env_pgdir`, if there is a `curenv`, for `tlb_invalidate`
abbrev pub cur_pgdir : Kernel → Option ℕ
cur_pgdir k = elim (curenv k) [ none ↦ none | some c ↦ some (pgdir_or_null (k.envs c).env_pgdir) ]
