-- ===== src/Env.antt =====
-- kern/env.c: environments. `NENV` is 1024.
pub mod Ids
pub mod Tables
pub mod Free
pub mod Release
pub mod Region
pub mod Load
pub mod Alloc
use joslab4_init.Base.{
  ℕ, zero, suc, ◌+◌, ◌-◌, ◌*◌, ◌/◌, ◌%◌, ◌^◌, Bool, true, false, not, ◌&&◌, ◌||◌, Option, none,
  some, ltb, leb, ◌==◌, ◌!=◌, update, u32, if◌then◌else◌, bit_or,
}
use joslab4_init.Mmu.{
  pgsize, ulim, utop, uvpt, ustacktop, pdx, present, pte_p, pte_u, pte_w, pte_addr, pgaddr,
}
use joslab4_init.Machine.{Error, e_bad_env, e_no_mem, e_no_free_env, M, load, store, page2pa}
use joslab4_init.Machine.{kaddr, pa2page, page2kva, set_ref, Machine}
use joslab4_init.Machine
use joslab4_init.Pmap.{page_alloc, page_decref, page_remove, page_insert, alloc_zero, ref_inc}
use joslab4_init.Kernel.{
  PushRegs, Trapframe, EnvStatus, env_free, env_dying, env_runnable, env_running, env_not_runnable,
  EnvType, env_type_user, Env, Kernel, Exit, user_mode, halted, in_monitor, Outcome, returned, left,
  panicked, fault, out_of_fuel, K, and_then, ◌>>=◌, ◌>>◌, lift, curenv, set_curenv, set_env, lcr3,
  cur_pgdir,
}

abbrev pub nenv : ℕ
nenv = 1024

-- ENVX
abbrev pub envx : ℕ → ℕ
envx envid = envid % nenv

abbrev pub is_free : EnvStatus → Bool
is_free env_free = true
is_free _ = false

abbrev pub is_running : EnvStatus → Bool
is_running env_running = true
is_running _ = false

abbrev pub same_env : ℕ → Option ℕ → Bool
same_env e none = false
same_env e (some c) = e == c

-- The result of `envid2env`: the stored pointer with 0, or -E_BAD_ENV (which stores NULL), or a read
-- through a null `curenv`.
pub data Found : Type 0 where
  found : Option ℕ → Found
  bad_env : Found
  null_curenv : Found

-- `checkperm && e != curenv && e->env_parent_id != curenv->env_id`
unfoldable pub check_perm : Kernel → ℕ → Option ℕ → Found
check_perm k e none = null_curenv
check_perm k e (some c) =
    if (e != c) && ((k.envs e).env_parent_id != (k.envs c).env_id) then bad_env else found (some e)

unfoldable pub envid2env : Kernel → (envid : ℕ) → (checkperm : Bool) → Found
unfolding check_perm
envid2env k envid checkperm =
    let e = envx envid in
    if envid == 0
    then found (curenv k)
    else if is_free (k.envs e).env_status || ((k.envs e).env_id != envid)
    then bad_env
    else if checkperm
    then check_perm k e (curenv k)
    else found (some e)

-- The body of the loop of `env_init`.
unfoldable pub init_env : ℕ → Kernel → Kernel
init_env i k =
    let e = k.envs i in
    record k {
      envs =
          update k.envs i
            (record e { env_id = 0; env_status = env_free; env_link = k.env_free_list });
      env_free_list = some i;
    }

-- The rounds `n - 1`, …, 0 of the loop.
unfoldable pub init_envs : ℕ → Kernel → Kernel
init_envs zero k = k
init_envs (suc n) k = init_envs n (init_env n k)

unfoldable pub env_init : Kernel → Kernel
env_init k = init_envs nenv k

-- `p->pp_ref++; e->env_pgdir = page2kva(p); memcpy(e->env_pgdir, kern_pgdir, PGSIZE);` and the
-- entry for UVPT.
abbrev pub user_directory : (kern_pgdir p f : ℕ) → Machine → Machine
user_directory kern_pgdir p f m =
    let copied = update m.mem f (m.mem kern_pgdir) in
    record m {
      pp_ref = update m.pp_ref p (ref_inc (m.pp_ref p));
      mem =
          update copied f (update (copied f) (pdx uvpt) (bit_or (bit_or (page2pa f) pte_p) pte_u));
    }

unfoldable pub setup_directory : ℕ → Option ℕ → K (Option Error)
setup_directory e none k = returned (some e_no_mem) k
setup_directory e (some p) k =
    let v = k.envs e in
    (lift (page2kva p) >>= λ f k'. returned none (
        set_env e (record v { env_pgdir = some f })
          (record k' { machine = user_directory k'.kern_pgdir p f k'.machine })))
      k

unfoldable pub env_setup_vm : ℕ → K (Option Error)
env_setup_vm e = lift (page_alloc alloc_zero) >>= setup_directory e

abbrev pub zero_regs : PushRegs
zero_regs = record {
  reg_edi = 0;
  reg_esi = 0;
  reg_ebp = 0;
  reg_oesp = 0;
  reg_ebx = 0;
  reg_edx = 0;
  reg_ecx = 0;
  reg_eax = 0;
}

abbrev pub gd_kt : ℕ
gd_kt = 0x08

abbrev pub gd_ut : ℕ
gd_ut = 0x18

abbrev pub gd_ud : ℕ
gd_ud = 0x20

-- The registers of a new environment: GD_UD | 3 and GD_UT | 3 are 0x23 and 0x1b.
abbrev pub user_tf : Trapframe
user_tf = record {
  tf_regs = zero_regs;
  tf_es = bit_or gd_ud 3;
  tf_ds = bit_or gd_ud 3;
  tf_trapno = 0;
  tf_err = 0;
  tf_eip = 0;
  tf_cs = bit_or gd_ut 3;
  tf_eflags = 0;
  tf_esp = ustacktop;
  tf_ss = bit_or gd_ud 3;
}

-- `(e->env_id + (1 << ENVGENSHIFT)) & ~(NENV - 1)`, and `1 << ENVGENSHIFT` if that is not positive
-- as an `int32_t`
unfoldable pub generation : ℕ → ℕ
generation env_id =
    let g = u32 (env_id + 2 ^ 12) / nenv * nenv in if (g == 0) || leb (2 ^ 31) g then 2 ^ 12 else g

-- What `env_alloc` writes into the slot after `env_setup_vm`.
unfoldable pub new_env : (e parent_id : ℕ) → Env → Env
new_env e parent_id v = record v {
  env_id = bit_or (generation v.env_id) e;
  env_parent_id = parent_id;
  env_type = env_type_user;
  env_status = env_runnable;
  env_runs = 0;
  env_tf = user_tf;
  env_pgfault_upcall = 0;
  env_ipc_recving = 0;
}

unfoldable pub alloc_at : (parent_id e : ℕ) → Option Error → K (Option Error × Option ℕ)
alloc_at parent_id e (some r) k = returned (some r, none) k
alloc_at parent_id e none k =
    let v = k.envs e in
    returned (none, some e)
      (record (set_env e (new_env e parent_id v) k) { env_free_list = v.env_link })

-- The error, or the new environment.
unfoldable pub env_alloc : (parent_id : ℕ) → K (Option Error × Option ℕ)
env_alloc parent_id k = elim k.env_free_list [
  | none ↦ returned (some e_no_free_env, none) k
  | some e ↦ (env_setup_vm e >>= alloc_at parent_id e) k
]
