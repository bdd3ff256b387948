-- ===== src/Tests/Envs.antt =====
-- Tests on environments: slot 1 of the array was used before and heads the free list, slot 0 runs.
use joslab4_init.Base.{
  ◌≡◌, ◌↔◌, ◌⊎◌, refl, true, false, none, some, [], ◌∷◌, arith, ◌==◌, if◌then◌else◌,
}
use joslab4_init.Kernel.{
  Trapframe, left, user_mode, Env, env_free, env_running, env_type_user, Kernel, returned,
  cpu_started,
}
use joslab4_init.Env.{is_free, user_tf, envx, found, bad_env, envid2env, env_alloc}
use joslab4_init.Env.Ids.{MayManage, envid2env_iff}
use joslab4_init.Env.Alloc.{Fresh, env_alloc-Fresh, stale_id}
use joslab4_init.Sched.{env_run}
use joslab4_init.Sched.Switch.{Switched, env_run-Switched}
use joslab4_init.Tests.{small, small-IsFreeList, full}

abbrev idle : Env
idle = record {
  env_tf = user_tf;
  env_link = none;
  env_id = 0x1001;
  env_parent_id = 0;
  env_type = env_type_user;
  env_status = env_free;
  env_runs = 0;
  env_cpunum = 0;
  env_pgdir = none;
  env_pgfault_upcall = 0;
  env_ipc_recving = 0;
  env_ipc_dstva = 0;
  env_ipc_value = 0;
  env_ipc_from = 0;
  env_ipc_perm = 0;
}

abbrev busy : Env
busy = record idle { env_id = 0x1000; env_status = env_running; env_pgdir = some 1 }

abbrev machine_room : Kernel
machine_room = record {
  machine = small;
  envs = λ e. if e == 0 then busy else idle;
  env_free_list = some 1;
  cpunum = 0;
  cpu_env = λ c. some 0;
  cpu_status = λ c. cpu_started;
  cr3 = λ c. 1;
  kern_pgdir = 1;
  locked = 1;
  lock_cpu = some 0;
}

abbrev no_room : Kernel
no_room = record machine_room { machine = full; env_free_list = some 1 }

env_alloc-Fresh_example :
    (k' : Kernel) × (env_alloc 0x1000 machine_room ≡ returned (none, some 1) k')
    × Fresh 0x1000 1 5 (6 ∷ []) machine_room k'
env_alloc-Fresh_example =
    env_alloc-Fresh 0x1000 1 5 (6 ∷ []) machine_room (omega arith) small-IsFreeList refl refl
      (omega arith) (omega arith)

stale_id_example :
    (k' : Kernel) × (env_alloc 0x1000 machine_room ≡ returned (none, some 1) k')
    × (envid2env k' 0x1001 true ≡ bad_env)
    × (envid2env k' (k'.envs 1).env_id false ≡ found (some 1))
stale_id_example =
    stale_id 0x1000 1 5 (6 ∷ []) machine_room true (omega arith) small-IsFreeList refl refl
      (omega arith) (omega arith) (omega arith) refl

envid2env_iff_example : (envid2env machine_room 0x1000 true ≡ found (some 0)) ↔ (
    (0 ≡ envx 0x1000)
    × (is_free (machine_room.envs 0).env_status ≡ false)
    × ((machine_room.envs 0).env_id ≡ 0x1000)
    × ((true ≡ false) ⊎ MayManage machine_room 0))
envid2env_iff_example = envid2env_iff machine_room 0x1000 0 true (omega arith)

abbrev boot : Kernel
boot = record machine_room { env_free_list = none }

env_run-Switched_example :
    (k' : Kernel) × (env_run 0 machine_room ≡ left (user_mode 0) k') × Switched 0 1 machine_room k'
env_run-Switched_example = env_run-Switched 0 1 machine_room refl

-- Page 3 as the directory of slot 0.
abbrev blank_room : Kernel
blank_room = record machine_room {
  envs = λ e. if e == 0 then record busy { env_pgdir = some 3 } else idle;
}

-- A spurious interrupt and a division by zero in user mode.
abbrev spurious_frame : Trapframe
spurious_frame = record user_tf { tf_trapno = 39 }

abbrev divide_frame : Trapframe
divide_frame = record user_tf { tf_trapno = 0 }
