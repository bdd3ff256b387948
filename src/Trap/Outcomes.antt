-- ===== src/Trap/Outcomes.antt =====
-- How traps from user mode end: a spurious interrupt, an exception, a system call.
use joslab4_init.Base.{
  ℕ, ◌+◌, ◌%◌, ◌≡◌, refl, ap, false, some, eq→==, update, u32, if◌then◌else◌, ◌==◌,
}
use joslab4_init.Kernel
use joslab4_init.Kernel.{
  Trapframe, Env, Kernel, panicked, env_running, cpu_started, curenv, set_env,
}
use joslab4_init.Trap.{
  t_syscall, syscall, trap_dispatch, is_halted, is_dying, from_user, resume, wake, trap,
}

-- The frame `tf` comes from user mode, in environment `c`, which runs on a CPU that was not halted.
pub record IsUserTrap (c : ℕ) (tf : Trapframe) (k : Kernel) : Type 0 where
  pub awake : is_halted (k.cpu_status k.cpunum) ≡ false
  pub current : curenv k ≡ some c
  pub running : (k.envs c).env_status ≡ env_running
  pub user : tf.tf_cs % 4 ≡ 3

-- The kernel with the frame saved in environment `c`, and the CPU started.
abbrev pub saved : (c : ℕ) → Trapframe → Kernel → Kernel
saved c tf k =
    set_env c (record (k.envs c) { env_tf = tf })
      (record k { cpu_status = update k.cpu_status k.cpunum cpu_started })

-- The frame is saved before the trap is dispatched.
trap-dispatched :
    (c : ℕ) (tf : Trapframe) (k : Kernel)
    → IsUserTrap c tf k
    → trap false false tf k
      ≡ Kernel.and_then (trap_dispatch tf (saved c tf k)) (λ _ k2. resume (curenv k2) k2)
unfolding trap wake from_user
trap-dispatched c tf k u =
    let alive : is_dying (k.envs c).env_status ≡ false = ap is_dying u.running in
    rw (u.awake, eq→== (tf.tf_cs % 4) 3 u.user, u.current, alive) refl

-- What holds when environment `c`, with the directory `d`, goes on after a trap with the frame `tf`.
pub record Resumed (c d : ℕ) (tf : Trapframe) (k k' : Kernel) : Type 0 where
  pub environments :
      (j : ℕ)
      → k'.envs j ≡ (
          if j == c
          then record (k.envs c) {
            env_tf = tf;
            env_status = env_running;
            env_runs = u32 ((k.envs c).env_runs + 1);
            env_cpunum = k.cpunum;
          }
          else k.envs j)
  pub cpus : (q : ℕ) → k'.cpu_env q ≡ (if q == k.cpunum then some c else k.cpu_env q)
  pub started : (q : ℕ) → k'.cpu_status q ≡ (if q == k.cpunum then cpu_started else k.cpu_status q)
  pub spaces : (q : ℕ) → k'.cr3 q ≡ (if q == k.cpunum then d else k.cr3 q)
  pub machine : k'.machine ≡ k.machine
  pub slots : k'.env_free_list ≡ k.env_free_list
  pub lock : (k'.locked ≡ k.locked) × (k'.lock_cpu ≡ k.lock_cpu)

-- Such a system call panics the kernel, whatever its number.
pub trap-syscall :
    (c : ℕ) (tf : Trapframe) (k : Kernel)
    → IsUserTrap c tf k
    → tf.tf_trapno ≡ t_syscall
    → trap false false tf k ≡ panicked
unfolding trap_dispatch syscall
trap-syscall c tf k u call = rw (trap-dispatched c tf k u, u.user, call) refl
