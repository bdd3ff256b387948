-- ===== src/Sched/Switch.antt =====
-- `env_run` switches to the environment.
use joslab4_init.Base.{
  ℕ, ◌+◌, ◌≡◌, refl, ap, ◌∙◌, ◌&&◌, Option, none, some, arith, ◌==◌, u32, if◌then◌else◌, Bool-cases,
  inl, inr, Bool, update, update_self,
}
use joslab4_init.Kernel.{
  env_runnable, env_running, Kernel, user_mode, left, curenv, set_env, lcr3, Env,
}
use joslab4_init.Env.{is_running, same_env}
use joslab4_init.Sched.{preempt, dispatch, launch, env_run}

-- What holds when `env_run` leaves the kernel for environment `e` with the directory `d`.
pub record Switched (e d : ℕ) (k k' : Kernel) : Type 0 where
  pub current : curenv k' ≡ some e
  pub environments :
      (j : ℕ)
      → k'.envs j ≡ (
          if j == e
          then record (k.envs e) {
            env_status = env_running;
            env_runs = u32 ((k.envs e).env_runs + 1);
            env_cpunum = k.cpunum;
          }
          else if same_env j (curenv k) && is_running (k.envs j).env_status
          then record (k.envs j) { env_status = env_runnable }
          else k.envs j)
  pub cpus : (c : ℕ) → k'.cpu_env c ≡ (if c == k.cpunum then some e else k.cpu_env c)
  pub spaces : (c : ℕ) → k'.cr3 c ≡ (if c == k.cpunum then d else k.cr3 c)
  pub rest :
      (k'.machine ≡ k.machine)
      × (k'.env_free_list ≡ k.env_free_list)
      × (k'.cpunum ≡ k.cpunum)
      × (k'.cpu_status ≡ k.cpu_status)
      × (k'.kern_pgdir ≡ k.kern_pgdir)
      × (k'.locked ≡ k.locked)
      × (k'.lock_cpu ≡ k.lock_cpu)

-- An environment that has been preempted.
abbrev made_runnable : Env → Env
made_runnable v = record v { env_status = env_runnable }

-- The environments `envs` that `preempt` leaves: the one that runs on this CPU is runnable.
record Preempted (o : Option ℕ) (k : Kernel) (envs : ℕ → Env) : Type 0 where
  same : preempt o k ≡ record k { envs = envs }
  at :
      (j : ℕ)
      → envs j ≡ (
          if same_env j o && is_running (k.envs j).env_status
          then made_runnable (k.envs j)
          else k.envs j)

preempt-Preempted : (o : Option ℕ) (k : Kernel) → (envs : ℕ → Env) × Preempted o k envs
unfolding preempt
preempt-Preempted none k = (k.envs, record { same = refl; at = λ j. refl })
preempt-Preempted (some c) k = elim (Bool-cases (is_running (k.envs c).env_status)) [
  | inl on ↦ (
    update k.envs c (made_runnable (k.envs c)),
    record { same = rw on refl; at = λ j. ground arith },
  )
  | inr off ↦ (k.envs, record { same = rw off refl; at = λ j. ground arith })
]

-- The kernel that `env_run` leaves, from the one after `preempt`.
abbrev switched : ℕ → ℕ → Kernel → Kernel
switched e d k =
    let k1 = lcr3 d (dispatch e k) in set_env e (record (k1.envs e) { env_cpunum = k1.cpunum }) k1

update_twice :
    (envs : ℕ → Env) (e j : ℕ) (f g : Env → Env)
    → update (update envs e (f (envs e))) e (g (update envs e (f (envs e)) e)) j
      ≡ (if j == e then g (f (envs e)) else envs j)
update_twice envs e j f g = rw (update_self envs e (f (envs e))) (ground arith)

-- What is set in `e` does not depend on whether `r` has been done to it before.
set_over :
    (old envs : ℕ → Env) (b : ℕ → Bool) (f r : Env → Env) (e j : ℕ)
    → ((i : ℕ) → envs i ≡ (if b i then r (old i) else old i))
    → ((v : Env) → f (r v) ≡ f v)
    → (if j == e then f (envs e) else envs j)
      ≡ (if j == e then f (old e) else if b j then r (old j) else old j)
set_over old envs b f r e j at over =
    rw (at e, at j)
      elim (Bool-cases (b e)) [
        | inl yes_set ↦ rw (yes_set, over (old e)) refl
        | inr not_set ↦ rw not_set refl
      ]

switched-Switched :
    (e d : ℕ) (k : Kernel) (envs : ℕ → Env)
    → Preempted (curenv k) k envs
    → Switched e d k (switched e d (record k { envs = envs }))
switched-Switched e d k envs p =
    let run : Env → Env =
      λ v. record v { env_status = env_running; env_runs = u32 (v.env_runs + 1) } in
    let pop : Env → Env = λ v. record v { env_cpunum = k.cpunum } in
    record {
      current = ground arith;
      environments = λ j.
          update_twice envs e j run pop
          ∙ set_over k.envs envs (λ i. same_env i (curenv k) && is_running (k.envs i).env_status)
              (λ v. pop (run v)) made_runnable e j (λ i. p.at i) (λ v. refl);
      cpus = λ c. refl;
      spaces = λ c. refl;
      rest = (refl, refl, refl, refl, refl, refl, refl);
    }

launch-switched :
    (e d : ℕ) (k1 : Kernel)
    → (k1.envs e).env_pgdir ≡ some d
    → launch ((dispatch e k1).envs e).env_pgdir e (dispatch e k1)
      ≡ left (user_mode e) (switched e d k1)
unfolding launch
launch-switched e d k1 h =
    let slot : ((dispatch e k1).envs e).env_pgdir ≡ some d = ground arith in
    ap (λ (o : Option ℕ). launch o e (dispatch e k1)) slot

-- `env_run` of an environment that has an address space leaves the kernel for it: it is the current one
-- of this CPU, running, with its address space loaded and one more run counted; another environment
-- that ran on this CPU before is runnable, and nothing else of any environment, of any CPU or of
-- the kernel has changed.
pub env_run-Switched :
    (e d : ℕ) (k : Kernel)
    → (k.envs e).env_pgdir ≡ some d
    → (k' : Kernel) × (env_run e k ≡ left (user_mode e) k') × Switched e d k k'
unfolding env_run
env_run-Switched e d k h =
    let (envs, p) = preempt-Preempted (curenv k) k in
    let k1 = record k { envs = envs } in
    rw p.same (
      switched e d k1,
      launch-switched e d k1 (ground (arith, p.at e, h)),
      switched-Switched e d k envs p,
    )
