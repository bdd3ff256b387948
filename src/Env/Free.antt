-- ===== src/Env/Free.antt =====
-- `env_free`.
use joslab4_init.Base.{ℕ, Option, none, some, if◌then◌else◌}
use joslab4_init.Mmu.{utop, pdx}
use joslab4_init.Machine.{page2pa, pa2page}
use joslab4_init.Machine
use joslab4_init.Pmap.{page_decref}
use joslab4_init.Kernel.{
  env_free, Kernel, returned, fault, K, ◌>>◌, lift, curenv, set_env, lcr3, cur_pgdir,
}
use joslab4_init.Env.{same_env}
use joslab4_init.Env.Tables.{free_tables}

-- `e->env_pgdir = 0`
abbrev pub drop_directory : ℕ → Kernel → Kernel
drop_directory e k = set_env e (record (k.envs e) { env_pgdir = none }) k

-- The environment is returned to the free list.
abbrev pub put_slot : ℕ → Kernel → Kernel
put_slot e k =
    record (set_env e (record (k.envs e) { env_status = env_free; env_link = k.env_free_list }) k) {
      env_free_list = some e;
    }

-- From the loop over the page tables of the directory `d` on.
unfoldable pub free_space : (e d : ℕ) → K (Unit {0})
free_space e d k =
    (lift (free_tables (cur_pgdir k) d (pdx utop)) >> λ k1.
    (lift (Machine.◌>>=◌ (pa2page (page2pa d)) page_decref) >> λ k2. returned tt (put_slot e k2))
      (drop_directory e k1))
      k

unfoldable pub free_directory : Option ℕ → (e : ℕ) → K (Unit {0})
free_directory none e k = fault
free_directory (some d) e k =
    free_space e d (if same_env e (curenv k) then lcr3 k.kern_pgdir k else k)

unfoldable pub free_env : ℕ → K (Unit {0})
unfolding free_directory
free_env e k = free_directory (k.envs e).env_pgdir e k
