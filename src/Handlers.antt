-- ===== src/Handlers.antt =====
-- kern/syscall.c: the handlers behind the switch of `syscall`, which it does not reach at this commit.
use joslab4_init.Base.{ℕ, Bool, true, Option, none, some, List, [], ◌∷◌, ◌≡◌, ap}
use joslab4_init.Memory.{Memory}
use joslab4_init.Machine.{Error, e_bad_env}
use joslab4_init.Kernel.{Kernel, returned, fault, K, ◌>>=◌, curenv}
use joslab4_init.Env.{Found, found, bad_env, null_curenv, envid2env}
use joslab4_init.Sched.{env_destroy, sched_yield, user_mem_assert}
use joslab4_init.Console.{Input, cons_getc}
use joslab4_init.Printfmt.Cprintf.{Cprinted, kernel_vcprintf}

-- The call of `cprintf`; `mem` is the memory of the current address space, with the format, which
-- stands in the kernel, at `fmt`.
abbrev pub put_user : (fuel limit : ℕ) → Memory → (fmt s len : ℕ) → Cprinted ℕ
put_user fuel limit mem fmt s len = kernel_vcprintf fuel limit mem fmt (len ∷ s ∷ [])

unfoldable pub sys_cputs : (fuel limit : ℕ) → Memory → (fmt s len : ℕ) → K (Cprinted ℕ)
sys_cputs fuel limit mem fmt s len k = elim (curenv k) [
  | none ↦ fault
  | some c ↦ (user_mem_assert c s len 0 >>= λ u. returned (put_user fuel limit mem fmt s len)) k
]

abbrev pub sys_cgetc : (serial_exists : Bool) → (serial kbd : List ℕ) → Input → ℕ × Input
sys_cgetc = cons_getc

unfoldable pub sys_getenvid : K ℕ
sys_getenvid k = elim (curenv k) [ none ↦ fault | some c ↦ returned ((k.envs c).env_id) k ]

-- What follows `envid2env`; the message reads `curenv->env_id`.
abbrev pub destroy_found : Found → K (Option Error)
destroy_found (found none) = λ k. fault
destroy_found (found (some e)) = env_destroy e >>= λ u. returned none
destroy_found bad_env = returned (some e_bad_env)
destroy_found null_curenv = λ k. fault

unfoldable pub sys_env_destroy : (envid : ℕ) → K (Option Error)
sys_env_destroy envid k = destroy_found (envid2env k envid true) k

abbrev pub sys_yield : K (Unit {0})
sys_yield = sched_yield

-- An id that `envid2env` refuses gives the error, with the kernel's state as before.
pub sys_env_destroy-bad_env :
    (envid : ℕ) (k : Kernel)
    → envid2env k envid true ≡ bad_env
    → sys_env_destroy envid k ≡ returned (some e_bad_env) k
unfolding sys_env_destroy
sys_env_destroy-bad_env envid k h = ap (λ (f : Found). destroy_found f k) h
