-- ===== src/User.antt =====
-- lib/: what a user program links. `interrupt` is `int $T_SYSCALL` with the number and the five
-- arguments in registers: the kernel's side, which is given, on the state `W` of everything else.
-- Registers hold words; an `int` is positive below 2 ^ 31.
use joslab4_init.Base.{
  ℕ, zero, suc, ◌+◌, ◌-◌, ◌%◌, ◌^◌, Bool, true, false, ◌&&◌, Option, none, some, List, [], ◌∷◌, ltb,
  ◌==◌, ◌!=◌, if◌then◌else◌,
}
use joslab4_init.Env.{nenv, envx}
pub mod Calls

pub data User (W A : Type 0) : Type 0 where
  returned : A → W → User W A
  panicked : User W A
  out_of_fuel : User W A

abbrev pub Interrupt : Type 0 → Type 0
Interrupt W = (num a1 a2 a3 a4 a5 : ℕ) → W → ℕ × W

abbrev pub is_positive : ℕ → Bool
is_positive ret = ltb 0 ret && ltb ret (2 ^ 31)

abbrev pub checked : {W : Type 0} → (check : Bool) → ℕ × W → User W ℕ
checked check (ret, w) = if check && is_positive ret then panicked else returned ret w

abbrev pub after : {W A B : Type 0} → User W A → (A → W → User W B) → User W B
after (returned a w) k = k a w
after panicked k = panicked
after out_of_fuel k = out_of_fuel

module _ {W : Type 0} (interrupt : Interrupt W) where
  unfoldable pub syscall : (num : ℕ) → (check : Bool) → (a1 a2 a3 a4 a5 : ℕ) → W → User W ℕ
  syscall num check a1 a2 a3 a4 a5 w = checked check (interrupt num a1 a2 a3 a4 a5 w)

  unfoldable pub sys_cputs : (s len : ℕ) → W → User W ℕ
  sys_cputs s len = syscall 0 false s len 0 0 0

  unfoldable pub sys_cgetc : W → User W ℕ
  sys_cgetc = syscall 1 false 0 0 0 0 0

  unfoldable pub sys_getenvid : W → User W ℕ
  sys_getenvid = syscall 2 false 0 0 0 0 0

  unfoldable pub sys_env_destroy : (envid : ℕ) → W → User W ℕ
  sys_env_destroy envid = syscall 3 true envid 0 0 0 0

  unfoldable pub sys_page_alloc : (envid va perm : ℕ) → W → User W ℕ
  sys_page_alloc envid va perm = syscall 4 true envid va perm 0 0

  unfoldable pub sys_page_map : (srcenv srcva dstenv dstva perm : ℕ) → W → User W ℕ
  sys_page_map srcenv srcva dstenv dstva perm = syscall 5 true srcenv srcva dstenv dstva perm

  unfoldable pub sys_page_unmap : (envid va : ℕ) → W → User W ℕ
  sys_page_unmap envid va = syscall 6 true envid va 0 0 0

  unfoldable pub sys_env_set_status : (envid status : ℕ) → W → User W ℕ
  sys_env_set_status envid status = syscall 8 true envid status 0 0 0

  unfoldable pub sys_env_set_pgfault_upcall : (envid upcall : ℕ) → W → User W ℕ
  sys_env_set_pgfault_upcall envid upcall = syscall 9 true envid upcall 0 0 0

  unfoldable pub sys_yield : W → User W ℕ
  sys_yield = syscall 10 false 0 0 0 0 0

  unfoldable pub sys_ipc_try_send : (envid value srcva perm : ℕ) → W → User W ℕ
  sys_ipc_try_send envid value srcva perm = syscall 11 false envid value srcva perm 0

  unfoldable pub sys_ipc_recv : (dstva : ℕ) → W → User W ℕ
  sys_ipc_recv dstva = syscall 12 true dstva 0 0 0 0

  -- lib/console.c; `c` is the address of the local that holds the character.
  unfoldable pub cputchar : (c : ℕ) → W → User W ℕ
  cputchar c = sys_cputs c 1

  -- The loop `while ((r = sys_cgetc()) == 0) sys_yield();`, with fuel for its rounds.
  unfoldable pub getchar : (fuel : ℕ) → W → User W ℕ
  getchar zero w = out_of_fuel
  getchar (suc fuel) w = after (sys_cgetc w) (λ r w.
      let rest = after (sys_yield w) (λ u w. getchar fuel w) in
      if r == 0 then rest else returned r w)

  unfoldable pub exit : W → User W ℕ
  exit = sys_env_destroy 0

  -- `libmain`: the index of `thisenv` and `binaryname` are what `umain` is given.
  unfoldable pub libmain :
      (umain : (thisenv binaryname : ℕ) → W → User W (Unit {0}))
      → (argc argv0 unknown : ℕ) → W
      → User W ℕ
  libmain umain argc argv0 unknown w = after (sys_getenvid w) (λ id w.
      after (umain (envx id) (if is_positive argc then argv0 else unknown) w) (λ u w. exit w))

  -- lib/pgfault.c; 0 is no handler. The result is the new `_pgfault_handler`.
  unfoldable pub set_pgfault_handler : (old handler : ℕ) → W → User W ℕ
  set_pgfault_handler old handler w = if old == 0 then panicked else returned handler w

  -- lib/fork.c and lib/ipc.c: not implemented at this commit.
  unfoldable pub fork : W → User W ℕ
  fork w = panicked

  unfoldable pub ipc_recv : (from_env_store pg perm_store : ℕ) → W → User W ℕ
  ipc_recv from_env_store pg perm_store w = panicked

  unfoldable pub ipc_send : (to_env val pg perm : ℕ) → W → User W ℕ
  ipc_send to_env val pg perm w = panicked

-- The rounds of `ipc_find_env` on the last `n` environments of the array; `env_type` and `env_id` are
-- their fields, and types are numbers.
unfoldable pub find_env : (env_type env_id : ℕ → ℕ) → (type n : ℕ) → ℕ
find_env env_type env_id type zero = 0
find_env env_type env_id type (suc n) =
    let rest = find_env env_type env_id type n in
    if env_type (nenv - suc n) == type then env_id (nenv - suc n) else rest

unfoldable pub ipc_find_env : (env_type env_id : ℕ → ℕ) → (type : ℕ) → ℕ
ipc_find_env env_type env_id type = find_env env_type env_id type nenv
