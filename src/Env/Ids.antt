-- ===== src/Env/Ids.antt =====
-- Environment ids: how `env_alloc` makes them and what `envid2env` accepts; the list of `env_init`.
use joslab4_init.Base.{
  ℕ, zero, suc, ◌+◌, ◌/◌, ◌%◌, ◌^◌, ◌<◌, ◌≡◌, ◌≢◌, ◌↔◌, ◌⊎◌, ◌∙◌, ap, refl, inl, inr, Bool, true,
  false, Option, none, some, List, [], ◌∷◌, arith, ◌!=◌, ◌||◌, update, bit_or, if◌then◌else◌, has,
  fun_ext, sym, update_self,
}
use Prim.Native.Nat.add
use mathlib.Core.Path.{subst}
use native.Mathlib.Decide.{dec_lt}
use joslab4_init.Base.Bits.{bit_or_fields}
use joslab4_init.Kernel.{Env, env_free, Kernel, curenv}
use joslab4_init.Env.{
  nenv, envx, is_free, found, bad_env, check_perm, envid2env, init_env, init_envs, env_init,
  generation, new_env,
}
use joslab4_init.Pmap.FreeList.{IsChain, IsChain-update}

generation_bounds :
    (id : ℕ)
    → id < 2 ^ 32
    → (generation id % 1024 ≡ 0)
      × (0 < generation id)
      × (generation id < 2 ^ 31)
      × (generation id / 1024 ≢ id / 1024)
unfolding generation
generation_bounds id h = ground arith

id_sum : (g e : ℕ) → g % 1024 ≡ 0 → e < 1024 → bit_or g e ≡ g + e
id_sum g e hg he =
    ap (λ (x : ℕ). bit_or x e) (omega arith) ∙ bit_or_fields 10 (g / 1024) e he ∙ omega arith

-- The id that `env_alloc` gives to slot `e` is a positive `int32_t` whose index part is the slot, and
-- differs from the id that the slot had before.
pub new_env_id :
    (e parent : ℕ) (v : Env)
    → e < nenv
    → v.env_id < 2 ^ 32
    → let id = (new_env e parent v).env_id in
      (0 < id) × (id < 2 ^ 31) × (envx id ≡ e) × (id ≢ v.env_id)
unfolding new_env
new_env_id e parent v he hv =
    let b = generation_bounds v.env_id hv in
    let s = id_sum (generation v.env_id) e b.0 he in omega (arith, b, s)

-- The permission that `checkperm` asks for.
abbrev pub MayManage : Kernel → ℕ → Type 0
MayManage k e =
    (c : ℕ) × (curenv k ≡ some c) × ((e ≡ c) ⊎ ((k.envs e).env_parent_id ≡ (k.envs c).env_id))

abbrev Permits : Kernel → ℕ → Option ℕ → Type 0
Permits k e o = (c : ℕ) × (o ≡ some c) × ((e ≡ c) ⊎ ((k.envs e).env_parent_id ≡ (k.envs c).env_id))

check_perm-same :
    (k : Kernel) (e e' : ℕ) (o : Option ℕ) → check_perm k e o ≡ found (some e') → e' ≡ e
unfolding check_perm
check_perm-same k e e' none h = cc
check_perm-same k e e' (some c) h = ground arith

check_perm-found :
    (k : Kernel) (e : ℕ) (o : Option ℕ) → check_perm k e o ≡ found (some e) → Permits k e o
unfolding check_perm
check_perm-found k e none h = cc
check_perm-found k e (some c) h = (c, refl, ground arith)

found_of_Permits :
    (k : Kernel) (e : ℕ) (o : Option ℕ) → Permits k e o → check_perm k e o ≡ found (some e)
unfolding check_perm
found_of_Permits k e none (c, h, p) = cc
found_of_Permits k e (some c) (d, h, p) = ground arith

-- Every branch of `envid2env` behind the test for 0.
pub envid2env_slot :
    (k : Kernel) (envid : ℕ) (checkperm : Bool)
    → envid ≢ 0
    → envid2env k envid checkperm ≡ (
        if is_free (k.envs (envx envid)).env_status || ((k.envs (envx envid)).env_id != envid)
        then bad_env
        else if checkperm
        then check_perm k (envx envid) (curenv k)
        else found (some (envx envid)))
unfolding envid2env
envid2env_slot k envid checkperm ne = ground arith

found-slot :
    (k : Kernel) (envid e : ℕ) (checkperm : Bool)
    → envid ≢ 0
    → envid2env k envid checkperm ≡ found (some e)
    → (e ≡ envx envid)
      × (is_free (k.envs (envx envid)).env_status ≡ false)
      × ((k.envs (envx envid)).env_id ≡ envid)
      × (checkperm ≡ true → check_perm k (envx envid) (curenv k) ≡ found (some e))
found-slot k envid e false ne h =
    let s = envid2env_slot k envid false ne in
    (ground (arith, s), ground (arith, s), ground (arith, s), λ t. cc)
found-slot k envid e true ne h =
    let s = envid2env_slot k envid true ne in
    let c : check_perm k (envx envid) (curenv k) ≡ found (some e) = ground (arith, s) in
    (check_perm-same k (envx envid) e (curenv k) c, ground (arith, s), ground (arith, s), λ t. c)

-- For an id other than 0, `envid2env` finds an environment exactly if it is the one at the index
-- part of the id, is not free and has this very id, and, with `checkperm`, is the current
-- environment or a child of it.
pub envid2env_iff :
    (k : Kernel) (envid e : ℕ) (checkperm : Bool)
    → envid ≢ 0
    → (envid2env k envid checkperm ≡ found (some e)) ↔ (
        (e ≡ envx envid)
        × (is_free (k.envs e).env_status ≡ false)
        × ((k.envs e).env_id ≡ envid)
        × ((checkperm ≡ false) ⊎ MayManage k e))
envid2env_iff k envid e checkperm ne = (
  λ h.
      let (same, live, own, permits) = found-slot k envid e checkperm ne h in
      rw same
        (refl, live, own, allowed checkperm (λ t. permits t ∙ ap (λ (x : ℕ). found (some x)) same)),
  λ (same, live, own, permits). back checkperm same live own permits,
)
  where
    allowed :
        (b : Bool)
        → (b ≡ true → check_perm k (envx envid) (curenv k) ≡ found (some (envx envid)))
        → (b ≡ false) ⊎ MayManage k (envx envid)
    allowed false h = inl refl
    allowed true h = inr (check_perm-found k (envx envid) (curenv k) (h refl))

    back :
        (b : Bool)
        → e ≡ envx envid
        → is_free (k.envs e).env_status ≡ false
        → (k.envs e).env_id ≡ envid
        → (b ≡ false) ⊎ MayManage k e
        → envid2env k envid b ≡ found (some e)
    back false same live own permits = ground (arith, envid2env_slot k envid false ne)
    back true same live own (inl never) = cc
    back true same live own (inr permits) =
        ground (arith, envid2env_slot k envid true ne, found_of_Permits k e (curenv k) permits)

-- The numbers from `i` on, `n` of them.
abbrev pub range : ℕ → ℕ → List ℕ
range i zero = []
range i (suc n) = i ∷ range (suc i) n

abbrev links : Kernel → ℕ → Option ℕ
links k i = (k.envs i).env_link

range-below : (j i n : ℕ) → j < i → has j (range i n) ≡ false
range-below j i zero h = refl
range-below j i (suc n) h = ground (arith, range-below j (suc i) n)

init_env-IsChain :
    (i n : ℕ) (k : Kernel)
    → IsChain (links k) k.env_free_list (range (suc i) n)
    → IsChain (links (init_env i k)) (init_env i k).env_free_list (range i (suc n))
unfolding init_env
init_env-IsChain i n k c =
    let l = links (init_env i k) in
    let same : l ≡ update (links k) i k.env_free_list = fun_ext λ j. ground arith in
    subst (λ f. IsChain f (some i) (i ∷ range (suc i) n)) (sym same)
      (
        refl,
        rw (update_self (links k) i k.env_free_list) (
            IsChain-update (links k) k.env_free_list i k.env_free_list (range (suc i) n)
              (range-below i (suc i) n (omega arith)) c),
      )

init_envs-IsChain :
    (m n : ℕ) (k : Kernel)
    → IsChain (links k) k.env_free_list (range m n)
    → IsChain (links (init_envs m k)) (init_envs m k).env_free_list (range 0 (m + n))
unfolding init_envs
init_envs-IsChain zero n k c = rw (add.zero n) c
init_envs-IsChain (suc m) n k c =
    let h = init_envs-IsChain m (suc n) (init_env m k) (init_env-IsChain m n k c) in
    let e : m + suc n ≡ suc m + n = omega arith in rw e at h

-- Slot `i` is free with id 0.
abbrev pub IsBlank : Env → Type 0
IsBlank v = (v.env_id ≡ 0) × (v.env_status ≡ env_free)

init_env-kept :
    (m i : ℕ) (k : Kernel)
    → IsBlank (k.envs i) ⊎ (i < suc m)
    → IsBlank ((init_env m k).envs i) ⊎ (i < m)
unfolding init_env
init_env-kept m i k b = elim (dec_lt i m) [ yes h ↦ inr h | no h ↦ inl (ground arith) ]

init_envs-kept :
    (m i : ℕ) (k : Kernel) → IsBlank (k.envs i) ⊎ (i < m) → IsBlank ((init_envs m k).envs i)
unfolding init_envs
init_envs-kept zero i k (inl b) = b
init_envs-kept zero i k (inr h) = absurd (omega arith)
init_envs-kept (suc m) i k b = init_envs-kept m i (init_env m k) (init_env-kept m i k b)

-- From an empty list `env_init` links all environments in the order of the array, each one free and
-- with id 0.
pub env_init_lem :
    (k : Kernel)
    → k.env_free_list ≡ none
    → IsChain (λ i. ((env_init k).envs i).env_link) (env_init k).env_free_list (range 0 nenv)
      × ((i : ℕ) → i < nenv → IsBlank ((env_init k).envs i))
unfolding env_init
env_init_lem k empty = (init_envs-IsChain nenv 0 k empty, λ i h. init_envs-kept nenv i k (inr h))
