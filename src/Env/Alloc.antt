-- ===== src/Env/Alloc.antt =====
-- `env_alloc`: its errors, and the environment and address space that it makes.
use joslab4_init.Base.{
  ℕ, ◌+◌, ◌*◌, ◌^◌, ◌≤◌, ◌<◌, ◌≡◌, ◌≢◌, ◌∙◌, ap, refl, Bool, false, none, some, List, [], ◌∷◌,
  arith, ◌==◌, update, u32, bit_or, if◌then◌else◌, has, update_self, ne→!=,
}
use joslab4_init.Base.Bits.{bit_or-one}
use joslab4_init.Mmu.{pdx, uvpt, pte_p, pte_u}
use joslab4_init.Machine.{Machine, e_no_mem, page2pa}
use joslab4_init.Pmap.{alloc_zero, ref_inc}
use joslab4_init.Pmap.FreeList.{IsFreeList}
use joslab4_init.Pmap.Alloc.{
  taken, page_alloc-taken, page_alloc-Popped, taken-Allocated, page2kva-ok, counted,
  counted-IsFreeList,
}
use joslab4_init.Pmap.Walk.{bit_or_four}
use joslab4_init.Kernel.{Env, env_runnable, Kernel, returned}
use joslab4_init.Env.{
  user_directory, user_tf, setup_directory, env_setup_vm, new_env, alloc_at, env_alloc, nenv, envx,
  envid2env, bad_env, found,
}
use joslab4_init.Env.Ids.{new_env_id, envid2env_slot}

-- The kernel after `env_alloc` has used page `p` for the directory of slot `e`.
abbrev allocated : (parent_id e p : ℕ) → Kernel → Kernel
allocated parent_id e p k =
    let v = record (k.envs e) { env_pgdir = some p } in
    record k {
      machine = user_directory k.kern_pgdir p p (taken alloc_zero p k.machine);
      envs = update (update k.envs e v) e (new_env e parent_id v);
      env_free_list = (k.envs e).env_link;
    }

env_alloc-allocated :
    (parent_id e p : ℕ) (k : Kernel)
    → k.env_free_list ≡ some e
    → k.machine.page_free_list ≡ some p
    → p < k.machine.npages
    → k.machine.npages ≤ 2 ^ 20
    → env_alloc parent_id k ≡ returned (none, some e) (allocated parent_id e p k)
unfolding env_alloc env_setup_vm setup_directory alloc_at
env_alloc-allocated parent_id e p k he hp h fits = ground (
  arith,
  page_alloc-taken alloc_zero p k.machine hp h fits,
  page2kva-ok p (taken alloc_zero p k.machine) h fits,
)

-- What `env_alloc` leaves when it takes slot `e` and page `p`.
pub record Fresh (parent_id e p : ℕ) (xs : List ℕ) (k k' : Kernel) : Type 0 where
  pub runnable : (k'.envs e).env_status ≡ env_runnable
  pub parent : (k'.envs e).env_parent_id ≡ parent_id
  pub registers : (k'.envs e).env_tf ≡ user_tf
  pub directory : (k'.envs e).env_pgdir ≡ some p
  pub id :
      (0 < (k'.envs e).env_id)
      × ((k'.envs e).env_id < 2 ^ 31)
      × (envx (k'.envs e).env_id ≡ e)
      × ((k'.envs e).env_id ≢ (k.envs e).env_id)
  pub slots : k'.env_free_list ≡ (k.envs e).env_link
  pub others : (j : ℕ) → k'.envs j ≡ (if j == e then k'.envs e else k.envs j)
  pub pages : IsFreeList k'.machine xs
  pub reference : k'.machine.pp_ref p ≡ 1
  pub memory :
      (f i : ℕ)
      → k'.machine.mem f i ≡ (
          if f == p
          then (if i == pdx uvpt then p * 4096 + 5 else k.machine.mem k.kern_pgdir i)
          else k.machine.mem f i)

uvpt_value : (p : ℕ) → p < 2 ^ 20 → bit_or (bit_or (page2pa p) pte_p) pte_u ≡ p * 4096 + 5
unfolding page2pa
uvpt_value p h =
    ap (λ (x : ℕ). bit_or x 4) (bit_or-one (u32 (p * 2 ^ 12)) ∙ omega arith)
    ∙ bit_or_four (p * 4096 + 1)
    ∙ omega arith

user_directory-IsFreeList :
    (kern p : ℕ) (xs : List ℕ) (m : Machine)
    → has p xs ≡ false
    → IsFreeList m xs
    → IsFreeList (user_directory kern p p m) xs
user_directory-IsFreeList kern p xs m out l = record {
  chain = c.chain;
  distinct = c.distinct;
  unused = c.unused;
}
  where
    c : IsFreeList (counted p (ref_inc (m.pp_ref p)) m) xs
    c = counted-IsFreeList p (ref_inc (m.pp_ref p)) m xs out l

allocated-Fresh :
    (parent_id e p : ℕ) (xs : List ℕ) (k : Kernel)
    → e < nenv
    → (k.envs e).env_id < 2 ^ 32
    → k.machine.npages ≤ 2 ^ 20
    → IsFreeList k.machine (p ∷ xs)
    → k.kern_pgdir ≢ p
    → Fresh parent_id e p xs k (allocated parent_id e p k)
unfolding new_env
allocated-Fresh parent_id e p xs k he hid fits l apart =
    let v = record (k.envs e) { env_pgdir = some p } in
    let k' = allocated parent_id e p k in
    let slot : k'.envs e ≡ new_env e parent_id v =
      update_self (update k.envs e v) e (new_env e parent_id v) in
    let a = taken-Allocated alloc_zero p k.machine xs l in
    let own = l.unused p (ground arith) in
    record {
      runnable = ap Env.env_status slot;
      parent = ap Env.env_parent_id slot;
      registers = ap Env.env_tf slot;
      directory = ap Env.env_pgdir slot;
      id = rw slot (new_env_id e parent_id v he hid);
      slots = refl;
      others = λ j. ground arith;
      pages =
          user_directory-IsFreeList k.kern_pgdir p xs (taken alloc_zero p k.machine) (l.distinct.0)
            (a.rest);
      reference = ground arith;
      memory = λ f i. ground (arith, uvpt_value p (omega arith));
    }

-- With a free slot and no free page `env_alloc` returns -E_NO_MEM, and the kernel is as it was.
pub env_alloc-no_mem :
    (parent_id e : ℕ) (k : Kernel)
    → k.env_free_list ≡ some e
    → k.machine.npages ≤ 2 ^ 20
    → IsFreeList k.machine []
    → env_alloc parent_id k ≡ returned (some e_no_mem, none) k
unfolding env_alloc env_setup_vm setup_directory alloc_at
env_alloc-no_mem parent_id e k h fits l =
    ground (arith, page_alloc-Popped alloc_zero k.machine [] fits l)

-- With a free slot and a free page `env_alloc` takes the first of each: the environment is runnable,
-- with cleared registers, a new id, and an address space that copies the kernel's directory but for
-- UVPT, which maps the directory itself read-only.
pub env_alloc-Fresh :
    (parent_id e p : ℕ) (ys : List ℕ) (k : Kernel)
    → k.machine.npages ≤ 2 ^ 20
    → IsFreeList k.machine (p ∷ ys)
    → has k.kern_pgdir (p ∷ ys) ≡ false
    → k.env_free_list ≡ some e
    → e < nenv
    → (k.envs e).env_id < 2 ^ 32
    → (k' : Kernel) × (env_alloc parent_id k ≡ returned (none, some e) k')
      × Fresh parent_id e p ys k k'
env_alloc-Fresh parent_id e p ys k fits l out h he hid =
    let apart : k.kern_pgdir ≢ p = ground arith in
    (
      allocated parent_id e p k,
      env_alloc-allocated parent_id e p k h (l.chain.0) (l.unused p (ground arith)).0 fits,
      allocated-Fresh parent_id e p ys k he hid fits l apart,
    )

refused :
    (k' : Kernel) (id : ℕ) (checkperm : Bool)
    → id ≢ 0
    → (k'.envs (envx id)).env_id ≢ id
    → envid2env k' id checkperm ≡ bad_env
refused k' id checkperm used other =
    envid2env_slot k' id checkperm used ∙ ground (arith, ne→!= (k'.envs (envx id)).env_id id other)

accepted :
    (k' : Kernel) (e : ℕ)
    → (k'.envs e).env_id ≢ 0
    → envx (k'.envs e).env_id ≡ e
    → (k'.envs e).env_status ≡ env_runnable
    → envid2env k' (k'.envs e).env_id false ≡ found (some e)
accepted k' e used slot live =
    envid2env_slot k' (k'.envs e).env_id false used ∙ rw (slot, live) (ground arith)

-- When `env_alloc` reuses a slot, then in the state that it leaves the id that the slot had before is
-- refused, with or without `checkperm`, and the new id finds the slot.
pub stale_id :
    (parent_id e p : ℕ) (ys : List ℕ) (k : Kernel) (checkperm : Bool)
    → k.machine.npages ≤ 2 ^ 20
    → IsFreeList k.machine (p ∷ ys)
    → has k.kern_pgdir (p ∷ ys) ≡ false
    → k.env_free_list ≡ some e
    → e < nenv
    → (k.envs e).env_id < 2 ^ 32
    → (k.envs e).env_id ≢ 0
    → envx (k.envs e).env_id ≡ e
    → (k' : Kernel) × (env_alloc parent_id k ≡ returned (none, some e) k')
      × (envid2env k' (k.envs e).env_id checkperm ≡ bad_env)
      × (envid2env k' (k'.envs e).env_id false ≡ found (some e))
stale_id parent_id e p ys k checkperm fits l out h he hid used slot =
    let (k', ran, f) = env_alloc-Fresh parent_id e p ys k fits l out h he hid in
    (
      k',
      ran,
      refused k' (k.envs e).env_id checkperm used (rw slot (f.id.3)),
      accepted k' e (omega (arith, f.id)) (f.id.2) (f.runnable),
    )
