-- ===== src/Env/Release.antt =====
-- `env_free` of an environment with no page table in the user part of its directory.
use joslab4_init.Base.{
  ℕ, zero, suc, ◌^◌, ◌≤◌, ◌<◌, ◌≡◌, ◌∙◌, ap, refl, Bool, true, false, Option, none, some, List, ◌∷◌,
  has, arith, ◌==◌, update_self, if◌then◌else◌, Bool-cases, inl, inr, lt→ltb,
}
use joslab4_init.Mmu.{utop, pdx, present}
use joslab4_init.Machine.{Machine, ok, page2pa, pa2page}
use joslab4_init.Machine
use joslab4_init.Pmap.{page_decref}
use joslab4_init.Pmap.FreeList.{IsFreeList}
use joslab4_init.Pmap.Alloc.{
  freed, counted, freed-IsFreeList, counted-IsFreeList, page_decref-freed, page2pa-frame,
}
use joslab4_init.Kernel.{env_free, Kernel, returned, curenv, lcr3, cur_pgdir}
use joslab4_init.Env.{same_env}
use joslab4_init.Env.Tables.{free_table, free_tables}
use joslab4_init.Env.Free.{drop_directory, put_slot, free_space, free_directory, free_env}

-- The first `n` entries of the directory `d` are not present.
abbrev pub IsBlankBelow : (d n : ℕ) → Machine → Type 0
IsBlankBelow d n m = (i : ℕ) → i < n → present (m.mem d i) ≡ false

free_tables_blank :
    (cur : Option ℕ) (d n : ℕ) (m : Machine) → IsBlankBelow d n m → free_tables cur d n m ≡ ok tt m
unfolding free_tables free_table
free_tables_blank cur d zero m blank = refl
free_tables_blank cur d (suc n) m blank =
    rw (free_tables_blank cur d n m (λ i h. blank i (omega arith)), blank n (omega arith)) refl

-- The release of a page with one reference.
release_page :
    (p : ℕ) (m : Machine)
    → p < m.npages
    → m.npages ≤ 2 ^ 20
    → m.pp_ref p ≡ 1
    → m.pp_link p ≡ none
    → Machine.◌>>=◌ (pa2page (page2pa p)) page_decref m ≡ ok tt (freed p (counted p 0 m))
unfolding pa2page
release_page p m h fits one null =
    rw (page2pa-frame p (omega arith), lt→ltb _ _ h) (page_decref-freed p m one null)

-- The kernel after the directory `p` of slot `e` is freed.
abbrev released : (e p : ℕ) → Kernel → Kernel
released e p k =
    let k1 = drop_directory e k in
    put_slot e (record k1 { machine = freed p (counted p 0 k.machine) })

-- What holds after the release of slot `e` and its directory `p`.
pub record Released (e p : ℕ) (xs : List ℕ) (k k' : Kernel) : Type 0 where
  pub pages : IsFreeList k'.machine (p ∷ xs)
  pub memory : k'.machine.mem ≡ k.machine.mem
  pub status : (k'.envs e).env_status ≡ env_free
  pub no_space : (k'.envs e).env_pgdir ≡ none
  pub id : (k'.envs e).env_id ≡ (k.envs e).env_id
  pub slots : (k'.env_free_list ≡ some e) × ((k'.envs e).env_link ≡ k.env_free_list)
  pub others : (j : ℕ) → k'.envs j ≡ (if j == e then k'.envs e else k.envs j)
  pub cpus :
      (k'.cpunum ≡ k.cpunum)
      × (k'.cpu_env ≡ k.cpu_env)
      × (k'.cpu_status ≡ k.cpu_status)
      × (k'.locked ≡ k.locked)
      × (k'.lock_cpu ≡ k.lock_cpu)

free_space-released :
    (e p : ℕ) (k : Kernel)
    → p < k.machine.npages
    → k.machine.npages ≤ 2 ^ 20
    → IsBlankBelow p (pdx utop) k.machine
    → k.machine.pp_ref p ≡ 1
    → k.machine.pp_link p ≡ none
    → free_space e p k ≡ returned tt (released e p k)
unfolding free_space
free_space-released e p k h fits blank one null =
    rw
      (
        free_tables_blank (cur_pgdir k) p (pdx utop) k.machine blank,
        release_page p k.machine h fits one null,
      )
      refl

released-Released :
    (e p : ℕ) (xs : List ℕ) (k : Kernel)
    → p < k.machine.npages
    → has p xs ≡ false
    → IsFreeList k.machine xs
    → Released e p xs k (released e p k)
released-Released e p xs k h out l =
    let m = k.machine in
    record {
      pages =
          freed-IsFreeList p (counted p 0 m) xs h (update_self m.pp_ref p 0) out
            (counted-IsFreeList p 0 m xs out l);
      memory = refl;
      status = ground arith;
      no_space = ground arith;
      id = ground arith;
      slots = (refl, ground arith);
      others = λ j. ground arith;
      cpus = (refl, refl, refl, refl, refl);
    }

free_env-some :
    (e p : ℕ) (k : Kernel) (b : Bool)
    → (k.envs e).env_pgdir ≡ some p
    → same_env e (curenv k) ≡ b
    → free_env e k ≡ free_space e p (if b then lcr3 k.kern_pgdir k else k)
unfolding free_env free_directory
free_env-some e p k b dir own =
    ap (λ (o : Option ℕ). free_directory o e k) dir
    ∙ ap (λ (c : Bool). free_space e p (if c then lcr3 k.kern_pgdir k else k)) own

-- `env_free` of an environment whose directory maps nothing in the user part, and which no other
-- address space uses: the directory goes in front of the free pages and the slot in front of the free
-- slots, the slot keeps its id, and memory and the other slots are as they were.
pub free_env-Released :
    (e p : ℕ) (xs : List ℕ) (k : Kernel)
    → (k.envs e).env_pgdir ≡ some p
    → p < k.machine.npages
    → k.machine.npages ≤ 2 ^ 20
    → IsBlankBelow p (pdx utop) k.machine
    → k.machine.pp_ref p ≡ 1
    → k.machine.pp_link p ≡ none
    → has p xs ≡ false
    → IsFreeList k.machine xs
    → (k' : Kernel) × (free_env e k ≡ returned tt k') × Released e p xs k k'
free_env-Released e p xs k dir h fits blank one null out l =
    elim (Bool-cases (same_env e (curenv k))) [
      | inl own ↦
          let k1 = lcr3 k.kern_pgdir k in
          let v = released-Released e p xs k1 h out l in
          (
            released e p k1,
            free_env-some e p k true dir own ∙ free_space-released e p k1 h fits blank one null,
            record {
              pages = v.pages;
              memory = v.memory;
              status = v.status;
              no_space = v.no_space;
              id = v.id;
              slots = v.slots;
              others = v.others;
              cpus = v.cpus;
            },
          )
      | inr other ↦ (
        released e p k,
        free_env-some e p k false dir other ∙ free_space-released e p k h fits blank one null,
        released-Released e p xs k h out l,
      )
    ]
