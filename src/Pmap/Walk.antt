-- ===== src/Pmap/Walk.antt =====
-- `pgdir_walk`: where the entry of an address is.
use joslab4_init.Base.{
  ℕ, ◌+◌, ◌*◌, ◌/◌, ◌%◌, ◌^◌, ◌≤◌, ◌<◌, ◌≡◌, ◌≢◌, ap, ◌∙◌, inl, inr, Bool, true, false, Option,
  none, some, List, [], ◌∷◌, has, update, arith, Bool-cases, u32, bit_or, ◌==◌, ◌&&◌, if◌then◌else◌,
}
use joslab4_init.Base.Bits.{bit_or_fields, bit_or-one, bit_or_step, bit_or_parity}
use joslab4_init.Mmu.{pdx, ptx, pgnum, pte_addr, present, pte_p, pte_u, pte_w}
use joslab4_init.Machine.{Machine, Run, ok, panicked, out_of_fuel, page2pa, kaddr, and_then, write}
use joslab4_init.Pmap.{entry_of, new_table, pgdir_walk, page_alloc, alloc_zero, ref_inc}
use joslab4_init.Pmap.FreeList.{IsFreeList}
use joslab4_init.Pmap.Alloc.{
  taken, counted, page_alloc-taken, page_alloc-Popped, counted-IsFreeList, taken-Allocated,
}

-- The frame that an entry points to.
abbrev pub frame : ℕ → ℕ
frame pte = pgnum (pte_addr pte)

pub frame_lem : (pte : ℕ) → frame pte ≡ pte / 4096
unfolding pgnum pte_addr
frame_lem pte = omega arith

-- `page2pa(p) | perm | PTE_P`
pub entry_value :
    (p perm : ℕ)
    → p < 2 ^ 20
    → perm < 2 ^ 12
    → bit_or (bit_or (page2pa p) perm) pte_p ≡ p * 4096 + perm / 2 * 2 + 1
unfolding page2pa
entry_value p perm hp hq =
    bit_or-one (bit_or (u32 (p * 2 ^ 12)) perm)
    ∙ omega (arith, ap (λ (x : ℕ). bit_or x perm) small, bit_or_fields 12 p perm hq)
  where
    small : u32 (p * 2 ^ 12) ≡ p * 2 ^ 12
    small = omega arith

bit_or_two : (a : ℕ) → bit_or a 2 ≡ (a / 4 * 2 + 1) * 2 + a % 2
bit_or_two a = omega (arith, bit_or_step a 2, bit_or-one (a / 2))

pub bit_or_four : (a : ℕ) → bit_or a 4 ≡ (a / 8 * 2 + 1) * 4 + a % 4
bit_or_four a = omega (arith, bit_or_step a 4, bit_or_two (a / 2))

-- A page table entry in the directory: `page2pa(page) | PTE_P | PTE_U | PTE_W`
pub directory_value :
    (p : ℕ) → p < 2 ^ 20 → bit_or (bit_or (bit_or (page2pa p) pte_p) pte_u) pte_w ≡ p * 4096 + 7
unfolding page2pa
directory_value p hp =
    ap (λ (x : ℕ). bit_or (bit_or x 4) 2) (bit_or-one _ ∙ omega arith)
    ∙ ap (λ (x : ℕ). bit_or x 2) (bit_or_four (p * 4096 + 1) ∙ omega arith)
    ∙ bit_or_two (p * 4096 + 5)
    ∙ omega arith

entry_of-ok :
    (pgdir va t i : ℕ) (m m' : Machine)
    → entry_of pgdir va m ≡ ok (some (t, i)) m'
    → (m' ≡ m) × (frame (m.mem pgdir (pdx va)) ≡ t) × (t < m.npages) × (i ≡ ptx va)
unfolding entry_of kaddr
entry_of-ok pgdir va t i m m' e = ground arith

-- What a pointer from `pgdir_walk` says of the machine: the directory's entry is present and leads
-- to the page table, and the index is that of the address.
pub record IsEntry (pgdir va t i : ℕ) (m : Machine) : Type 0 where
  pub is_present : present (m.mem pgdir (pdx va)) ≡ true
  pub table : frame (m.mem pgdir (pdx va)) ≡ t
  pub exists : t < m.npages
  pub index : i ≡ ptx va

parity : (p : ℕ) → bit_or (bit_or (bit_or (page2pa p) pte_p) pte_u) pte_w % 2 ≡ 1
parity p = omega (
  arith,
  bit_or_parity (bit_or (bit_or (page2pa p) pte_p) pte_u) pte_w,
  bit_or_parity (bit_or (page2pa p) pte_p) pte_u,
  bit_or_parity (page2pa p) pte_p,
)

-- The machine after page `p` has become the page table of `va`.
abbrev pub linked : (pgdir va p : ℕ) → Machine → Machine
linked pgdir va p m = record m {
  pp_ref = update m.pp_ref p (ref_inc (m.pp_ref p));
  mem = write m.mem pgdir (pdx va) (bit_or (bit_or (bit_or (page2pa p) pte_p) pte_u) pte_w);
}

new_table-IsEntry :
    (pgdir va t i : ℕ) (o : Option ℕ) (m m' : Machine)
    → new_table pgdir va o m ≡ ok (some (t, i)) m'
    → IsEntry pgdir va t i m'
unfolding new_table
new_table-IsEntry pgdir va t i none m m' e = cc
new_table-IsEntry pgdir va t i (some p) m m' e =
    let (same, table, exists, index) = entry_of-ok pgdir va t i (linked pgdir va p m) m' e in
    rw same record {
      is_present = ground (arith, parity p);
      table = table;
      exists = exists;
      index = index;
    }

after_alloc-IsEntry :
    (pgdir va t i : ℕ) (r : Run (Option ℕ)) (m' : Machine)
    → and_then r (new_table pgdir va) ≡ ok (some (t, i)) m'
    → IsEntry pgdir va t i m'
after_alloc-IsEntry pgdir va t i (ok o m) m' e = new_table-IsEntry pgdir va t i o m m' e
after_alloc-IsEntry pgdir va t i panicked m' e = cc
after_alloc-IsEntry pgdir va t i out_of_fuel m' e = cc

pub walk-IsEntry :
    (pgdir va t i : ℕ) (create : Bool) (m m' : Machine)
    → pgdir_walk pgdir va create m ≡ ok (some (t, i)) m'
    → IsEntry pgdir va t i m'
unfolding pgdir_walk
walk-IsEntry pgdir va t i create m m' e = elim (Bool-cases (present (m.mem pgdir (pdx va)))) [
  | inl here ↦
      let (same, table, exists, index) = entry_of-ok pgdir va t i m m' (rw here at e) in
      rw same record { is_present = here; table = table; exists = exists; index = index }
  | inr absent ↦ elim (Bool-cases create) [
    | inl yes_create ↦
        after_alloc-IsEntry pgdir va t i (page_alloc alloc_zero m) m' (rw (absent, yes_create) at e)
    | inr no_create ↦ cc (rw (absent, no_create) at e)
  ]
]

pub walk_of_IsEntry :
    (pgdir va t i : ℕ) (create : Bool) (m : Machine)
    → IsEntry pgdir va t i m
    → pgdir_walk pgdir va create m ≡ ok (some (t, i)) m
unfolding pgdir_walk entry_of kaddr
walk_of_IsEntry pgdir va t i create m v = ground arith

pub walk_absent :
    (pgdir va : ℕ) (m : Machine)
    → present (m.mem pgdir (pdx va)) ≡ false
    → pgdir_walk pgdir va false m ≡ ok none m
unfolding pgdir_walk
walk_absent pgdir va m absent = rw absent

-- The outcomes of `pgdir_walk` with `create` when the directory has no entry for the address.
abbrev pub Created : (pgdir va : ℕ) → List ℕ → Machine → Run (Option (ℕ × ℕ)) → Type 0
Created pgdir va [] m r = r ≡ ok none m
Created pgdir va (p ∷ xs) m r =
    (m' : Machine) × (r ≡ ok (some (p, ptx va)) m')
    × IsFreeList m' xs
    × (m'.pp_ref p ≡ 1)
    × ((f i : ℕ)
        → m'.mem f i ≡ (
            if f == p
            then 0
            else if (f == pgdir) && (i == pdx va)
            then p * 4096 + 7
            else m.mem f i))

linked-IsFreeList :
    (pgdir va p : ℕ) (xs : List ℕ) (m : Machine)
    → has p xs ≡ false
    → IsFreeList m xs
    → IsFreeList (linked pgdir va p m) xs
linked-IsFreeList pgdir va p xs m out l = record {
  chain = c.chain;
  distinct = c.distinct;
  unused = c.unused;
}
  where
    c : IsFreeList (counted p (ref_inc (m.pp_ref p)) m) xs
    c = counted-IsFreeList p (ref_inc (m.pp_ref p)) m xs out l

created :
    (pgdir va p : ℕ) (xs : List ℕ) (m : Machine)
    → m.npages ≤ 2 ^ 20
    → IsFreeList m (p ∷ xs)
    → p ≢ pgdir
    → new_table pgdir va (some p) (taken alloc_zero p m)
      ≡ ok (some (p, ptx va)) (linked pgdir va p (taken alloc_zero p m))
unfolding new_table entry_of kaddr
created pgdir va p xs m fits l ne =
    let own = l.unused p (ground arith) in
    ground (arith, directory_value p (omega arith), frame_lem (p * 4096 + 7))

-- Without an entry in the directory, `pgdir_walk` returns NULL and changes nothing if it may not
-- create one or if no page is free; otherwise the first free page becomes the page table: it is
-- cleared, has one reference, and leaves the free list.
pub walk-Created :
    (pgdir va : ℕ) (xs : List ℕ) (m : Machine)
    → m.npages ≤ 2 ^ 20
    → IsFreeList m xs
    → has pgdir xs ≡ false
    → present (m.mem pgdir (pdx va)) ≡ false
    → (pgdir_walk pgdir va false m ≡ ok none m) × Created pgdir va xs m (pgdir_walk pgdir va true m)
unfolding pgdir_walk
walk-Created pgdir va [] m fits l out absent =
    (rw absent, rw (absent, page_alloc-Popped alloc_zero m [] fits l))
walk-Created pgdir va (p ∷ xs) m fits l out absent =
    let m' = linked pgdir va p (taken alloc_zero p m) in
    let own = l.unused p (ground arith) in
    let a = taken-Allocated alloc_zero p m xs l in
    (
      rw absent,
      (
        m',
        rw (absent, page_alloc-taken alloc_zero p m l.chain.0 own.0 fits)
            (created pgdir va p xs m fits l (ground arith)),
        linked-IsFreeList pgdir va p xs (taken alloc_zero p m) l.distinct.0 a.rest,
        ground arith,
        λ f i. ground (arith, directory_value p (omega arith)),
      ),
    )
