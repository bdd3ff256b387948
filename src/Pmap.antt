-- ===== src/Pmap.antt =====
-- kern/pmap.c: the page allocator, page tables and the checks of user memory.
-- `pp_ref++` and `--pp_ref` are on `uint16_t`. `cur` is the page directory of `curenv`, if any.
pub mod FreeList
pub mod Alloc
pub mod DoubleFree
pub mod Init
pub mod Walk
pub mod Remove
pub mod Insert
pub mod Undo
pub mod UserMem
pub mod Region
pub mod Mapped
pub mod Reach
pub mod Check
pub mod Segments
pub mod Select
pub mod LowFirst
pub mod Verdict
pub mod Checked
pub mod CheckAlloc
pub mod Holding
pub mod Steal
pub mod CheckPage
pub mod MemInit
pub mod Unfinished
use joslab4_init.Base.{
  ℕ, zero, suc, ◌+◌, ◌-◌, ◌*◌, ◌/◌, ◌%◌, ◌^◌, ◌≡◌, Bool, true, false, not, ◌&&◌, ◌||◌, Option, none,
  some, List, ◌∷◌, ltb, leb, ◌==◌, ◌!=◌, update, u32, if◌then◌else◌, bit_or, bit_and,
}
use joslab4_init.Mmu.{
  pgsize, iophysmem, extphysmem, kernbase, mpentry_paddr, ulim, pdx, ptx, present, pte_p, pte_u,
  pte_w, pte_addr, rounddown, roundup,
}
use joslab4_init.Machine.{
  Error, e_no_mem, e_fault, Machine, Run, ok, panicked, out_of_fuel, M, pure, panic, ◌>>=◌, ◌>>◌,
  and_then, load, store, set_ref, page2pa, kaddr, pa2page, page2kva,
}

-- `end` is the end of the kernel's image, and `nextfree` is 0 before the first call. The result is
-- the returned address and the new `nextfree`.
unfoldable pub boot_alloc : (end nextfree n : ℕ) → ℕ × ℕ
unfolding roundup
boot_alloc end nextfree n =
    let free = if nextfree == 0 then roundup end pgsize else nextfree in
    if n == 0 then (free, free) else (free, roundup (u32 (free + n)) pgsize)

-- The branches of `page_init` on page `i`: whether it is marked as in use.
unfoldable pub in_use : (npages_basemem kernel_end i : ℕ) → Bool
in_use npages_basemem kernel_end i =
    if i == 0
    then true
    else if leb 1 i && ltb i npages_basemem
    then false
    else if leb (iophysmem / pgsize) i && ltb i (extphysmem / pgsize)
    then true
    else if leb (extphysmem / pgsize) i && ltb i (u32 (kernel_end + 2 ^ 32 - kernbase) / pgsize)
    then true
    else false

unfoldable pub init_page : (npages_basemem kernel_end i : ℕ) → Machine → Machine
init_page npages_basemem kernel_end i m =
    if in_use npages_basemem kernel_end i
    then record m { pp_ref = update m.pp_ref i 1; pp_link = update m.pp_link i none }
    else record m {
      pp_ref = update m.pp_ref i 0;
      pp_link = update m.pp_link i m.page_free_list;
      page_free_list = some i;
    }

-- The loop of `page_init` up to page `n`; `kernel_end` is what `boot_alloc(0)` returns.
unfoldable pub init_pages : (npages_basemem kernel_end n : ℕ) → Machine → Machine
unfolding init_page
init_pages npages_basemem kernel_end zero m = m
init_pages npages_basemem kernel_end (suc n) m =
    init_page npages_basemem kernel_end n (init_pages npages_basemem kernel_end n m)

unfoldable pub page_init : (end nextfree npages_basemem : ℕ) → Machine → Machine
page_init end nextfree npages_basemem m =
    init_pages npages_basemem (boot_alloc end nextfree 0).0 m.npages m

-- The assertions of `check_page_free_list` on one page of the free list, whose `struct PageInfo` is
-- the element of `pages` with that index.
unfoldable pub free_page_ok : (first_free_page npages pp : ℕ) → Bool
unfolding page2pa
free_page_ok first_free_page npages pp =
    ltb pp npages
    && (page2pa pp != 0)
    && (page2pa pp != iophysmem)
    && (page2pa pp != extphysmem - pgsize)
    && (page2pa pp != extphysmem)
    && (ltb (page2pa pp) extphysmem || leb first_free_page (u32 (page2pa pp + kernbase)))
    && (page2pa pp != mpentry_paddr)

abbrev pub alloc_zero : ℕ
alloc_zero = 1

-- `memset(page2kva(page), 0, PGSIZE)`
unfoldable pub clear_page : ℕ → M (Unit {0})
unfolding page2kva
clear_page p = do f ← page2kva p; λ m. ok tt (record m { mem = update m.mem f (λ _. 0) })

-- `page = page_free_list; page_free_list = page->pp_link; page->pp_link = 0`
abbrev pub unlink : ℕ → Machine → Machine
unlink p m = record m { page_free_list = m.pp_link p; pp_link = update m.pp_link p none }

unfoldable pub page_alloc : ℕ → M (Option ℕ)
unfolding clear_page
page_alloc alloc_flags m = elim m.page_free_list [
  | none ↦ ok none m
  | some p ↦
      if alloc_flags % 2 == 1
      then (clear_page p >> pure (some p)) (unlink p m)
      else ok (some p) (unlink p m)
]

abbrev pub is_some : {A : Type 0} → Option A → Bool
is_some none = false
is_some (some _) = true

unfoldable pub page_free : ℕ → M (Unit {0})
page_free p m =
    if is_some (m.pp_link p) || (m.pp_ref p != 0)
    then panicked
    else ok tt (record m { pp_link = update m.pp_link p m.page_free_list; page_free_list = some p })

abbrev pub ref_inc : ℕ → ℕ
ref_inc n = (n + 1) % 2 ^ 16

abbrev pub ref_dec : ℕ → ℕ
ref_dec n = (n + 2 ^ 16 - 1) % 2 ^ 16

unfoldable pub page_decref : ℕ → M (Unit {0})
unfolding page_free
page_decref p m =
    let m' = record m { pp_ref = update m.pp_ref p (ref_dec (m.pp_ref p)) } in
    if m'.pp_ref p == 0 then page_free p m' else ok tt m'

-- `&p[pte_index]` with `p = KADDR(PTE_ADDR(*pde))`: the frame and the index of the entry.
unfoldable pub entry_of : (pgdir va : ℕ) → M (Option (ℕ × ℕ))
unfolding kaddr
entry_of pgdir va = do
  pde ← load pgdir (pdx va)
  table ← kaddr (pte_addr pde)
  pure (some (table, ptx va))

-- The branch of `pgdir_walk` that adds a page table.
unfoldable pub new_table : (pgdir va : ℕ) → Option ℕ → M (Option (ℕ × ℕ))
unfolding entry_of
new_table pgdir va none m = ok none m
new_table pgdir va (some p) m =
    (set_ref p (ref_inc (m.pp_ref p))
        >> store pgdir (pdx va) (bit_or (bit_or (bit_or (page2pa p) pte_p) pte_u) pte_w)
        >> entry_of pgdir va)
      m

unfoldable pub pgdir_walk : (pgdir va : ℕ) → (create : Bool) → M (Option (ℕ × ℕ))
unfolding entry_of new_table page_alloc
pgdir_walk pgdir va create m =
    if not (present (m.mem pgdir (pdx va)))
    then if create then (page_alloc alloc_zero >>= new_table pgdir va) m else ok none m
    else entry_of pgdir va m

-- `page_lookup`: the page and the place of its entry.
unfoldable pub lookup_at : Option (ℕ × ℕ) → M (Option (ℕ × (ℕ × ℕ)))
unfolding pa2page
lookup_at none m = ok none m
lookup_at (some (t, i)) m =
    if not (present (m.mem t i))
    then ok none m
    else (do page ← pa2page (pte_addr (m.mem t i)); pure (some (page, (t, i)))) m

unfoldable pub page_lookup : (pgdir va : ℕ) → M (Option (ℕ × (ℕ × ℕ)))
page_lookup pgdir va = pgdir_walk pgdir va false >>= lookup_at

unfoldable pub tlb_invalidate : (cur : Option ℕ) → (pgdir va : ℕ) → M (Unit {0})
tlb_invalidate none pgdir va m = ok tt (record m { tlb_flushed = va ∷ m.tlb_flushed })
tlb_invalidate (some d) pgdir va m =
    if d == pgdir then ok tt (record m { tlb_flushed = va ∷ m.tlb_flushed }) else ok tt m

unfoldable pub unmap : (cur : Option ℕ) → (pgdir va : ℕ) → Option (ℕ × (ℕ × ℕ)) → M (Unit {0})
unmap cur pgdir va none m = ok tt m
unmap cur pgdir va (some (page, (t, i))) m =
    if not (present (m.mem t i))
    then ok tt m
    else (store t i 0 >> page_decref page >> tlb_invalidate cur pgdir va) m

unfoldable pub page_remove : (cur : Option ℕ) → (pgdir va : ℕ) → M (Unit {0})
page_remove cur pgdir va = page_lookup pgdir va >>= unmap cur pgdir va

unfoldable pub insert_at :
    (cur : Option ℕ) → (pgdir pp va perm : ℕ) → Option (ℕ × ℕ) → M (Option Error)
insert_at cur pgdir pp va perm none m = ok (some e_no_mem) m
insert_at cur pgdir pp va perm (some (t, i)) m =
    (set_ref pp (ref_inc (m.pp_ref pp))
        >> (λ m'. if present (m'.mem t i) then page_remove cur pgdir va m' else ok tt m')
        >> store t i (bit_or (bit_or (page2pa pp) perm) pte_p)
        >> pure none)
      m

unfoldable pub page_insert : (cur : Option ℕ) → (pgdir pp va perm : ℕ) → M (Option Error)
page_insert cur pgdir pp va perm = pgdir_walk pgdir va true >>= insert_at cur pgdir pp va perm

-- The body of the loop of `user_mem_check`: whether the page at `begin` is refused.
unfoldable pub page_refused : (begin check_perm : ℕ) → Option (ℕ × ℕ) → Machine → Bool
page_refused begin check_perm none m = true
page_refused begin check_perm (some (t, i)) m =
    leb ulim begin || (bit_and (m.mem t i) check_perm != check_perm)

-- The loop, with fuel for its rounds. `begin += PGSIZE` is on `uint32_t`.
unfoldable pub check_pages : (fuel : ℕ) (pgdir begin end check_va check_perm : ℕ) → M (Option Error)
check_pages zero pgdir begin end check_va check_perm m = out_of_fuel
check_pages (suc fuel) pgdir begin end check_va check_perm m =
    let rest = check_pages fuel pgdir (u32 (begin + pgsize)) end check_va check_perm in
    if not (ltb begin end)
    then ok none m
    else (do
      pte ← pgdir_walk pgdir begin false
      λ m'.
          if page_refused begin check_perm pte m'
          then ok (some e_fault)
              (record m' { user_mem_check_addr = if leb check_va begin then begin else check_va })
          else rest m')
        m

unfoldable pub user_mem_check : (env_pgdir va len perm : ℕ) → M (Option Error)
user_mem_check env_pgdir va len perm =
    let begin = rounddown va pgsize in
    let end = roundup (u32 (va + len)) pgsize in
    check_pages (suc ((end - begin) / pgsize)) env_pgdir begin end va (bit_or perm pte_p)
