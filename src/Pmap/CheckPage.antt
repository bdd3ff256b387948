-- ===== src/Pmap/CheckPage.antt =====
-- `check_page` and `check_page_installed_pgdir`, the kernel's own tests of its page tables, and
-- `mmio_map_region`, which they call. `cur` is the page directory of `curenv`, if any. A read through
-- NULL, which faults, is `panicked`.
use joslab4_init.Base.{
  ℕ, zero, suc, ◌+◌, ◌-◌, ◌*◌, Bool, true, false, not, ◌&&◌, Option, none, some, u32, bit_and, ltb,
  leb, ◌==◌, ◌!=◌, ◌%◌, update, if◌then◌else◌,
}
use joslab4_init.Mmu.{
  pgsize, ptsize, npdentries, kernbase, pdx, ptx, pte_addr, present, pte_w, pte_u,
}
use joslab4_init.Machine.{
  Machine, Error, M, ok, panicked, panic, ◌>>=◌, load, store, set_ref, kaddr, page2pa, page2kva,
}
use joslab4_init.Pmap.{page_free, page_lookup, page_insert, page_remove, pgdir_walk, is_some}
use joslab4_init.Pmap.Region.{check_va2pa}
use joslab4_init.Pmap.CheckAlloc.{
  assert_that, assert_alloc, assert_no_page, assert_distinct, set_free_list, free_three,
}

unfoldable pub mmio_map_region : (pa size : ℕ) → M ℕ
mmio_map_region pa size = panic

abbrev mmiolim : ℕ
mmiolim = kernbase - ptsize

abbrev mmiobase : ℕ
mmiobase = mmiolim - ptsize

abbrev is_zero : Option Error → Bool
is_zero none = true
is_zero (some e) = false

-- `assert(page_insert(pgdir, pp, va, perm) == 0)`, and `< 0`
unfoldable pub assert_insert : (cur : Option ℕ) → (pgdir pp va perm : ℕ) → M (Unit {0})
assert_insert cur pgdir pp va perm =
    page_insert cur pgdir pp va perm >>= λ r. assert_that (is_zero r)

unfoldable pub assert_no_insert : (cur : Option ℕ) → (pgdir pp va perm : ℕ) → M (Unit {0})
assert_no_insert cur pgdir pp va perm =
    page_insert cur pgdir pp va perm >>= λ r. assert_that (not (is_zero r))

-- `assert(check_va2pa(pgdir, va) == pa)`
unfoldable pub assert_va2pa : (pgdir va pa : ℕ) → M (Unit {0})
assert_va2pa pgdir va pa = check_va2pa pgdir va >>= λ x. assert_that (x == pa)

-- `assert(pp->pp_ref == n)`
unfoldable pub assert_ref : (pp n : ℕ) → M (Unit {0})
assert_ref pp n m = assert_that (m.pp_ref pp == n) m

-- `assert((pp = page_alloc(0)) && pp == expected)`
unfoldable pub assert_alloc_is : ℕ → M (Unit {0})
assert_alloc_is expected = assert_alloc 0 >>= λ pp. assert_that (pp == expected)

-- `*pgdir_walk(pgdir, va, 0)`
unfoldable pub read_at : Option (ℕ × ℕ) → M ℕ
read_at none m = panicked
read_at (some (t, i)) m = ok (m.mem t i) m

unfoldable pub entry_at : (pgdir va : ℕ) → M ℕ
entry_at pgdir va = pgdir_walk pgdir va false >>= read_at

unfoldable pub assert_entry : (pgdir va mask : ℕ) → (set : Bool) → M (Unit {0})
assert_entry pgdir va mask set = entry_at pgdir va >>= λ pte.
    assert_that (if set then bit_and pte mask != 0 else bit_and pte mask == 0)

-- `*pgdir_walk(pgdir, va, 0) = 0`
unfoldable pub clear_at : Option (ℕ × ℕ) → M (Unit {0})
clear_at none m = panicked
clear_at (some (t, i)) m = store t i 0 m

-- `ptep = KADDR(PTE_ADDR(pgdir[PDX(va)])); assert(pgdir_walk(pgdir, va, create) == ptep + PTX(va))`,
-- the walk first where it creates.
abbrev is_place : Option (ℕ × ℕ) → (t i : ℕ) → Bool
is_place none t i = false
is_place (some (t', i')) t i = (t' == t) && (i' == i)

unfoldable pub assert_walk : (pgdir va : ℕ) → (create : Bool) → M (Unit {0})
assert_walk pgdir va create = do
  at ← pgdir_walk pgdir va create
  pde ← load pgdir (pdx va)
  t ← kaddr (pte_addr pde)
  assert_that (is_place at t (ptx va))

abbrev is_some_place : Option (ℕ × (ℕ × ℕ)) → Bool
is_some_place none = false
is_some_place (some x) = true

-- `pp0` becomes the page table, and `pp1` and `pp2` are mapped.
unfoldable pub check_inserts : (cur : Option ℕ) → (pgdir pp0 pp1 pp2 : ℕ) → M (Unit {0})
check_inserts cur pgdir pp0 pp1 pp2 = do
  found ← page_lookup pgdir 0
  _ ← assert_that (not (is_some_place found))
  _ ← assert_no_insert cur pgdir pp1 0 pte_w
  _ ← page_free pp0
  _ ← assert_insert cur pgdir pp1 0 pte_w
  pde ← load pgdir 0
  _ ← assert_that (pte_addr pde == page2pa pp0)
  _ ← assert_va2pa pgdir 0 (page2pa pp1)
  _ ← assert_ref pp1 1
  _ ← assert_ref pp0 1
  _ ← assert_insert cur pgdir pp2 pgsize pte_w
  _ ← assert_va2pa pgdir pgsize (page2pa pp2)
  assert_ref pp2 1

-- `pp2` is inserted again where it is, with other permissions, and `pp1` takes its place.
unfoldable pub check_remaps : (cur : Option ℕ) → (pgdir pp0 pp1 pp2 : ℕ) → M (Unit {0})
check_remaps cur pgdir pp0 pp1 pp2 = do
  _ ← assert_no_page
  _ ← assert_insert cur pgdir pp2 pgsize pte_w
  _ ← assert_va2pa pgdir pgsize (page2pa pp2)
  _ ← assert_ref pp2 1
  _ ← assert_no_page
  _ ← assert_walk pgdir pgsize false
  _ ← assert_insert cur pgdir pp2 pgsize (pte_w + pte_u)
  _ ← assert_va2pa pgdir pgsize (page2pa pp2)
  _ ← assert_ref pp2 1
  _ ← assert_entry pgdir pgsize pte_u true
  pde ← load pgdir 0
  _ ← assert_that (bit_and pde pte_u != 0)
  _ ← assert_insert cur pgdir pp2 pgsize pte_w
  _ ← assert_entry pgdir pgsize pte_w true
  _ ← assert_entry pgdir pgsize pte_u false
  _ ← assert_no_insert cur pgdir pp0 ptsize pte_w
  _ ← assert_insert cur pgdir pp1 pgsize pte_w
  assert_entry pgdir pgsize pte_u false

-- `pp1` is mapped twice; it is unmapped, inserted again and unmapped.
unfoldable pub check_removes : (cur : Option ℕ) → (pgdir pp1 pp2 : ℕ) → M (Unit {0})
check_removes cur pgdir pp1 pp2 = do
  _ ← assert_va2pa pgdir 0 (page2pa pp1)
  _ ← assert_va2pa pgdir pgsize (page2pa pp1)
  _ ← assert_ref pp1 2
  _ ← assert_ref pp2 0
  _ ← assert_alloc_is pp2
  _ ← page_remove cur pgdir 0
  _ ← assert_va2pa pgdir 0 0xFFFFFFFF
  _ ← assert_va2pa pgdir pgsize (page2pa pp1)
  _ ← assert_ref pp1 1
  _ ← assert_ref pp2 0
  _ ← assert_insert cur pgdir pp1 pgsize 0
  _ ← λ m. assert_that (m.pp_ref pp1 != 0) m
  _ ← λ m. assert_that (not (is_some (m.pp_link pp1))) m
  _ ← page_remove cur pgdir pgsize
  _ ← assert_va2pa pgdir 0 0xFFFFFFFF
  _ ← assert_va2pa pgdir pgsize 0xFFFFFFFF
  _ ← assert_ref pp1 0
  _ ← assert_ref pp2 0
  _ ← assert_alloc_is pp1
  assert_no_page

-- The entries 0, …, `n - 1` of a page table are not present.
unfoldable pub none_present : (n t : ℕ) → Machine → Bool
none_present zero t m = true
none_present (suc n) t m = none_present n t m && not (present (m.mem t n))

-- `memset(page2kva(pp), c, PGSIZE)`, with the word of four bytes `c`
unfoldable pub fill_page : (pp word : ℕ) → M (Unit {0})
fill_page pp word = do f ← page2kva pp; λ m. ok tt (record m { mem = update m.mem f (λ i. word) })

-- `assert(PTE_ADDR(pgdir[0]) == page2pa(pp0)); pgdir[0] = 0; assert(pp0->pp_ref == 1);
-- pp0->pp_ref = 0;`
unfoldable pub take_back : (pgdir pp0 : ℕ) → M (Unit {0})
take_back pgdir pp0 = do
  pde ← load pgdir 0
  _ ← assert_that (pte_addr pde == page2pa pp0)
  _ ← store pgdir 0 0
  _ ← assert_ref pp0 1
  set_ref pp0 0

-- The tests of `pgdir_walk`: its arithmetic, and that a new page table is cleared.
unfoldable pub check_walks : (pgdir pp0 : ℕ) → M (Unit {0})
check_walks pgdir pp0 = do
  _ ← take_back pgdir pp0
  _ ← page_free pp0
  _ ← assert_walk pgdir (pgsize * npdentries + pgsize) true
  _ ← store pgdir (pdx (pgsize * npdentries + pgsize)) 0
  _ ← set_ref pp0 0
  _ ← fill_page pp0 0xFFFFFFFF
  _ ← page_free pp0
  _ ← pgdir_walk pgdir 0 true
  t ← page2kva pp0
  _ ← λ m. assert_that (none_present 1024 t m) m
  _ ← store pgdir 0 0
  set_ref pp0 0

-- The tests of `mmio_map_region`.
unfoldable pub check_mmio : (pgdir : ℕ) → M (Unit {0})
check_mmio pgdir = do
  mm1 ← mmio_map_region 0 4097
  mm2 ← mmio_map_region 0 4096
  _ ← assert_that (leb mmiobase mm1 && ltb (u32 (mm1 + 8192)) mmiolim)
  _ ← assert_that (leb mmiobase mm2 && ltb (u32 (mm2 + 8192)) mmiolim)
  _ ← assert_that ((mm1 % pgsize == 0) && (mm2 % pgsize == 0))
  _ ← assert_that (leb (u32 (mm1 + 8192)) mm2)
  _ ← assert_va2pa pgdir mm1 0
  _ ← assert_va2pa pgdir (u32 (mm1 + pgsize)) pgsize
  _ ← assert_va2pa pgdir mm2 0
  _ ← assert_va2pa pgdir (u32 (mm2 + pgsize)) 0xFFFFFFFF
  _ ← assert_entry pgdir mm1 26 true
  _ ← assert_entry pgdir mm1 pte_u false
  at1 ← pgdir_walk pgdir mm1 false
  _ ← clear_at at1
  at2 ← pgdir_walk pgdir (u32 (mm1 + pgsize)) false
  _ ← clear_at at2
  at3 ← pgdir_walk pgdir mm2 false
  clear_at at3

unfoldable pub check_page : (cur : Option ℕ) → (kern_pgdir : ℕ) → M (Unit {0})
check_page cur kern_pgdir = do
  pp0 ← assert_alloc 0
  pp1 ← assert_alloc 0
  pp2 ← assert_alloc 0
  _ ← assert_distinct pp0 pp1 pp2
  fl ← λ m. ok m.page_free_list m
  _ ← set_free_list none
  _ ← assert_no_page
  _ ← check_inserts cur kern_pgdir pp0 pp1 pp2
  _ ← check_remaps cur kern_pgdir pp0 pp1 pp2
  _ ← check_removes cur kern_pgdir pp1 pp2
  _ ← check_walks kern_pgdir pp0
  _ ← set_free_list fl
  _ ← free_three pp0 pp1 pp2
  check_mmio kern_pgdir

-- `*(uint32_t *)va`, read through the page tables that are in use, which are those of `pgdir`.
unfoldable pub word_at : (pgdir va : ℕ) → M ℕ
word_at pgdir va = do pte ← entry_at pgdir va; f ← kaddr (pte_addr pte); load f 0

-- The page that is read and written lies at PGSIZE.
unfoldable pub check_page_installed_pgdir : (cur : Option ℕ) → (kern_pgdir : ℕ) → M (Unit {0})
check_page_installed_pgdir cur kern_pgdir = do
  pp0 ← assert_alloc 0
  pp1 ← assert_alloc 0
  pp2 ← assert_alloc 0
  _ ← page_free pp0
  _ ← fill_page pp1 0x01010101
  _ ← fill_page pp2 0x02020202
  _ ← page_insert cur kern_pgdir pp1 pgsize pte_w
  _ ← assert_ref pp1 1
  w1 ← word_at kern_pgdir pgsize
  _ ← assert_that (w1 == 0x01010101)
  _ ← page_insert cur kern_pgdir pp2 pgsize pte_w
  w2 ← word_at kern_pgdir pgsize
  _ ← assert_that (w2 == 0x02020202)
  _ ← assert_ref pp2 1
  _ ← assert_ref pp1 0
  pte ← entry_at kern_pgdir pgsize
  f ← kaddr (pte_addr pte)
  _ ← store f 0 0x03030303
  g ← page2kva pp2
  w3 ← load g 0
  _ ← assert_that (w3 == 0x03030303)
  _ ← page_remove cur kern_pgdir pgsize
  _ ← assert_ref pp2 0
  _ ← take_back kern_pgdir pp0
  page_free pp0
