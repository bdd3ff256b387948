-- ===== src/Tests/FreePages.antt =====
-- Tests on the free list: its check, its order and its history.
use joslab4_init.Base.{
  ℕ, ◌*◌, ◌≡◌, refl, true, none, some, List, [], ◌∷◌, has, arith, ◌==◌, if◌then◌else◌,
}
use joslab4_init.Mmu.{pdx, ptx, pgnum, pte_addr, roundup}
use joslab4_init.Machine.{Machine, ok, panicked, page2pa}
use joslab4_init.Pmap.{
  boot_alloc, in_use, init_page, init_pages, page_init, page_alloc, page_free, page_decref,
  free_page_ok,
}
use joslab4_init.Pmap.FreeList.{IsFreeList}
use joslab4_init.Pmap.Alloc.{taken, freed, counted}
use joslab4_init.Pmap.Reach.{
  Reach, start, next, alloc, decref, touch, IsHeld-referenced, IsSound, Reach-page_init,
}
use joslab4_init.Pmap.Check.{pagetype, check_page_free_list, low_pages_first}
use joslab4_init.Pmap.Select.{select, low_first}
use joslab4_init.Pmap.LowFirst.{low_pages_first-low_first}
use joslab4_init.Pmap.Checked.{check_page_free_list_passes, check_page_free_list-page_init}
use joslab4_init.Pmap.CheckAlloc.{check_page_alloc}
use joslab4_init.Pmap.Steal.{check_page_alloc-IsFreeList}
use joslab4_init.Pmap.Undo.{Undone, page_remove-page_insert}
use joslab4_init.Pmap.{page_insert, page_remove}
use joslab4_init.Pmap.Region.{boot_map_region}
use joslab4_init.Pmap.Walk.{walk_of_IsEntry, IsEntry}
use joslab4_init.Pmap.Mapped.{RegionMapped, boot_map_region-RegionMapped}
use joslab4_init.Tests.{small, full}

-- 8 MB with four free pages, two of them above the first 4 MB.
abbrev wide : Machine
wide = record small {
  npages = 2048;
  pp_ref = λ p. 0;
  pp_link = λ p.
      if p == 1025
      then some 5
      else if p == 5
      then some 1030
      else if p == 1030
      then some 6
      else none;
  page_free_list = some 1025;
}

abbrev wide_pages : List ℕ
wide_pages = 1025 ∷ 5 ∷ 1030 ∷ 6 ∷ []

wide-IsFreeList : IsFreeList wide wide_pages
wide-IsFreeList = record {
  chain = (refl, (refl, (refl, (refl, refl))));
  distinct = (refl, (refl, (refl, (refl, tt))));
  unused = λ p h. ground arith;
}

wide_sorted : low_first 1 wide_pages ≡ 5 ∷ 6 ∷ 1025 ∷ 1030 ∷ []
unfolding low_first select pagetype page2pa pdx
wide_sorted = refl

low_pages_first-low_first_example :
    (m' : Machine) × (low_pages_first (λ b. some 77) 5 1 wide ≡ ok tt m')
    × IsFreeList m' (low_first 1 wide_pages)
    × ((p : ℕ) → has p (low_first 1 wide_pages) ≡ has p wide_pages)
    × (m'.pp_ref ≡ wide.pp_ref)
    × (m'.mem ≡ wide.mem)
    × (m'.npages ≡ wide.npages)
low_pages_first-low_first_example =
    low_pages_first-low_first (λ b. some 77) 5 1 wide wide_pages (omega arith) wide-IsFreeList

check_page_free_list_passes_example :
    (m' : Machine) × (ys : List ℕ) × (check_page_free_list true (λ b. none) 5 0xF0104000 wide
      ≡ ok tt m')
    × IsFreeList m' ys
    × ((r : ℕ) → has r ys ≡ has r wide_pages)
unfolding free_page_ok page2pa
check_page_free_list_passes_example =
    check_page_free_list_passes true (λ b. none) 5 0xF0104000 5 1025 wide wide_pages (omega arith)
      (omega arith) wide-IsFreeList (λ r h. ground arith) refl (omega arith) refl (omega arith)

check_page_free_list-page_init_example :
    check_page_free_list true (λ b. none) 9 0xF0104000 (page_init 0xF0103004 0 2 full) ≡ panicked
check_page_free_list-page_init_example =
    check_page_free_list-page_init true (λ b. none) 0xF0103004 0 2 0xF0104000 full refl
      (omega arith) (omega arith)

-- After `page_init` page 7 is allocated, memory is cleared, and page 0 is released.
abbrev booted : Machine
booted = page_init 0xF0103004 0 2 full

abbrev cleared : Machine
cleared = record (taken 0 7 booted) { mem = λ f i. 0 }

history : Reach booted (freed 0 (counted 0 0 cleared))
unfolding page_init init_pages init_page in_use boot_alloc roundup page_alloc page_decref page_free
history =
    next _ cleared _
      (next _ (taken 0 7 booted) _
        (next _ booted _ (start booted) (alloc 0 (some 7) booted (taken 0 7 booted) refl))
        (touch (λ f i. 0) (taken 0 7 booted)))
      (decref 0 cleared _ (IsHeld-referenced 0 cleared (omega arith) (omega arith)) refl)

Reach-page_init_example : (xs : List ℕ) × IsSound (freed 0 (counted 0 0 cleared)) xs
Reach-page_init_example =
    Reach-page_init 0xF0103004 0 2 full (freed 0 (counted 0 0 cleared)) refl (omega arith) history

-- Two pages of a region at 0x3000, which page table 2 covers.
table_of_small : IsEntry 1 0x3000 2 3 small
unfolding pdx ptx pgnum pte_addr
table_of_small = record { is_present = refl; table = refl; exists = omega arith; index = refl }

boot_map_region-RegionMapped_example :
    (m' : Machine) × (boot_map_region 1 0x3000 (2 * 4096) 0x5000 2 small ≡ ok tt m')
    × RegionMapped 1 0x3000 2 0x5000 2 small m'
unfolding ptx
boot_map_region-RegionMapped_example =
    boot_map_region-RegionMapped 1 1 0x3000 2 3 0x5000 2 small small
      (walk_of_IsEntry 1 0x3000 2 3 true small table_of_small) (omega arith) refl (omega arith) refl
      (omega arith) (omega arith) (omega arith)

check_page_alloc-IsFreeList_example :
    (m' : Machine) × (check_page_alloc true 9 wide ≡ ok tt m') × IsFreeList m' wide_pages
check_page_alloc-IsFreeList_example =
    check_page_alloc-IsFreeList true 9 1025 5 1030 (6 ∷ []) wide refl (omega arith) (omega arith)
      wide-IsFreeList

-- Page 4 is mapped at 0x5000 in page table 2, where nothing is, and unmapped again.
page_remove-page_insert_example :
    (m2 m3 : Machine) × (page_insert none 1 4 0x5000 6 small ≡ ok none m2)
    × (page_remove none 1 0x5000 m2 ≡ ok tt m3)
    × Undone 2 5 4 small m3
unfolding pdx ptx pgnum pte_addr
page_remove-page_insert_example =
    page_remove-page_insert none 1 4 0x5000 6 2 5 small small
      (walk_of_IsEntry 1 0x5000 2 5 true small
        (record { is_present = refl; table = refl; exists = omega arith; index = refl }))
      (omega arith) (omega arith) (omega arith) (omega arith) refl (omega arith) refl
