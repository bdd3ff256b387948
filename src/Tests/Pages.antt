-- ===== src/Tests/Pages.antt =====
-- Tests on pages, page tables and the free list.
use Prim.Native.Nat.{max}
use joslab4_init.Base.{ℕ, ◌≡◌, refl, inr, true, false, none, some, List, [], ◌∷◌, arith}
use joslab4_init.Mmu.{pdx, ptx, pgnum, pte_addr, rounddown}
use joslab4_init.Machine.{e_fault, Machine, ok}
use joslab4_init.Pmap.{
  boot_alloc, page_init, page_alloc, pgdir_walk, page_remove, page_insert, user_mem_check,
}
use joslab4_init.Pmap.Alloc.{page_alloc-Popped, Allocated}
use joslab4_init.Pmap.Init.{Initialised, page_init-Initialised}
use joslab4_init.Pmap.Walk.{frame, IsEntry, walk_of_IsEntry, Created, walk-Created}
use joslab4_init.Pmap.Remove.{IsMapping, Unmapped, page_remove-Unmapped}
use joslab4_init.Pmap.Insert.{Mapped, Counted, page_insert-Mapped, page_insert-Counted}
use joslab4_init.Pmap.UserMem.{HasTables, accessible, user_mem_check_pass, user_mem_check_fault}
use joslab4_init.Tests.{small, small-IsFreeList, full}

small-IsEntry : IsEntry 1 0x3000 2 3 small
unfolding pdx ptx pgnum pte_addr
small-IsEntry = record { is_present = refl; table = refl; exists = omega arith; index = refl }

small-IsMapping : IsMapping 0x3007 small
unfolding pgnum pte_addr
small-IsMapping = record {
  here = refl;
  exists = omega arith;
  unlinked = refl;
  referenced = omega arith;
  counted = omega arith;
}

small_walk : pgdir_walk 1 0x3000 true small ≡ ok (some (2, 3)) small
small_walk = walk_of_IsEntry 1 0x3000 2 3 true small small-IsEntry

-- Page 4 takes the place of page 3.
page_insert-Mapped_example :
    (m' : Machine) × (page_insert (some 1) 1 4 0x3000 6 small ≡ ok none m')
    × Mapped 1 4 0x3000 6 2 3 small m'
unfolding pgnum pte_addr
page_insert-Mapped_example =
    page_insert-Mapped (some 1) 1 4 0x3000 6 2 3 small small small_walk (omega arith) (omega arith)
      (omega arith) (omega arith)
      (inr (record { here = refl; exists = omega arith; unlinked = refl }))

-- Page 3 is mapped again where it is mapped.
page_insert-Counted_example :
    (m' : Machine) × (page_insert (some 1) 1 3 0x3000 6 small ≡ ok none m')
    × Counted 3 0x3007 small m'
page_insert-Counted_example =
    page_insert-Counted (some 1) 1 3 0x3000 6 2 3 small small small_walk (omega arith)
      (inr small-IsMapping)

page_remove-Unmapped_example :
    (m' : Machine) × (page_remove (some 1) 1 0x3000 small ≡ ok tt m')
    × Unmapped (some 1) 1 0x3000 2 3 (frame 0x3007) small m'
page_remove-Unmapped_example =
    page_remove-Unmapped (some 1) 1 0x3000 2 3 small small-IsEntry (omega arith) small-IsMapping

small-HasTables : HasTables 1 small
unfolding pdx pgnum pte_addr
small-HasTables a h = ground arith

-- Bytes 0x3010 to 0x3020 of the mapped page, as 7 asks for.
user_mem_check_pass_example : user_mem_check 1 0x3010 0x10 6 small ≡ ok none small
unfolding accessible rounddown pdx ptx pgnum pte_addr
user_mem_check_pass_example =
    user_mem_check_pass 1 0x3010 0x10 6 small small-HasTables (omega arith)
      (λ a aligned h1 h2. let e : a ≡ 0x3000 = omega arith in rw e refl)

-- The page after it is not mapped.
user_mem_check_fault_example :
    user_mem_check 1 0x3010 0x1000 6 small
    ≡ ok (some e_fault) (record small { user_mem_check_addr = max 0x4000 0x3010 })
unfolding accessible rounddown pdx ptx pgnum pte_addr
user_mem_check_fault_example =
    user_mem_check_fault 1 0x3010 0x1000 6 0x4000 small small-HasTables (omega arith) (omega arith)
      (omega arith) (omega arith) refl
      (λ a aligned h1 h2. let e : a ≡ 0x3000 = omega arith in rw e refl)

walk-Created_example :
    (pgdir_walk 1 0x400000 false small ≡ ok none small)
    × Created 1 0x400000 (5 ∷ 6 ∷ []) small (pgdir_walk 1 0x400000 true small)
unfolding pdx
walk-Created_example =
    walk-Created 1 0x400000 (5 ∷ 6 ∷ []) small (omega arith) small-IsFreeList refl refl

-- The kernel's image ends at 0xF0103004.
page_init-Initialised_example :
    (xs : List ℕ) × Initialised 2
      (boot_alloc 0xF0103004 0 0).0
      full
      (page_init 0xF0103004 0 2 full)
      xs
page_init-Initialised_example = page_init-Initialised 0xF0103004 0 2 full refl

page_alloc-Popped_example :
    (m' : Machine) × (page_alloc 1 small ≡ ok (some 5) m') × Allocated 1 5 (6 ∷ []) small m'
page_alloc-Popped_example = page_alloc-Popped 1 small (5 ∷ 6 ∷ []) (omega arith) small-IsFreeList
