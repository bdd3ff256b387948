-- ===== src/Pmap/Unfinished.antt =====
-- `mmio_map_region` is not implemented: what that does to `check_page`.
use joslab4_init.Base.{ℕ, ◌≡◌, refl, false, Option, none}
use joslab4_init.Machine.{Machine, Run, ok, panicked, out_of_fuel, and_then}
use joslab4_init.Pmap.CheckAlloc.{
  assert_alloc, assert_distinct, set_free_list, assert_no_page, free_three,
}
use joslab4_init.Pmap.CheckPage.{
  check_inserts, check_remaps, check_removes, check_walks, check_mmio, check_page, mmio_map_region,
}
use joslab4_init.Pmap.MemInit.{returns}

-- A computation does not return when what follows its first part does not.
returns-and_then :
    {A B : Type 0} (r : Run A) (k : A → Machine → Run B)
    → ((a : A) (m : Machine) → returns (k a m) ≡ false)
    → returns (and_then r k) ≡ false
unfolding returns
returns-and_then (ok a m) k h = h a m
returns-and_then panicked k h = refl
returns-and_then out_of_fuel k h = refl

check_mmio-returns : (pgdir : ℕ) (m : Machine) → returns (check_mmio pgdir m) ≡ false
unfolding check_mmio mmio_map_region returns
check_mmio-returns pgdir m = refl

-- `check_page` never returns, whatever the page tables, the free list and memory hold: its tests of
-- `mmio_map_region` panic unless it has panicked before.
pub check_page-returns :
    (cur : Option ℕ) (pgdir : ℕ) (m : Machine) → returns (check_page cur pgdir m) ≡ false
unfolding check_page
check_page-returns cur pgdir m = returns-and_then (assert_alloc 0 m) _ (λ pp0 m.
    returns-and_then (assert_alloc 0 m) _ (λ pp1 m. returns-and_then (assert_alloc 0 m) _ (λ pp2 m.
      returns-and_then (assert_distinct pp0 pp1 pp2 m) _ (λ u m.
        returns-and_then (ok m.page_free_list m) _ (λ fl m.
          returns-and_then (set_free_list none m) _ (λ u m.
            returns-and_then (assert_no_page m) _ (λ u m.
              returns-and_then (check_inserts cur pgdir pp0 pp1 pp2 m) _ (λ u m.
                returns-and_then (check_remaps cur pgdir pp0 pp1 pp2 m) _ (λ u m.
                  returns-and_then (check_removes cur pgdir pp1 pp2 m) _ (λ u m.
                    returns-and_then (check_walks pgdir pp0 m) _ (λ u m.
                      returns-and_then (set_free_list fl m) _ (λ u m.
                        returns-and_then (free_three pp0 pp1 pp2 m) _
                          (λ u m. check_mmio-returns pgdir m)))))))))))))
