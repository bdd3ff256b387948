-- ===== src/Env/Region.antt =====
-- `region_alloc` of kern/env.c, for the environment's page directory.
use joslab4_init.Base.{
  ℕ, zero, suc, ◌+◌, ◌-◌, ◌/◌, ◌<◌, ◌≡◌, refl, Option, none, some, ltb, u32, bit_or, if◌then◌else◌,
  lt→ltb,
}
use joslab4_init.Mmu.{pgsize, pte_w, pte_u, rounddown, roundup}
use joslab4_init.Machine.{Machine, ok, panicked, out_of_fuel, M, pure, panic, ◌>>=◌}
use joslab4_init.Pmap.{page_alloc, page_insert}

-- A page for one address; the result of `page_insert` is not looked at.
abbrev pub map_new_page : (cur : Option ℕ) → (pgdir va : ℕ) → Option ℕ → M (Unit {0})
map_new_page cur pgdir va none = panic
map_new_page cur pgdir va (some p) =
    page_insert cur pgdir p va (bit_or pte_w pte_u) >>= λ r. pure tt

unfoldable pub region_loop : (fuel : ℕ) (cur : Option ℕ) (pgdir begin end : ℕ) → M (Unit {0})
region_loop zero cur pgdir begin end m = out_of_fuel
region_loop (suc fuel) cur pgdir begin end m =
    let rest = region_loop fuel cur pgdir (u32 (begin + pgsize)) end in
    if ltb begin end
    then (page_alloc 0 >>= (λ p. map_new_page cur pgdir begin p) >>= λ u. rest) m
    else ok tt m

unfoldable pub region_alloc : (cur : Option ℕ) (pgdir va len : ℕ) → M (Unit {0})
region_alloc cur pgdir va len =
    let begin = rounddown va pgsize in
    let end = roundup (u32 (va + len)) pgsize in
    region_loop (suc ((end - begin) / pgsize)) cur pgdir begin end

-- With no free page, a range that is not empty makes `region_alloc` panic.
pub region_alloc_panics :
    (cur : Option ℕ) (pgdir va len : ℕ) (m : Machine)
    → m.page_free_list ≡ none
    → rounddown va pgsize < roundup (u32 (va + len)) pgsize
    → region_alloc cur pgdir va len m ≡ panicked
unfolding region_alloc region_loop page_alloc
region_alloc_panics cur pgdir va len m empty h = rw (lt→ltb _ _ h, empty) refl
