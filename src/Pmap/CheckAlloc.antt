-- ===== src/Pmap/CheckAlloc.antt =====
-- `check_page_alloc`, the kernel's own test of its allocator. A failed assertion panics, and `nfree`,
-- an `int`, is its word.
use joslab4_init.Base.{
  ℕ, zero, suc, ◌+◌, ◌-◌, ◌*◌, ◌/◌, ◌%◌, ◌^◌, Bool, true, not, ◌&&◌, Option, none, some, u32, ltb,
  ◌==◌, ◌!=◌, update, if◌then◌else◌,
}
use joslab4_init.Mmu.{pgsize}
use joslab4_init.Machine.{
  Machine, M, ok, panicked, out_of_fuel, pure, ◌>>=◌, ◌>>◌, page2pa, page2kva,
}
use joslab4_init.Pmap.{page_alloc, page_free, alloc_zero, is_some}

unfoldable pub assert_that : Bool → M (Unit {0})
assert_that b m = if b then ok tt m else panicked

unfoldable pub not_null : Option ℕ → M ℕ
not_null none m = panicked
not_null (some p) m = ok p m

-- `assert((pp = page_alloc(alloc_flags)))`
unfoldable pub assert_alloc : (alloc_flags : ℕ) → M ℕ
assert_alloc alloc_flags = page_alloc alloc_flags >>= not_null

-- `assert(!page_alloc(0))`
unfoldable pub assert_no_page : M (Unit {0})
assert_no_page = page_alloc 0 >>= λ o. assert_that (not (is_some o))

-- The loops that count the free pages up and down.
unfoldable pub count_up : (fuel : ℕ) → (pp : Option ℕ) → (nfree : ℕ) → M ℕ
count_up zero pp nfree m = out_of_fuel
count_up (suc fuel) none nfree m = ok nfree m
count_up (suc fuel) (some p) nfree m = count_up fuel (m.pp_link p) (u32 (nfree + 1)) m

unfoldable pub count_down : (fuel : ℕ) → (pp : Option ℕ) → (nfree : ℕ) → M ℕ
count_down zero pp nfree m = out_of_fuel
count_down (suc fuel) none nfree m = ok nfree m
count_down (suc fuel) (some p) nfree m = count_down fuel (m.pp_link p) (u32 (nfree + 2 ^ 32 - 1)) m

-- `assert(pp0); assert(pp1 && pp1 != pp0); assert(pp2 && pp2 != pp1 && pp2 != pp0);`
unfoldable pub assert_distinct : (pp0 pp1 pp2 : ℕ) → M (Unit {0})
unfolding assert_that
assert_distinct pp0 pp1 pp2 = assert_that ((pp1 != pp0) && ((pp2 != pp1) && (pp2 != pp0)))

-- `page2pa(pp) < npages*PGSIZE`
unfoldable pub in_memory : (pp : ℕ) → M (Unit {0})
unfolding assert_that page2pa
in_memory pp m = assert_that (ltb (page2pa pp) (u32 (m.npages * pgsize))) m

-- `page_free_list = fl`
unfoldable pub set_free_list : Option ℕ → M (Unit {0})
set_free_list fl m = ok tt (record m { page_free_list = fl })

-- `memset(page2kva(pp), 1, PGSIZE)`
unfoldable pub fill_ones : ℕ → M (Unit {0})
fill_ones pp = do f ← page2kva pp; λ m. ok tt (record m { mem = update m.mem f (λ i. 0x01010101) })

-- The bytes 0, …, `n - 1` of a page are zero.
unfoldable pub zero_bytes : (n f : ℕ) → Machine → Bool
zero_bytes zero f m = true
zero_bytes (suc n) f m = zero_bytes n f m && (m.mem f (n / 4) / 256 ^ (n % 4) % 256 == 0)

-- `c = page2kva(pp); for (i = 0; i < PGSIZE; i++) assert(c[i] == 0);`
unfoldable pub assert_zeroed : ℕ → M (Unit {0})
unfolding assert_that
assert_zeroed pp = do c ← page2kva pp; λ m. assert_that (zero_bytes pgsize c m) m

-- `page_free(pp0); page_free(pp1); page_free(pp2);`
unfoldable pub free_three : (pp0 pp1 pp2 : ℕ) → M (Unit {0})
free_three pp0 pp1 pp2 = page_free pp0 >> page_free pp1 >> page_free pp2

-- `page_free(pp0); assert((pp = page_alloc(ALLOC_ZERO))); assert(pp && pp0 == pp);` and its zeroes
unfoldable pub check_zero_flag : (pp0 : ℕ) → M (Unit {0})
unfolding assert_alloc assert_that
check_zero_flag pp0 = do
  _ ← page_free pp0
  pp ← assert_alloc alloc_zero
  _ ← assert_that (pp0 == pp)
  assert_zeroed pp

-- From the theft of the other free pages until they are given back; the result are the three pages.
unfoldable pub check_stolen : (pp0 pp1 pp2 : ℕ) → M (ℕ × ℕ × ℕ)
unfolding assert_alloc assert_no_page assert_distinct
check_stolen pp0 pp1 pp2 = do
  _ ← assert_no_page
  _ ← free_three pp0 pp1 pp2
  qq0 ← assert_alloc 0
  qq1 ← assert_alloc 0
  qq2 ← assert_alloc 0
  _ ← assert_distinct qq0 qq1 qq2
  _ ← assert_no_page
  _ ← fill_ones qq0
  _ ← check_zero_flag qq0
  pure (qq0, qq1, qq2)

-- The list is given back, and the three pages are.
unfoldable pub give_back : (fl : Option ℕ) → ℕ × ℕ × ℕ → M (Unit {0})
give_back fl (pp0, pp1, pp2) = set_free_list fl >> free_three pp0 pp1 pp2

-- `fuel` is for each of the two counting loops; `has_pages` says that `pages` is set.
unfoldable pub check_page_alloc : (has_pages : Bool) → (fuel : ℕ) → M (Unit {0})
unfolding assert_alloc assert_that assert_distinct in_memory
check_page_alloc has_pages fuel = do
  _ ← assert_that has_pages
  nfree ← λ m. count_up fuel m.page_free_list 0 m
  pp0 ← assert_alloc 0
  pp1 ← assert_alloc 0
  pp2 ← assert_alloc 0
  _ ← assert_distinct pp0 pp1 pp2
  _ ← in_memory pp0
  _ ← in_memory pp1
  _ ← in_memory pp2
  fl ← λ m. ok m.page_free_list m
  _ ← set_free_list none
  pps ← check_stolen pp0 pp1 pp2
  _ ← give_back fl pps
  left ← λ m. count_down fuel m.page_free_list nfree m
  assert_that (left == 0)
