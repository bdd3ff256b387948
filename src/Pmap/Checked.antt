-- ===== src/Pmap/Checked.antt =====
-- When `check_page_free_list` passes and when it panics.
use joslab4_init.Base.{
  ℕ, suc, ◌^◌, ◌≤◌, ◌<◌, ◌≡◌, refl, sym, ◌∙◌, true, false, not, Bool, Option, none, some, List, [],
  ◌∷◌, has, length, arith, if◌then◌else◌, ap,
}
use joslab4_init.Mmu.{extphysmem, npdentries}
use joslab4_init.Machine.{Machine, Run, ok, panicked, and_then, page2pa}
use joslab4_init.Pmap.{page_init, free_page_ok, is_some}
use joslab4_init.Pmap.Init.{mpentry-has, npages-page_init}
use joslab4_init.Pmap.FreeList.{IsFreeList}
use joslab4_init.Pmap.Check.{spoil_pages, assert_pages, check_page_free_list, low_pages_first}
use joslab4_init.Pmap.LowFirst.{low_pages_first-low_first}
use joslab4_init.Pmap.Select.{low_first, length-low_first}
use joslab4_init.Pmap.Verdict.{verdict, spoiled_and_asserted, rejected, accepted}

-- The list that is checked.
record Same (m : Machine) (xs : List ℕ) (m' : Machine) (ys : List ℕ) : Type 0 where
  free : IsFreeList m' ys
  pages : (p : ℕ) → has p ys ≡ has p xs
  size : length ys ≡ length xs
  existing : m'.npages ≡ m.npages

reordered :
    (only_low : Bool) (rubbish : Bool → Option ℕ) (fuel limit : ℕ) (m : Machine) (xs : List ℕ)
    → length xs < fuel
    → IsFreeList m xs
    → (m' : Machine) × (ys : List ℕ) × ((if only_low
          then low_pages_first rubbish fuel limit m
          else ok tt m)
        ≡ ok tt m')
      × Same m xs m' ys
reordered true rubbish fuel limit m xs h l =
    let (m', e, l', same, _, _, n) = low_pages_first-low_first rubbish fuel limit m xs h l in
    (
      m',
      low_first limit xs,
      e,
      record { free = l'; pages = same; size = length-low_first limit xs; existing = n },
    )
reordered false rubbish fuel limit m xs h l =
    (m, xs, refl, record { free = l; pages = λ p. refl; size = refl; existing = refl })

staged :
    (only_low : Bool) (rubbish : Bool → Option ℕ) (fuel first x : ℕ) (m m' : Machine)
    → m.page_free_list ≡ some x
    → let limit = if only_low then 1 else npdentries in
      (if only_low then low_pages_first rubbish fuel limit m else ok tt m) ≡ ok tt m'
      → check_page_free_list only_low rubbish fuel first m
        ≡ and_then
            (spoil_pages fuel limit m'.page_free_list m')
            (λ _ m. assert_pages fuel first m.page_free_list 0 0 m)
unfolding check_page_free_list
staged only_low rubbish fuel first x m m' e run =
    ap
      (λ (b : Bool).
        if not b
        then panicked
        else and_then
            (and_then
              (if only_low
                then low_pages_first rubbish fuel (if only_low then 1 else npdentries) m
                else ok tt m)
              (λ _ m. spoil_pages fuel (if only_low then 1 else npdentries) m.page_free_list m))
            (λ _ m. assert_pages fuel first m.page_free_list 0 0 m))
      (ap is_some e)
    ∙ ap
        (λ (r : Run (Unit {0})).
          and_then
            (and_then r
              (λ _ m. spoil_pages fuel (if only_low then 1 else npdentries) m.page_free_list m))
            (λ _ m. assert_pages fuel first m.page_free_list 0 0 m))
        run

-- `check_page_free_list` on a list with a page is the verdict on a list of the same pages.
check_page_free_list-verdict :
    (only_low : Bool) (rubbish : Bool → Option ℕ) (fuel first p : ℕ) (m : Machine) (xs : List ℕ)
    → length xs < fuel
    → m.npages ≤ 2 ^ 20
    → IsFreeList m xs
    → has p xs ≡ true
    → (m' : Machine) × (ys : List ℕ) × (check_page_free_list only_low rubbish fuel first m
        ≡ verdict first ys m')
      × Same m xs m' ys
check_page_free_list-verdict only_low rubbish fuel first p m [] h fits l i = cc
check_page_free_list-verdict only_low rubbish fuel first p m (x ∷ xs) h fits l i =
    let limit = if only_low then 1 else npdentries in
    let (m', ys, e, s) = reordered only_low rubbish fuel limit m (x ∷ xs) h l in
    let (mem, v) =
      spoiled_and_asserted fuel limit first m' ys (omega (arith, s.size, h))
        (omega (arith, s.existing)) s.free in
    (
      record m' { mem = mem },
      ys,
      staged only_low rubbish fuel first x m m' l.chain.0 e ∙ v,
      record {
        free = record { chain = s.free.chain; distinct = s.free.distinct; unused = s.free.unused };
        pages = s.pages;
        size = s.size;
        existing = s.existing;
      },
    )

-- `check_page_free_list` returns when every page of the free list passes its assertions and one lies
-- below EXTPHYSMEM and one above: with fuel for one more round than there are free pages its loops
-- end, whatever `pp1` and `pp2` held, and the free list holds the same pages as before, once each.
pub check_page_free_list_passes :
    (only_low : Bool) (rubbish : Bool → Option ℕ) (fuel first p q : ℕ) (m : Machine) (xs : List ℕ)
    → length xs < fuel
    → m.npages ≤ 2 ^ 20
    → IsFreeList m xs
    → ((r : ℕ) → has r xs ≡ true → free_page_ok first m.npages r ≡ true)
    → has p xs ≡ true
    → page2pa p < extphysmem
    → has q xs ≡ true
    → extphysmem ≤ page2pa q
    → (m' : Machine) × (ys : List ℕ) × (check_page_free_list only_low rubbish fuel first m
        ≡ ok tt m')
      × IsFreeList m' ys
      × ((r : ℕ) → has r ys ≡ has r xs)
check_page_free_list_passes only_low rubbish fuel first p q m xs h fits l all i low j high =
    let (m', ys, e, s) =
      check_page_free_list-verdict only_low rubbish fuel first p m xs h fits l i in
    (
      m',
      ys,
      e
          ∙ accepted first p q m' ys (λ r k. rw s.existing (all r (sym (s.pages r) ∙ k)))
              (s.pages p ∙ i) low (s.pages q ∙ j) high,
      s.free,
      s.pages,
    )

-- It panics when a page of the list fails an assertion.
pub check_page_free_list_panics :
    (only_low : Bool) (rubbish : Bool → Option ℕ) (fuel first p : ℕ) (m : Machine) (xs : List ℕ)
    → length xs < fuel
    → m.npages ≤ 2 ^ 20
    → IsFreeList m xs
    → has p xs ≡ true
    → free_page_ok first m.npages p ≡ false
    → check_page_free_list only_low rubbish fuel first m ≡ panicked
check_page_free_list_panics only_low rubbish fuel first p m xs h fits l i bad =
    let (m', ys, e, s) =
      check_page_free_list-verdict only_low rubbish fuel first p m xs h fits l i in
    e ∙ rejected first p m' ys (s.pages p ∙ i) (rw s.existing bad)

-- On a machine of more than 7 pages, `check_page_free_list` panics on the free list that `page_init`
-- leaves, whatever the sizes of base memory and of the kernel are: the page at MPENTRY_PADDR is on
-- it. `suc m.npages` rounds for each loop are enough.
pub check_page_free_list-page_init :
    (only_low : Bool) (rubbish : Bool → Option ℕ) (end nextfree bm first : ℕ) (m : Machine)
    → m.page_free_list ≡ none
    → 7 < m.npages
    → m.npages ≤ 2 ^ 20
    → check_page_free_list only_low rubbish (suc m.npages) first (page_init end nextfree bm m)
      ≡ panicked
check_page_free_list-page_init only_low rubbish end nextfree bm first m empty h fits =
    let (xs, size, l, i, bad) = mpentry-has end nextfree bm first m empty h in
    let same = npages-page_init end nextfree bm m in
    check_page_free_list_panics only_low rubbish (suc m.npages) first 7
      (page_init end nextfree bm m) xs (omega arith) (omega (arith, same)) l i (rw same bad)
