-- ===== src/Pmap/Init.antt =====
-- `page_init`: which pages start on the free list.
use joslab4_init.Base.{
  ℕ, zero, suc, ◌+◌, ◌-◌, ◌/◌, ◌^◌, ◌≤◌, ◌<◌, ◌≡◌, ◌≢◌, ◌↔◌, ◌⊎◌, refl, inl, inr, true, false, none,
  List, [], ◌∷◌, has, length, arith, Bool-cases, update_self, u32, if◌then◌else◌,
}
use joslab4_init.Mmu.{kernbase, pgsize}
use joslab4_init.Machine.{Machine}
use joslab4_init.Pmap.{boot_alloc, in_use, init_page, init_pages, page_init, free_page_ok}
use joslab4_init.Pmap.FreeList.{IsChain, IsDistinct, IsFreeList, IsChain-update}

-- The pages that the loop does not mark as in use: base memory without page 0, all below the IO hole,
-- and what lies above the kernel's image. The page at MPENTRY_PADDR is among them.
abbrev pub IsFreed : (npages_basemem kernel_end i : ℕ) → Type 0
IsFreed bm ke i =
    (i ≢ 0) × ((i < bm) ⊎ (i < 160) ⊎ ((256 ≤ i) × (u32 (ke + 2 ^ 32 - kernbase) / pgsize ≤ i)))

in_use_iff : (bm ke i : ℕ) → (in_use bm ke i ≡ false) ↔ IsFreed bm ke i
unfolding in_use
in_use_iff bm ke i = (λ h. ground arith, λ h. ground arith)

module _ (bm ke : ℕ) where
  free_pages : ℕ → List ℕ
  free_pages zero = []
  free_pages (suc n) = if in_use bm ke n then free_pages n else n ∷ free_pages n

  has-free_pages : (n i : ℕ) → (has i (free_pages n) ≡ true) ↔ ((i < n) × (in_use bm ke i ≡ false))
  unfolding free_pages
  has-free_pages zero i = (λ h. cc, λ h. absurd (omega arith))
  has-free_pages (suc n) i =
      (λ h. ground (arith, (has-free_pages n i).0), λ h. ground (arith, (has-free_pages n i).1))

  above : (n i : ℕ) → n ≤ i → has i (free_pages n) ≡ false
  above n i h = ground (arith, (has-free_pages n i).0)

  length-free_pages : (n : ℕ) → length (free_pages n) ≤ n
  unfolding free_pages
  length-free_pages zero = omega arith
  length-free_pages (suc n) = ground (arith, length-free_pages n)

  -- The pages below `n` after the loop has passed them.
  record IsInit (m : Machine) (n : ℕ) (m' : Machine) : Type 0 where
    same : m'.npages ≡ m.npages
    chain : IsChain m'.pp_link m'.page_free_list (free_pages n)
    free_ref : (i : ℕ) → i < n → in_use bm ke i ≡ false → m'.pp_ref i ≡ 0
    used_ref : (i : ℕ) → i < n → in_use bm ke i ≡ true → (m'.pp_ref i ≡ 1) × (m'.pp_link i ≡ none)

  distinct : (n : ℕ) → IsDistinct (free_pages n)
  unfolding free_pages
  distinct zero = tt
  distinct (suc n) = ground (arith, distinct n, above n n)

  init_page-IsInit :
      (m m' : Machine) (n : ℕ) → IsInit m n m' → IsInit m (suc n) (init_page bm ke n m')
  unfolding init_page free_pages
  init_page-IsInit m m' n v = elim (Bool-cases (in_use bm ke n)) [
    | inl used ↦ rw used record {
      same = v.same;
      chain = rw used (
          IsChain-update m'.pp_link m'.page_free_list n none (free_pages n)
            (above n n (omega arith)) v.chain);
      free_ref = λ i h e. ground (arith, v.free_ref i);
      used_ref = λ i h e. ground (arith, v.used_ref i);
    }
    | inr free ↦ rw free record {
      same = v.same;
      chain = rw free (
        refl,
        rw (update_self m'.pp_link n m'.page_free_list) (
            IsChain-update m'.pp_link m'.page_free_list n m'.page_free_list (free_pages n)
              (above n n (omega arith)) v.chain),
      );
      free_ref = λ i h e. ground (arith, v.free_ref i);
      used_ref = λ i h e. ground (arith, v.used_ref i);
    }
  ]

  init_pages-IsInit :
      (m : Machine) → m.page_free_list ≡ none → (n : ℕ) → IsInit m n (init_pages bm ke n m)
  unfolding init_pages free_pages
  init_pages-IsInit m empty zero = record {
    same = refl;
    chain = empty;
    free_ref = λ i h. absurd (omega arith);
    used_ref = λ i h. absurd (omega arith);
  }
  init_pages-IsInit m empty (suc n) =
      init_page-IsInit m (init_pages bm ke n m) n (init_pages-IsInit m empty n)

-- What `page_init` leaves: the free list is exactly those pages that the machine has, once each and unreferenced, and every other page has one reference and a null link.
pub record Initialised (bm ke : ℕ) (m m' : Machine) (xs : List ℕ) : Type 0 where
  pub free : IsFreeList m' xs
  pub freed : (i : ℕ) → (has i xs ≡ true) ↔ ((i < m.npages) × IsFreed bm ke i)
  pub size : length xs ≤ m.npages
  pub reserved :
      (i : ℕ) → i < m.npages → ¬ IsFreed bm ke i → (m'.pp_ref i ≡ 1) × (m'.pp_link i ≡ none)

Initialised-IsInit :
    (bm ke : ℕ) (m m' : Machine)
    → IsInit bm ke m m.npages m'
    → Initialised bm ke m m' (free_pages bm ke m.npages)
Initialised-IsInit bm ke m m' v = record {
  free = record {
    chain = v.chain;
    distinct = distinct bm ke m.npages;
    unused = λ i h. ground (arith, (has-free_pages bm ke m.npages i).0, v.free_ref i, v.same);
  };
  freed = λ i. (
    λ h. let (lt, e) = (has-free_pages bm ke m.npages i).0 h in (lt, (in_use_iff bm ke i).0 e),
    λ h. (has-free_pages bm ke m.npages i).1 (h.0, (in_use_iff bm ke i).1 (h.1)),
  );
  size = length-free_pages bm ke m.npages;
  reserved = λ i h out. elim (Bool-cases (in_use bm ke i)) [
    | inl used ↦ v.used_ref i h used
    | inr free ↦ absurd (out ((in_use_iff bm ke i).0 free))
  ];
}

-- From an empty free list `page_init` puts on it, once each and unreferenced, exactly the pages of the
-- machine that are not page 0 and are in base memory, below the IO hole, or at or behind the end of
-- the kernel. This is what the loop does: it includes page 7 at MPENTRY_PADDR, which the comment on
-- `page_init` and the assertions of `check_page_free_list` want in use. Every other page has one
-- reference and a null link.
pub page_init-Initialised :
    (end nextfree bm : ℕ) (m : Machine)
    → m.page_free_list ≡ none
    → (xs : List ℕ) × Initialised bm
        (boot_alloc end nextfree 0).0
        m
        (page_init end nextfree bm m)
        xs
unfolding page_init
page_init-Initialised end nextfree bm m empty =
    let ke = (boot_alloc end nextfree 0).0 in
    (
      free_pages bm ke m.npages,
      Initialised-IsInit bm ke m _ (init_pages-IsInit bm ke m empty m.npages),
    )

npages-init_pages : (bm ke : ℕ) (m : Machine) (n : ℕ) → (init_pages bm ke n m).npages ≡ m.npages
unfolding init_pages init_page
npages-init_pages bm ke m zero = refl
npages-init_pages bm ke m (suc n) = ground (arith, npages-init_pages bm ke m n)

pub npages-page_init :
    (end nextfree bm : ℕ) (m : Machine) → (page_init end nextfree bm m).npages ≡ m.npages
unfolding page_init
npages-page_init end nextfree bm m = npages-init_pages bm (boot_alloc end nextfree 0).0 m m.npages

-- On a machine of more than 7 pages `page_init` leaves the page at MPENTRY_PADDR on the free list,
-- and there the assertions of `check_page_free_list` fail, whatever the end of the kernel is.
pub mpentry-has :
    (end nextfree bm first : ℕ) (m : Machine)
    → m.page_free_list ≡ none
    → 7 < m.npages
    → (xs : List ℕ) × (length xs ≤ m.npages)
      × IsFreeList (page_init end nextfree bm m) xs
      × (has 7 xs ≡ true)
      × (free_page_ok first m.npages 7 ≡ false)
unfolding free_page_ok
mpentry-has end nextfree bm first m empty h =
    let (xs, i) = page_init-Initialised end nextfree bm m empty in
    (xs, i.size, i.free, (i.freed 7).1 (h, (omega arith, inr (inl (omega arith)))), ground arith)
