-- ===== src/Pmap/Holding.antt =====
-- Steps of `check_page_alloc`: what they do to the free list while three pages go to and fro.
use joslab4_init.Base.{
  ℕ, zero, suc, ◌/◌, ◌^◌, ◌<◌, ◌≡◌, refl, ap, ◌∙◌, true, false, Bool, Option, none, List, [], ◌∷◌,
  has, update, arith, if◌then◌else◌,
}
use joslab4_init.Machine.{Machine, Run, ok, panicked, and_then}
use joslab4_init.Pmap.{page_free}
use joslab4_init.Pmap.FreeList.{IsChain, IsFreeList, IsChain-update}
use joslab4_init.Pmap.Alloc.{
  page2kva-ok, taken, taken-Allocated, page_alloc-taken, page_alloc-Popped, freed, freed-IsFreeList,
  page_free-freed,
}
use joslab4_init.Pmap.CheckAlloc.{
  assert_that, not_null, assert_alloc, assert_no_page, fill_ones, zero_bytes, assert_zeroed,
}

-- A computation goes on from what its first part returns.
pub bind :
    {A B : Type 0} {r : Run A} {a : A} {m : Machine} {z : Run B}
    → (k : A → Machine → Run B) → r ≡ ok a m
    → k a m ≡ z
    → and_then r k ≡ z
bind k e f = ap (λ r. and_then r k) e ∙ f

-- The same when what the first part leaves is known by a property `Q`.
pub after :
    {A B : Type 0} {r : Run A} {a : A} {b : B} {Q P : Machine → Type 0}
    → (k : A → Machine → Run B) → (m1 : Machine) × (r ≡ ok a m1) × Q m1
    → ((m1 : Machine) → Q m1 → (m' : Machine) × (k a m1 ≡ ok b m') × P m')
    → (m' : Machine) × (and_then r k ≡ ok b m') × P m'
after k (m1, e, q) f = let (m', e', p) = f m1 q in (m', bind k e e', p)

-- The free list is `xs`, pages of `own` that are not on it have null links, and from `fl` the links
-- lead through the pages `rest`; counts are as in `m0`.
pub record Holding (own rest : List ℕ) (fl : Option ℕ) (m0 m : Machine) (xs : List ℕ) : Type 0 where
  pub free : IsFreeList m xs
  pub null : (q : ℕ) → has q own ≡ true → has q xs ≡ false → m.pp_link q ≡ none
  pub kept : IsChain m.pp_link fl rest
  pub refs : m.pp_ref ≡ m0.pp_ref
  pub size : m.npages ≡ m0.npages

-- The pages `own` exist, are not referenced, and are not among `rest`.
pub record Spare (own rest : List ℕ) (m0 : Machine) : Type 0 where
  pub fits : m0.npages < 2 ^ 20
  pub unused : (q : ℕ) → has q own ≡ true → (q < m0.npages) × (m0.pp_ref q ≡ 0)
  pub apart : (q : ℕ) → has q own ≡ true → has q rest ≡ false

pub zero_bytes-true : (n f : ℕ) (m : Machine) → ((i : ℕ) → m.mem f i ≡ 0) → zero_bytes n f m ≡ true
unfolding zero_bytes
zero_bytes-true zero f m z = refl
zero_bytes-true (suc n) f m z = ground (arith, zero_bytes-true n f m z, z (n / 4))

module _ (own rest : List ℕ) (fl : Option ℕ) (m0 : Machine) (s : Spare own rest m0) where
  pub alloc_step :
      (flags p : ℕ) (xs : List ℕ) (m : Machine)
      → has p own ≡ true
      → Holding own rest fl m0 m (p ∷ xs)
      → (m' : Machine) × (assert_alloc flags m ≡ ok p m')
        × Holding own rest fl m0 m' xs
        × ((i : ℕ) → flags ≡ 1 → m'.mem p i ≡ 0)
  unfolding assert_alloc not_null
  alloc_step flags p xs m i h =
      let a = taken-Allocated flags p m xs h.free in
      let own' = h.free.unused p (ground arith) in
      let fits = s.fits in
      (
        taken flags p m,
        bind _ (page_alloc-taken flags p m h.free.chain.0 own'.0 (omega (arith, h.size))) refl,
        record {
          free = a.rest;
          null = λ q j out. ground (arith, h.null q);
          kept = IsChain-update m.pp_link fl p none rest (s.apart p i) h.kept;
          refs = h.refs;
          size = h.size;
        },
        λ j one. ground (arith, a.memory p j),
      )

  pub free_step :
      (p : ℕ) (xs : List ℕ) (m : Machine)
      → has p own ≡ true
      → has p xs ≡ false
      → Holding own rest fl m0 m xs
      → (m' : Machine) × (page_free p m ≡ ok tt m') × Holding own rest fl m0 m' (p ∷ xs)
  free_step p xs m i out h =
      let (exists, unused) = s.unused p i in
      let zero : m.pp_ref p ≡ 0 = ap (λ (f : ℕ → ℕ). f p) h.refs ∙ unused in
      (
        freed p m,
        page_free-freed p m (h.null p i out) zero,
        record {
          free = freed-IsFreeList p m xs (omega (arith, h.size)) zero out h.free;
          null = λ q j off. ground (arith, h.null q);
          kept = IsChain-update m.pp_link fl p m.page_free_list rest (s.apart p i) h.kept;
          refs = h.refs;
          size = h.size;
        },
      )

  pub no_page_step : (m : Machine) → Holding own rest fl m0 m [] → assert_no_page m ≡ ok tt m
  unfolding assert_no_page assert_that
  no_page_step m h =
      let fits = s.fits in bind _ (page_alloc-Popped 0 m [] (omega (arith, h.size)) h.free) refl

  pub fill_step :
      (p : ℕ) (xs : List ℕ) (m : Machine)
      → has p own ≡ true
      → Holding own rest fl m0 m xs
      → (m' : Machine) × (fill_ones p m ≡ ok tt m') × Holding own rest fl m0 m' xs
  unfolding fill_ones
  fill_step p xs m i h =
      let fits = s.fits in
      let exists = (s.unused p i).0 in
      (
        record m { mem = update m.mem p (λ i. 0x01010101) },
        bind _ (page2kva-ok p m (omega (arith, h.size)) (omega (arith, h.size))) refl,
        record {
          free = record {
            chain = h.free.chain;
            distinct = h.free.distinct;
            unused = h.free.unused;
          };
          null = h.null;
          kept = h.kept;
          refs = h.refs;
          size = h.size;
        },
      )

  pub zeroed_step :
      (p : ℕ) (xs : List ℕ) (m : Machine)
      → has p own ≡ true
      → Holding own rest fl m0 m xs
      → ((i : ℕ) → m.mem p i ≡ 0)
      → assert_zeroed p m ≡ ok tt m
  unfolding assert_zeroed assert_that
  zeroed_step p xs m i h z =
      let fits = s.fits in
      let exists = (s.unused p i).0 in
      bind _ (page2kva-ok p m (omega (arith, h.size)) (omega (arith, h.size)))
        (ap (λ (b : Bool). if b then ok tt m else panicked) (all 4096))
    where
      all : (n : ℕ) → zero_bytes n p m ≡ true
      all n = zero_bytes-true n p m z
