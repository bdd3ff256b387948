-- ===== src/Pmap/Reach.antt =====
-- The page allocator over time: the calls that its clients make after `page_init`, in any order.
-- A client frees and counts only pages that it holds, which are not on the free list; what it
-- writes to memory is free.
use joslab4_init.Base.{
  ℕ, ◌^◌, ◌≤◌, ◌<◌, ◌≡◌, ◌⊎◌, inl, inr, false, Bool-cases, Option, none, List, [], ◌∷◌, has, update,
  arith, ◌==◌, update_self,
}
use joslab4_init.Machine.{Machine, Run, ok}
use joslab4_init.Pmap.{page_init, page_alloc, page_free, page_decref, ref_inc, ref_dec}
use joslab4_init.Pmap.FreeList.{IsFreeList}
use joslab4_init.Pmap.Alloc.{
  page_alloc-Popped, page_alloc-taken, taken, taken-Allocated, freed, freed-IsFreeList, counted,
  counted-IsFreeList, page_free-freed,
}
use joslab4_init.Pmap.Init.{Initialised, page_init-Initialised, npages-page_init}

-- Page `p` exists and is not on the free list.
abbrev pub IsHeld : ℕ → Machine → Type 0
IsHeld p m = (p < m.npages) × ((xs : List ℕ) → IsFreeList m xs → has p xs ≡ false)

-- A call that has returned, from one state to the next.
pub data Step : Machine → Machine → Type 0 where
  alloc : (flags : ℕ) (r : Option ℕ) (m m' : Machine) → page_alloc flags m ≡ ok r m' → Step m m'
  free : (p : ℕ) (m m' : Machine) → IsHeld p m → page_free p m ≡ ok tt m' → Step m m'
  refer : (p : ℕ) (m : Machine) → IsHeld p m → Step m (counted p (ref_inc (m.pp_ref p)) m)
  decref : (p : ℕ) (m m' : Machine) → IsHeld p m → page_decref p m ≡ ok tt m' → Step m m'
  touch : (mem : ℕ → ℕ → ℕ) (m : Machine) → Step m (record m { mem = mem })

pub data Reach : Machine → Machine → Type 0 where
  start : (m : Machine) → Reach m m
  next : (m m' m'' : Machine) → Reach m m' → Step m' m'' → Reach m m''

-- The free list holds the pages `xs`, once each, which exist and have no references, and a page that
-- is not on it has a null link.
pub record IsSound (m : Machine) (xs : List ℕ) : Type 0 where
  pub free : IsFreeList m xs
  pub null : (p : ℕ) → p < m.npages → has p xs ≡ false → m.pp_link p ≡ none
  pub fits : m.npages ≤ 2 ^ 20

abbrev pub SomeSound : Machine → Type 0
SomeSound m = (xs : List ℕ) × IsSound m xs

-- What a call leaves is what it was computed to leave.
same_machine :
    {A : Type 0} → {r : Run A} → {a b : A} → {m m' : Machine} → r ≡ ok a m → r ≡ ok b m' → m' ≡ m
same_machine e f = cc

taken-IsSound :
    (flags p : ℕ) (m : Machine) (xs : List ℕ) → IsSound m (p ∷ xs) → IsSound (taken flags p m) xs
taken-IsSound flags p m xs s = record {
  free = (taken-Allocated flags p m xs s.free).rest;
  null = λ q h out. ground (arith, s.null q, update_self m.pp_link p none);
  fits = s.fits;
}

alloc-SomeSound :
    (flags : ℕ) (r : Option ℕ) (m m' : Machine) (xs : List ℕ)
    → IsSound m xs
    → page_alloc flags m ≡ ok r m'
    → SomeSound m'
alloc-SomeSound flags r m m' [] s e =
    rw (same_machine (page_alloc-Popped flags m [] s.fits s.free) e) ([], s)
alloc-SomeSound flags r m m' (p ∷ xs) s e =
    rw
      (same_machine
        (page_alloc-taken flags p m s.free.chain.0 (s.free.unused p (ground arith)).0 s.fits) e)
      (xs, taken-IsSound flags p m xs s)

freed-IsSound :
    (p : ℕ) (m : Machine) (xs : List ℕ)
    → p < m.npages
    → has p xs ≡ false
    → m.pp_ref p ≡ 0
    → IsSound m xs
    → IsSound (freed p m) (p ∷ xs)
freed-IsSound p m xs h out zero s = record {
  free = freed-IsFreeList p m xs h zero out s.free;
  null = λ q lt off. ground (arith, s.null q);
  fits = s.fits;
}

counted-IsSound :
    (p n : ℕ) (m : Machine) (xs : List ℕ)
    → has p xs ≡ false
    → IsSound m xs
    → IsSound (counted p n m) xs
counted-IsSound p n m xs out s = record {
  free = counted-IsFreeList p n m xs out s.free;
  null = s.null;
  fits = s.fits;
}

-- `page_free` that returns has freed an unreferenced page.
page_free-ok :
    (p : ℕ) (m m' : Machine) → page_free p m ≡ ok tt m' → (m.pp_ref p ≡ 0) × (m' ≡ freed p m)
unfolding page_free
page_free-ok p m m' e = ground arith

page_decref-ok :
    (p : ℕ) (m m' : Machine)
    → page_decref p m ≡ ok tt m'
    → let n = counted p (ref_dec (m.pp_ref p)) m in (m' ≡ n) ⊎ ((n.pp_ref p ≡ 0) × (m' ≡ freed p n))
unfolding page_decref
page_decref-ok p m m' e = elim (Bool-cases (update m.pp_ref p (ref_dec (m.pp_ref p)) p == 0)) [
  | inl zero ↦ inr (page_free-ok p (counted p (ref_dec (m.pp_ref p)) m) m' (rw zero at e))
  | inr positive ↦ inl (cc (rw positive at e))
]

Step-SomeSound : (m m' : Machine) → Step m m' → SomeSound m → SomeSound m'
Step-SomeSound m m' (alloc flags r _ _ e) (xs, s) = alloc-SomeSound flags r m m' xs s e
Step-SomeSound m m' (free p _ _ held e) (xs, s) =
    let (zero, same) = page_free-ok p m m' e in
    rw same (p ∷ xs, freed-IsSound p m xs held.0 (held.1 xs s.free) zero s)
Step-SomeSound m m' (refer p _ held) (xs, s) =
    (xs, counted-IsSound p (ref_inc (m.pp_ref p)) m xs (held.1 xs s.free) s)
Step-SomeSound m m' (decref p _ _ held e) (xs, s) =
    let out = held.1 xs s.free in
    let c = counted-IsSound p (ref_dec (m.pp_ref p)) m xs out s in
    elim (page_decref-ok p m m' e) [
      | inl same ↦ rw same (xs, c)
      | inr (zero, same) ↦ rw same (p ∷ xs, freed-IsSound p _ xs held.0 out zero c)
    ]
Step-SomeSound m m' (touch mem _) (xs, s) = (
  xs,
  record {
    free = record { chain = s.free.chain; distinct = s.free.distinct; unused = s.free.unused };
    null = s.null;
    fits = s.fits;
  },
)

Reach-SomeSound : (m m' : Machine) → Reach m m' → SomeSound m → SomeSound m'
Reach-SomeSound m m' (start _) s = s
Reach-SomeSound m m' (next _ m'' _ r t) s = Step-SomeSound m'' m' t (Reach-SomeSound m m'' r s)

Initialised-IsSound :
    (bm ke : ℕ) (m m' : Machine) (xs : List ℕ)
    → m.npages ≤ 2 ^ 20
    → m'.npages ≡ m.npages
    → Initialised bm ke m m' xs
    → IsSound m' xs
Initialised-IsSound bm ke m m' xs fits same i = record {
  free = i.free;
  null = λ p h out. (i.reserved p (omega (arith, same)) (λ u. ground (arith, (i.freed p).1))).1;
  fits = omega (arith, same);
}

-- Whatever pages are allocated, counted, released and freed after `page_init`, in whatever order,
-- and whatever is written to memory: as long as only pages that are not on the free list are counted
-- and freed, that list holds existing, unreferenced pages, once each, and a page that is not on it
-- has a null link, which `page_free` asks for.
pub Reach-page_init :
    (end nextfree bm : ℕ) (m m' : Machine)
    → m.page_free_list ≡ none
    → m.npages ≤ 2 ^ 20
    → Reach (page_init end nextfree bm m) m'
    → (xs : List ℕ) × IsSound m' xs
Reach-page_init end nextfree bm m m' empty fits r =
    let (xs, i) = page_init-Initialised end nextfree bm m empty in
    Reach-SomeSound _ m' r
      (xs, Initialised-IsSound bm _ m _ xs fits (npages-page_init end nextfree bm m) i)

-- A page with a reference is not free.
pub IsHeld-referenced : (p : ℕ) (m : Machine) → p < m.npages → 0 < m.pp_ref p → IsHeld p m
IsHeld-referenced p m h pos = (h, λ xs l. ground (arith, l.unused p))

-- `page_free` accepts an unreferenced page that is not on a right free list.
pub page_free-IsSound :
    (p : ℕ) (m : Machine) (xs : List ℕ)
    → IsSound m xs
    → p < m.npages
    → has p xs ≡ false
    → m.pp_ref p ≡ 0
    → (page_free p m ≡ ok tt (freed p m)) × IsSound (freed p m) (p ∷ xs)
page_free-IsSound p m xs s h out zero =
    (page_free-freed p m (s.null p h out) zero, freed-IsSound p m xs h out zero s)
