-- ===== src/Pmap/Alloc.antt =====
-- `page_alloc`, `page_free` and `page_decref` on the list of free pages.
use joslab4_init.Base.{
  ℕ, suc, ◌+◌, ◌-◌, ◌%◌, ◌^◌, ◌≤◌, ◌<◌, ◌≡◌, refl, false, Option, none, some, List, [], ◌∷◌, has,
  update, arith, ◌==◌, ◌&&◌, eq→==, ne→==, update_self, if◌then◌else◌,
}
use native.Mathlib.Decide.{ℕ_discrete}
use joslab4_init.Machine.{Machine, Run, ok, page2pa, kaddr, page2kva}
use joslab4_init.Mmu.{pgnum}
use joslab4_init.Pmap.{clear_page, unlink, page_alloc, page_free, page_decref}
use joslab4_init.Pmap.FreeList.{IsFreeList, IsChain-update}

pub page2pa-frame : (p : ℕ) → p < 2 ^ 20 → pgnum (page2pa p) ≡ p
unfolding page2pa pgnum
page2pa-frame p h = omega arith

pub page2kva-ok : (p : ℕ) (m : Machine) → p < m.npages → m.npages ≤ 2 ^ 20 → page2kva p m ≡ ok p m
unfolding page2kva kaddr
page2kva-ok p m h fits = ground (arith, page2pa-frame p)

pub clear_page-ok :
    (p : ℕ) (m : Machine)
    → p < m.npages
    → m.npages ≤ 2 ^ 20
    → clear_page p m ≡ ok tt (record m { mem = update m.mem p (λ _. 0) })
unfolding clear_page
clear_page-ok p m h fits = ground (arith, page2kva-ok p m h fits)

-- The machine after `page_alloc` has taken page `p`.
abbrev pub taken : ℕ → ℕ → Machine → Machine
taken flags p m = record (unlink p m) {
  mem = if flags % 2 == 1 then update m.mem p (λ _. 0) else m.mem;
}

pub page_alloc-taken :
    (flags p : ℕ) (m : Machine)
    → m.page_free_list ≡ some p
    → p < m.npages
    → m.npages ≤ 2 ^ 20
    → page_alloc flags m ≡ ok (some p) (taken flags p m)
unfolding page_alloc
page_alloc-taken flags p m e h fits = ground (arith, clear_page-ok p (unlink p m) h fits)

unlink-IsFreeList :
    (p : ℕ) (m : Machine) (xs : List ℕ) → IsFreeList m (p ∷ xs) → IsFreeList (unlink p m) xs
unlink-IsFreeList p m xs l = record {
  chain =
      IsChain-update m.pp_link (m.pp_link p) p none xs (ground (arith, l.distinct))
        (ground (arith, l.chain));
  distinct = l.distinct.1;
  unused = λ q h. ground (arith, l.unused q);
}

-- What the caller of `page_alloc` gets with page `p` when the free list was `p ∷ xs`.
pub record Allocated (flags p : ℕ) (xs : List ℕ) (m m' : Machine) : Type 0 where
  pub rest : IsFreeList m' xs
  pub unlinked : m'.pp_link p ≡ none
  pub unreferenced : m'.pp_ref p ≡ 0
  pub memory : (f i : ℕ) → m'.mem f i ≡ (if (f == p) && (flags % 2 == 1) then 0 else m.mem f i)
  pub refs : (q : ℕ) → m'.pp_ref q ≡ m.pp_ref q

pub taken-Allocated :
    (flags p : ℕ) (m : Machine) (xs : List ℕ)
    → IsFreeList m (p ∷ xs)
    → Allocated flags p xs m (taken flags p m)
taken-Allocated flags p m xs l =
    let rest = unlink-IsFreeList p m xs l in
    let own = l.unused p (ground arith) in
    record {
      rest = record { chain = rest.chain; distinct = rest.distinct; unused = rest.unused };
      unlinked = update_self m.pp_link p none;
      unreferenced = own.1;
      memory = λ f i. ground arith;
      refs = λ q. refl;
    }

-- What `page_alloc` does when the free list is `xs`.
abbrev pub Popped : ℕ → List ℕ → Machine → Run (Option ℕ) → Type 0
Popped flags [] m r = r ≡ ok none m
Popped flags (p ∷ xs) m r = (m' : Machine) × (r ≡ ok (some p) m') × Allocated flags p xs m m'

-- `page_alloc` pops the free list: with no page it returns NULL and changes nothing; with `p` in
-- front it returns `p`, unlinked, unreferenced and zeroed if ALLOC_ZERO is set, the other pages
-- and all reference counts as they were, and what is left is the free list.
pub page_alloc-Popped :
    (flags : ℕ) (m : Machine) (xs : List ℕ)
    → m.npages ≤ 2 ^ 20
    → IsFreeList m xs
    → Popped flags xs m (page_alloc flags m)
unfolding page_alloc
page_alloc-Popped flags m [] fits l = ground (arith, l.chain)
page_alloc-Popped flags m (p ∷ xs) fits l = (
  taken flags p m,
  page_alloc-taken flags p m l.chain.0 (l.unused p (ground arith)).0 fits,
  taken-Allocated flags p m xs l,
)

-- The machine after `page_free` has put page `p` in front.
abbrev pub freed : ℕ → Machine → Machine
freed p m = record m { pp_link = update m.pp_link p m.page_free_list; page_free_list = some p }

pub freed-IsFreeList :
    (p : ℕ) (m : Machine) (xs : List ℕ)
    → p < m.npages
    → m.pp_ref p ≡ 0
    → has p xs ≡ false
    → IsFreeList m xs
    → IsFreeList (freed p m) (p ∷ xs)
freed-IsFreeList p m xs h zero out l = record {
  chain = (
    refl,
    rw (update_self m.pp_link p m.page_free_list)
        (IsChain-update m.pp_link m.page_free_list p m.page_free_list xs out l.chain),
  );
  distinct = (out, l.distinct);
  unused = λ q i. ground (arith, l.unused q);
}

pub page_free-freed :
    (p : ℕ) (m : Machine) → m.pp_link p ≡ none → m.pp_ref p ≡ 0 → page_free p m ≡ ok tt (freed p m)
unfolding page_free
page_free-freed p m e zero = ground arith

-- `page_free` of a page that exists, is not on the free list and has a null link and no references
-- succeeds, changes only the page's link and the head of the list, and puts the page in front.
pub page_free_lem :
    (p : ℕ) (m : Machine) (xs : List ℕ)
    → p < m.npages
    → has p xs ≡ false
    → IsFreeList m xs
    → m.pp_link p ≡ none
    → m.pp_ref p ≡ 0
    → (page_free p m ≡ ok tt (freed p m)) × IsFreeList (freed p m) (p ∷ xs)
page_free_lem p m xs h out l e zero =
    (page_free-freed p m e zero, freed-IsFreeList p m xs h zero out l)

-- The count of page `p` changed to `n`.
abbrev pub counted : ℕ → ℕ → Machine → Machine
counted p n m = record m { pp_ref = update m.pp_ref p n }

pub counted-IsFreeList :
    (p n : ℕ) (m : Machine) (xs : List ℕ)
    → has p xs ≡ false
    → IsFreeList m xs
    → IsFreeList (counted p n m) xs
counted-IsFreeList p n m xs out l = record {
  chain = l.chain;
  distinct = l.distinct;
  unused = λ q i. ground (arith, l.unused q);
}

pub page_decref-counted :
    (p r : ℕ) (m : Machine)
    → m.pp_ref p ≡ suc (suc r)
    → suc (suc r) < 2 ^ 16
    → page_decref p m ≡ ok tt (counted p (suc r) m)
unfolding page_decref
page_decref-counted p r m e h = ground arith

pub page_decref-freed :
    (p : ℕ) (m : Machine)
    → m.pp_ref p ≡ 1
    → m.pp_link p ≡ none
    → page_decref p m ≡ ok tt (freed p (counted p 0 m))
unfolding page_decref
page_decref-freed p m e null = ground (arith, page_free-freed p (counted p 0 m))

-- `page_decref` takes one reference from an allocated page, and memory stays as it is: the last one
-- frees the page, and any other leaves the free list as it is.
pub page_decref_lem :
    (p : ℕ) (m : Machine) (xs : List ℕ)
    → p < m.npages
    → has p xs ≡ false
    → m.pp_link p ≡ none
    → 0 < m.pp_ref p
    → m.pp_ref p < 2 ^ 16
    → IsFreeList m xs
    → (m' : Machine) × (page_decref p m ≡ ok tt m')
      × (m'.pp_ref p + 1 ≡ m.pp_ref p)
      × IsFreeList m' (if m.pp_ref p == 1 then p ∷ xs else xs)
      × (m'.mem ≡ m.mem)
page_decref_lem p m xs h out null pos fits l = elim (ℕ_discrete (m.pp_ref p) 1) [
  | yes one ↦ (
    freed p (counted p 0 m),
    page_decref-freed p m one null,
    omega (arith, update_self m.pp_ref p 0),
    rw (eq→== (m.pp_ref p) 1 one) (
        freed-IsFreeList p (counted p 0 m) xs h (update_self m.pp_ref p 0) out
          (counted-IsFreeList p 0 m xs out l)),
    refl,
  )
  | no more ↦ (
    counted p (suc (m.pp_ref p - 2)) m,
    page_decref-counted p (m.pp_ref p - 2) m (omega arith) (omega arith),
    omega (arith, update_self m.pp_ref p (suc (m.pp_ref p - 2))),
    rw (ne→== (m.pp_ref p) 1 more) (counted-IsFreeList p (suc (m.pp_ref p - 2)) m xs out l),
    refl,
  )
]
