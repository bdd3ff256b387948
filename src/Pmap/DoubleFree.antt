-- ===== src/Pmap/DoubleFree.antt =====
-- A second `page_free` of a page that is free already.
use joslab4_init.Base.{
  ℕ, ◌≡◌, true, false, Option, none, some, List, [], ◌∷◌, ◌++◌, has, update, arith, update_self,
}
use joslab4_init.Machine.{Machine, ok, panicked}
use joslab4_init.Pmap.{page_free}
use joslab4_init.Pmap.FreeList.{IsChain, IsFreeList}
use joslab4_init.Pmap.Alloc.{freed, page_free-freed}

-- From the front of the list the links lead back to `p`.
reaches :
    (link : ℕ → Option ℕ) (head v : Option ℕ) (p : ℕ) (ys xs : List ℕ)
    → has p ys ≡ false
    → IsChain link head (ys ++ p ∷ [])
    → IsChain (update link p v) head xs
    → has p xs ≡ true
reaches link head v p [] [] out c c' = cc
reaches link head v p [] (x ∷ xs) out c c' = ground arith
reaches link head v p (y ∷ ys) [] out c c' = cc
reaches link head v p (y ∷ ys) (x ∷ xs) out c c' = ground (arith, reaches link (link y) v p ys xs)

last_is_null :
    (link : ℕ → Option ℕ) (head : Option ℕ) (p : ℕ) (ys : List ℕ)
    → IsChain link head (ys ++ p ∷ [])
    → link p ≡ none
last_is_null link head p [] c = c.1
last_is_null link head p (y ∷ ys) c = last_is_null link (link y) p ys c.1

inner_is_linked :
    (link : ℕ → Option ℕ) (head : Option ℕ) (p z : ℕ) (ys zs : List ℕ)
    → IsChain link head (ys ++ p ∷ z ∷ zs)
    → link p ≡ some z
inner_is_linked link head p z [] zs c = c.1.0
inner_is_linked link head p z (y ∷ ys) zs c = inner_is_linked link (link y) p z ys zs c.1

has-middle : (p : ℕ) (ys zs : List ℕ) → has p (ys ++ p ∷ zs) ≡ true
has-middle p [] zs = ground arith
has-middle p (y ∷ ys) zs = ground (arith, has-middle p ys zs)

no_list_of_circle :
    (p : ℕ) (m : Machine) (ys : List ℕ)
    → has p ys ≡ false
    → IsFreeList m (ys ++ p ∷ [])
    → (xs : List ℕ) → ¬ IsFreeList (freed p m) xs
no_list_of_circle p m ys out l [] l' = cc (l'.chain)
no_list_of_circle p m ys out l (x ∷ xs) l' = ground (
  arith,
  l'.chain,
  l'.distinct,
  update_self m.pp_link p m.page_free_list,
  reaches m.pp_link m.page_free_list m.page_free_list p ys xs out l.chain,
)

-- A second `page_free` of a page on the free list panics if the page has a successor there.
pub double_free_of_inner :
    (p z : ℕ) (ys zs : List ℕ) (m : Machine)
    → IsFreeList m (ys ++ p ∷ z ∷ zs)
    → page_free p m ≡ panicked
unfolding page_free
double_free_of_inner p z ys zs m l =
    ground (arith, inner_is_linked m.pp_link m.page_free_list p z ys zs l.chain)

-- A second `page_free` of the last page of the free list is not detected, since its link is null as
-- that of an allocated page is: the call returns, and the links then run in a circle, so that no list
-- of pages is the free list any more.
pub double_free_of_last :
    (p : ℕ) (ys : List ℕ) (m : Machine)
    → has p ys ≡ false
    → IsFreeList m (ys ++ p ∷ [])
    → (m' : Machine) × (page_free p m ≡ ok tt m') × ((xs : List ℕ) → ¬ IsFreeList m' xs)
double_free_of_last p ys m out l = (
  freed p m,
  page_free-freed p m (last_is_null m.pp_link m.page_free_list p ys l.chain)
      (l.unused p (has-middle p ys [])).1,
  no_list_of_circle p m ys out l,
)
