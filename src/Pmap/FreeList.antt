-- ===== src/Pmap/FreeList.antt =====
-- The free list of kern/pmap.c as a list of page numbers.
use joslab4_init.Base.{
  ℕ, ◌<◌, ◌≡◌, true, false, Option, none, some, List, [], ◌∷◌, has, update, arith,
}
use joslab4_init.Machine.{Machine}

-- From `head` the links lead through exactly these pages to NULL.
abbrev pub IsChain : (ℕ → Option ℕ) → Option ℕ → List ℕ → Type 0
IsChain link head [] = head ≡ none
IsChain link head (x ∷ xs) = (head ≡ some x) × IsChain link (link x) xs

abbrev pub IsDistinct : List ℕ → Type 0
IsDistinct [] = Unit
IsDistinct (x ∷ xs) = (has x xs ≡ false) × IsDistinct xs

-- The free list holds the pages `xs`, once each; they exist and have no references.
pub record IsFreeList (m : Machine) (xs : List ℕ) : Type 0 where
  pub chain : IsChain m.pp_link m.page_free_list xs
  pub distinct : IsDistinct xs
  pub unused : (p : ℕ) → has p xs ≡ true → (p < m.npages) × (m.pp_ref p ≡ 0)

-- A change of a page's link leaves the chains that do not pass through the page.
pub IsChain-update :
    (link : ℕ → Option ℕ) (head : Option ℕ) (p : ℕ) (v : Option ℕ) (xs : List ℕ)
    → has p xs ≡ false
    → IsChain link head xs
    → IsChain (update link p v) head xs
IsChain-update link head p v [] out c = c
IsChain-update link head p v (x ∷ xs) out c =
    (c.0, ground (arith, IsChain-update link (link x) p v xs))
