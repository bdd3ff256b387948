-- ===== src/Pmap/Select.antt =====
-- The pages of a list by their type, in the list's order.
use joslab4_init.Base.{
  ℕ, ◌≡◌, refl, ap, ◌+◌, ◌∙◌, true, false, Bool, ◌&&◌, ◌||◌, Bool-cases, inl, inr, List, [], ◌∷◌,
  has, length, arith, if◌then◌else◌,
}
use joslab4_init.Pmap.FreeList.{IsDistinct}
use joslab4_init.Pmap.Check.{pagetype}
use joslab4_init.Pmap.Segments.{same}

-- The pages of a list that have type `k`, in its order, followed by `ys`.
unfoldable pub select : (limit : ℕ) (k : Bool) (xs ys : List ℕ) → List ℕ
select limit k [] ys = ys
select limit k (x ∷ xs) ys =
    if same (pagetype limit x) k then x ∷ select limit k xs ys else select limit k xs ys

pub has-select :
    (limit : ℕ) (k : Bool) (y : ℕ) (xs ys : List ℕ)
    → has y (select limit k xs ys) ≡ ((has y xs && same (pagetype limit y) k) || has y ys)
unfolding select
has-select limit k y [] ys = refl
has-select limit k y (x ∷ xs) ys =
    ground (arith, has-select limit k y xs ys, ap (λ (z : ℕ). same (pagetype limit z) k))

pub select-IsDistinct :
    (limit : ℕ) (k : Bool) (xs ys : List ℕ)
    → IsDistinct xs
    → IsDistinct ys
    → ((y : ℕ) → has y xs ≡ true → same (pagetype limit y) k ≡ true → has y ys ≡ false)
    → IsDistinct (select limit k xs ys)
unfolding select
select-IsDistinct limit k [] ys d e out = e
select-IsDistinct limit k (x ∷ xs) ys d e out =
    let rest = select-IsDistinct limit k xs ys d.1 e (λ y h. out y (ground arith)) in
    ground (arith, has-select limit k x xs ys, out x)

-- The pages below the limit in their order, then the others in theirs.
unfoldable pub low_first : ℕ → List ℕ → List ℕ
low_first limit xs = select limit false xs (select limit true xs [])

pub has-low_first : (limit y : ℕ) (xs : List ℕ) → has y (low_first limit xs) ≡ has y xs
unfolding low_first
has-low_first limit y xs =
    split (pagetype limit y) (has-select limit false y xs (select limit true xs []))
      (has-select limit true y xs [])
  where
    split :
        (b : Bool)
        → {p q r : Bool} → p ≡ ((r && same b false) || q)
        → q ≡ ((r && same b true) || false)
        → p ≡ r
    split true e f = ground arith
    split false e f = ground arith

pub length-select :
    (limit : ℕ) (k : Bool) (xs ys : List ℕ)
    → length (select limit k xs ys) ≡ length (select limit k xs []) + length ys
unfolding select
length-select limit k [] ys = omega arith
length-select limit k (x ∷ xs) ys = ground (arith, length-select limit k xs ys)

pub length-select_both :
    (limit : ℕ) (xs : List ℕ)
    → length (select limit false xs []) + length (select limit true xs []) ≡ length xs
unfolding select
length-select_both limit [] = refl
length-select_both limit (x ∷ xs) = elim (Bool-cases (pagetype limit x)) [
  | inl high ↦ rw high (omega (arith, length-select_both limit xs))
  | inr low ↦ rw low (omega (arith, length-select_both limit xs))
]

pub length-low_first : (limit : ℕ) (xs : List ℕ) → length (low_first limit xs) ≡ length xs
unfolding low_first
length-low_first limit xs =
    length-select limit false xs (select limit true xs []) ∙ length-select_both limit xs

pub low_first-IsDistinct :
    (limit : ℕ) (xs : List ℕ) → IsDistinct xs → IsDistinct (low_first limit xs)
unfolding low_first
low_first-IsDistinct limit xs d =
    select-IsDistinct limit false xs _ d (select-IsDistinct limit true xs [] d tt (λ y h k. refl))
      (λ y h k. has-select limit true y xs [] ∙ ground arith)
