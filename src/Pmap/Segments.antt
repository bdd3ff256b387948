-- ===== src/Pmap/Segments.antt =====
-- The two lists that `check_page_free_list` builds, by the addresses of their ends.
use joslab4_init.Base.{
  ℕ, ◌≡◌, refl, true, false, not, Bool, Option, some, List, [], ◌∷◌, has, arith, update_self,
}
use joslab4_init.Pmap.FreeList.{IsChain, IsDistinct, IsChain-update}
use joslab4_init.Pmap.Check.{Place, list, link_of, Split, set_at, assign, split_page}

-- Whether two page types are the same.
abbrev pub same : Bool → Bool → Bool
same true b = b
same false b = not b

abbrev pub read : Place → Split → Option ℕ
read (list k) s = s.pp k
read (link_of p) s = s.pp_link p

-- A list under construction, its last page first: where its end is.
abbrev pub end_of : Bool → List ℕ → Place
end_of k [] = list k
end_of k (x ∷ xs) = link_of x

-- The list of type `k` passes through the pages `xs`, the last one first.
abbrev pub IsSegment : Split → Bool → List ℕ → Type 0
IsSegment s k [] = Unit
IsSegment s k (x ∷ xs) = (read (end_of k xs) s ≡ some x) × IsSegment s k xs

abbrev tail_of : List ℕ → List ℕ
tail_of [] = []
tail_of (x ∷ xs) = xs

-- A page's link that no page but the last one of a list has is written without harm to the list.
IsSegment-link :
    (s : Split) (k : Bool) (y : ℕ) (v : Option ℕ) (xs : List ℕ)
    → has y (tail_of xs) ≡ false
    → IsSegment s k xs
    → IsSegment (assign (link_of y) v s) k xs
IsSegment-link s k y v [] out g = tt
IsSegment-link s k y v (x ∷ []) out g = g
IsSegment-link s k y v (x ∷ x' ∷ xs) out g =
    (ground arith, IsSegment-link s k y v (x' ∷ xs) (ground arith) g.1)

-- A list is not changed where the head of the other one is written, or its own before it has a page.
IsSegment-list :
    (s : Split) (k j : Bool) (v : Option ℕ) (xs : List ℕ)
    → same j k ≡ false
    → IsSegment s k xs
    → IsSegment (assign (list j) v s) k xs
IsSegment-list s k j v [] ne g = tt
IsSegment-list s true true v (x ∷ xs) ne g = absurd (cc ne)
IsSegment-list s false false v (x ∷ xs) ne g = absurd (cc ne)
IsSegment-list s true false v (x ∷ []) ne g = g
IsSegment-list s false true v (x ∷ []) ne g = g
IsSegment-list s true false v (x ∷ x' ∷ xs) ne g =
    (g.0, IsSegment-list s true false v (x' ∷ xs) ne g.1)
IsSegment-list s false true v (x ∷ x' ∷ xs) ne g =
    (g.0, IsSegment-list s false true v (x' ∷ xs) ne g.1)

-- The lists of both types.
pub record IsLists (s : Split) (g : Bool → List ℕ) : Type 0 where
  pub tails : (k : Bool) → s.tp k ≡ end_of k (g k)
  pub segments : (k : Bool) → IsSegment s k (g k)
  pub apart : (k : Bool) → IsDistinct (g k)
  pub disjoint : (x : ℕ) → has x (g true) ≡ true → has x (g false) ≡ false

IsSegment-tails :
    (s : Split) (t : Bool → Place) (k : Bool) (xs : List ℕ)
    → IsSegment s k xs
    → IsSegment (record s { tp = t }) k xs
IsSegment-tails s t k [] g = tt
IsSegment-tails s t k (x ∷ []) g = g
IsSegment-tails s t k (x ∷ x' ∷ xs) g = (g.0, IsSegment-tails s t k (x' ∷ xs) g.1)

-- The end of a list is written without harm to that list and to the other.
pub kept_own :
    (s : Split) (k : Bool) (v : Option ℕ) (xs : List ℕ)
    → IsDistinct xs
    → IsSegment s k xs
    → IsSegment (assign (end_of k xs) v s) k xs
kept_own s k v [] d g = tt
kept_own s k v (x ∷ xs) d g = IsSegment-link s k x v (x ∷ xs) d.0 g

has-tail_of : (y : ℕ) (xs : List ℕ) → has y xs ≡ false → has y (tail_of xs) ≡ false
has-tail_of y [] out = out
has-tail_of y (x ∷ xs) out = ground arith

pub kept_other :
    (s : Split) (k j : Bool) (v : Option ℕ) (xs ys : List ℕ)
    → same j k ≡ false
    → ((x : ℕ) → has x ys ≡ true → has x xs ≡ false)
    → IsSegment s k xs
    → IsSegment (assign (end_of j ys) v s) k xs
kept_other s k j v xs [] ne out g = IsSegment-list s k j v xs ne g
kept_other s k j v xs (y ∷ ys) ne out g =
    IsSegment-link s k y v xs (has-tail_of y xs (out y (ground arith))) g

pub read-assign : (a : Place) (v : Option ℕ) (s : Split) → read a (assign a v s) ≡ v
read-assign (list true) v s = refl
read-assign (list false) v s = refl
read-assign (link_of p) v s = update_self s.pp_link p v

pub tp-assign : (a : Place) (v : Option ℕ) (s : Split) → (assign a v s).tp ≡ s.tp
tp-assign (list k) v s = refl
tp-assign (link_of p) v s = refl

pub flip :
    (x : ℕ) (xs ys : List ℕ)
    → (has x xs ≡ true → has x ys ≡ false)
    → has x ys ≡ true
    → has x xs ≡ false
flip x xs ys f e = ground arith

tails_after :
    (k i : Bool) (x : ℕ) (s : Split) (g : Bool → List ℕ)
    → ((j : Bool) → s.tp j ≡ end_of j (g j))
    → (split_page k x s).tp i ≡ end_of i (set_at k (x ∷ g k) g i)
tails_after true true x s g e = refl
tails_after true false x s g e = e false
tails_after false true x s g e = e true
tails_after false false x s g e = refl

segments_after :
    (k i : Bool) (x : ℕ) (s : Split) (g : Bool → List ℕ)
    → IsLists s g
    → IsSegment (split_page k x s) i (set_at k (x ∷ g k) g i)
segments_after k i x s g v = rw (v.tails k) (
    IsSegment-tails (assign (end_of k (g k)) (some x) s) (set_at k (link_of x) s.tp) i _
      (inner k i))
  where
    inner : (k i : Bool) → IsSegment (assign (end_of k (g k)) (some x) s) i (set_at k (x ∷ g k) g i)
    inner true true = (
      read-assign (end_of true (g true)) (some x) s,
      kept_own s true (some x) (g true) (v.apart true) (v.segments true),
    )
    inner true false =
        kept_other s false true (some x) (g false) (g true) refl v.disjoint (v.segments false)
    inner false true =
        kept_other s true false (some x) (g true) (g false) refl
          (λ y. flip y (g true) (g false) (v.disjoint y)) (v.segments true)
    inner false false = (
      read-assign (end_of false (g false)) (some x) s,
      kept_own s false (some x) (g false) (v.apart false) (v.segments false),
    )

apart_after :
    (k i : Bool) (x : ℕ) (g : Bool → List ℕ)
    → ((j : Bool) → IsDistinct (g j))
    → has x (g k) ≡ false
    → IsDistinct (set_at k (x ∷ g k) g i)
apart_after true true x g d out = (out, d true)
apart_after true false x g d out = d false
apart_after false true x g d out = d true
apart_after false false x g d out = (out, d false)

disjoint_after :
    (k : Bool) (x y : ℕ) (g : Bool → List ℕ)
    → (has y (g true) ≡ true → has y (g false) ≡ false)
    → ((j : Bool) → has x (g j) ≡ false)
    → has y (set_at k (x ∷ g k) g true) ≡ true
    → has y (set_at k (x ∷ g k) g false) ≡ false
disjoint_after true x y g d out e = ground (arith, out false)
disjoint_after false x y g d out e = ground (arith, out true)

pub split_page-IsLists :
    (k : Bool) (x : ℕ) (s : Split) (g : Bool → List ℕ)
    → IsLists s g
    → ((j : Bool) → has x (g j) ≡ false)
    → IsLists (split_page k x s) (set_at k (x ∷ g k) g)
split_page-IsLists k x s g v out = record {
  tails = λ i. tails_after k i x s g v.tails;
  segments = λ i. segments_after k i x s g v;
  apart = λ i. apart_after k i x g v.apart (out k);
  disjoint = λ y. disjoint_after k x y g (v.disjoint y) out;
}

-- A chain through other pages than a list's is not changed where the end of the list is written.
pub IsChain-kept :
    (s : Split) (k : Bool) (v head : Option ℕ) (ys xs : List ℕ)
    → ((x : ℕ) → has x xs ≡ true → has x ys ≡ false)
    → IsChain s.pp_link head xs
    → IsChain (assign (end_of k ys) v s).pp_link head xs
IsChain-kept s k v head [] xs out c = c
IsChain-kept s k v head (y ∷ ys) xs out c = IsChain-update s.pp_link head y v xs (flip' (out y)) c
  where
    flip' : (has y xs ≡ true → has y (y ∷ ys) ≡ false) → has y xs ≡ false
    flip' f = ground arith
