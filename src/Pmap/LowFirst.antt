-- ===== src/Pmap/LowFirst.antt =====
-- The loop of `check_page_free_list` that moves the pages with low addresses to the front.
use joslab4_init.Base.{
  ℕ, zero, suc, ◌<◌, ◌≡◌, ◌≢◌, refl, sym, ap, ◌∙◌, true, false, Bool, Option, none, some, List, [],
  ◌∷◌, has, length, arith, if◌then◌else◌,
}
use joslab4_init.Machine.{Machine, ok}
use joslab4_init.Pmap.FreeList.{IsChain, IsDistinct, IsFreeList}
use joslab4_init.Pmap.Check.{
  list, Split, set_at, assign, pagetype, split_page, split_pages, join, joined, low_pages_first,
}
use joslab4_init.Pmap.Segments.{
  same, read, end_of, IsSegment, IsLists, kept_own, kept_other, read-assign, tp-assign,
  split_page-IsLists, IsChain-kept, flip,
}
use joslab4_init.Pmap.Select.{select, low_first, has-low_first, low_first-IsDistinct}

-- The pages of each type, the last one first, that the loop has when it has passed a list.
grouped : (limit : ℕ) → List ℕ → (Bool → List ℕ) → Bool → List ℕ
grouped limit [] g = g
grouped limit (x ∷ xs) g = let k = pagetype limit x in grouped limit xs (set_at k (x ∷ g k) g)

apart_from :
    (k : Bool) (x y : ℕ) (g : Bool → List ℕ)
    → ((j : Bool) → has y (g j) ≡ false)
    → y ≢ x
    → (j : Bool) → has y (set_at k (x ∷ g k) g j) ≡ false
apart_from true x y g out ne true = ground (arith, out true)
apart_from true x y g out ne false = out false
apart_from false x y g out ne true = out true
apart_from false x y g out ne false = ground (arith, out false)

split_page-IsChain :
    (k : Bool) (x : ℕ) (s : Split) (g : Bool → List ℕ) (head : Option ℕ) (xs : List ℕ)
    → IsLists s g
    → ((y : ℕ) → has y xs ≡ true → has y (g k) ≡ false)
    → IsChain s.pp_link head xs
    → IsChain (split_page k x s).pp_link head xs
split_page-IsChain k x s g head xs v out c =
    rw (v.tails k) (IsChain-kept s k (some x) head (g k) xs out c)

-- With fuel for one more round than there are pages the loop ends, and each list has its pages.
split_pages-IsLists :
    (fuel limit : ℕ) (cur : Option ℕ) (xs : List ℕ) (s : Split) (g : Bool → List ℕ)
    → length xs < fuel
    → IsChain s.pp_link cur xs
    → IsDistinct xs
    → ((x : ℕ) → has x xs ≡ true → (j : Bool) → has x (g j) ≡ false)
    → IsLists s g
    → (s' : Split) × (split_pages fuel limit cur s ≡ some s') × IsLists s' (grouped limit xs g)
unfolding split_pages grouped
split_pages-IsLists zero limit cur xs s g h c d out v = absurd (omega arith)
split_pages-IsLists (suc fuel) limit cur [] s g h c d out v = (s, rw c, v)
split_pages-IsLists (suc fuel) limit cur (x ∷ xs) s g h c d out v =
    let k = pagetype limit x in
    let own = out x (ground arith) in
    let kept = split_page-IsChain k x s g cur (x ∷ xs) v (λ y e. out y e k) c in
    rw c.0 (
      split_pages-IsLists fuel limit _ xs (split_page k x s) (set_at k (x ∷ g k) g) (omega arith)
        kept.1 d.1 (λ y e. apart_from k x y g (out y (ground arith)) (ground arith))
        (split_page-IsLists k x s g v own))

-- A list under construction read from its head, followed by `ys`.
reverse_onto : List ℕ → List ℕ → List ℕ
reverse_onto [] ys = ys
reverse_onto (x ∷ xs) ys = reverse_onto xs (x ∷ ys)

IsChain-segment :
    (s : Split) (k : Bool) (xs ys : List ℕ) (v : Option ℕ)
    → IsSegment s k xs
    → read (end_of k xs) s ≡ v
    → IsChain s.pp_link v ys
    → IsChain s.pp_link (s.pp k) (reverse_onto xs ys)
unfolding reverse_onto
IsChain-segment s k [] ys v g e c = rw e c
IsChain-segment s k (x ∷ xs) ys v g e c =
    IsChain-segment s k xs (x ∷ ys) (some x) g.1 g.0 (refl, rw e c)

read_across :
    (xs ys : List ℕ) (v : Option ℕ) (s : Split)
    → ((x : ℕ) → has x ys ≡ true → has x xs ≡ false)
    → read (end_of true ys) (assign (end_of false xs) v s) ≡ read (end_of true ys) s
read_across [] [] v s apart = refl
read_across [] (y ∷ ys) v s apart = refl
read_across (x ∷ xs) [] v s apart = refl
read_across (x ∷ xs) (y ∷ ys) v s apart = ground (arith, apart y)

pp_across :
    (xs : List ℕ) (v : Option ℕ) (s : Split) → (assign (end_of false xs) v s).pp true ≡ s.pp true
pp_across [] v s = refl
pp_across (x ∷ xs) v s = refl

-- Where the ends of the lists are written, the lists are joined.
IsChain-joined :
    (s : Split) (xs ys : List ℕ)
    → IsSegment s false xs
    → IsSegment s true ys
    → IsDistinct xs
    → IsDistinct ys
    → ((x : ℕ) → has x ys ≡ true → has x xs ≡ false)
    → let s1 = assign (end_of true ys) none s in
      let s2 = assign (end_of false xs) (s1.pp true) s1 in
      IsChain s2.pp_link (s2.pp false) (reverse_onto xs (reverse_onto ys []))
IsChain-joined s xs ys gx gy dx dy apart =
    let s1 = assign (end_of true ys) none s in
    let s2 = assign (end_of false xs) (s1.pp true) s1 in
    let gy1 = kept_own s true none ys dy gy in
    let gx1 = kept_other s false true none xs ys refl apart gx in
    let gy2 = kept_other s1 true false (s1.pp true) ys xs refl (λ x. flip x ys xs (apart x)) gy1 in
    let gx2 = kept_own s1 false (s1.pp true) xs dx gx1 in
    let c =
      IsChain-segment s2 true ys [] none gy2
        (read_across xs ys (s1.pp true) s1 apart ∙ read-assign (end_of true ys) none s) refl in
    IsChain-segment s2 false xs (reverse_onto ys []) (s2.pp true) gx2
      (read-assign (end_of false xs) (s1.pp true) s1 ∙ sym (pp_across xs (s1.pp true) s1)) c

reverse_set :
    (j k : Bool) (x : ℕ) (g : Bool → List ℕ) (zs : List ℕ)
    → reverse_onto (set_at j (x ∷ g j) g k) zs
      ≡ reverse_onto (g k) (if same j k then x ∷ zs else zs)
unfolding reverse_onto
reverse_set true true x g zs = refl
reverse_set true false x g zs = refl
reverse_set false true x g zs = refl
reverse_set false false x g zs = refl

reverse-grouped :
    (limit : ℕ) (k : Bool) (xs : List ℕ) (g : Bool → List ℕ) (ys : List ℕ)
    → reverse_onto (grouped limit xs g k) ys ≡ reverse_onto (g k) (select limit k xs ys)
unfolding grouped select
reverse-grouped limit k [] g ys = refl
reverse-grouped limit k (x ∷ xs) g ys =
    reverse-grouped limit k xs (set_at (pagetype limit x) (x ∷ g (pagetype limit x)) g) ys
    ∙ reverse_set (pagetype limit x) k x g (select limit k xs ys)

join-IsChain :
    (s : Split) (g : Bool → List ℕ)
    → IsLists s g
    → IsChain
        (join s).pp_link
        ((join s).pp false)
        (reverse_onto (g false) (reverse_onto (g true) []))
join-IsChain s g v =
    rw (v.tails true, tp-assign (end_of true (g true)) none s, v.tails false)
      (IsChain-joined s (g false) (g true) (v.segments false) (v.segments true) (v.apart false)
        (v.apart true) v.disjoint)

empty : Bool → List ℕ
empty k = []

-- The machine with the two lists joined.
relinked : Split → Machine → Machine
relinked s m = record m { pp_link = (join s).pp_link; page_free_list = (join s).pp false }

low_pages_first-relinked :
    (rubbish : Bool → Option ℕ) (fuel limit : ℕ) (m : Machine) (s : Split)
    → split_pages fuel limit m.page_free_list
        (record { pp = rubbish; tp = list; pp_link = m.pp_link })
      ≡ some s
    → low_pages_first rubbish fuel limit m ≡ ok tt (relinked s m)
unfolding low_pages_first joined relinked
low_pages_first-relinked rubbish fuel limit m s e = rw e

reversed-low_first :
    (limit : ℕ) (xs : List ℕ)
    → reverse_onto (grouped limit xs empty false) (reverse_onto (grouped limit xs empty true) [])
      ≡ low_first limit xs
unfolding reverse_onto low_first empty
reversed-low_first limit xs =
    reverse-grouped limit false xs empty (reverse_onto (grouped limit xs empty true) [])
    ∙ ap (λ (ys : List ℕ). select limit false xs ys) (reverse-grouped limit true xs empty [])

-- With fuel for one more round than there are free pages, the loop of `check_page_free_list` ends,
-- whatever `pp1` and `pp2` held, and reorders the free list stably: first the pages below the limit
-- in the order they had, then the others in theirs. The list stays right: it holds the same pages,
-- once each, and the counts and the memory are as they were.
pub low_pages_first-low_first :
    (rubbish : Bool → Option ℕ) (fuel limit : ℕ) (m : Machine) (xs : List ℕ)
    → length xs < fuel
    → IsFreeList m xs
    → (m' : Machine) × (low_pages_first rubbish fuel limit m ≡ ok tt m')
      × IsFreeList m' (low_first limit xs)
      × ((p : ℕ) → has p (low_first limit xs) ≡ has p xs)
      × (m'.pp_ref ≡ m.pp_ref)
      × (m'.mem ≡ m.mem)
      × (m'.npages ≡ m.npages)
unfolding relinked low_first empty
low_pages_first-low_first rubbish fuel limit m xs h l =
    let s0 : Split = record { pp = rubbish; tp = list; pp_link = m.pp_link } in
    let (s, run, v) =
      split_pages-IsLists fuel limit m.page_free_list xs s0 empty h l.chain l.distinct
        (λ x e j. refl)
        (record {
          tails = λ k. refl;
          segments = λ k. tt;
          apart = λ k. tt;
          disjoint = λ x e. refl;
        }) in
    (
      relinked s m,
      low_pages_first-relinked rubbish fuel limit m s run,
      record {
        chain = rw (sym (reversed-low_first limit xs)) (join-IsChain s (grouped limit xs empty) v);
        distinct = low_first-IsDistinct limit xs l.distinct;
        unused = λ p e. l.unused p (sym (has-low_first limit p xs) ∙ e);
      },
      λ p. has-low_first limit p xs,
      refl,
      refl,
      refl,
    )
