-- ===== src/Pmap/Steal.antt =====
-- `check_page_alloc` passes.
use joslab4_init.Base.{
  ℕ, zero, suc, ◌+◌, ◌-◌, ◌^◌, ◌<◌, ◌≡◌, refl, ap, ◌∙◌, true, Bool, Option, none, List, [], ◌∷◌,
  has, length, u32, arith, ◌==◌, ◌!=◌, ◌&&◌, lt→ltb,
}
use joslab4_init.Machine.{Machine, ok, and_then, ◌>>=◌, ◌>>◌, page2pa}
use joslab4_init.Pmap.{alloc_zero}
use joslab4_init.Pmap.FreeList.{IsChain, IsDistinct, IsFreeList}
use joslab4_init.Pmap.CheckAlloc.{
  assert_that, assert_alloc, count_up, count_down, assert_distinct, in_memory, set_free_list,
  free_three, check_zero_flag, check_stolen, give_back, check_page_alloc,
}
use joslab4_init.Pmap.Holding.{
  bind, after, Holding, Spare, alloc_step, free_step, no_page_step, fill_step, zeroed_step,
}

count_up-length :
    (fuel : ℕ) (head : Option ℕ) (xs : List ℕ) (n : ℕ) (m : Machine)
    → length xs < fuel
    → n < 2 ^ 32
    → IsChain m.pp_link head xs
    → count_up fuel head n m ≡ ok (u32 (n + length xs)) m
unfolding count_up
count_up-length zero head xs n m h small c = absurd (omega arith)
count_up-length (suc fuel) head [] n m h small c = rw c (ap (λ (k : ℕ). ok k m) (omega arith))
count_up-length (suc fuel) head (x ∷ xs) n m h small c = rw c.0 (
    count_up-length fuel (m.pp_link x) xs (u32 (n + 1)) m (omega arith) (omega arith) c.1
    ∙ ap (λ (k : ℕ). ok k m) (omega arith))

count_down-length :
    (fuel : ℕ) (head : Option ℕ) (xs : List ℕ) (n k : ℕ) (m : Machine)
    → length xs < fuel
    → n < 2 ^ 32
    → k ≡ u32 (n + length xs)
    → IsChain m.pp_link head xs
    → count_down fuel head k m ≡ ok n m
unfolding count_down
count_down-length zero head xs n k m h small e c = absurd (omega arith)
count_down-length (suc fuel) head [] n k m h small e c = rw c (ap (λ (j : ℕ). ok j m) (omega arith))
count_down-length (suc fuel) head (x ∷ xs) n k m h small e c = rw c.0 (
    count_down-length fuel (m.pp_link x) xs n (u32 (k + 2 ^ 32 - 1)) m (omega arith) small
      (omega arith) c.1)

assert_that-true : (b : Bool) (m : Machine) → b ≡ true → assert_that b m ≡ ok tt m
unfolding assert_that
assert_that-true b m e = rw e refl

module _ (a b c : ℕ) (rest : List ℕ) (fl : Option ℕ) (m0 : Machine)
    (d : IsDistinct (a ∷ b ∷ c ∷ rest)) (s : Spare (a ∷ b ∷ c ∷ []) rest m0) where
  abbrev IsHolding : Machine → List ℕ → Type 0
  IsHolding = Holding (a ∷ b ∷ c ∷ []) rest fl m0

  free_three-Holding :
      (p q r : ℕ) (xs : List ℕ) (m : Machine)
      → has p (a ∷ b ∷ c ∷ []) ≡ true
      → has q (a ∷ b ∷ c ∷ []) ≡ true
      → has r (a ∷ b ∷ c ∷ []) ≡ true
      → IsDistinct (r ∷ q ∷ p ∷ xs)
      → IsHolding m xs
      → (m' : Machine) × (free_three p q r m ≡ ok tt m') × IsHolding m' (r ∷ q ∷ p ∷ xs)
  unfolding free_three
  free_three-Holding p q r xs m ip iq ir dist h =
      let (m1, e1, h1) = free_step _ rest fl m0 s p xs m ip dist.1.1.0 h in
      let (m2, e2, h2) = free_step _ rest fl m0 s q (p ∷ xs) m1 iq dist.1.0 h1 in
      let (m3, e3, h3) = free_step _ rest fl m0 s r (q ∷ p ∷ xs) m2 ir dist.0 h2 in
      (m3, bind _ (bind _ e1 e2) e3, h3)

  zero_flag-Holding :
      (p : ℕ) (m : Machine)
      → has p (a ∷ b ∷ c ∷ []) ≡ true
      → IsHolding m []
      → (m' : Machine) × (check_zero_flag p m ≡ ok tt m') × IsHolding m' []
  unfolding check_zero_flag
  zero_flag-Holding p m i h =
      let (m1, e1, h1) = free_step _ rest fl m0 s p [] m i refl h in
      let (m2, e2, h2, z) = alloc_step _ rest fl m0 s alloc_zero p [] m1 i h1 in
      (
        m2,
        bind _ e1 (
            bind _ e2 (
              bind _ (assert_that-true (p == p) m2 (ground arith))
                (zeroed_step _ rest fl m0 s p [] m2 i h2 (λ j. z j refl)))),
        h2,
      )

  plain_step :
      (p : ℕ) (xs : List ℕ) (m : Machine)
      → has p (a ∷ b ∷ c ∷ []) ≡ true
      → IsHolding m (p ∷ xs)
      → (m' : Machine) × (assert_alloc 0 m ≡ ok p m') × IsHolding m' xs
  plain_step p xs m i h = let (m', e, h', _) = alloc_step _ rest fl m0 s 0 p xs m i h in (m', e, h')

  distinct_test : ((b != c) && ((a != b) && (a != c))) ≡ true
  distinct_test = ground (arith, d)

  stolen-Holding :
      (m : Machine)
      → IsHolding m []
      → (m' : Machine) × (check_stolen a b c m ≡ ok (c, b, a) m') × IsHolding m' []
  unfolding check_stolen assert_distinct
  stolen-Holding m h =
      let ia : has a (a ∷ b ∷ c ∷ []) ≡ true = ground arith in
      let ib : has b (a ∷ b ∷ c ∷ []) ≡ true = ground arith in
      let ic : has c (a ∷ b ∷ c ∷ []) ≡ true = ground arith in
      let dist : IsDistinct (c ∷ b ∷ a ∷ []) = ground (arith, d) in
      after _ (m, no_page_step _ rest fl m0 s m h, h)
        (λ m h. after _ (free_three-Holding a b c [] m ia ib ic dist h) (λ m h.
          after _ (plain_step c (b ∷ a ∷ []) m ic h) (λ m h.
            after _ (plain_step b (a ∷ []) m ib h) (λ m h. after _ (plain_step a [] m ia h) (λ m h.
              after _ (m, assert_that-true _ m distinct_test, h)
                (λ m h.
                  after _ (m, no_page_step _ rest fl m0 s m h, h)
                    (λ m h.
                      after _ (fill_step _ rest fl m0 s c [] m ic h)
                        (λ m h. after _ (zero_flag-Holding c m ic h) (λ m h. (m, refl, h))))))))))

  given_back-Holding :
      (m : Machine)
      → IsHolding m []
      → ((q : ℕ) → has q rest ≡ true → (q < m0.npages) × (m0.pp_ref q ≡ 0))
      → (m' : Machine) × (give_back fl (c, b, a) m ≡ ok tt m') × IsHolding m' (a ∷ b ∷ c ∷ rest)
  unfolding give_back set_free_list
  given_back-Holding m h unused =
      free_three-Holding c b a rest (record m { page_free_list = fl }) (ground arith) (ground arith)
        (ground arith) d
        (record {
          free = record {
            chain = h.kept;
            distinct = d.1.1.1;
            unused = λ q i. (
              omega (arith, h.size, (unused q i).0),
              ap (λ (f : ℕ → ℕ). f q) h.refs ∙ (unused q i).1,
            );
          };
          null = λ q i out. h.null q i refl;
          kept = h.kept;
          refs = h.refs;
          size = h.size;
        })

Spare-three :
    (a b c : ℕ) (rest : List ℕ) (m : Machine)
    → m.npages < 2 ^ 20
    → IsFreeList m (a ∷ b ∷ c ∷ rest)
    → Spare (a ∷ b ∷ c ∷ []) rest m
Spare-three a b c rest m fits l =
    let d = l.distinct in
    record {
      fits = fits;
      unused = λ q i. l.unused q (ground arith);
      apart = λ q i. ground (arith, d);
    }

in_memory-ok : (p : ℕ) (m : Machine) → p < m.npages → m.npages < 2 ^ 20 → in_memory p m ≡ ok tt m
unfolding in_memory page2pa
in_memory-ok p m h fits = assert_that-true _ m (lt→ltb _ _ (omega arith))

-- The part up to the theft, as a computation of the three pages and of what is left of the list.
first_three-Holding :
    (a b c : ℕ) (rest : List ℕ) (m : Machine)
    → m.npages < 2 ^ 20
    → IsFreeList m (a ∷ b ∷ c ∷ rest)
    → Holding (a ∷ b ∷ c ∷ []) [] none m m (a ∷ b ∷ c ∷ rest)
first_three-Holding a b c rest m fits l = record {
  free = l;
  null = λ q i out. ground arith;
  kept = refl;
  refs = refl;
  size = refl;
}

theft-Holding :
    (a b c : ℕ) (rest : List ℕ) (m m3 : Machine)
    → IsDistinct (a ∷ b ∷ c ∷ rest)
    → Holding (a ∷ b ∷ c ∷ []) [] none m m3 rest
    → Holding (a ∷ b ∷ c ∷ []) rest m3.page_free_list m (record m3 { page_free_list = none }) []
theft-Holding a b c rest m m3 d h = record {
  free = record { chain = refl; distinct = tt; unused = λ q i. cc };
  null = λ q i out. h.null q i (ground (arith, d));
  kept = h.free.chain;
  refs = h.refs;
  size = h.size;
}

-- The rest of `check_page_alloc`, from the theft on.
from_theft :
    (fuel a b c : ℕ) (rest : List ℕ) (m m3 : Machine)
    → length rest + 3 < fuel
    → m.npages < 2 ^ 20
    → IsFreeList m (a ∷ b ∷ c ∷ rest)
    → Holding (a ∷ b ∷ c ∷ []) [] none m m3 rest
    → (m' : Machine) × (and_then (set_free_list none m3) (λ _. check_stolen a b c >>= λ pps.
          give_back m3.page_free_list pps
          >> ((λ m. count_down fuel m.page_free_list (u32 (0 + length (a ∷ b ∷ c ∷ rest))) m)
              >>= λ left. assert_that (left == 0)))
        ≡ ok tt m')
      × IsFreeList m' (a ∷ b ∷ c ∷ rest)
unfolding set_free_list
from_theft fuel a b c rest m m3 h fits l v =
    let d = l.distinct in
    let s = Spare-three a b c rest m fits l in
    after _
      (stolen-Holding a b c rest m3.page_free_list m d s (record m3 { page_free_list = none })
        (theft-Holding a b c rest m m3 d v))
      (λ m1 h1.
        after _
          (given_back-Holding a b c rest m3.page_free_list m d s m1 h1
            (λ q i. l.unused q (ground arith)))
          (λ m2 h2.
            after _
              (
                m2,
                count_down-length fuel m2.page_free_list (a ∷ b ∷ c ∷ rest) 0 _ m2 (omega arith)
                    (omega arith) refl h2.free.chain,
                h2.free,
              )
              (λ m3 h3. (m3, assert_that-true (0 == 0) m3 refl, h3))))

-- Once `pages` is set, on a machine of less than 4 GB whose free list is right and has at least three
-- pages, `check_page_alloc` passes: with fuel for one more round than there are free pages its counting
-- loops end, no assertion fails, and the free list is in the end what it was, in the same order.
pub check_page_alloc-IsFreeList :
    (has_pages : Bool) (fuel a b c : ℕ) (rest : List ℕ) (m : Machine)
    → has_pages ≡ true
    → length rest + 3 < fuel
    → m.npages < 2 ^ 20
    → IsFreeList m (a ∷ b ∷ c ∷ rest)
    → (m' : Machine) × (check_page_alloc has_pages fuel m ≡ ok tt m')
      × IsFreeList m' (a ∷ b ∷ c ∷ rest)
unfolding check_page_alloc assert_distinct
check_page_alloc-IsFreeList has_pages fuel a b c rest m set h fits l =
    let d = l.distinct in
    let s : Spare (a ∷ b ∷ c ∷ []) [] m = record {
      fits = fits;
      unused = λ q i. l.unused q (ground arith);
      apart = λ q i. refl;
    } in
    let step =
      λ (p : ℕ) (xs : List ℕ) (m1 : Machine) (i : has p (a ∷ b ∷ c ∷ []) ≡ true)
          (h1 : Holding (a ∷ b ∷ c ∷ []) [] none m m1 (p ∷ xs)).
        plain_step a b c [] none m (ground (arith, d)) s p xs m1 i h1 in
    after _ (m, assert_that-true has_pages m set, first_three-Holding a b c rest m fits l)
      (λ m0 h0.
        after _
          (
            m0,
            count_up-length fuel m0.page_free_list (a ∷ b ∷ c ∷ rest) 0 m0 (omega arith)
                (omega arith) (chain_of h0),
            h0,
          )
          (λ m0 h0. after _ (step a (b ∷ c ∷ rest) m0 (ground arith) h0) (λ m1 h1.
            after _ (step b (c ∷ rest) m1 (ground arith) h1) (λ m2 h2.
              after _ (step c rest m2 (ground arith) h2) (λ m3 h3.
                after _
                  (
                    m3,
                    assert_that-true ((b != a) && ((c != b) && (c != a))) m3 (ground (arith, d)),
                    h3,
                  )
                  (λ m3 h3.
                    after _ (m3, memory_of a m3 (ground arith) h3, h3)
                      (λ m3 h3.
                        after _ (m3, memory_of b m3 (ground arith) h3, h3)
                          (λ m3 h3.
                            after _ (m3, memory_of c m3 (ground arith) h3, h3)
                              (λ m3 h3. from_theft fuel a b c rest m m3 h fits l h3)))))))))
  where
    chain_of :
        {m0 : Machine}
        → Holding (a ∷ b ∷ c ∷ []) [] none m m0 (a ∷ b ∷ c ∷ rest)
        → IsChain m0.pp_link m0.page_free_list (a ∷ b ∷ c ∷ rest)
    chain_of v = v.free.chain

    memory_of :
        (p : ℕ) (m3 : Machine)
        → has p (a ∷ b ∷ c ∷ []) ≡ true
        → Holding (a ∷ b ∷ c ∷ []) [] none m m3 rest
        → in_memory p m3 ≡ ok tt m3
    memory_of p m3 i v =
        in_memory-ok p m3 (omega (arith, v.size, (l.unused p (ground arith)).0))
          (omega (arith, v.size))
