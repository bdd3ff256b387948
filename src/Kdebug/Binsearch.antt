-- ===== src/Kdebug/Binsearch.antt =====
-- `stab_binsearch` finds the last stab of a type whose value is at most the address.
use native.Mathlib.Decide.{dec_lt}
use joslab4_init.Base.{
  ℕ, zero, suc, ◌+◌, ◌-◌, ◌*◌, ◌^◌, ◌≤◌, ◌<◌, ◌≡◌, ◌≢◌, ◌⊎◌, ◌∙◌, ap, refl, inl, inr, true, false,
  none, some, arith, leb, lt→ltb, le→ltb, ne→==,
}
use joslab4_init.Base.Int.{ℤ, pos}
use joslab4_init.Kdebug.{
  Stabs, Search, middle, narrow, search_round, search_loop, rightmost, region, map_region,
  stab_binsearch,
}
use joslab4_init.Kdebug.Scan.{NoneIn, NoneIn-join, FoundBack, find_back_cases}

-- The stabs of the type stand in the order of their values.
abbrev pub IsSorted : Stabs → (type left right : ℕ) → Type 0
IsSorted stabs type left right =
    (i j : ℕ)
    → left ≤ i
    → i ≤ j
    → j < right
    → (stabs i).n_type ≡ type
    → (stabs j).n_type ≡ type
    → (stabs i).n_value ≤ (stabs j).n_value

-- No stab of the type has the value `v`.
abbrev pub Misses : Stabs → (type left right v : ℕ) → Type 0
Misses stabs type left right v =
    (i : ℕ) → left ≤ i → i < right → (stabs i).n_type ≡ type → (stabs i).n_value ≢ v

-- What holds in every round; `addr` is the address that is looked for.
record Inv (stabs : Stabs) (type left right addr : ℕ) (s : Search) : Type 0 where
  l_from : left ≤ s.l
  l_to : s.l ≤ s.r
  r_to : s.r ≤ right
  right_r : s.right ≡ s.r
  address : (s.addr ≡ addr) ⊎ (s.addr ≡ addr + 1)
  below : (i : ℕ) → left ≤ i → i < s.l → (stabs i).n_type ≡ type → (stabs i).n_value ≤ addr
  above : (i : ℕ) → s.r ≤ i → i < right → (stabs i).n_type ≡ type → addr < (stabs i).n_value
  best :
      ((s.left ≡ left) × NoneIn stabs type left s.l)
      ⊎ ((left ≤ s.left)
          × (s.left < right)
          × ((stabs s.left).n_type ≡ type)
          × ((stabs s.left).n_value ≤ addr)
          × NoneIn stabs type (suc s.left) s.l
          × (s.any_matches ≡ true))
  edge : (s.r ≡ right) ⊎ ((s.r < right) × ((stabs s.r).n_type ≡ type) × (s.any_matches ≡ true))

pub rightmost_none :
    (stabs : Stabs) (type left l : ℕ)
    → left ≤ l
    → NoneIn stabs type (suc left) (suc l)
    → rightmost stabs type left l ≡ left
unfolding rightmost
rightmost_none stabs type left zero h none_in = omega arith
rightmost_none stabs type left (suc l) h none_in = elim (dec_lt left (suc l)) [
  | yes less ↦
      let ih =
        rightmost_none stabs type left l (omega arith) (λ k h1 h2. none_in k h1 (omega arith)) in
      let ne = none_in (suc l) (omega arith) (omega arith) in
      rw (lt→ltb left (suc l) less, ne→== (stabs (suc l)).n_type type ne) ih
  | no end ↦ rw (le→ltb left (suc l) (omega arith)) (omega arith)
]

measure : (addr : ℕ) → Search → ℕ
measure addr s = 2 * (s.r - s.l) + (addr + 1 - s.addr)

middle_bounds : (l r : ℕ) → l < r → (l ≤ middle l r) × (middle l r < r)
middle_bounds l r h = (omega arith, omega arith)

module _ (stabs : Stabs) (type left right addr : ℕ) (sorted : IsSorted stabs type left right)
    (gap : Misses stabs type left right (addr + 1)) (fits : addr + 1 < 2 ^ 32) where
  narrow-none :
      (s : Search)
      → Inv stabs type left right addr s
      → s.l < s.r
      → NoneIn stabs type s.l (middle s.l s.r + 1)
      → Inv stabs type left right addr (narrow stabs s none)
        × (measure addr (narrow stabs s none) < measure addr s)
  unfolding measure
  narrow-none s v h none_in =
      let (lo, hi) = middle_bounds s.l s.r h in
      (
        record {
          l_from = omega (arith, v.l_from);
          l_to = omega arith;
          r_to = v.r_to;
          right_r = v.right_r;
          address = v.address;
          below = λ i h1 h2 e. elim (dec_lt i s.l) [
            | yes less ↦ v.below i h1 less e
            | no more ↦ absurd (none_in i (omega arith) h2 e)
          ];
          above = v.above;
          best = elim v.best [
            | inl (e, none_yet) ↦
                inl (e, NoneIn-join stabs type left s.l (middle s.l s.r + 1) none_yet none_in)
            | inr (h1, h2, e, le, none_yet, any) ↦ inr (
              h1,
              h2,
              e,
              le,
              NoneIn-join stabs type (suc s.left) s.l (middle s.l s.r + 1) none_yet none_in,
              any,
            )
          ];
          edge = v.edge;
        },
        omega arith,
      )

  narrow-less :
      (s : Search) (m : ℕ)
      → Inv stabs type left right addr s
      → s.l < s.r
      → FoundBack stabs type s.l (middle s.l s.r + 1) m
      → (stabs m).n_value < s.addr
      → Inv stabs type left right addr (narrow stabs s (some m))
        × (measure addr (narrow stabs s (some m)) < measure addr s)
  unfolding measure
  narrow-less s m v h b less =
      let (lo, hi) = middle_bounds s.l s.r h in
      let small : (stabs m).n_value ≤ addr = omega (arith, v.address) in
      let t = lt→ltb (stabs m).n_value s.addr less in
      rw t (
        record {
          l_from = omega (arith, v.l_from);
          l_to = omega arith;
          r_to = v.r_to;
          right_r = v.right_r;
          address = v.address;
          below = λ i h1 h2 e. elim (dec_lt m i) [
            | yes later ↦ absurd (b.rest i later h2 e)
            | no earlier ↦
                omega (arith, sorted i m h1 (omega arith) (omega (arith, b.to, v.r_to)) e b.is)
          ];
          above = v.above;
          best = inr (
            omega (arith, v.l_from, b.from),
            omega (arith, b.to, v.r_to),
            b.is,
            small,
            b.rest,
            refl,
          );
          edge = elim v.edge [ inl e ↦ inl e | inr (e1, e2, any) ↦ inr (e1, e2, refl) ];
        },
        omega arith,
      )

  narrow-more :
      (s : Search) (m : ℕ)
      → Inv stabs type left right addr s
      → s.l < s.r
      → FoundBack stabs type s.l (middle s.l s.r + 1) m
      → s.addr < (stabs m).n_value
      → Inv stabs type left right addr (narrow stabs s (some m))
        × (measure addr (narrow stabs s (some m)) < measure addr s)
  unfolding measure
  narrow-more s m v h b more =
      let (lo, hi) = middle_bounds s.l s.r h in
      let large : addr < (stabs m).n_value = omega (arith, v.address) in
      let t1 = le→ltb (stabs m).n_value s.addr (omega arith) in
      let t2 = lt→ltb s.addr (stabs m).n_value more in
      rw (t1, t2)
        (
          record {
            l_from = v.l_from;
            l_to = b.from;
            r_to = omega (arith, b.to, v.r_to);
            right_r = refl;
            address = v.address;
            below = v.below;
            above = λ i h1 h2 e.
                omega (arith, sorted m i (omega (arith, v.l_from, b.from)) h1 h2 b.is e);
            best = elim v.best [
              | inl (e, none_yet) ↦ inl (e, none_yet)
              | inr (h1, h2, e, le, none_yet, any) ↦ inr (h1, h2, e, le, none_yet, refl)
            ];
            edge = inr (omega (arith, b.to, v.r_to), b.is, refl);
          },
          omega (arith, b.from, b.to),
        )

  narrow-equal :
      (s : Search) (m : ℕ)
      → Inv stabs type left right addr s
      → s.l < s.r
      → FoundBack stabs type s.l (middle s.l s.r + 1) m
      → (stabs m).n_value ≡ s.addr
      → Inv stabs type left right addr (narrow stabs s (some m))
        × (measure addr (narrow stabs s (some m)) < measure addr s)
  unfolding measure
  narrow-equal s m v h b same =
      let (lo, hi) = middle_bounds s.l s.r h in
      let missed = gap m (omega (arith, v.l_from, b.from)) (omega (arith, b.to, v.r_to)) b.is in
      let now : s.addr ≡ addr = omega (arith, v.address) in
      let t1 = le→ltb (stabs m).n_value s.addr (omega arith) in
      let t2 = le→ltb s.addr (stabs m).n_value (omega arith) in
      rw (t1, t2)
        (
          record {
            l_from = omega (arith, v.l_from, b.from);
            l_to = omega (arith, b.to);
            r_to = v.r_to;
            right_r = v.right_r;
            address = inr (omega arith);
            below = λ i h1 h2 e.
                omega (arith, sorted i m h1 (omega arith) (omega (arith, b.to, v.r_to)) e b.is);
            above = v.above;
            best = inr (
              omega (arith, v.l_from, b.from),
              omega (arith, b.to, v.r_to),
              b.is,
              omega arith,
              λ k h1 h2. absurd (omega arith),
              refl,
            );
            edge = elim v.edge [ inl e ↦ inl e | inr (e1, e2, any) ↦ inr (e1, e2, refl) ];
          },
          omega (arith, b.from, b.to),
        )

  search_round-Inv :
      (s : Search)
      → Inv stabs type left right addr s
      → s.l < s.r
      → Inv stabs type left right addr (search_round stabs type s)
        × (measure addr (search_round stabs type s) < measure addr s)
  unfolding search_round
  search_round-Inv s v h = elim (find_back_cases stabs type s.l (middle s.l s.r + 1)) [
    | inl (e, none_in) ↦ rw e (narrow-none s v h none_in)
    | inr (m, e, b) ↦ rw e (elim (dec_lt (stabs m).n_value s.addr) [
      | yes less ↦ narrow-less s m v h b less
      | no large ↦ elim (dec_lt s.addr (stabs m).n_value) [
        | yes more ↦ narrow-more s m v h b more
        | no small ↦ narrow-equal s m v h b (omega arith)
      ]
    ])
  ]

  search_loop-Inv :
      (fuel : ℕ) (s : Search)
      → Inv stabs type left right addr s
      → measure addr s < fuel
      → (s' : Search) × (search_loop fuel stabs type s ≡ some s')
        × Inv stabs type left right addr s'
        × (s'.l ≡ s'.r)
  unfolding search_loop
  search_loop-Inv zero s v h = absurd (omega arith)
  search_loop-Inv (suc fuel) s v h = elim (dec_lt s.l s.r) [
    | yes less ↦
        let (v1, m1) = search_round-Inv s v less in
        rw (lt→ltb s.l s.r less) (search_loop-Inv fuel (search_round stabs type s) v1 (omega arith))
    | no end ↦ rw (le→ltb s.l s.r (omega arith)) (s, refl, v, omega (arith, v.l_to))
  ]

start : (left right addr : ℕ) → Search
start left right addr = record {
  l = left;
  r = right;
  left = left;
  right = right;
  any_matches = false;
  addr = addr;
}

start-Inv :
    (stabs : Stabs) (type left right addr : ℕ)
    → left ≤ right
    → Inv stabs type left right addr (start left right addr)
unfolding start
start-Inv stabs type left right addr h = record {
  l_from = omega arith;
  l_to = h;
  r_to = omega arith;
  right_r = refl;
  address = inl refl;
  below = λ i h1 h2. absurd (omega arith);
  above = λ i h1 h2. absurd (omega arith);
  best = inl (refl, λ k h1 h2. absurd (omega arith));
  edge = inl refl;
}

-- `m` is the last index of the range with a stab of the type whose value is at most `addr`, and `end`
-- the next index with a stab of the type, or the end of the range.
pub record IsRegion (stabs : Stabs) (type left right addr m end : ℕ) : Type 0 where
  pub from : left ≤ m
  pub to : m < end
  pub bound : end ≤ right
  pub is : (stabs m).n_type ≡ type
  pub at_most : (stabs m).n_value ≤ addr
  pub next : NoneIn stabs type (suc m) end
  pub edge : (end ≡ right) ⊎ (((stabs end).n_type ≡ type) × (addr < (stabs end).n_value))

region_of :
    (stabs : Stabs) (type : ℕ) (s : Search)
    → s.any_matches ≡ true
    → s.left < s.right
    → NoneIn stabs type (suc s.left) s.right
    → region stabs type s ≡ (pos s.left, s.right)
region_of stabs type s any h none_in =
    let t : leb 1 s.right ≡ true = ground arith in
    let none_in1 : NoneIn stabs type (suc s.left) (suc (s.right - 1)) =
      λ k h1 h2. none_in k h1 (omega arith) in
    rw (any, t, rightmost_none stabs type s.left (s.right - 1) (omega arith) none_in1) refl

Found : Stabs → (type left right addr : ℕ) → Search → Type 0
Found stabs type left right addr s =
    (region stabs type s ≡ (pos s.left, s.right))
    × IsRegion stabs type left right addr s.left s.right

found_of :
    (stabs : Stabs) (type left right addr : ℕ) (s : Search)
    → Inv stabs type left right addr s
    → s.l ≡ s.r
    → left ≤ s.left
    → s.left < right
    → (stabs s.left).n_type ≡ type
    → (stabs s.left).n_value ≤ addr
    → NoneIn stabs type (suc s.left) s.l
    → s.any_matches ≡ true
    → Found stabs type left right addr s
unfolding Found
found_of stabs type left right addr s v done h1 h2 e le none_in any =
    let less : s.left < s.right = elim (dec_lt s.left s.r) [
      | yes l ↦ omega (arith, v.right_r)
      | no r ↦ absurd (omega (arith, v.above s.left (omega arith) h2 e))
    ] in
    let none_in1 : NoneIn stabs type (suc s.left) s.right =
      λ k g1 g2. none_in k g1 (omega (arith, v.right_r)) in
    (
      region_of stabs type s any less none_in1,
      record {
        from = h1;
        to = less;
        bound = omega (arith, v.right_r, v.r_to);
        is = e;
        at_most = le;
        next = none_in1;
        edge = elim v.edge [
          | inl e1 ↦ inl (v.right_r ∙ e1)
          | inr (r1, e1, any1) ↦ inr (rw v.right_r (e1, v.above s.r (omega arith) r1 e1))
        ];
      },
    )

Found-Inv :
    (stabs : Stabs) (type left right addr k : ℕ) (s : Search)
    → Inv stabs type left right addr s
    → s.l ≡ s.r
    → left ≤ k
    → k < right
    → (stabs k).n_type ≡ type
    → (stabs k).n_value ≤ addr
    → Found stabs type left right addr s
Found-Inv stabs type left right addr k s v done h1 h2 e le = elim v.best [
  | inl (e1, none_in) ↦ elim (dec_lt k s.l) [
    | yes less ↦ absurd (none_in k h1 less e)
    | no more ↦ absurd (omega (arith, v.above k (omega arith) h2 e))
  ]
  | inr (g1, g2, e1, le1, none_in, any) ↦
      found_of stabs type left right addr s v done g1 g2 e1 le1 none_in any
]

-- In a range with a stab of the type whose value is at most the address, `stab_binsearch` ends and
-- gives the last such stab and the range from it to the next stab of the type, or to the end of the
-- range: given that the stabs of the type stand in the order of their values, that none has the value
-- `addr + 1`, which must be a 32-bit number, and twice as many rounds as stabs and two more.
pub stab_binsearch-IsRegion :
    (stabs : Stabs) (left right type addr k fuel : ℕ)
    → IsSorted stabs type left right
    → Misses stabs type left right (addr + 1)
    → addr + 1 < 2 ^ 32
    → left ≤ k
    → k < right
    → (stabs k).n_type ≡ type
    → (stabs k).n_value ≤ addr
    → 2 * (right - left) + 1 < fuel
    → (m end : ℕ) × (stab_binsearch fuel stabs left right type addr ≡ some (pos m, end))
      × IsRegion stabs type left right addr m end
unfolding stab_binsearch start measure Found
stab_binsearch-IsRegion stabs left right type addr k fuel sorted gap fits h1 h2 e le enough =
    let (s, ran, v, done) =
      search_loop-Inv stabs type left right addr sorted gap fits fuel (start left right addr)
        (start-Inv stabs type left right addr (omega arith)) (omega arith) in
    let (is, r) = Found-Inv stabs type left right addr k s v done h1 h2 e le in
    (s.left, s.right, ap (map_region stabs type) ran ∙ ap (λ (x : ℤ × ℕ). some x) is, r)

before_Inv :
    (stabs : Stabs) (type left right addr f : ℕ) (s : Search)
    → IsSorted stabs type left right
    → Inv stabs type left right addr s
    → s.l ≡ s.r
    → left < f
    → f < right
    → (stabs f).n_type ≡ type
    → addr < (stabs f).n_value
    → NoneIn stabs type left f
    → (s.left ≡ left) × (s.right ≡ f) × (s.any_matches ≡ true)
before_Inv stabs type left right addr f s sorted v done h1 h2 e more first = elim v.best [
  | inr (g1, g2, e1, le, none_in, any) ↦ elim (dec_lt s.left f) [
    | yes less ↦ absurd (first s.left g1 less e1)
    | no later ↦ absurd (omega (arith, sorted f s.left (omega arith) (omega arith) g2 e e1))
  ]
  | inl (e1, none_in) ↦
      let le : s.l ≤ f = elim (dec_lt f s.l) [
        | yes less ↦ absurd (none_in f (omega arith) less e)
        | no rest ↦ omega arith
      ] in
      elim v.edge [
        | inl end ↦ absurd (omega arith)
        | inr (g1, g2, any) ↦
            let ge : f ≤ s.r = elim (dec_lt s.r f) [
              | yes less ↦ absurd (first s.r (omega (arith, v.l_from, v.l_to)) less g2)
              | no rest ↦ omega arith
            ] in
            (e1, omega (arith, v.right_r), any)
      ]
]

region_before :
    (stabs : Stabs) (type left f : ℕ) (s : Search)
    → (s.left ≡ left) × (s.right ≡ f) × (s.any_matches ≡ true)
    → left < f
    → NoneIn stabs type left f
    → region stabs type s ≡ (pos left, f)
region_before stabs type left f s (el, er, any) h none_in =
    region_of stabs type s any (omega arith) (λ k h1 h2. none_in k (omega arith) (omega arith))
    ∙ rw (el, er) refl

-- When the first stab `f` of the type in a range stands behind the range's start and has a value above
-- the address, so that no stab of the type contains the address, `stab_binsearch` ends and still gives
-- a range that is not empty: from the start to `f`. The conditions are those of the order, the gap and
-- the rounds of the search that finds a stab.
pub stab_binsearch_before :
    (stabs : Stabs) (left right type addr f fuel : ℕ)
    → IsSorted stabs type left right
    → Misses stabs type left right (addr + 1)
    → addr + 1 < 2 ^ 32
    → left < f
    → f < right
    → (stabs f).n_type ≡ type
    → addr < (stabs f).n_value
    → NoneIn stabs type left f
    → 2 * (right - left) + 1 < fuel
    → stab_binsearch fuel stabs left right type addr ≡ some (pos left, f)
unfolding stab_binsearch start measure
stab_binsearch_before stabs left right type addr f fuel sorted gap fits h1 h2 e more first enough =
    let (s, ran, v, done) =
      search_loop-Inv stabs type left right addr sorted gap fits fuel (start left right addr)
        (start-Inv stabs type left right addr (omega arith)) (omega arith) in
    ap (map_region stabs type) ran
    ∙ ap (λ (x : ℤ × ℕ). some x)
        (region_before stabs type left f s
          (before_Inv stabs type left right addr f s sorted v done h1 h2 e more first) h1 first)
