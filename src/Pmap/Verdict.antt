-- ===== src/Pmap/Verdict.antt =====
-- The loops of `check_page_free_list` that spoil and test the pages.
use joslab4_init.Base.{
  ℕ, zero, suc, ◌+◌, ◌^◌, ◌≤◌, ◌<◌, ◌≡◌, refl, true, false, Bool, ◌&&◌, Option, List, [], ◌∷◌, has,
  length, update, ltb, arith, if◌then◌else◌, Bool-cases, inl, inr, ap,
}
use joslab4_init.Mmu.{extphysmem}
use joslab4_init.Machine.{Machine, Run, ok, panicked, and_then, page2pa}
use joslab4_init.Pmap.{free_page_ok}
use joslab4_init.Pmap.FreeList.{IsChain, IsFreeList}
use joslab4_init.Pmap.Alloc.{page2kva-ok}
use joslab4_init.Pmap.Check.{pagetype, spoil_page, spoil_pages, assert_pages}

spoil_page-mem :
    (p : ℕ) (m : Machine)
    → p < m.npages
    → m.npages ≤ 2 ^ 20
    → (mem : ℕ → ℕ → ℕ) × (spoil_page p m ≡ ok tt (record m { mem = mem }))
unfolding spoil_page
spoil_page-mem p m h fits = (
  update m.mem p (λ i. if ltb i 32 then 0x97979797 else m.mem p i),
  rw (page2kva-ok p m h fits) refl,
)

-- Spoiling the pages of the list ends, and changes memory only.
spoil_pages-mem :
    (fuel limit : ℕ) (head : Option ℕ) (xs : List ℕ) (m : Machine)
    → length xs < fuel
    → m.npages ≤ 2 ^ 20
    → IsChain m.pp_link head xs
    → ((p : ℕ) → has p xs ≡ true → p < m.npages)
    → (mem : ℕ → ℕ → ℕ) × (spoil_pages fuel limit head m ≡ ok tt (record m { mem = mem }))
unfolding spoil_pages
spoil_pages-mem zero limit head xs m h fits c all = absurd (omega arith)
spoil_pages-mem (suc fuel) limit head [] m h fits c all = (m.mem, rw c refl)
spoil_pages-mem (suc fuel) limit head (x ∷ xs) m h fits c all =
    let rest = λ (mem : ℕ → ℕ → ℕ).
      spoil_pages-mem fuel limit (m.pp_link x) xs (record m { mem = mem }) (omega arith) fits c.1
        (λ p e. all p (ground arith)) in
    elim (Bool-cases (pagetype limit x)) [
      | inl high ↦ rw (c.0, high) (rest m.mem)
      | inr low ↦
          let (mem, e) = spoil_page-mem x m (all x (ground arith)) fits in
          rw (c.0, low, e) (rest mem)
    ]

-- What the loop of assertions counts.
all_ok : (first npages : ℕ) → List ℕ → Bool
all_ok first npages [] = true
all_ok first npages (x ∷ xs) = free_page_ok first npages x && all_ok first npages xs

abbrev is_low : ℕ → Bool
is_low p = ltb (page2pa p) extphysmem

lows : List ℕ → ℕ
lows [] = 0
lows (x ∷ xs) = if is_low x then suc (lows xs) else lows xs

highs : List ℕ → ℕ
highs [] = 0
highs (x ∷ xs) = if is_low x then highs xs else suc (highs xs)

assert_pages-all_ok :
    (fuel first : ℕ) (head : Option ℕ) (xs : List ℕ) (b e : ℕ) (m : Machine)
    → length xs < fuel
    → IsChain m.pp_link head xs
    → assert_pages fuel first head b e m ≡ (
        if all_ok first m.npages xs && (ltb 0 (b + lows xs) && ltb 0 (e + highs xs))
        then ok tt m
        else panicked)
unfolding assert_pages all_ok lows highs
assert_pages-all_ok zero first head xs b e m h c = absurd (omega arith)
assert_pages-all_ok (suc fuel) first head [] b e m h c = rw c (ground arith)
assert_pages-all_ok (suc fuel) first head (x ∷ xs) b e m h c =
    let low = ltb (page2pa x) extphysmem in
    rw
      (
        c.0,
        assert_pages-all_ok fuel first (m.pp_link x) xs (if low then b + 1 else b)
            (if low then e else e + 1) m (omega arith) c.1,
      )
      (ground arith)

all_ok-has :
    (first n : ℕ) (xs : List ℕ)
    → ((p : ℕ) → has p xs ≡ true → free_page_ok first n p ≡ true)
    → all_ok first n xs ≡ true
unfolding all_ok
all_ok-has first n [] h = refl
all_ok-has first n (x ∷ xs) h =
    ground (arith, h x, all_ok-has first n xs (λ p e. h p (ground arith)))

all_ok-not :
    (first n p : ℕ) (xs : List ℕ)
    → has p xs ≡ true
    → free_page_ok first n p ≡ false
    → all_ok first n xs ≡ false
unfolding all_ok
all_ok-not first n p [] e bad = cc
all_ok-not first n p (x ∷ xs) e bad =
    ground (arith, all_ok-not first n p xs, ap (λ (z : ℕ). free_page_ok first n z))

lows-has : (p : ℕ) (xs : List ℕ) → has p xs ≡ true → is_low p ≡ true → 0 < lows xs
unfolding lows
lows-has p [] e low = cc
lows-has p (x ∷ xs) e low = ground (arith, lows-has p xs, ap is_low)

highs-has : (p : ℕ) (xs : List ℕ) → has p xs ≡ true → is_low p ≡ false → 0 < highs xs
unfolding highs
highs-has p [] e high = cc
highs-has p (x ∷ xs) e high = ground (arith, highs-has p xs, ap is_low)

pub verdict : (first : ℕ) → List ℕ → Machine → Run (Unit {0})
verdict first xs m =
    if all_ok first m.npages xs && (ltb 0 (0 + lows xs) && ltb 0 (0 + highs xs))
    then ok tt m
    else panicked

-- What follows the reordering, on the list that it leaves.
pub spoiled_and_asserted :
    (fuel limit first : ℕ) (m : Machine) (xs : List ℕ)
    → length xs < fuel
    → m.npages ≤ 2 ^ 20
    → IsFreeList m xs
    → (mem : ℕ → ℕ → ℕ) × (and_then
          (spoil_pages fuel limit m.page_free_list m)
          (λ _ m. assert_pages fuel first m.page_free_list 0 0 m)
        ≡ verdict first xs (record m { mem = mem }))
unfolding verdict
spoiled_and_asserted fuel limit first m xs h fits l =
    let (mem, e) =
      spoil_pages-mem fuel limit m.page_free_list xs m h fits l.chain (λ p i. (l.unused p i).0) in
    (
      mem,
      rw e (
          assert_pages-all_ok fuel first m.page_free_list xs 0 0 (record m { mem = mem }) h
            l.chain),
    )

pub rejected :
    (first p : ℕ) (m : Machine) (xs : List ℕ)
    → has p xs ≡ true
    → free_page_ok first m.npages p ≡ false
    → verdict first xs m ≡ panicked
unfolding verdict
rejected first p m xs i bad = rw (all_ok-not first m.npages p xs i bad) refl

pub accepted :
    (first p q : ℕ) (m : Machine) (xs : List ℕ)
    → ((r : ℕ) → has r xs ≡ true → free_page_ok first m.npages r ≡ true)
    → has p xs ≡ true
    → page2pa p < extphysmem
    → has q xs ≡ true
    → extphysmem ≤ page2pa q
    → verdict first xs m ≡ ok tt m
unfolding verdict
accepted first p q m xs all i low j high =
    let some_low = lows-has p xs i (ground arith) in
    let some_high = highs-has q xs j (ground arith) in
    rw (all_ok-has first m.npages xs all) (ground arith)
