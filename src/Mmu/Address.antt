-- ===== src/Mmu/Address.antt =====
-- The parts of a linear address, and rounding to pages.
use joslab4_init.Base.{ℕ, ◌+◌, ◌*◌, ◌%◌, ◌^◌, ◌≤◌, ◌<◌, ◌≡◌, ap, ◌∙◌, bit_or, arith, u32}
use joslab4_init.Base.Bits.{bit_or_fields}
use joslab4_init.Mmu.{pdx, ptx, pgoff, pgnum, pgaddr, roundup}

-- `PGADDR` of in-range parts is their sum.
pub pgaddr_sum :
    (d t o : ℕ) → d < 1024 → t < 1024 → o < 4096 → pgaddr d t o ≡ d * 2 ^ 22 + t * 2 ^ 12 + o
unfolding pgaddr
pgaddr_sum d t o hd ht ho = joined ∙ bit_or_fields 12 (d * 1024 + t) o ho ∙ omega arith
  where
    high : bit_or (u32 (d * 2 ^ 22)) (u32 (t * 2 ^ 12)) ≡ (d * 1024 + t) * 2 ^ 12
    high =
        ap (λ (x : ℕ). bit_or x (u32 (t * 2 ^ 12))) (omega arith)
        ∙ bit_or_fields 22 d (u32 (t * 2 ^ 12)) (omega arith)
        ∙ omega arith

    joined : pgaddr d t o ≡ bit_or ((d * 1024 + t) * 2 ^ 12) o
    joined = ap (λ (x : ℕ). bit_or x o) high

-- The parts of an address rebuild it, and an address that is built from in-range parts has them.
pub pgaddr_parts :
    (d t o la : ℕ)
    → d < 1024
    → t < 1024
    → o < 4096
    → la < 2 ^ 32
    → (pgaddr (pdx la) (ptx la) (pgoff la) ≡ la)
      × (pdx (pgaddr d t o) ≡ d)
      × (ptx (pgaddr d t o) ≡ t)
      × (pgoff (pgaddr d t o) ≡ o)
      × (pgnum (pgaddr d t o) ≡ d * 1024 + t)
unfolding pdx ptx pgoff pgnum
pgaddr_parts d t o la hd ht ho hla = (
  pgaddr_sum _ _ _ (omega arith) (omega arith) (omega arith) ∙ omega arith,
  omega (arith, sum),
  omega (arith, sum),
  omega (arith, sum),
  omega (arith, sum),
)
  where
    sum : pgaddr d t o ≡ d * 2 ^ 22 + t * 2 ^ 12 + o
    sum = pgaddr_sum d t o hd ht ho

-- `ROUNDUP(a, PGSIZE)` is the least multiple of the page size that is not below `a`, as long as
-- it is below 2 ^ 32.
pub roundup_page :
    (a : ℕ)
    → a ≤ 0xFFFFF000
    → (a ≤ roundup a 4096) × (roundup a 4096 < a + 4096) × (roundup a 4096 % 4096 ≡ 0)
unfolding roundup
roundup_page a h = omega arith
