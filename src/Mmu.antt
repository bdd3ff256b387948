-- ===== src/Mmu.antt =====
-- Addresses, page table entries and memory layout: inc/mmu.h, inc/memlayout.h, inc/types.h.
-- Addresses and entries are `uint32_t`: numbers below 2 ^ 32. `x >> k` is `x / 2 ^ k`, and `x & m`
-- with a mask of ones is a remainder or a multiple.
pub mod Address
use joslab4_init.Base.{ℕ, ◌+◌, ◌-◌, ◌*◌, ◌/◌, ◌%◌, ◌^◌, bit_or, Bool, ◌==◌, ◌!=◌, u32}

abbrev pub pgsize : ℕ
pgsize = 4096

abbrev pub npdentries : ℕ
npdentries = 1024

abbrev pub ptsize : ℕ
ptsize = 4096 * 1024

abbrev pub kernbase : ℕ
kernbase = 0xF0000000

abbrev pub iophysmem : ℕ
iophysmem = 0x0A0000

abbrev pub extphysmem : ℕ
extphysmem = 0x100000

abbrev pub ulim : ℕ
ulim = kernbase - ptsize - ptsize

abbrev pub uvpt : ℕ
uvpt = ulim - ptsize

abbrev pub utop : ℕ
utop = uvpt - ptsize - ptsize

abbrev pub ustacktop : ℕ
ustacktop = utop - 2 * pgsize

abbrev pub mpentry_paddr : ℕ
mpentry_paddr = 0x7000

-- PGNUM, PDX, PTX, PGOFF
unfoldable pub pgnum : ℕ → ℕ
pgnum la = la / 2 ^ 12

unfoldable pub pdx : ℕ → ℕ
pdx la = la / 2 ^ 22 % 1024

unfoldable pub ptx : ℕ → ℕ
ptx la = la / 2 ^ 12 % 1024

unfoldable pub pgoff : ℕ → ℕ
pgoff la = la % 2 ^ 12

unfoldable pub pgaddr : ℕ → ℕ → ℕ → ℕ
pgaddr d t o = bit_or (bit_or (u32 (d * 2 ^ 22)) (u32 (t * 2 ^ 12))) o

-- Entry flags.
abbrev pub pte_p : ℕ
pte_p = 1

abbrev pub pte_w : ℕ
pte_w = 2

abbrev pub pte_u : ℕ
pte_u = 4

-- `pte & PTE_P`
abbrev pub present : ℕ → Bool
present pte = pte % 2 == 1

-- PTE_ADDR
unfoldable pub pte_addr : ℕ → ℕ
pte_addr pte = pte / 2 ^ 12 * 2 ^ 12

-- ROUNDDOWN and ROUNDUP, on `uint32_t`
unfoldable pub rounddown : ℕ → ℕ → ℕ
rounddown a n = a - a % n

unfoldable pub roundup : ℕ → ℕ → ℕ
unfolding rounddown
roundup a n = rounddown (u32 (a + n + (2 ^ 32 - 1))) n
