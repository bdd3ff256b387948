-- ===== src/Entry.antt =====
-- kern/entrypgdir.c: the first page directory and its page table. `table` is the physical address of
-- the page table, where the linker places it.
use joslab4_init.Base.{
  ℕ, ◌+◌, ◌-◌, ◌*◌, ◌/◌, ◌%◌, ◌^◌, ◌<◌, ◌≡◌, Option, none, some, arith, ltb, leb, ◌==◌, ◌&&◌,
  if◌then◌else◌,
}
use joslab4_init.Mmu.{kernbase, pte_p, pte_w, pdx, ptx, pgoff, present, pte_addr}

unfoldable pub entry_pgdir : (table i : ℕ) → ℕ
entry_pgdir table i =
    if i == 0 then table + pte_p else if i == kernbase / 2 ^ 22 then table + pte_p + pte_w else 0

-- The entries of the source are written out; entry `i` is the page `i`.
unfoldable pub entry_pgtable : ℕ → ℕ
entry_pgtable i = i * 2 ^ 12 + pte_p + pte_w

-- Where an address leads through a directory whose present entries point to one table.
abbrev pub physical : (pgdir pgtable : ℕ → ℕ) → (va : ℕ) → Option ℕ
physical pgdir pgtable va =
    if present (pgdir (pdx va)) && present (pgtable (ptx va))
    then some (pte_addr (pgtable (ptx va)) + pgoff va)
    else none

-- The entry directory maps the addresses below 4 MB to themselves, the 4 MB from KERNBASE on to the
-- same physical addresses, and no other address; both of its entries point to the page table.
pub entry_maps :
    (table va : ℕ)
    → table % 4096 ≡ 0
    → va < 2 ^ 32
    → (physical (entry_pgdir table) entry_pgtable va ≡ (
        if ltb va 0x400000
        then some va
        else if leb kernbase va && ltb va (kernbase + 0x400000)
        then some (va - kernbase)
        else none))
      × (pte_addr (entry_pgdir table 0) ≡ table)
      × (pte_addr (entry_pgdir table (pdx kernbase)) ≡ table)
unfolding entry_pgdir entry_pgtable pdx ptx pgoff pte_addr
entry_maps table va h1 h2 = (ground arith, omega arith, omega arith)
