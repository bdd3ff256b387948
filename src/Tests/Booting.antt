-- ===== src/Tests/Booting.antt =====
-- Tests on the boot loader and on the first page directory: a disk whose byte k is k modulo 256.
use joslab4_init.Base.{
  ℕ, ◌+◌, ◌-◌, ◌%◌, ◌*◌, ◌/◌, ◌≤◌, ◌<◌, ◌≡◌, ◌⊎◌, refl, none, some, arith, ltb, leb, ◌&&◌,
  if◌then◌else◌,
}
use joslab4_init.Memory.{Memory}
use joslab4_init.Mmu.{kernbase, pdx, pte_addr}
use joslab4_init.Boot.{Disk, readseg}
use joslab4_init.Boot.Sectors.{image, readseg-image}
use joslab4_init.Entry.{entry_pgdir, entry_pgtable, physical, entry_maps}

abbrev drive : Disk
drive sector byte = byte % 256

readseg-image_example :
    (mem' : Memory) × (readseg 12 drive 0x100010 4096 0x1010 (λ a. 0) ≡ some mem')
    × ((a : ℕ)
        → 0x100010 ≤ a
        → a < 0x100010 + 4096
        → mem' a ≡ image drive (0x1010 + (a - 0x100010)))
    × ((a : ℕ)
        → (a < 0x100010 - 0x100010 % 512) ⊎ ((0x100010 + 4096 + 511) / 512 * 512 ≤ a)
        → mem' a ≡ 0)
readseg-image_example =
    readseg-image 10 drive 0x100010 4096 0x1010 (λ a. 0) refl (omega arith) (omega arith)
      (omega arith)

entry_maps_example :
    (physical (entry_pgdir 0x118000) entry_pgtable 0xF0100123 ≡ (
      if ltb 0xF0100123 0x400000
      then some 0xF0100123
      else if leb kernbase 0xF0100123 && ltb 0xF0100123 (kernbase + 0x400000)
      then some (0xF0100123 - kernbase)
      else none))
    × (pte_addr (entry_pgdir 0x118000 0) ≡ 0x118000)
    × (pte_addr (entry_pgdir 0x118000 (pdx kernbase)) ≡ 0x118000)
entry_maps_example = entry_maps 0x118000 0xF0100123 refl (omega arith)
