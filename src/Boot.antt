-- ===== src/Boot.antt =====
-- boot/main.c: reading the kernel from the disk. The disk is a parameter: the bytes of each sector.
pub mod Sectors
use joslab4_init.Base.{
  ℕ, zero, suc, ◌+◌, ◌-◌, ◌*◌, ◌/◌, ◌%◌, ◌^◌, Bool, true, false, ◌&&◌, Option, none, some, ltb, leb,
  ◌==◌, u32, if◌then◌else◌,
}
use joslab4_init.Memory.{Memory, word16, word}

abbrev pub sectsize : ℕ
sectsize = 512

abbrev pub Disk : Type 0
Disk = (sector byte : ℕ) → ℕ

-- The drive gets 28 bits of the sector's number.
abbrev pub readsect : Disk → (dst offset : ℕ) → Memory → Memory
readsect disk dst offset mem a =
    if leb dst a && ltb a (dst + 512) then disk (offset % 2 ^ 28) (a - dst) else mem a

unfoldable pub read_sectors : (fuel : ℕ) → Disk → (pa end_pa offset : ℕ) → Memory → Option Memory
read_sectors zero disk pa end_pa offset mem = none
read_sectors (suc fuel) disk pa end_pa offset mem =
    let rest =
      read_sectors fuel disk (u32 (pa + 512)) end_pa (u32 (offset + 1))
        (readsect disk pa offset mem) in
    if ltb pa end_pa then rest else some mem

-- `fuel` bounds the number of sectors.
unfoldable pub readseg : (fuel : ℕ) → Disk → (pa count offset : ℕ) → Memory → Option Memory
readseg fuel disk pa count offset mem =
    read_sectors fuel disk (pa - pa % 512) (u32 (pa + count)) (u32 (offset / 512 + 1)) mem

abbrev pub elfhdr : ℕ
elfhdr = 0x10000

abbrev pub elf_magic : ℕ
elf_magic = 0x464C457F

-- The bytes of a segment that are not in the file.
abbrev pub clear_rest : (p_pa p_filesz p_memsz : ℕ) → Memory → Memory
clear_rest p_pa p_filesz p_memsz mem a =
    if leb (p_pa + p_filesz) a && ltb a (p_pa + p_filesz + u32 (p_memsz + 2 ^ 32 - p_filesz))
    then 0
    else mem a

-- The `n` program headers from `ph` on, each read when its turn comes.
unfoldable pub load_segments : (fuel : ℕ) → Disk → (ph n : ℕ) → Memory → Option Memory
load_segments fuel disk ph zero mem = some mem
load_segments fuel disk ph (suc n) mem =
    elim (readseg fuel disk (word mem (ph + 12)) (word mem (ph + 20)) (word mem (ph + 4)) mem) [
      | none ↦ none
      | some m ↦
          load_segments fuel disk (ph + 32) n
            (clear_rest (word m (ph + 12)) (word m (ph + 16)) (word m (ph + 20)) m)
    ]

-- `bad` is the endless loop, `entered` the call of the kernel's entry point.
pub data Booted : Type 0 where
  entered : (entry : ℕ) → Memory → Booted
  bad : Booted
  lacks_fuel : Booted

abbrev pub enter : Option Memory → Booted
enter none = lacks_fuel
enter (some mem) = entered (word mem (elfhdr + 24)) mem

abbrev pub load : (fuel : ℕ) → Disk → Option Memory → Booted
load fuel disk none = lacks_fuel
load fuel disk (some mem) =
    if word mem elfhdr == elf_magic
    then enter
        (load_segments fuel disk (elfhdr + word mem (elfhdr + 28)) (word16 mem (elfhdr + 44)) mem)
    else bad

unfoldable pub bootmain : (fuel : ℕ) → Disk → Memory → Booted
bootmain fuel disk mem = load fuel disk (readseg fuel disk elfhdr (sectsize * 8) 0 mem)
