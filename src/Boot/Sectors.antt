-- ===== src/Boot/Sectors.antt =====
-- `readseg` loads a range of the kernel's image.
use native.Mathlib.Decide.{dec_lt}
use joslab4_init.Base.{
  ℕ, zero, suc, ◌+◌, ◌-◌, ◌*◌, ◌/◌, ◌%◌, ◌^◌, ◌≤◌, ◌<◌, ◌≡◌, ◌⊎◌, ◌∙◌, ap, refl, inl, some, arith,
  true, false, ltb, leb, ◌&&◌, u32, lt→ltb, le→ltb,
}
use joslab4_init.Memory.{Memory}
use joslab4_init.Boot.{Disk, readsect, read_sectors, readseg}

-- The image starts at sector 1.
abbrev pub image : Disk → ℕ → ℕ
image disk k = disk (k / 512 + 1) (k % 512)

-- From `pa` up to `end` stands the image from its byte `k` on; outside the sectors that it takes from
-- `pa` on nothing has changed.
record Loaded (disk : Disk) (pa end k : ℕ) (mem mem' : Memory) : Type 0 where
  loaded : (a : ℕ) → pa ≤ a → a < end → mem' a ≡ image disk (k + (a - pa))
  same : (a : ℕ) → (a < pa) ⊎ (pa + (end - pa + 511) / 512 * 512 ≤ a) → mem' a ≡ mem a

sector-image :
    (disk : Disk) (pa s a : ℕ) (mem : Memory)
    → s + 1 < 2 ^ 28
    → pa ≤ a
    → a < pa + 512
    → readsect disk pa (s + 1) mem a ≡ image disk (s * 512 + (a - pa))
sector-image disk pa s a mem h1 h2 h3 =
    let inside : (leb pa a && ltb a (pa + 512)) ≡ true = ground arith in
    let e1 : (s + 1) % 2 ^ 28 ≡ s + 1 = omega arith in
    let e2 : (s * 512 + (a - pa)) / 512 + 1 ≡ s + 1 = omega arith in
    let e3 : (s * 512 + (a - pa)) % 512 ≡ a - pa = omega arith in rw (inside, e1, e2, e3) refl

sector_same :
    (disk : Disk) (pa o a : ℕ) (mem : Memory)
    → (a < pa) ⊎ (pa + 512 ≤ a)
    → readsect disk pa o mem a ≡ mem a
sector_same disk pa o a mem h =
    let outside : (leb pa a && ltb a (pa + 512)) ≡ false = ground arith in rw outside refl

Loaded-step :
    (disk : Disk) (pa end s : ℕ) (mem mem' : Memory)
    → s + 1 < 2 ^ 28
    → pa < end
    → Loaded disk (pa + 512) end (suc s * 512) (readsect disk pa (s + 1) mem) mem'
    → Loaded disk pa end (s * 512) mem mem'
Loaded-step disk pa end s mem mem' h1 h2 l = record {
  loaded = λ a g1 g2. elim (dec_lt a (pa + 512)) [
    | yes here ↦ l.same a (inl here) ∙ sector-image disk pa s a mem h1 g1 here
    | no later ↦ l.loaded a (omega arith) g2 ∙ ap (image disk) (omega arith)
  ];
  same = λ a out. l.same a (omega arith) ∙ sector_same disk pa (s + 1) a mem (omega arith);
}

read_sectors-Loaded :
    (fuel : ℕ) (disk : Disk) (pa end s : ℕ) (mem : Memory)
    → end + 512 < 2 ^ 32
    → s + (end - pa) < 2 ^ 28 - 1
    → end - pa ≤ 512 * fuel
    → (mem' : Memory) × (read_sectors (suc fuel) disk pa end (s + 1) mem ≡ some mem')
      × Loaded disk pa end (s * 512) mem mem'
unfolding read_sectors
read_sectors-Loaded zero disk pa end s mem h1 h2 h3 =
    rw (le→ltb pa end (omega arith))
      (mem, refl, record { loaded = λ a g1 g2. absurd (omega arith); same = λ a out. refl })
read_sectors-Loaded (suc fuel) disk pa end s mem h1 h2 h3 = elim (dec_lt pa end) [
  | no done ↦
      rw (le→ltb pa end (omega arith))
        (mem, refl, record { loaded = λ a g1 g2. absurd (omega arith); same = λ a out. refl })
  | yes more ↦
      let e1 : u32 (pa + 512) ≡ pa + 512 = omega arith in
      let e2 : u32 (s + 1 + 1) ≡ suc s + 1 = omega arith in
      let (mem', ran, l) =
        read_sectors-Loaded fuel disk (pa + 512) end (suc s) (readsect disk pa (s + 1) mem) h1
          (omega arith) (omega arith) in
      rw (lt→ltb pa end more, e1, e2)
        (mem', ran, Loaded-step disk pa end s mem mem' (omega arith) more l)
]

readseg-read_sectors :
    (fuel : ℕ) (disk : Disk) (pa count offset : ℕ) (mem : Memory)
    → pa + count < 2 ^ 32
    → offset < 2 ^ 27
    → readseg fuel disk pa count offset mem
      ≡ read_sectors fuel disk (pa - pa % 512) (pa + count) (offset / 512 + 1) mem
unfolding readseg
readseg-read_sectors fuel disk pa count offset mem h1 h2 =
    let e1 : u32 (pa + count) ≡ pa + count = omega arith in
    let e2 : u32 (offset / 512 + 1) ≡ offset / 512 + 1 = omega arith in rw (e1, e2) refl

-- Reading a segment whose address and offset agree modulo the sector size, from the image's first
-- 2 ^ 27 bytes, to an address range that ends a page below the top: with one round more than sectors
-- it ends, and `count` bytes of the image from `offset` on stand at `pa`; below the last sector boundary
-- up to `pa` and from the first one at or behind the end of the range on nothing has changed.
pub readseg-image :
    (fuel : ℕ) (disk : Disk) (pa count offset : ℕ) (mem : Memory)
    → pa % 512 ≡ offset % 512
    → pa + count < 2 ^ 32 - 4096
    → offset + count < 2 ^ 27
    → count < 512 * fuel
    → (mem' : Memory) × (readseg (suc (suc fuel)) disk pa count offset mem ≡ some mem')
      × ((a : ℕ) → pa ≤ a → a < pa + count → mem' a ≡ image disk (offset + (a - pa)))
      × ((a : ℕ) → (a < pa - pa % 512) ⊎ ((pa + count + 511) / 512 * 512 ≤ a) → mem' a ≡ mem a)
readseg-image fuel disk pa count offset mem e h1 h2 h3 =
    let (mem', ran, l) =
      read_sectors-Loaded (suc fuel) disk (pa - pa % 512) (pa + count) (offset / 512) mem
        (omega arith) (omega arith) (omega arith) in
    (
      mem',
      readseg-read_sectors (suc (suc fuel)) disk pa count offset mem (omega arith) (omega arith)
          ∙ ran,
      λ a g1 g2. l.loaded a (omega arith) g2 ∙ ap (image disk) (omega arith),
      λ a out. l.same a (omega arith),
    )
