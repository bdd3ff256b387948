-- ===== src/Picirq.antt =====
-- kern/picirq.c: the writes that set up the interrupt controllers and their mask.
use joslab4_init.Base.{ℕ, ◌+◌, ◌/◌, ◌%◌, ◌^◌, Bool, true, List, [], ◌∷◌, ◌++◌, ◌!=◌, if◌then◌else◌}

abbrev pub io_pic1 : ℕ
io_pic1 = 0x20

abbrev pub io_pic2 : ℕ
io_pic2 = 0xA0

abbrev pub irq_slave : ℕ
irq_slave = 2

-- `writes` are the port and the byte of each `outb`.
pub record Pic : Type 0 where
  pub irq_mask : ℕ
  pub didinit : Bool
  pub writes : List (ℕ × ℕ)

abbrev pub outb : (port data_byte : ℕ) → Pic → Pic
outb port data_byte p = record p { writes = p.writes ++ (port, data_byte) ∷ [] }

unfoldable pub irq_setmask : (mask : ℕ) → Pic → Pic
irq_setmask mask p =
    let p1 = record p { irq_mask = mask } in
    if p1.didinit
    then outb (io_pic2 + 1) (mask / 2 ^ 8 % 256) (outb (io_pic1 + 1) (mask % 256) p1)
    else p1

abbrev pub outbs : List (ℕ × ℕ) → Pic → Pic
outbs [] p = p
outbs ((port, byte) ∷ rest) p = outbs rest (outb port byte p)

abbrev pub init_writes : List (ℕ × ℕ)
init_writes =
    (io_pic1 + 1, 0xFF)
    ∷ (io_pic2 + 1, 0xFF)
    ∷ (io_pic1, 0x11)
    ∷ (io_pic1 + 1, 32)
    ∷ (io_pic1 + 1, 2 ^ irq_slave)
    ∷ (io_pic1 + 1, 0x3)
    ∷ (io_pic2, 0x11)
    ∷ (io_pic2 + 1, 32 + 8)
    ∷ (io_pic2 + 1, irq_slave)
    ∷ (io_pic2 + 1, 0x01)
    ∷ (io_pic1, 0x68)
    ∷ (io_pic1, 0x0a)
    ∷ (io_pic2, 0x68)
    ∷ (io_pic2, 0x0a)
    ∷ []

unfoldable pub pic_init : Pic → Pic
pic_init p =
    let p1 = outbs init_writes (record p { didinit = true }) in
    if p1.irq_mask != 0xFFFF then irq_setmask p1.irq_mask p1 else p1
