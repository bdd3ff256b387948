-- ===== src/Console/Start.antt =====
-- kern/console.c: `kbd_init` and `cons_init`. `cs` is what the keyboard delivers until its -1.
use joslab4_init.Base.{ℕ, ◌-◌, ◌/◌, ◌%◌, Bool, List, ◌==◌, if◌then◌else◌}
use joslab4_init.Picirq.{Pic, irq_setmask}
use joslab4_init.Console.{Input, cons_intr}
use joslab4_init.Console.Ports.{Io, Ports, serial_init, cga_init}

pub record Console : Type 0 where
  pub io : Io
  pub input : Input
  pub pic : Pic
  pub addr_6845 : ℕ
  pub crt_pos : ℕ
  pub serial_exists : Bool

abbrev pub kbd_intr : (cs : List ℕ) → Input → Input
kbd_intr = cons_intr

-- `mask & ~(1 << IRQ_KBD)`, where IRQ_KBD is 1.
abbrev pub without_kbd : ℕ → ℕ
without_kbd mask = if mask / 2 % 2 == 1 then mask - 2 else mask

unfoldable pub kbd_init : (cs : List ℕ) → Console → Console
kbd_init cs c = record c {
  input = kbd_intr cs c.input;
  pic = irq_setmask (without_kbd c.pic.irq_mask) c.pic;
}

unfoldable pub cons_init : Ports → (is_colour : Bool) → (cs : List ℕ) → Console → Console
cons_init ports is_colour cs c =
    let ((addr, pos), io1) = cga_init ports is_colour c.io in
    let c1 = kbd_init cs (record c { io = io1; addr_6845 = addr; crt_pos = pos }) in
    let (exists, io2) = serial_init ports c1.io in record c1 { io = io2; serial_exists = exists }
