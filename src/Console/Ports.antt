-- ===== src/Console/Ports.antt =====
-- kern/console.c: the ports of the serial line, the parallel port and the screen's cursor. What a port
-- reads is the hardware's and may change with every read; `reads` counts them, and `outs` are the
-- port and the byte of each `outb`, the last one first.
use joslab4_init.Base.{
  ℕ, zero, suc, ◌+◌, ◌*◌, ◌/◌, ◌%◌, ◌^◌, Bool, bit_and, bit_or, List, ◌∷◌, ◌==◌, ◌!=◌,
  if◌then◌else◌,
}
use joslab4_init.Console.{Screen, attributed, put_char, scroll, Input, cons_getc}

pub record Io : Type 0 where
  pub reads : ℕ
  pub outs : List (ℕ × ℕ)

abbrev pub Ports : Type 0
Ports = (reads port : ℕ) → ℕ

abbrev pub com1 : ℕ
com1 = 0x3F8

abbrev pub lpt : ℕ
lpt = 0x378

abbrev inb : Ports → (port : ℕ) → Io → ℕ × Io
inb ports port io = (ports io.reads port, record io { reads = io.reads + 1 })

abbrev outb : (port byte : ℕ) → Io → Io
outb port byte io = record io { outs = (port, byte % 256) ∷ io.outs }

-- Four reads of port 0x84.
abbrev delay : Io → Io
delay io = record io { reads = io.reads + 4 }

-- The loop of `serial_putc` and `lpt_putc` with `n` rounds left of 12800: until a bit of `mask` is
-- read.
unfoldable pub wait_ready : Ports → (n port mask : ℕ) → Io → Io
wait_ready ports zero port mask io = (inb ports port io).1
wait_ready ports (suc n) port mask io =
    let (status, io') = inb ports port io in
    let rest = wait_ready ports n port mask (delay io') in
    if bit_and status mask != 0 then io' else rest

unfoldable pub serial_putc : Ports → (c : ℕ) → Io → Io
serial_putc ports c io = outb com1 c (wait_ready ports 12800 (com1 + 5) 0x20 io)

unfoldable pub lpt_putc : Ports → (c : ℕ) → Io → Io
lpt_putc ports c io =
    outb (lpt + 2) 8 (outb (lpt + 2) 13 (outb lpt c (wait_ready ports 12800 (lpt + 1) 0x80 io)))

-- `serial_init`, and `serial_exists`.
unfoldable pub serial_init : Ports → Io → Bool × Io
serial_init ports io =
    let set = outb (com1 + 1) 1 (
      outb (com1 + 4) 0 (
        outb (com1 + 3) 3
          (outb (com1 + 1) 0 (outb com1 12 (outb (com1 + 3) 0x80 (outb (com1 + 2) 0 io)))))) in
    let (status, io') = inb ports (com1 + 5) set in
    (status != 0xFF, (inb ports com1 (inb ports (com1 + 2) io').1).1)

-- `cga_init`: `is_colour` is whether the colour screen's memory keeps what is written to it. The
-- result are `addr_6845` and `crt_pos`.
unfoldable pub cga_init : Ports → (is_colour : Bool) → Io → (ℕ × ℕ) × Io
cga_init ports is_colour io =
    let addr = if is_colour then 0x3D4 else 0x3B4 in
    let (high, io1) = inb ports (addr + 1) (outb addr 14 io) in
    let (low, io2) = inb ports (addr + 1) (outb addr 15 io1) in
    ((addr, bit_or (high * 2 ^ 8) low % 2 ^ 16), io2)

pub record Devices : Type 0 where
  pub io : Io
  pub screen : Screen

-- The end of `cga_putc`.
abbrev pub move_cursor : (addr_6845 : ℕ) → Devices → Devices
move_cursor addr d =
    let pos = d.screen.crt_pos in
    record d {
      io = outb (addr + 1) pos (outb addr 15 (outb (addr + 1) (pos / 2 ^ 8) (outb addr 14 d.io)));
    }

abbrev pub to_lines : Ports → (c : ℕ) → Devices → Devices
to_lines ports c d = record d { io = lpt_putc ports c (serial_putc ports c d.io) }

-- `cons_putc` of a character that is not '\t'.
unfoldable pub put_plain : Ports → (addr_6845 c : ℕ) → Devices → Devices
put_plain ports addr c d =
    let d' = to_lines ports c d in move_cursor addr (record d' { screen = put_char c d'.screen })

-- `n` calls of `cons_putc(' ')`
unfoldable pub put_blanks : Ports → (addr_6845 n : ℕ) → Devices → Devices
put_blanks ports addr zero d = d
put_blanks ports addr (suc n) d = put_blanks ports addr n (put_plain ports addr 32 d)

unfoldable pub cons_putc : Ports → (addr_6845 c : ℕ) → Devices → Devices
cons_putc ports addr c d =
    if attributed c % 256 == 9
    then (let d' = put_blanks ports addr 5 (to_lines ports c d) in
        move_cursor addr (record d' { screen = scroll d'.screen }))
    else put_plain ports addr c d

-- `getchar` of the kernel, with fuel for its rounds; the two lists of a round are what the devices
-- deliver at its call of `cons_getc`.
pub data Got : Type 0 where
  got : ℕ → Input → Got
  waits : Got

unfoldable pub getchar :
    (fuel : ℕ) → (serial_exists : Bool) → (serial kbd : (round : ℕ) → List ℕ) → Input → Got
getchar zero exists serial kbd s = waits
getchar (suc fuel) exists serial kbd s =
    let (c, s') = cons_getc exists (serial fuel) (kbd fuel) s in
    let rest = getchar fuel exists serial kbd s' in if c == 0 then rest else got c s'
