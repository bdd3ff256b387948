-- ===== src/Console/Sent.antt =====
-- What `cons_putc` sends to the serial line, to the parallel port and to the screen.
use joslab4_init.Base.{
  ℕ, zero, suc, ◌+◌, ◌%◌, ◌≡◌, inl, inr, refl, ap, ◌∙◌, Bool, true, false, Bool-cases, List, [],
  ◌∷◌, bit_and, ◌==◌, ◌!=◌, if◌then◌else◌,
}
use joslab4_init.Console.{attributed, put_char, put_tab, scroll, cga_putc}
use joslab4_init.Console.Ports.{
  Io, Ports, com1, lpt, wait_ready, serial_putc, lpt_putc, Devices, put_plain, put_blanks,
  cons_putc, to_lines, move_cursor,
}

-- The bytes that were sent to a port, the last one first.
unfoldable pub bytes_to : (port : ℕ) → List (ℕ × ℕ) → List ℕ
bytes_to port [] = []
bytes_to port ((p, byte) ∷ outs) =
    if p == port then byte ∷ bytes_to port outs else bytes_to port outs

-- Waiting sends nothing, whatever the port reads.
wait_ready-outs :
    (ports : Ports) (n port mask : ℕ) (io : Io) → (wait_ready ports n port mask io).outs ≡ io.outs
unfolding wait_ready
wait_ready-outs ports zero port mask io = refl
wait_ready-outs ports (suc n) port mask io =
    elim (Bool-cases (bit_and (ports io.reads port) mask != 0)) [
      | inl ready ↦ rw ready refl
      | inr busy ↦
          rw busy (wait_ready-outs ports n port mask (record io { reads = io.reads + 1 + 4 }))
    ]

-- The addresses of the cursor's registers, for colour and for monochrome, and the ports that take the
-- bytes of the serial line and of the parallel port.
abbrev pub crt_address : (is_colour : Bool) → ℕ
crt_address true = 0x3D4
crt_address false = 0x3B4

abbrev pub line_port : (is_serial : Bool) → ℕ
line_port true = com1
line_port false = lpt

-- What a character's bytes are on a line: a tab is followed by the five blanks that `cga_putc` makes
-- of it.
abbrev pub on_line : (c : ℕ) → List ℕ → List ℕ
on_line c before =
    if attributed c % 256 == 9 then 32 ∷ 32 ∷ 32 ∷ 32 ∷ 32 ∷ c % 256 ∷ before else c % 256 ∷ before

to_lines-outs :
    (ports : Ports) (c : ℕ) (d : Devices)
    → (to_lines ports c d).io.outs
      ≡ (lpt + 2, 8) ∷ (lpt + 2, 13) ∷ (lpt, c % 256) ∷ (com1, c % 256) ∷ d.io.outs
unfolding lpt_putc serial_putc
to_lines-outs ports c d =
    ap (λ (o : List (ℕ × ℕ)). (lpt + 2, 8) ∷ (lpt + 2, 13) ∷ (lpt, c % 256) ∷ o)
      (wait_ready-outs ports 12800 (lpt + 1) 0x80 (serial_putc ports c d.io)
        ∙ ap (λ (o : List (ℕ × ℕ)). (com1, c % 256) ∷ o)
            (wait_ready-outs ports 12800 (com1 + 5) 0x20 d.io))

line_bytes :
    (ports : Ports) (is_serial : Bool) (c : ℕ) (d : Devices)
    → bytes_to (line_port is_serial) (to_lines ports c d).io.outs
      ≡ c % 256 ∷ bytes_to (line_port is_serial) d.io.outs
unfolding bytes_to
line_bytes ports true c d = ap (bytes_to com1) (to_lines-outs ports c d)
line_bytes ports false c d = ap (bytes_to lpt) (to_lines-outs ports c d)

cursor_bytes :
    (is_colour is_serial : Bool) (d : Devices)
    → bytes_to (line_port is_serial) (move_cursor (crt_address is_colour) d).io.outs
      ≡ bytes_to (line_port is_serial) d.io.outs
unfolding bytes_to
cursor_bytes true true d = refl
cursor_bytes true false d = refl
cursor_bytes false true d = refl
cursor_bytes false false d = refl

plain_bytes :
    (ports : Ports) (is_colour is_serial : Bool) (c : ℕ) (d : Devices)
    → bytes_to (line_port is_serial) (put_plain ports (crt_address is_colour) c d).io.outs
      ≡ c % 256 ∷ bytes_to (line_port is_serial) d.io.outs
unfolding put_plain
plain_bytes ports is_colour is_serial c d =
    let d' = to_lines ports c d in
    cursor_bytes is_colour is_serial (record d' { screen = put_char c d'.screen })
    ∙ line_bytes ports is_serial c d

blanks_after : (n : ℕ) → List ℕ → List ℕ
blanks_after zero before = before
blanks_after (suc n) before = blanks_after n (32 ∷ before)

blank_bytes :
    (ports : Ports) (is_colour is_serial : Bool) (n : ℕ) (d : Devices)
    → bytes_to (line_port is_serial) (put_blanks ports (crt_address is_colour) n d).io.outs
      ≡ blanks_after n (bytes_to (line_port is_serial) d.io.outs)
unfolding put_blanks blanks_after
blank_bytes ports is_colour is_serial zero d = refl
blank_bytes ports is_colour is_serial (suc n) d =
    blank_bytes ports is_colour is_serial n (put_plain ports (crt_address is_colour) 32 d)
    ∙ ap (blanks_after n) (plain_bytes ports is_colour is_serial 32 d)

tab_bytes :
    (ports : Ports) (is_colour is_serial : Bool) (c : ℕ) (d : Devices)
    → let d' = put_blanks ports (crt_address is_colour) 5 (to_lines ports c d) in
      bytes_to
        (line_port is_serial)
        (move_cursor (crt_address is_colour) (record d' { screen = scroll d'.screen })).io.outs
      ≡ 32 ∷ 32 ∷ 32 ∷ 32 ∷ 32 ∷ c % 256 ∷ bytes_to (line_port is_serial) d.io.outs
unfolding blanks_after
tab_bytes ports is_colour is_serial c d =
    let d' = put_blanks ports (crt_address is_colour) 5 (to_lines ports c d) in
    cursor_bytes is_colour is_serial (record d' { screen = scroll d'.screen })
    ∙ blank_bytes ports is_colour is_serial 5 (to_lines ports c d)
    ∙ ap (blanks_after 5) (line_bytes ports is_serial c d)

-- Whatever the devices answer, `cons_putc` returns, changes the screen as `cga_putc` does on the
-- screen alone, and sends the character once to the serial line and once to the parallel port; a tab
-- is followed there by the five blanks that it is on the screen.
pub cons_putc-bytes_to :
    (ports : Ports) (is_colour is_serial : Bool) (c : ℕ) (d : Devices)
    → ((cons_putc ports (crt_address is_colour) c d).screen ≡ cga_putc c d.screen)
      × (bytes_to (line_port is_serial) (cons_putc ports (crt_address is_colour) c d).io.outs
          ≡ on_line c (bytes_to (line_port is_serial) d.io.outs))
unfolding cons_putc put_plain put_blanks cga_putc put_tab
cons_putc-bytes_to ports is_colour is_serial c d = elim (Bool-cases (attributed c % 256 == 9)) [
  | inl tab ↦ (rw tab refl, rw tab (tab_bytes ports is_colour is_serial c d))
  | inr plain ↦ (rw plain refl, rw plain (plain_bytes ports is_colour is_serial c d))
]
