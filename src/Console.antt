-- ===== src/Console.antt =====
-- kern/console.c: the input buffer and the text screen. What a device's `proc` returns until its -1 is
-- a list of `int`s, of which the buffer keeps the low byte; the ports themselves are left out.
pub mod Queue
pub mod Bounds
pub mod Ports
pub mod Sent
pub mod Start
use joslab4_init.Base.{
  ℕ, suc, ◌+◌, ◌-◌, ◌*◌, ◌/◌, ◌%◌, ◌^◌, Bool, true, false, ◌&&◌, List, [], ◌∷◌, ltb, leb, ◌==◌,
  ◌!=◌, update, bit_or, if◌then◌else◌,
}

abbrev pub consbufsize : ℕ
consbufsize = 512

-- `cons`
pub record Input : Type 0 where
  pub buf : ℕ → ℕ
  pub rpos : ℕ
  pub wpos : ℕ

-- The rounds of `cons_intr` that read a character.
unfoldable pub cons_intr : List ℕ → Input → Input
cons_intr [] s = s
cons_intr (c ∷ cs) s =
    if c == 0
    then cons_intr cs s
    else cons_intr cs (record s {
      buf = update s.buf s.wpos (c % 256);
      wpos = if s.wpos + 1 == consbufsize then 0 else s.wpos + 1;
    })

unfoldable pub serial_intr : (serial_exists : Bool) → List ℕ → Input → Input
serial_intr serial_exists cs s = if serial_exists then cons_intr cs s else s

-- `cons_getc` after it has polled the devices.
unfoldable pub grab : Input → ℕ × Input
grab s =
    if s.rpos != s.wpos
    then (s.buf s.rpos, record s { rpos = if s.rpos + 1 == consbufsize then 0 else s.rpos + 1 })
    else (0, s)

unfoldable pub cons_getc : (serial_exists : Bool) → (serial kbd : List ℕ) → Input → ℕ × Input
cons_getc serial_exists serial kbd s = grab (cons_intr kbd (serial_intr serial_exists serial s))

abbrev pub crt_rows : ℕ
crt_rows = 25

abbrev pub crt_cols : ℕ
crt_cols = 80

abbrev pub crt_size : ℕ
crt_size = crt_rows * crt_cols

pub record Screen : Type 0 where
  pub crt_buf : ℕ → ℕ
  pub crt_pos : ℕ  -- uint16_t

-- `c |= 0x0700` if no attribute is given.
unfoldable pub attributed : ℕ → ℕ
attributed c = if c / 256 == 0 then bit_or c 0x0700 else c

-- The switch of `cga_putc` but for '\t'.
unfoldable pub place : (c : ℕ) → Screen → Screen
place c s =
    let low = c % 256 in
    let down = (s.crt_pos + crt_cols) % 2 ^ 16 in
    if low == 8
    then (if ltb 0 s.crt_pos
        then record s {
          crt_pos = s.crt_pos - 1;
          crt_buf = update s.crt_buf (s.crt_pos - 1) (bit_or (c / 256 * 256) 32 % 2 ^ 16);
        }
        else s)
    else if low == 10
    then record s { crt_pos = down - down % crt_cols }
    else if low == 13
    then record s { crt_pos = s.crt_pos - s.crt_pos % crt_cols }
    else record s {
      crt_buf = update s.crt_buf s.crt_pos (c % 2 ^ 16);
      crt_pos = (s.crt_pos + 1) % 2 ^ 16;
    }

-- `memmove` of all rows but the first, and a blank last row.
unfoldable pub scroll : Screen → Screen
scroll s =
    if leb crt_size s.crt_pos
    then record {
      crt_buf = λ i.
          if ltb i (crt_size - crt_cols)
          then s.crt_buf (i + crt_cols)
          else if ltb i crt_size
          then 0x0720
          else s.crt_buf i;
      crt_pos = s.crt_pos - crt_cols;
    }
    else s

-- `cga_putc` of any character but '\t'.
unfoldable pub put_char : (c : ℕ) → Screen → Screen
put_char c s = scroll (place (attributed c) s)

-- The calls of `cons_putc(' ')` for a tab write the screen by `cga_putc(' ')`.
unfoldable pub put_tab : Screen → Screen
put_tab s = scroll (put_char 32 (put_char 32 (put_char 32 (put_char 32 (put_char 32 s)))))

unfoldable pub cga_putc : (c : ℕ) → Screen → Screen
cga_putc c s = if attributed c % 256 == 9 then put_tab s else put_char c s
