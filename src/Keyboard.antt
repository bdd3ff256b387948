-- ===== src/Keyboard.antt =====
-- kern/console.c: the translation of scan codes. `stat` and `code` (the source's `data`) are what the ports of the keyboard
-- controller deliver, `none` is -1, and `shift` is its seven flags.
pub mod Release
use joslab4_init.Base.{
  ℕ, ◌+◌, ◌-◌, ◌/◌, ◌%◌, Bool, true, false, not, ◌&&◌, ◌||◌, Option, none, some, List, [], ◌∷◌,
  ◌==◌, leb, get_or, if◌then◌else◌,
}

pub record Shift : Type 0 where
  pub shift : Bool
  pub ctl : Bool
  pub alt : Bool
  pub capslock : Bool
  pub numlock : Bool
  pub scrolllock : Bool
  pub e0esc : Bool

-- `shiftcode`
abbrev pub is_shift : ℕ → Bool
is_shift d = (d == 0x2A) || (d == 0x36)

abbrev pub is_ctl : ℕ → Bool
is_ctl d = (d == 0x1D) || (d == 0x9D)

abbrev pub is_alt : ℕ → Bool
is_alt d = (d == 0x38) || (d == 0xB8)

abbrev pub xor : Bool → Bool → Bool
xor false b = b
xor true b = not b

-- `shift |= shiftcode[data]; shift ^= togglecode[data];`
unfoldable pub press : ℕ → Shift → Shift
press d s = record s {
  shift = s.shift || is_shift d;
  ctl = s.ctl || is_ctl d;
  alt = s.alt || is_alt d;
  capslock = xor s.capslock (d == 0x3A);
  numlock = xor s.numlock (d == 0x45);
  scrolllock = xor s.scrolllock (d == 0x46);
}

-- `shift &= ~(shiftcode[data] | E0ESC);`
unfoldable pub release : ℕ → Shift → Shift
release d s = record s {
  shift = s.shift && not (is_shift d);
  ctl = s.ctl && not (is_ctl d);
  alt = s.alt && not (is_alt d);
  e0esc = false;
}

-- The keys after 0x80, which the three maps share.
abbrev pub special : ℕ → ℕ
special d =
    if d == 0xC8
    then 0xE2
    else if d == 0xC9
    then 0xE6
    else if d == 0xCB
    then 0xE4
    else if d == 0xCD
    then 0xE5
    else if d == 0xCF
    then 0xE1
    else if d == 0xD0
    then 0xE3
    else if d == 0xD1
    then 0xE7
    else if d == 0xD2
    then 0xE8
    else if d == 0xD3
    then 0xE9
    else 0

abbrev pub normal_row : List ℕ
normal_row =
    0 ∷ 0x1B ∷ 49 ∷ 50 ∷ 51 ∷ 52 ∷ 53 ∷ 54 ∷ 55 ∷ 56 ∷ 57 ∷ 48 ∷ 45 ∷ 61 ∷ 8 ∷ 9 ∷ 113 ∷ 119 ∷ 101
    ∷ 114 ∷ 116 ∷ 121 ∷ 117 ∷ 105 ∷ 111 ∷ 112 ∷ 91 ∷ 93 ∷ 10 ∷ 0 ∷ 97 ∷ 115 ∷ 100 ∷ 102 ∷ 103 ∷ 104
    ∷ 106 ∷ 107 ∷ 108 ∷ 59 ∷ 39 ∷ 96 ∷ 0 ∷ 92 ∷ 122 ∷ 120 ∷ 99 ∷ 118 ∷ 98 ∷ 110 ∷ 109 ∷ 44 ∷ 46 ∷ 47
    ∷ 0 ∷ 42 ∷ 0 ∷ 32 ∷ 0 ∷ 0 ∷ 0 ∷ 0 ∷ 0 ∷ 0 ∷ 0 ∷ 0 ∷ 0 ∷ 0 ∷ 0 ∷ 0 ∷ 0 ∷ 55 ∷ 56 ∷ 57 ∷ 45 ∷ 52
    ∷ 53 ∷ 54 ∷ 43 ∷ 49 ∷ 50 ∷ 51 ∷ 48 ∷ 46 ∷ 0 ∷ 0 ∷ 0 ∷ 0 ∷ []

abbrev pub shift_row : List ℕ
shift_row =
    0 ∷ 27 ∷ 33 ∷ 64 ∷ 35 ∷ 36 ∷ 37 ∷ 94 ∷ 38 ∷ 42 ∷ 40 ∷ 41 ∷ 95 ∷ 43 ∷ 8 ∷ 9 ∷ 81 ∷ 87 ∷ 69 ∷ 82
    ∷ 84 ∷ 89 ∷ 85 ∷ 73 ∷ 79 ∷ 80 ∷ 123 ∷ 125 ∷ 10 ∷ 0 ∷ 65 ∷ 83 ∷ 68 ∷ 70 ∷ 71 ∷ 72 ∷ 74 ∷ 75 ∷ 76
    ∷ 58 ∷ 34 ∷ 126 ∷ 0 ∷ 124 ∷ 90 ∷ 88 ∷ 67 ∷ 86 ∷ 66 ∷ 78 ∷ 77 ∷ 60 ∷ 62 ∷ 63 ∷ 0 ∷ 42 ∷ 0 ∷ 32
    ∷ 0 ∷ 0 ∷ 0 ∷ 0 ∷ 0 ∷ 0 ∷ 0 ∷ 0 ∷ 0 ∷ 0 ∷ 0 ∷ 0 ∷ 0 ∷ 55 ∷ 56 ∷ 57 ∷ 45 ∷ 52 ∷ 53 ∷ 54 ∷ 43 ∷ 49
    ∷ 50 ∷ 51 ∷ 48 ∷ 46 ∷ 0 ∷ 0 ∷ 0 ∷ 0 ∷ []

abbrev pub ctl_row : List ℕ
ctl_row =
    0 ∷ 0 ∷ 0 ∷ 0 ∷ 0 ∷ 0 ∷ 0 ∷ 0 ∷ 0 ∷ 0 ∷ 0 ∷ 0 ∷ 0 ∷ 0 ∷ 0 ∷ 0 ∷ 17 ∷ 23 ∷ 5 ∷ 18 ∷ 20 ∷ 25 ∷ 21
    ∷ 9 ∷ 15 ∷ 16 ∷ 0 ∷ 0 ∷ 13 ∷ 0 ∷ 1 ∷ 19 ∷ 4 ∷ 6 ∷ 7 ∷ 8 ∷ 10 ∷ 11 ∷ 12 ∷ 0 ∷ 0 ∷ 0 ∷ 0 ∷ 28 ∷ 26
    ∷ 24 ∷ 3 ∷ 22 ∷ 2 ∷ 14 ∷ 13 ∷ 0 ∷ 0 ∷ 239 ∷ 0 ∷ 0 ∷ []

unfoldable pub normalmap : ℕ → ℕ
normalmap d =
    if d == 0x9C
    then 10
    else if d == 0xB5
    then 47
    else if d == 0xC7
    then 0xE0
    else get_or normal_row d (special d)

unfoldable pub shiftmap : ℕ → ℕ
shiftmap d =
    if d == 0x9C
    then 10
    else if d == 0xB5
    then 47
    else if d == 0xC7
    then 0xE0
    else get_or shift_row d (special d)

unfoldable pub ctlmap : ℕ → ℕ
ctlmap d = if d == 0xB5 then 239 else if d == 0x97 then 0xE0 else get_or ctl_row d (special d)

-- `charcode[shift & (CTL | SHIFT)][data]`
unfoldable pub charcode : Shift → ℕ → ℕ
charcode s d = if s.ctl then ctlmap d else if s.shift then shiftmap d else normalmap d

-- Letters change case under the caps lock.
unfoldable pub swap_case : ℕ → ℕ
swap_case c = if leb 97 c && leb c 122 then c - 32 else if leb 65 c && leb c 90 then c + 32 else c

-- What is returned, and the new flags; the write that reboots the machine on Ctrl-Alt-Del is left out.
unfoldable pub kbd_proc_data : (stat code : ℕ) → Shift → Option ℕ × Shift
kbd_proc_data stat code s =
    if not (stat % 2 == 1)
    then (none, s)
    else if stat / 32 % 2 == 1
    then (none, s)
    else if code == 0xE0
    then (some 0, record s { e0esc = true })
    else if leb 0x80 code
    then (some 0, release (if s.e0esc then code else code % 0x80) s)
    else (let d = if s.e0esc then code + 0x80 else code in
        let s' = press d (record s { e0esc = false }) in
        let c = charcode s' d in (some (if s'.capslock then swap_case c else c), s'))
