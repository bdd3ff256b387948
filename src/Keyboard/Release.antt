-- ===== src/Keyboard/Release.antt =====
-- A key that is pressed and released.
use joslab4_init.Base.{
  ℕ, ◌+◌, ◌%◌, ◌<◌, ◌≡◌, ◌≢◌, refl, ap, ◌∙◌, Bool, true, false, not, ◌&&◌, ◌||◌, some, arith, ◌==◌,
}
use joslab4_init.Keyboard.{Shift, is_shift, is_ctl, is_alt, xor, press, release, kbd_proc_data}

-- The flags after the key `d` was pressed and released: held keys of this code are off, and the locks
-- that it toggles have changed.
abbrev pub tapped : ℕ → Shift → Shift
tapped d s = record s {
  shift = s.shift && not (is_shift d);
  ctl = s.ctl && not (is_ctl d);
  alt = s.alt && not (is_alt d);
  capslock = xor s.capslock (d == 0x3A);
  numlock = xor s.numlock (d == 0x45);
  scrolllock = xor s.scrolllock (d == 0x46);
  e0esc = false;
}

held_off : (b p : Bool) → (b || p) && not p ≡ b && not p
held_off true true = refl
held_off true false = refl
held_off false true = refl
held_off false false = refl

-- The flags after a plain key is pressed.
pressed :
    (d : ℕ) (s : Shift)
    → s.e0esc ≡ false
    → d < 0x80
    → (kbd_proc_data 1 d s).1 ≡ press d (record s { e0esc = false })
unfolding kbd_proc_data
pressed d s plain h = ground arith

-- The flags after a plain key is released.
let_go :
    (d : ℕ) (s : Shift)
    → s.e0esc ≡ false
    → d < 0x80
    → d ≢ 0x60
    → kbd_proc_data 1 (d + 0x80) s ≡ (some 0, release d s)
unfolding kbd_proc_data
let_go d s plain h other =
    let low : (d + 0x80) % 0x80 ≡ d = omega arith in rw (plain, low) (ground arith)

release-press : (d : ℕ) (s : Shift) → release d (press d (record s { e0esc = false })) ≡ tapped d s
unfolding release press
release-press d s =
    rw (held_off s.shift (is_shift d), held_off s.ctl (is_ctl d), held_off s.alt (is_alt d)) refl

pressed_plain : (d : ℕ) (s : Shift) → (press d (record s { e0esc = false })).e0esc ≡ false
unfolding press
pressed_plain d s = refl

-- Pressing and releasing a key of a one-byte code, with no escape code pending, leaves the flags of
-- held keys as they were but for those of this key, which are off, flips the locks that the key
-- toggles, and reads 0 for the release.
pub kbd-tapped :
    (d : ℕ) (s : Shift)
    → s.e0esc ≡ false
    → d < 0x80
    → d ≢ 0x60
    → kbd_proc_data 1 (d + 0x80) (kbd_proc_data 1 d s).1 ≡ (some 0, tapped d s)
kbd-tapped d s plain h other =
    let first = pressed d s plain h in
    ap (λ (t : Shift). kbd_proc_data 1 (d + 0x80) t) first
    ∙ let_go d (press d (record s { e0esc = false })) (pressed_plain d s) h other
    ∙ ap (λ (t : Shift). (some 0, t)) (release-press d s)
