-- ===== src/Console/Bounds.antt =====
-- `cga_putc` keeps the cursor on the screen and writes nowhere else.
use joslab4_init.Base.{ℕ, ◌+◌, ◌%◌, ◌≤◌, ◌<◌, ◌≡◌, ◌∙◌, arith, ◌==◌, Bool-cases, inl, inr}
use joslab4_init.Console.{
  Screen, crt_cols, crt_size, attributed, place, scroll, put_char, put_tab, cga_putc,
}

-- The cursor is on the screen, and the memory behind the screen is that of `s`.
pub record Within (s s' : Screen) : Type 0 where
  pub cursor : s'.crt_pos < crt_size
  pub outside : (i : ℕ) → crt_size ≤ i → s'.crt_buf i ≡ s.crt_buf i

place_bound :
    (c : ℕ) (s : Screen) → s.crt_pos < crt_size → (place c s).crt_pos < crt_size + crt_cols
unfolding place
place_bound c s h = ground arith

place_outside :
    (c : ℕ) (s : Screen) (i : ℕ)
    → s.crt_pos < crt_size
    → crt_size ≤ i
    → (place c s).crt_buf i ≡ s.crt_buf i
unfolding place
place_outside c s i h g = ground arith

scroll-Within : (s : Screen) → s.crt_pos < crt_size + crt_cols → Within s (scroll s)
unfolding scroll
scroll-Within s h = record { cursor = ground arith; outside = λ i g. ground arith }

Within-trans : (s t u : Screen) → Within s t → Within t u → Within s u
Within-trans s t u v w = record {
  cursor = w.cursor;
  outside = λ i h. w.outside i h ∙ v.outside i h;
}

put_char-Within : (c : ℕ) (s : Screen) → s.crt_pos < crt_size → Within s (put_char c s)
unfolding put_char
put_char-Within c s h =
    let t = place (attributed c) s in
    let w = scroll-Within t (place_bound (attributed c) s h) in
    record {
      cursor = w.cursor;
      outside = λ i g. w.outside i g ∙ place_outside (attributed c) s i h g;
    }

put_next : (s t : Screen) → Within s t → Within s (put_char 32 t)
put_next s t w = Within-trans s t (put_char 32 t) w (put_char-Within 32 t (w.cursor))

put_tab-Within : (s : Screen) → s.crt_pos < crt_size → Within s (put_tab s)
unfolding put_tab
put_tab-Within s h =
    let w = put_next s _ (put_next s _ (put_next s _ (put_next s _ (put_char-Within 32 s h)))) in
    Within-trans s _ _ w (scroll-Within _ (omega (arith, w.cursor)))

-- From a cursor on the screen, `cga_putc` of any character leaves it on the screen, and does not
-- write behind the screen's buffer, tabs and scrolling included.
pub cga_putc-Within : (c : ℕ) (s : Screen) → s.crt_pos < crt_size → Within s (cga_putc c s)
unfolding cga_putc
cga_putc-Within c s h = elim (Bool-cases (attributed c % 256 == 9)) [
  | inl tab ↦ rw tab (put_tab-Within s h)
  | inr other ↦ rw other (put_char-Within c s h)
]
