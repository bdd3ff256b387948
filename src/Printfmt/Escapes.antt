-- ===== src/Printfmt/Escapes.antt =====
-- Escape sequences of a format end, and the format goes on behind their percent sign and in front of
-- its NUL.
use native.Mathlib.Decide.{dec_lt}
use mathlib.Core.Path.{subst}
use joslab4_init.Base.{
  ℕ, zero, suc, ◌+◌, ◌-◌, ◌*◌, ◌≤◌, ◌<◌, ◌≡◌, ◌≢◌, ◌⊎◌, ◌∙◌, ap, refl, sym, inl, inr, Bool, true,
  false, ◌&&◌, ◌||◌, some, List, [], ◌∷◌, arith, leb, ltb, ◌==◌, if◌then◌else◌, Bool-cases,
}
use joslab4_init.Memory.{Memory}
use joslab4_init.Printfmt.{
  printed, no_args, out_of_fuel, Flags, read_number, Step, flag, conversion, lacks_args, lacks_fuel,
  number_step, star_step, step, Escape, read_escape,
}
use joslab4_init.Printfmt.Convert.{
  rewind, Kind, character, error, string, decimal, number, pointer, percent, other, resume_at,
}
use joslab4_init.Printfmt.Ends.{Ends, Words}

read_number_ends :
    (n fuel : ℕ) (m : Memory) (fmt ch p : ℕ)
    → n < fuel
    → m (fmt + n) ≡ 0
    → (q : ℕ) × (fmt' : ℕ) × (read_number fuel m fmt ch p ≡ some (q, fmt'))
      × (fmt ≤ fmt')
      × (fmt' ≤ fmt + n)
unfolding read_number
read_number_ends n zero m fmt ch p h e = absurd (omega arith)
read_number_ends zero (suc fuel) m fmt ch p h e =
    let here : m fmt ≡ 0 = ap m (omega arith) ∙ e in
    (p * 10 + (ch - 48), fmt, rw here refl, omega arith, omega arith)
read_number_ends (suc n) (suc fuel) m fmt ch p h e =
    elim (Bool-cases (ltb (m fmt) 48 || ltb 57 (m fmt))) [
      | inl stop ↦ (p * 10 + (ch - 48), fmt, rw stop refl, omega arith, omega arith)
      | inr more ↦
          let (q, fmt', ran, h1, h2) =
            read_number_ends n fuel m (suc fmt) (m fmt) (p * 10 + (ch - 48)) (omega arith)
              (ap m (omega arith) ∙ e) in
          (q, fmt', rw more ran, omega arith, omega arith)
    ]

-- A flag moves on in the format, up to its end; else the character ends the escape sequence.
StepOk : (m : Memory) (fmt end : ℕ) → Step → Type 0
StepOk m fmt end (flag fmt' fl ap) = (fmt < fmt') × (fmt' ≤ end) × Words ap
StepOk m fmt end (conversion ch) = ch ≡ m fmt
StepOk m fmt end lacks_args = Unit
StepOk m fmt end lacks_fuel = ⊥

StepOk-if :
    (m : Memory) (fmt end : ℕ) (b : Bool) (s s' : Step)
    → (b ≡ true → StepOk m fmt end s)
    → StepOk m fmt end s'
    → StepOk m fmt end (if b then s else s')
StepOk-if m fmt end true s s' h h' = h refl
StepOk-if m fmt end false s s' h h' = h'

star_step-StepOk :
    (m : Memory) (fmt end : ℕ) (fl : Flags) (ap : List ℕ)
    → suc fmt ≤ end
    → Words ap
    → StepOk m fmt end (star_step (suc fmt) fl ap)
unfolding StepOk
star_step-StepOk m fmt end fl [] h w = tt
star_step-StepOk m fmt end fl (a ∷ ap) h (w, ws) = (omega arith, h, ws)

number_step-StepOk :
    (limit : ℕ) (m : Memory) (fmt end : ℕ) (fl : Flags) (ap : List ℕ)
    → suc fmt ≤ end
    → end - fmt < limit
    → m end ≡ 0
    → Words ap
    → StepOk m fmt end (number_step (read_number limit m (suc fmt) (m fmt) 0) fl ap)
unfolding StepOk
number_step-StepOk limit m fmt end fl ap h room e w =
    let place : suc fmt + (end - suc fmt) ≡ end = omega arith in
    let (q, fmt', ran, h1, h2) =
      read_number_ends (end - suc fmt) limit m (suc fmt) (m fmt) 0 (omega arith) (rw place e) in
    rw ran (omega arith, omega arith, w)

-- A character that is not NUL does not end the format.
inside : (m : Memory) (fmt end : ℕ) → fmt ≤ end → m end ≡ 0 → m fmt ≢ 0 → suc fmt ≤ end
inside m fmt end h e nz = elim (dec_lt fmt end) [
  | yes less ↦ less
  | no more ↦ absurd (nz (ap m (omega arith) ∙ e))
]

flag-StepOk :
    (m : Memory) (fmt end : ℕ) (fl : Flags) (ap : List ℕ)
    → fmt ≤ end
    → m end ≡ 0
    → Words ap
    → m fmt ≢ 0
    → StepOk m fmt end (flag (suc fmt) fl ap)
unfolding StepOk
flag-StepOk m fmt end fl ap h e w nz = (omega arith, inside m fmt end h e nz, w)

conversion-StepOk : (m : Memory) (fmt end : ℕ) → StepOk m fmt end (conversion (m fmt))
unfolding StepOk
conversion-StepOk m fmt end = refl

step-StepOk :
    (limit : ℕ) (m : Memory) (fmt end : ℕ) (fl : Flags) (ap : List ℕ)
    → fmt ≤ end
    → end - fmt < limit
    → m end ≡ 0
    → Words ap
    → StepOk m fmt end (step limit m fmt fl ap)
unfolding step
step-StepOk limit m fmt end fl ap h room e w =
    StepOk-if m fmt end (m fmt == 45) _ _ (λ is. flag-StepOk m fmt end _ ap h e w (ground arith))
      (StepOk-if m fmt end (m fmt == 48) _ _ (λ is. flag-StepOk m fmt end _ ap h e w (ground arith))
        (StepOk-if m fmt end (leb 49 (m fmt) && leb (m fmt) 57) _ _
          (λ is.
            number_step-StepOk limit m fmt end fl ap (inside m fmt end h e (ground arith)) room e w)
          (StepOk-if m fmt end (m fmt == 42) _ _
            (λ is. star_step-StepOk m fmt end fl ap (inside m fmt end h e (ground arith)) w)
            (StepOk-if m fmt end (m fmt == 46) _ _
              (λ is. flag-StepOk m fmt end _ ap h e w (ground arith))
              (StepOk-if m fmt end (m fmt == 35) _ _
                (λ is. flag-StepOk m fmt end _ ap h e w (ground arith))
                (StepOk-if m fmt end (m fmt == 108) _ _
                  (λ is. flag-StepOk m fmt end _ ap h e w (ground arith))
                  (conversion-StepOk m fmt end)))))))

-- The character behind the flags stands at a place `p` from `start` to the end.
pub record At (m : Memory) (start end : ℕ) (esc : Escape) : Type 0 where
  pub p : ℕ
  pub next : esc.fmt ≡ suc p
  pub here : m p ≡ esc.ch
  pub from : start ≤ p
  pub to : p ≤ end
  pub words : Words esc.ap

unfoldable pub Escapes : (limit fuel : ℕ) (m : Memory) (start end : ℕ) → Type 0
Escapes limit fuel m start end =
    (fmt : ℕ) (fl : Flags) (ap : List ℕ)
    → start ≤ fmt
    → fmt ≤ end
    → end - fmt < fuel
    → Words ap
    → Ends (read_escape fuel limit m fmt fl ap) (At m start end)

escape-Ends :
    (limit fuel : ℕ) (m : Memory) (start end fmt : ℕ) (fl : Flags) (ap : List ℕ) (s : Step)
    → Escapes limit fuel m start end
    → start ≤ fmt
    → fmt ≤ end
    → end - fmt < suc fuel
    → Words ap
    → StepOk m fmt end s
    → Ends
        (elim s [
          | flag fmt' fl' ap' ↦ read_escape fuel limit m fmt' fl' ap'
          | conversion c ↦ printed [] (record { ch = c; fmt = suc fmt; flags = fl; ap = ap })
          | lacks_args ↦ no_args
          | lacks_fuel ↦ out_of_fuel
        ])
        (At m start end)
unfolding StepOk Escapes Ends
escape-Ends limit fuel m start end fmt fl ap (flag fmt' fl' ap') ih h1 h2 h3 w (g1, g2, w') =
    ih fmt' fl' ap' (omega arith) g2 (omega arith) w'
escape-Ends limit fuel m start end fmt fl ap (conversion c) ih h1 h2 h3 w is = record {
  p = fmt;
  next = refl;
  here = sym is;
  from = h1;
  to = h2;
  words = w;
}
escape-Ends limit fuel m start end fmt fl ap lacks_args ih h1 h2 h3 w s = tt
escape-Ends limit fuel m start end fmt fl ap lacks_fuel ih h1 h2 h3 w s = s

pub read_escape-Escapes :
    (limit fuel : ℕ) (m : Memory) (start end : ℕ)
    → end - start < limit
    → m end ≡ 0
    → Escapes limit fuel m start end
unfolding Escapes read_escape
read_escape-Escapes limit zero m start end room e fmt fl ap h1 h2 h3 w = absurd (omega arith)
read_escape-Escapes limit (suc fuel) m start end room e fmt fl ap h1 h2 h3 w =
    escape-Ends limit fuel m start end fmt fl ap (step limit m fmt fl ap)
      (read_escape-Escapes limit fuel m start end room e) h1 h2 h3 w
      (step-StepOk limit m fmt end fl ap h2 (omega arith) e w)

differ : (m : Memory) (c p : ℕ) → m c ≡ 37 → (m p == 37) ≡ false → c ≢ p
differ m c p e another same = ground (arith, ap m same)

rewind_bounds : (m : Memory) (c p : ℕ) → m c ≡ 37 → c < p → (c < rewind m p) × (rewind m p ≤ p)
unfolding rewind
rewind_bounds m c zero e h = absurd (omega arith)
rewind_bounds m c (suc p) e h = elim (Bool-cases (m p == 37)) [
  | inl is ↦ rw is (h, omega arith)
  | inr another ↦
      let ne : c ≢ p = differ m c p e another in
      let (h1, h2) = rewind_bounds m c p e (omega arith) in rw another (h1, omega arith)
]

IsConversion : Kind → Type 0
IsConversion other = ⊥
IsConversion _ = Unit

in_front :
    (p end fmt : ℕ) (kind : Kind)
    → IsConversion kind
    → fmt ≡ suc p
    → (p < end) ⊎ (kind ≡ other)
    → fmt ≤ end
unfolding IsConversion
in_front p end fmt kind is n (inl less) = omega arith
in_front p end fmt kind is n (inr same) = absurd (subst IsConversion same is)

pub resume_bounds :
    (m : Memory) (c p end fmt : ℕ) (kind : Kind)
    → m c ≡ 37
    → c < p
    → fmt ≡ suc p
    → p ≤ end
    → (p < end) ⊎ (kind ≡ other)
    → (c < resume_at m kind fmt) × (resume_at m kind fmt ≤ end)
unfolding IsConversion
resume_bounds m c p end fmt other e h n le o =
    let place : fmt - 1 ≡ p = omega arith in
    let (h1, h2) = rewind_bounds m c p e h in rw place (h1, omega arith)
resume_bounds m c p end fmt character e h n le o =
    (omega arith, in_front p end fmt character tt n o)
resume_bounds m c p end fmt error e h n le o = (omega arith, in_front p end fmt error tt n o)
resume_bounds m c p end fmt string e h n le o = (omega arith, in_front p end fmt string tt n o)
resume_bounds m c p end fmt decimal e h n le o = (omega arith, in_front p end fmt decimal tt n o)
resume_bounds m c p end fmt percent e h n le o = (omega arith, in_front p end fmt percent tt n o)
resume_bounds m c p end fmt pointer e h n le o = (omega arith, in_front p end fmt pointer tt n o)
resume_bounds m c p end fmt (number base) e h n le o =
    (omega arith, in_front p end fmt (number base) tt n o)
