-- ===== src/Printfmt/Text.antt =====
-- `vprintfmt` on text without conversions.
use joslab4_init.Base.{
  ℕ, zero, suc, ◌<◌, ◌≡◌, ◌≢◌, refl, List, [], ◌∷◌, arith, length, All, ne→==, ne→!=, eq→==,
}
use joslab4_init.Memory.{Memory, IsString}
use joslab4_init.Printfmt.{printed}
use joslab4_init.Printfmt.Convert.{piece, vprintfmt}

-- A format that is a text `xs` without a percent sign prints `xs`, with more rounds than characters,
-- whatever the arguments.
pub vprintfmt_text :
    (fuel limit : ℕ) (m : Memory) (fmt : ℕ) (xs args : List ℕ)
    → IsString m fmt xs
    → All (λ (x : ℕ). x ≢ 37) xs
    → length xs < fuel
    → vprintfmt fuel limit m fmt args ≡ printed xs tt
unfolding vprintfmt piece
vprintfmt_text zero limit m fmt xs args str plain h = absurd (omega arith)
vprintfmt_text (suc fuel) limit m fmt [] args str plain h = rw (eq→== (m fmt) 0 str) refl
vprintfmt_text (suc fuel) limit m fmt (x ∷ xs) args (c, nz, str) (ne, plain) h =
    rw
      (
        c,
        ne→== x 0 nz,
        ne→!= x 37 ne,
        vprintfmt_text fuel limit m (suc fmt) xs args str plain (omega arith),
      )
      refl
