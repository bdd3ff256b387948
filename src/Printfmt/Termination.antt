-- ===== src/Printfmt/Termination.antt =====
-- `vprintfmt` ends: each round of its loop moves on in the format and stays in front of its NUL.
use native.Mathlib.Decide.{dec_lt}
use joslab4_init.Base.{
  ℕ, zero, suc, ◌+◌, ◌-◌, ◌^◌, ◌≤◌, ◌<◌, ◌≡◌, ◌⊎◌, ◌∙◌, ap, refl, sym, inl, inr, Bool, true, false,
  Option, none, some, List, [], ◌∷◌, arith, length, ◌==◌, ◌!=◌, if◌then◌else◌, Bool-cases, All,
}
use joslab4_init.Memory.{Memory, IsString}
use joslab4_init.Printfmt.{Printed, printed, no_args, out_of_fuel, no_flags, Escape}
use joslab4_init.Printfmt.Convert.{Kind, other, kind_of, put_kind, convert, piece, vprintfmt}
use joslab4_init.Printfmt.Ends.{
  Ends, Ends-bind, Ends-printed, Words, Short, AllShort, BaseOk, put_kind-Ends,
}
use joslab4_init.Printfmt.Escapes.{At, Escapes, read_escape-Escapes, resume_bounds}

BaseOk-if : (b : Bool) (k k' : Kind) → BaseOk k → BaseOk k' → BaseOk (if b then k else k')
BaseOk-if true k k' h h' = h
BaseOk-if false k k' h h' = h'

kind_of-BaseOk : (ch : ℕ) → BaseOk (kind_of ch)
unfolding kind_of
kind_of-BaseOk ch = BaseOk-if (ch == 99) _ _ tt (
    BaseOk-if (ch == 101) _ _ tt (
      BaseOk-if (ch == 115) _ _ tt (
        BaseOk-if (ch == 100) _ _ tt (
          BaseOk-if (ch == 117) _ _ (omega arith) (
            BaseOk-if (ch == 111) _ _ (omega arith) (
              BaseOk-if (ch == 112) _ _ tt
                (BaseOk-if (ch == 120) _ _ (omega arith) (BaseOk-if (ch == 37) _ _ tt tt))))))))

nul_is_other : kind_of 0 ≡ other
unfolding kind_of
nul_is_other = refl

-- The format goes on behind `c` and up to the end.
Moves : (c end : ℕ) → ℕ × List ℕ → Type 0
Moves c end next = (c < next.0) × (next.0 ≤ end) × Words (next.1)

convert-Ends :
    (j : ℕ) (m : Memory) (c end : ℕ) (esc : Escape)
    → AllShort (suc (j + 64)) m
    → m c ≡ 37
    → m end ≡ 0
    → At m (suc c) end esc
    → Ends (convert (suc (j + 64)) m esc) (Moves c end)
unfolding convert Moves
convert-Ends j m c end esc nuls e z at =
    let side : (at.p < end) ⊎ (kind_of esc.ch ≡ other) = elim (dec_lt at.p end) [
      | yes less ↦ inl less
      | no more ↦ inr (ap kind_of (sym at.here ∙ ap m (omega (arith, at.to)) ∙ z) ∙ nul_is_other)
    ] in
    let (h1, h2) =
      resume_bounds m c at.p end esc.fmt (kind_of esc.ch) e at.from at.next at.to side in
    Ends-bind (put_kind (suc (j + 64)) m (kind_of esc.ch) esc.flags esc.ap) _ Words (Moves c end)
      (put_kind-Ends j m (kind_of esc.ch) esc.flags esc.ap nuls at.words (kind_of-BaseOk esc.ch))
      (λ ap w. Ends-printed [] _ (Moves c end) (h1, h2, w))

MovesOn : (c end : ℕ) → Option (ℕ × List ℕ) → Type 0
MovesOn c end none = Unit
MovesOn c end (some next) = Moves c end next

piece-Ends :
    (j : ℕ) (m : Memory) (c end : ℕ) (ap : List ℕ)
    → AllShort (suc (j + 64)) m
    → m end ≡ 0
    → c ≤ end
    → end - c < suc (j + 64)
    → Words ap
    → Ends (piece (suc (j + 64)) m c ap) (MovesOn c end)
unfolding piece MovesOn Escapes Moves
piece-Ends j m c end args nuls z h room w = elim (Bool-cases (m c == 0)) [
  | inl nul ↦ rw nul (Ends-printed [] _ (MovesOn c end) tt)
  | inr more ↦
      let less : c < end = elim (dec_lt c end) [
        | yes l ↦ l
        | no at_end ↦ let same : c ≡ end = omega arith in absurd (ground (arith, z, ap m same))
      ] in
      elim (Bool-cases (m c != 37)) [
        | inl text ↦
            rw (more, text) (Ends-printed _ _ (MovesOn c end) (omega arith, omega arith, w))
        | inr percent_sign ↦
            rw (more, percent_sign)
              (Ends-bind _ _ (Moves c end) (MovesOn c end)
                (Ends-bind _ _ (At m (suc c) end) (Moves c end)
                  (read_escape-Escapes (suc (j + 64)) (suc (j + 64)) m (suc c) end (omega arith) z
                    (suc c) no_flags args (omega arith) less (omega arith) w)
                  (λ esc at. convert-Ends j m c end esc nuls (ground arith) z at))
                (λ next moves. Ends-printed [] (some next) (MovesOn c end) moves))
      ]
]

-- From every later place of the format, the output ends.
EndsBehind : (fuel limit : ℕ) (m : Memory) (c end : ℕ) → Type 0
EndsBehind fuel limit m c end =
    (c' : ℕ) (ap : List ℕ)
    → c < c'
    → c' ≤ end
    → Words ap
    → Ends (vprintfmt fuel limit m c' ap) (λ u. Unit)

rounds-Ends :
    (fuel limit : ℕ) (m : Memory) (c end : ℕ) (o : Option (ℕ × List ℕ))
    → EndsBehind fuel limit m c end
    → MovesOn c end o
    → Ends
        (elim o [ none ↦ printed [] tt | some next ↦ vprintfmt fuel limit m (next.0) (next.1) ])
        (λ u. Unit)
unfolding EndsBehind MovesOn Moves
rounds-Ends fuel limit m c end none ih t = Ends-printed [] tt (λ u. Unit) tt
rounds-Ends fuel limit m c end (some next) ih (h1, h2, w) = ih (next.0) (next.1) h1 h2 w

vprintfmt-Ends :
    (fuel j : ℕ) (m : Memory) (c end : ℕ) (ap : List ℕ)
    → AllShort (suc (j + 64)) m
    → m end ≡ 0
    → c ≤ end
    → end - c < suc (j + 64)
    → end - c < fuel
    → Words ap
    → Ends (vprintfmt fuel (suc (j + 64)) m c ap) (λ u. Unit)
unfolding vprintfmt EndsBehind
vprintfmt-Ends zero j m c end args nuls z h room enough w = absurd (omega arith)
vprintfmt-Ends (suc fuel) j m c end args nuls z h room enough w =
    Ends-bind (piece (suc (j + 64)) m c args) _ (MovesOn c end) (λ u. Unit)
      (piece-Ends j m c end args nuls z h room w)
      (λ o moves.
        rounds-Ends fuel (suc (j + 64)) m c end o
          (λ c' args' h1 h2 w'.
            vprintfmt-Ends fuel j m c' end args' nuls z h2 (omega arith) (omega arith) w')
          moves)

Returned : Printed (Unit {0}) → Type 0
Returned r = ((out : List ℕ) × (r ≡ printed out tt)) ⊎ (r ≡ no_args)

Returned-of : (r : Printed (Unit {0})) → Ends r (λ u. Unit) → Returned r
unfolding Returned Ends
Returned-of (printed out u) e = inl (out, refl)
Returned-of no_args e = inr refl
Returned-of out_of_fuel e = absurd e

IsString-end : (m : Memory) (s : ℕ) (xs : List ℕ) → IsString m s xs → m (s + length xs) ≡ 0
IsString-end m s [] str = ap m (omega arith) ∙ str
IsString-end m s (x ∷ xs) (c, nz, str) = ap m (omega arith) ∙ IsString-end m (suc s) xs str

-- `vprintfmt` ends for every format `xs` and every list of 32-bit words as arguments: given more rounds
-- than the format has characters and an inner limit of at least 65 that is more than the length of
-- the format and of every string that starts anywhere in memory, it prints its output, or it reads
-- past the last argument.
pub vprintfmt_returns :
    (fuel j : ℕ) (m : Memory) (fmt : ℕ) (xs args : List ℕ)
    → IsString m fmt xs
    → length xs < fuel
    → length xs < suc (j + 64)
    → ((s : ℕ) → (n : ℕ) × (n < suc (j + 64)) × (m (s + n) ≡ 0))
    → All (λ (w : ℕ). w < 2 ^ 32) args
    → ((out : List ℕ) × (vprintfmt fuel (suc (j + 64)) m fmt args ≡ printed out tt))
      ⊎ (vprintfmt fuel (suc (j + 64)) m fmt args ≡ no_args)
unfolding Returned AllShort Short
vprintfmt_returns fuel j m fmt xs args str enough room nuls w =
    Returned-of (vprintfmt fuel (suc (j + 64)) m fmt args) (
      vprintfmt-Ends fuel j m fmt (fmt + length xs) args nuls (IsString-end m fmt xs str)
        (omega arith) (omega arith) (omega arith) w)
