-- ===== src/Mpconfig/Floating.antt =====
-- `mpsearch1` finds the first structure with the signature and the checksum.
use native.Mathlib.Decide.{dec_lt}
use joslab4_init.Base.{
  ℕ, zero, suc, ◌+◌, ◌-◌, ◌*◌, ◌/◌, u32, ◌^◌, ◌<◌, ◌≡◌, ◌∙◌, ap, refl, inl, inr, true, false,
  Option, none, some, arith, ltb, lt→ltb, le→ltb, Bool-cases,
}
use joslab4_init.Memory.{Memory}
use joslab4_init.Mpconfig.{ok, is_mp, mp_loop, mpsearch1}

-- The structures at every 16th byte from `a` up to `end` fail the test.
abbrev pub NoneFrom : Memory → (a end : ℕ) → Type 0
NoneFrom mem a end = (k : ℕ) → a + 16 * k < end → is_mp mem (a + 16 * k) ≡ false

-- What a search over the bytes from `a` to `end` finds.
abbrev pub IsFirst : Memory → (a end : ℕ) → Option ℕ → Type 0
IsFirst mem a end none = NoneFrom mem a end
IsFirst mem a end (some mp) =
    (k : ℕ) × (mp ≡ a + 16 * k) × (mp < end) × (is_mp mem mp ≡ true) × NoneFrom mem a mp

NoneFrom-step :
    (mem : Memory) (a end : ℕ)
    → is_mp mem a ≡ false
    → NoneFrom mem (a + 16) end
    → NoneFrom mem a end
NoneFrom-step mem a end h none_from zero less = ap (is_mp mem) (omega arith) ∙ h
NoneFrom-step mem a end h none_from (suc k) less =
    ap (is_mp mem) (omega arith) ∙ none_from k (omega arith)

IsFirst-step :
    (mem : Memory) (a end : ℕ) (o : Option ℕ)
    → is_mp mem a ≡ false
    → IsFirst mem (a + 16) end o
    → IsFirst mem a end o
IsFirst-step mem a end none h first = NoneFrom-step mem a end h first
IsFirst-step mem a end (some mp) h (k, e, less, is, first) =
    (suc k, omega arith, less, is, NoneFrom-step mem a mp h first)

mp_loop-IsFirst :
    (fuel : ℕ) (mem : Memory) (a end : ℕ)
    → end - a < fuel
    → (o : Option ℕ) × (mp_loop fuel mem a end ≡ some o) × IsFirst mem a end o
unfolding mp_loop
mp_loop-IsFirst zero mem a end h = absurd (omega arith)
mp_loop-IsFirst (suc fuel) mem a end h = elim (dec_lt a end) [
  | no done ↦ rw (le→ltb a end (omega arith)) (none, refl, λ k less. absurd (omega arith))
  | yes more ↦ elim (Bool-cases (is_mp mem a)) [
    | inl is ↦
        rw (lt→ltb a end more, is)
          (some a, refl, (0, omega arith, more, is, λ k less. absurd (omega arith)))
    | inr isnt ↦
        let (o, ran, first) = mp_loop-IsFirst fuel mem (a + 16) end (omega arith) in
        rw (lt→ltb a end more, isnt) (o, ran, IsFirst-step mem a end o isnt first)
  ]
]

-- On `len` bytes from `a` whose ends the machine has, `mpsearch1` ends; it returns the first structure
-- at a multiple of 16 bytes behind `a` that starts before the end and has the signature and the
-- checksum, and nothing if there is none.
pub mpsearch1-IsFirst :
    (npages : ℕ) (mem : Memory) (a len : ℕ)
    → a + len < npages * 4096
    → a + len < 2 ^ 32
    → (o : Option ℕ) × (mpsearch1 npages mem a len ≡ ok o) × IsFirst mem a (a + len) o
unfolding mpsearch1
mpsearch1-IsFirst npages mem a len fits word =
    let (o, ran, first) = mp_loop-IsFirst (suc len) mem a (a + len) (omega arith) in
    let e : u32 (a + len) ≡ a + len = omega arith in
    let t1 : ltb (a / 2 ^ 12) npages ≡ true = ground arith in
    let t2 : ltb ((a + len) / 2 ^ 12) npages ≡ true = ground arith in
    (o, rw (t1, e, t2, ran) refl, first)
