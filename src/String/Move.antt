-- ===== src/String/Move.antt =====
-- `memmove` copies the bytes that the source held before the call, also where the ranges overlap.
use joslab4_init.Base.{
  ℕ, zero, suc, ◌+◌, ◌-◌, ◌*◌, ◌/◌, ◌^◌, ◌≤◌, ◌<◌, ◌≡◌, ◌⊎◌, ◌∙◌, ap, refl, inl, inr, ◌&&◌, arith,
  ltb, leb, u32, if◌then◌else◌, Bool-cases,
}
use joslab4_init.Memory.{Memory}
use joslab4_init.String.{movs, rep_movs_up, rep_movs_down, aligned, memmove}

-- `n` bytes from `s` on, copied to `d` at once; `movs` is this for one element.
abbrev pub moved : Memory → (d s n : ℕ) → Memory
moved m d s n = movs n m d s

ap₃ :
    {A : Type 0} (f : ℕ → ℕ → ℕ → A) {a a' b b' c c' : ℕ}
    → a ≡ a'
    → b ≡ b'
    → c ≡ c'
    → f a b c ≡ f a' b' c'
ap₃ f p q r = λ i. f (p i) (q i) (r i)

up :
    (count w : ℕ) (m : Memory) (d s x : ℕ)
    → (d ≤ s) ⊎ (s + count * w ≤ d)
    → rep_movs_up count w m d s x ≡ moved m d s (count * w) x
unfolding rep_movs_up
up zero w m d s x apart = ground arith
up (suc count) w m d s x apart =
    up count w (movs w m d s) (d + w) (s + w) x (omega arith) ∙ ground arith

down_suc :
    (count w : ℕ) (m : Memory) (d s : ℕ)
    → rep_movs_down (suc count) w m d s ≡ rep_movs_down count w (movs w m d s) (d - w) (s - w)
unfolding rep_movs_down
down_suc count w m d s = refl

down_zero : (w : ℕ) (m : Memory) (d s x : ℕ) → rep_movs_down 1 w m d s x ≡ moved m d s w x
unfolding rep_movs_down
down_zero w m d s x = refl

-- The last element and then the `n` bytes before it, whose sources it has not overwritten.
last_first :
    (n w : ℕ) (m : Memory) (d s x : ℕ)
    → s < d
    → moved (movs w m (d + n) (s + n)) d s n x ≡ moved m d s (n + w) x
last_first n w m d s x h = ground arith

-- `last_d` and `last_s` are the last elements of ranges that begin at `d` and `s`.
down :
    (count w : ℕ) (m : Memory) (d s last_d last_s x : ℕ)
    → last_d ≡ d + count * w
    → last_s ≡ s + count * w
    → s < d
    → rep_movs_down (suc count) w m last_d last_s x ≡ moved m d s (suc count * w) x
down zero w m d s last_d last_s x hd hs h =
    down_zero w m last_d last_s x
    ∙ ap₃ (λ (a b c : ℕ). moved m a b c x) (omega arith) (omega arith) (omega arith)
down (suc count) w m d s last_d last_s x hd hs h =
    ap (λ (f : Memory). f x) (down_suc (suc count) w m last_d last_s)
    ∙ down count w (movs w m last_d last_s) d s (last_d - w) (last_s - w) x (omega arith)
        (omega arith) h
    ∙ ap₃ (λ (a b c : ℕ). moved (movs w m a b) d s c x) hd hs refl
    ∙ last_first (suc count * w) w m d s x h
    ∙ ap (λ (c : ℕ). moved m d s c x) (omega arith)

-- `memmove` on ranges that end below 2 ^ 32: each byte of the destination becomes the byte that the
-- source held before the call, whether the ranges overlap or not, and on all four paths (upwards or
-- downwards, by words or by bytes); every other byte of memory is as before.
pub memmove_lem :
    (m : Memory) (dst src n x : ℕ)
    → src + n < 2 ^ 32
    → dst + n < 2 ^ 32
    → memmove m dst src n x ≡ (if leb dst x && ltb x (dst + n) then m (src + (x - dst)) else m x)
unfolding memmove
memmove_lem m dst src n x hs hd = elim (Bool-cases (ltb src dst && ltb dst (u32 (src + n)))) [
  | inl back ↦ rw back (elim (Bool-cases (aligned (dst + n) (src + n) n)) [
    | inl even ↦ rw even (words_down (n / 4) (ground arith) (ground arith) (ground arith))
    | inr odd ↦ rw odd (bytes_down (n - 1) (ground arith) (ground arith))
  ])
  | inr forth ↦ rw forth (elim (Bool-cases (aligned dst src n)) [
    | inl even ↦ rw even (up (n / 4) 4 m dst src x (ground arith) ∙ ground arith)
    | inr odd ↦ rw odd (up n 1 m dst src x (ground arith) ∙ ground arith)
  ])
]
  where
    words_down :
        (k : ℕ)
        → k * 4 ≡ n
        → 0 < k
        → src < dst
        → rep_movs_down k 4 m (dst + n - 4) (src + n - 4) x ≡ moved m dst src n x
    words_down zero e pos h = absurd (omega arith)
    words_down (suc k) e pos h =
        down k 4 m dst src _ _ x (omega arith) (omega arith) h ∙ ground arith

    bytes_down :
        (k : ℕ)
        → suc k ≡ n
        → src < dst
        → rep_movs_down n 1 m (dst + n - 1) (src + n - 1) x ≡ moved m dst src n x
    bytes_down k e h =
        rw (← e) (down k 1 m dst src _ _ x (omega arith) (omega arith) h ∙ ground arith)
