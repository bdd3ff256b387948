-- ===== src/String/Fill.antt =====
-- `memset` writes the low byte of its argument, by words or by bytes.
use joslab4_init.Base.{
  ℕ, zero, suc, ◌+◌, ◌-◌, ◌*◌, ◌/◌, ◌%◌, ◌^◌, ◌<◌, ◌≡◌, ◌∙◌, ap, inl, inr, ◌&&◌, arith, ltb, leb,
  ◌==◌, bit_or, if◌then◌else◌, Bool-cases,
}
use joslab4_init.Base.Bits.{bit_or_fields}
use joslab4_init.Memory.{Memory}
use joslab4_init.String.{stos, rep_stos, fill_word, memset}

-- All bytes of a range set to `b`.
abbrev pub filled : Memory → (v b n : ℕ) → Memory
filled m v b n x = if leb v x && ltb x (v + n) then b else m x

fill_word_lem : (c : ℕ) → fill_word c ≡ c % 256 * (2 ^ 24 + 2 ^ 16 + 2 ^ 8 + 1)
unfolding fill_word
fill_word_lem c =
    ap (λ (x : ℕ). bit_or (bit_or x (b * 2 ^ 8)) b)
      (ap (λ (x : ℕ). bit_or x (b * 2 ^ 16)) (omega arith)
        ∙ bit_or_fields 24 b (b * 2 ^ 16) (omega arith)
        ∙ omega arith)
    ∙ ap (λ (x : ℕ). bit_or x b)
        (bit_or_fields 16 (b * 257) (b * 2 ^ 8) (omega arith) ∙ omega arith)
    ∙ bit_or_fields 8 (b * 65793) b (omega arith)
    ∙ omega arith
  where
    b : ℕ
    b = c % 256

-- Each of the four bytes of the word is the byte.
word_byte : (b k : ℕ) → b < 256 → k < 4 → b * (2 ^ 24 + 2 ^ 16 + 2 ^ 8 + 1) / 256 ^ k % 256 ≡ b
word_byte b zero hb hk = omega arith
word_byte b (suc zero) hb hk = omega arith
word_byte b (suc (suc zero)) hb hk = omega arith
word_byte b (suc (suc (suc zero))) hb hk = omega arith
word_byte b (suc (suc (suc (suc k)))) hb hk = absurd (omega arith)

-- An element whose bytes are all `b`.
abbrev Uniform : (w a b : ℕ) → Type 0
Uniform w a b = (k : ℕ) → k < w → a / 256 ^ k % 256 ≡ b

stos-filled : (w a b : ℕ) (m : Memory) (v x : ℕ) → Uniform w a b → stos w m v a x ≡ filled m v b w x
stos-filled w a b m v x u = ground (arith, u (x - v))

rep_stos-filled :
    (count w a b : ℕ) (m : Memory) (v x : ℕ)
    → Uniform w a b
    → rep_stos count w m v a x ≡ filled m v b (count * w) x
unfolding rep_stos
rep_stos-filled zero w a b m v x u = ground arith
rep_stos-filled (suc count) w a b m v x u =
    rep_stos-filled count w a b (stos w m v a) (v + w) x u
    ∙ ground (arith, stos-filled w a b m v x u)

-- `memset` sets each of the `n` bytes from `v` on to the low byte of `c`, by words where address and
-- length are multiples of 4 and by bytes elsewhere, and leaves every other byte.
pub memset_lem :
    (m : Memory) (v c n x : ℕ)
    → memset m v c n x ≡ (if leb v x && ltb x (v + n) then c % 256 else m x)
unfolding memset
memset_lem m v c n x = elim (Bool-cases (n == 0)) [
  | inl empty ↦ rw empty (ground arith)
  | inr some_bytes ↦ rw some_bytes (elim (Bool-cases ((v % 4 == 0) && (n % 4 == 0))) [
    | inl even ↦
        rw even (rep_stos-filled (n / 4) 4 (fill_word c) (c % 256) m v x (words c) ∙ ground arith)
    | inr odd ↦ rw odd (rep_stos-filled n 1 c (c % 256) m v x (bytes c) ∙ ground arith)
  ])
]
  where
    words : (c : ℕ) → Uniform 4 (fill_word c) (c % 256)
    words c k h = rw (fill_word_lem c) (word_byte (c % 256) k (omega arith) h)

    bytes : (c : ℕ) → Uniform 1 c (c % 256)
    bytes c zero h = omega arith
    bytes c (suc k) h = absurd (omega arith)
