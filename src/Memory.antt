-- ===== src/Memory.antt =====
-- Byte-addressed memory: an address is a number, a byte a number below 256, and `char` is read as
-- `unsigned char` (the code compares characters for equality, or converts them first).
use joslab4_init.Base.{ℕ, suc, ◌+◌, ◌*◌, ◌^◌, ◌≡◌, ◌≢◌, List, [], ◌∷◌}

abbrev pub Memory : Type 0
Memory = ℕ → ℕ

-- At `s` stand the characters `xs`, none of them NUL, and then a NUL.
abbrev pub IsString : Memory → ℕ → List ℕ → Type 0
IsString m s [] = m s ≡ 0
IsString m s (x ∷ xs) = (m s ≡ x) × (x ≢ 0) × IsString m (suc s) xs

-- Little-endian numbers of two and of four bytes.
abbrev pub word16 : Memory → ℕ → ℕ
word16 mem a = mem a + mem (a + 1) * 2 ^ 8

abbrev pub word : Memory → ℕ → ℕ
word mem a = word16 mem a + word16 mem (a + 2) * 2 ^ 16
