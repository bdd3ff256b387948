-- ===== src/String/Copy.antt =====
-- `strcpy`, `strlcpy` and `strncpy`: the copy and the bounds of what is written.
use Prim.Native.Nat.{min}
use joslab4_init.Base.{
  ℕ, zero, suc, ◌+◌, ◌≤◌, ◌<◌, ◌≡◌, ◌≢◌, ◌⊎◌, ◌∙◌, ap, refl, some, List, [], ◌∷◌, arith, length,
  length-take, take, update, All,
}
use joslab4_init.Memory.{Memory, IsString}
use joslab4_init.String.{strcpy, strlcpy_loop, strlcpy}

-- The characters `xs` stand at `s`, with no end marked.
abbrev pub HasChars : Memory → ℕ → List ℕ → Type 0
HasChars m s [] = Unit
HasChars m s (x ∷ xs) = (m s ≡ x) × HasChars m (suc s) xs

-- Only addresses from `d` on, `n` of them, may differ.
abbrev pub SameOutside : (d n : ℕ) → Memory → Memory → Type 0
SameOutside d n m m' = (a : ℕ) → (a < d) ⊎ (d + n ≤ a) → m' a ≡ m a

-- A string survives writes that miss it.
pub IsString-same :
    (m m' : Memory) (s : ℕ) (xs : List ℕ)
    → IsString m s xs
    → ((a : ℕ) → s ≤ a → a ≤ s + length xs → m' a ≡ m a)
    → IsString m' s xs
IsString-same m m' s [] str same = same s (omega arith) (omega arith) ∙ str
IsString-same m m' s (x ∷ xs) (c, nz, str) same = (
  same s (omega arith) (omega arith) ∙ c,
  nz,
  IsString-same m m' (suc s) xs str (λ a h1 h2. same a (omega arith) (omega arith)),
)

-- Ranges of `n` bytes that do not meet.
abbrev pub Apart : (d s n : ℕ) → Type 0
Apart d s n = (d + n ≤ s) ⊎ (s + n ≤ d)

-- `strcpy` to a place apart from the source terminates, copies the string with its NUL, and writes
-- nowhere else.
pub strcpy-IsString :
    (fuel : ℕ) (m : Memory) (dst src : ℕ) (xs : List ℕ)
    → IsString m src xs
    → Apart dst src (suc (length xs))
    → length xs < fuel
    → (m' : Memory) × (strcpy fuel m dst src ≡ some m')
      × IsString m' dst xs
      × SameOutside dst (suc (length xs)) m m'
unfolding strcpy
strcpy-IsString zero m dst src xs str apart h = absurd (omega arith)
strcpy-IsString (suc fuel) m dst src [] str apart h =
    (update m dst (m src), ground (arith, str), ground (arith, str), λ a out. ground arith)
strcpy-IsString (suc fuel) m dst src (x ∷ xs) (c, nz, str) apart h =
    let m1 = update m dst (m src) in
    let str1 : IsString m1 (suc src) xs =
      IsString-same m m1 (suc src) xs str (λ a h1 h2. ground arith) in
    let (m', ran, copied, same) =
      strcpy-IsString fuel m1 (suc dst) (suc src) xs str1 (omega arith) (omega arith) in
    (
      m',
      ground (arith, ran),
      (ground (arith, same dst), nz, copied),
      λ a out. same a (omega arith) ∙ ground arith,
    )

AllNonzero : List ℕ → Type 0
AllNonzero = All (λ x. x ≢ 0)

nonzero_of_IsString :
    (m : Memory) (s n : ℕ) (xs : List ℕ) → IsString m s xs → AllNonzero (take n xs)
unfolding AllNonzero
nonzero_of_IsString m s zero xs str = tt
nonzero_of_IsString m s (suc n) [] str = tt
nonzero_of_IsString m s (suc n) (x ∷ xs) (c, nz, str) = (nz, nonzero_of_IsString m (suc s) n xs str)

pub HasChars-update :
    (m : Memory) (s a v : ℕ) (xs : List ℕ)
    → s + length xs ≤ a
    → HasChars m s xs
    → HasChars (update m a v) s xs
HasChars-update m s a v [] h c = tt
HasChars-update m s a v (x ∷ xs) h (c, cs) =
    (ground arith, HasChars-update m (suc s) a v xs (omega arith) cs)

terminated :
    (m : Memory) (s a : ℕ) (xs : List ℕ)
    → a ≡ s + length xs
    → HasChars m s xs
    → AllNonzero xs
    → m a ≡ 0
    → IsString m s xs
unfolding AllNonzero
terminated m s a [] h c nz z = ap m (omega arith) ∙ z
terminated m s a (x ∷ xs) h (c, cs) (nz, nzs) z =
    (c, nz, terminated m (suc s) a xs (omega arith) cs nzs z)

strlcpy_loop-HasChars :
    (size : ℕ) (m : Memory) (dst src : ℕ) (xs : List ℕ)
    → IsString m src xs
    → (dst + size ≤ src) ⊎ (src + length xs < dst)
    → (m' : Memory) × (strlcpy_loop size m dst src ≡ (m', dst + min size (length xs)))
      × HasChars m' dst (take size xs)
      × SameOutside dst size m m'
unfolding strlcpy_loop
strlcpy_loop-HasChars zero m dst src xs str apart = (m, ground arith, tt, λ a out. refl)
strlcpy_loop-HasChars (suc size) m dst src [] str apart =
    (m, ground (arith, str), tt, λ a out. refl)
strlcpy_loop-HasChars (suc size) m dst src (x ∷ xs) (c, nz, str) apart =
    let m1 = update m dst (m src) in
    let str1 : IsString m1 (suc src) xs =
      IsString-same m m1 (suc src) xs str (λ a h1 h2. ground arith) in
    let (m', ran, copied, same) =
      strlcpy_loop-HasChars size m1 (suc dst) (suc src) xs str1 (omega arith) in
    (
      m',
      ground (arith, ran),
      (ground (arith, same dst), copied),
      λ a out. same a (omega arith) ∙ ground arith,
    )

-- `strlcpy` with room for `size + 1` bytes, apart from the source: it copies the first `size`
-- characters, or all if there are fewer, ends them with a NUL, returns how many it copied, and writes
-- nothing outside the room. Without room it writes nothing.
pub strlcpy-IsString :
    (m : Memory) (dst src size : ℕ) (xs : List ℕ)
    → IsString m src xs
    → (dst + size < src) ⊎ (src + length xs < dst)
    → ((m' : Memory) × (strlcpy m dst src (suc size) ≡ (m', min size (length xs)))
        × IsString m' dst (take size xs)
        × SameOutside dst (suc size) m m')
      × (strlcpy m dst src 0 ≡ (m, 0))
unfolding strlcpy
strlcpy-IsString m dst src size xs str apart =
    let (m', ran, copied, same) = strlcpy_loop-HasChars size m dst src xs str (omega arith) in
    let end = dst + min size (length xs) in
    let n = length-take size xs in
    (
      (
        update m' end 0,
        ground (arith, ran),
        terminated (update m' end 0) dst end (take size xs) (omega (arith, n))
            (HasChars-update m' dst end 0 (take size xs) (omega (arith, n)) copied)
            (nonzero_of_IsString m src size xs str) (ground arith),
        λ a out. ground (arith, same a),
      ),
      refl,
    )
