-- ===== src/String/Length.antt =====
-- `strlen`, `strnlen`, `strchr` and `strfind`.
use Prim.Native.Nat.{min}
use joslab4_init.Base.{
  ℕ, zero, suc, ◌+◌, ◌<◌, ◌≡◌, ◌≢◌, ◌∙◌, ap, none, some, List, [], ◌∷◌, arith, ◌==◌, if◌then◌else◌,
  length, has,
}
use joslab4_init.Memory.{Memory, IsString}
use joslab4_init.String.{strlen_loop, strlen, strnlen_loop, strnlen, strchr, strfind}

strlen_loop-length :
    (fuel : ℕ) (m : Memory) (s n : ℕ) (xs : List ℕ)
    → IsString m s xs
    → length xs < fuel
    → strlen_loop fuel m s n ≡ some (n + length xs)
unfolding strlen_loop
strlen_loop-length zero m s n xs str h = absurd (omega arith)
strlen_loop-length (suc fuel) m s n [] str h = ground (arith, str)
strlen_loop-length (suc fuel) m s n (x ∷ xs) str h =
    ground (arith, str, strlen_loop-length fuel m (suc s) (suc n) xs)

strnlen_loop-min :
    (size : ℕ) (m : Memory) (s n : ℕ) (xs : List ℕ)
    → IsString m s xs
    → strnlen_loop size m s n ≡ n + min size (length xs)
unfolding strnlen_loop
strnlen_loop-min zero m s n xs str = omega arith
strnlen_loop-min (suc size) m s n [] str = ground (arith, str)
strnlen_loop-min (suc size) m s n (x ∷ xs) str =
    ground (arith, str, strnlen_loop-min size m (suc s) (suc n) xs)

-- `strlen` of a string is its length, once it has more rounds than characters, and `strnlen` is the
-- lesser of that and the size.
pub strlen-length :
    (m : Memory) (s fuel size : ℕ) (xs : List ℕ)
    → IsString m s xs
    → length xs < fuel
    → (strlen fuel m s ≡ some (length xs)) × (strnlen m s size ≡ min size (length xs))
unfolding strlen strnlen
strlen-length m s fuel size xs str h = (
  strlen_loop-length fuel m s 0 xs str h ∙ ap (λ (n : ℕ). some n) (omega arith),
  strnlen_loop-min size m s 0 xs str ∙ omega arith,
)

-- How many characters stand before the first `c`.
unfoldable pub before : ℕ → List ℕ → ℕ
before c [] = 0
before c (x ∷ xs) = if x == c then 0 else suc (before c xs)

-- `strchr` finds the first occurrence of a character other than NUL, or NULL if there is none, and
-- `strfind` the same place, or the end of the string.
pub strchr-before :
    (m : Memory) (s c fuel : ℕ) (xs : List ℕ)
    → IsString m s xs
    → c ≢ 0
    → length xs < fuel
    → (strchr fuel m s c ≡ some (if has c xs then some (s + before c xs) else none))
      × (strfind fuel m s c ≡ some (s + before c xs))
unfolding strchr strfind before
strchr-before m s c zero xs str nz h = absurd (omega arith)
strchr-before m s c (suc fuel) [] str nz h = (ground (arith, str), ground (arith, str))
strchr-before m s c (suc fuel) (x ∷ xs) str nz h =
    let ih = strchr-before m (suc s) c fuel xs (str.2) nz (omega arith) in
    (ground (arith, str, ih), ground (arith, str, ih))
