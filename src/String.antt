-- ===== src/String.antt =====
-- lib/string.c, as compiled with `ASM` 1. A function that writes returns the new memory. Loops to a
-- NUL take fuel, and give `none` where it runs out; counted loops recur on what is left of the count.
-- `rep movs` and `rep stos` move elements of `w` bytes in the direction of the flag DF.
pub mod Length
pub mod Copy
pub mod Move
pub mod Fill
pub mod Compare
pub mod Number
use joslab4_init.Base.{
  ℕ, zero, suc, ◌+◌, ◌-◌, ◌*◌, ◌/◌, ◌%◌, ◌^◌, Bool, true, false, not, ◌&&◌, ◌||◌, Option, none,
  some, ltb, leb, ◌==◌, ◌!=◌, update, u32, bit_or, if◌then◌else◌,
}
use joslab4_init.Base.Int.{ℤ, pos, sub_ℕ}
use joslab4_init.Memory.{Memory}

unfoldable pub strlen_loop : ℕ → Memory → (s n : ℕ) → Option ℕ
strlen_loop zero m s n = none
strlen_loop (suc fuel) m s n =
    let rest = strlen_loop fuel m (suc s) (suc n) in if m s == 0 then some n else rest

unfoldable pub strlen : ℕ → Memory → ℕ → Option ℕ
unfolding strlen_loop
strlen fuel m s = strlen_loop fuel m s 0

unfoldable pub strnlen_loop : (size : ℕ) → Memory → (s n : ℕ) → ℕ
strnlen_loop zero m s n = n
strnlen_loop (suc size) m s n =
    let rest = strnlen_loop size m (suc s) (suc n) in if m s == 0 then n else rest

unfoldable pub strnlen : Memory → (s size : ℕ) → ℕ
unfolding strnlen_loop
strnlen m s size = strnlen_loop size m s 0

-- The loop of `strcpy`; the function returns its `dst`.
unfoldable pub strcpy : ℕ → Memory → (dst src : ℕ) → Option Memory
strcpy zero m dst src = none
strcpy (suc fuel) m dst src =
    let m' = update m dst (m src) in
    let rest = strcpy fuel m' (suc dst) (suc src) in if m src == 0 then some m' else rest

unfoldable pub strcat : ℕ → Memory → (dst src : ℕ) → Option Memory
unfolding strcpy strlen
strcat fuel m dst src = elim (strlen fuel m dst) [
  | none ↦ none
  | some len ↦ strcpy fuel m (dst + len) src
]

unfoldable pub strncpy : (size : ℕ) → Memory → (dst src : ℕ) → Memory
strncpy zero m dst src = m
strncpy (suc size) m dst src =
    strncpy size (update m dst (m src)) (suc dst) (if m src != 0 then suc src else src)

-- The loop of `strlcpy` with `size` characters left, and the new `dst`.
unfoldable pub strlcpy_loop : (size : ℕ) → Memory → (dst src : ℕ) → Memory × ℕ
strlcpy_loop zero m dst src = (m, dst)
strlcpy_loop (suc size) m dst src =
    let rest = strlcpy_loop size (update m dst (m src)) (suc dst) (suc src) in
    if m src != 0 then rest else (m, dst)

-- The new memory and `dst - dst_in`.
unfoldable pub strlcpy : Memory → (dst src size : ℕ) → Memory × ℕ
strlcpy m dst src zero = (m, 0)
strlcpy m dst src (suc size) =
    let (m', end) = strlcpy_loop size m dst src in (update m' end 0, end - dst)

-- `(int) ((unsigned char) *p - (unsigned char) *q)`
unfoldable pub strcmp : ℕ → Memory → (p q : ℕ) → Option ℤ
strcmp zero m p q = none
strcmp (suc fuel) m p q =
    let rest = strcmp fuel m (suc p) (suc q) in
    if (m p != 0) && (m p == m q) then rest else some (sub_ℕ (m p) (m q))

unfoldable pub strncmp : (n : ℕ) → Memory → (p q : ℕ) → ℤ
strncmp zero m p q = pos 0
strncmp (suc n) m p q =
    let rest = strncmp n m (suc p) (suc q) in
    if (m p != 0) && (m p == m q) then rest else sub_ℕ (m p) (m q)

-- The outer `none` is the end of the fuel, the inner one NULL.
unfoldable pub strchr : ℕ → Memory → (s c : ℕ) → Option (Option ℕ)
strchr zero m s c = none
strchr (suc fuel) m s c =
    let rest = strchr fuel m (suc s) c in
    if m s == 0 then some none else if m s == c then some (some s) else rest

unfoldable pub strfind : ℕ → Memory → (s c : ℕ) → Option ℕ
strfind zero m s c = none
strfind (suc fuel) m s c =
    let rest = strfind fuel m (suc s) c in if (m s == 0) || (m s == c) then some s else rest

-- `stosb` and `stosl`: the `w` low bytes of `a` from `d` on, the lowest first.
abbrev pub stos : (w : ℕ) → Memory → (d a : ℕ) → Memory
stos w m d a x = if leb d x && ltb x (d + w) then a / 256 ^ (x - d) % 256 else m x

unfoldable pub rep_stos : (count w : ℕ) → Memory → (d a : ℕ) → Memory
rep_stos zero w m d a = m
rep_stos (suc count) w m d a = rep_stos count w (stos w m d a) (d + w) a

-- `c &= 0xFF; c = (c<<24)|(c<<16)|(c<<8)|c;`
unfoldable pub fill_word : ℕ → ℕ
fill_word c =
    let b = c % 256 in bit_or (bit_or (bit_or (u32 (b * 2 ^ 24)) (b * 2 ^ 16)) (b * 2 ^ 8)) b

unfoldable pub memset : Memory → (v c n : ℕ) → Memory
memset m v c n =
    if n == 0
    then m
    else if (v % 4 == 0) && (n % 4 == 0)
    then rep_stos (n / 4) 4 m v (fill_word c)
    else rep_stos n 1 m v c

-- `movsb` and `movsl`: an element is read whole and then written.
abbrev pub movs : (w : ℕ) → Memory → (d s : ℕ) → Memory
movs w m d s x = if leb d x && ltb x (d + w) then m (s + (x - d)) else m x

-- `cld; rep movs`
unfoldable pub rep_movs_up : (count w : ℕ) → Memory → (d s : ℕ) → Memory
rep_movs_up zero w m d s = m
rep_movs_up (suc count) w m d s = rep_movs_up count w (movs w m d s) (d + w) (s + w)

-- `std; rep movs`
unfoldable pub rep_movs_down : (count w : ℕ) → Memory → (d s : ℕ) → Memory
rep_movs_down zero w m d s = m
rep_movs_down (suc count) w m d s = rep_movs_down count w (movs w m d s) (d - w) (s - w)

abbrev pub aligned : (d s n : ℕ) → Bool
aligned d s n = (s % 4 == 0) && (d % 4 == 0) && (n % 4 == 0)

unfoldable pub memmove : Memory → (dst src n : ℕ) → Memory
memmove m dst src n =
    if ltb src dst && ltb dst (u32 (src + n))
    then (let s = src + n in
        let d = dst + n in
        if aligned d s n
        then rep_movs_down (n / 4) 4 m (d - 4) (s - 4)
        else rep_movs_down n 1 m (d - 1) (s - 1))
    else if aligned dst src n
    then rep_movs_up (n / 4) 4 m dst src
    else rep_movs_up n 1 m dst src

unfoldable pub memcpy : Memory → (dst src n : ℕ) → Memory
unfolding memmove
memcpy m dst src n = memmove m dst src n

unfoldable pub memcmp : (n : ℕ) → Memory → (s1 s2 : ℕ) → ℤ
memcmp zero m s1 s2 = pos 0
memcmp (suc n) m s1 s2 =
    let rest = memcmp n m (suc s1) (suc s2) in if m s1 != m s2 then sub_ℕ (m s1) (m s2) else rest

unfoldable pub memfind : (n : ℕ) → Memory → (s c : ℕ) → ℕ
memfind zero m s c = s
memfind (suc n) m s c = let rest = memfind n m (suc s) c in if m s == c % 256 then s else rest
