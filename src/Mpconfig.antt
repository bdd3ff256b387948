-- ===== src/Mpconfig.antt =====
-- kern/mpconfig.c: the search for the multiprocessor tables, and the processors that they list.
-- `mem` is the physical memory, and a pointer that `KADDR` gives is its physical address.
pub mod Floating
pub mod Processors
use joslab4_init.Base.{
  ℕ, zero, suc, ◌+◌, ◌-◌, ◌*◌, ◌/◌, ◌%◌, ◌^◌, Bool, true, false, not, ◌&&◌, ◌||◌, Option, none,
  some, List, [], ◌∷◌, ◌++◌, ltb, leb, ◌==◌, ◌!=◌, update, u32, bit_and, bit_or, if◌then◌else◌,
}
use joslab4_init.Base.Text.{codes}
use joslab4_init.Memory.{Memory, word16, word}

-- `panicked` is a `KADDR` of an address that the machine does not have.
pub data Checked (A : Type 0) : Type 0 where
  ok : A → Checked A
  panicked : Checked A

infixl 5 ◌>>=◌
abbrev pub ◌>>=◌ : {A B : Type 0} → Checked A → (A → Checked B) → Checked B
ok a >>= k = k a
panicked >>= k = panicked

abbrev pub kaddr_of : (npages pa : ℕ) → Checked ℕ
kaddr_of npages pa = if ltb (pa / 2 ^ 12) npages then ok pa else panicked

unfoldable pub sum_bytes : Memory → (addr len : ℕ) → ℕ
sum_bytes mem addr zero = 0
sum_bytes mem addr (suc len) = mem addr + sum_bytes mem (suc addr) len

abbrev pub sum : Memory → (addr len : ℕ) → ℕ
sum mem addr len = sum_bytes mem addr len % 256

-- `memcmp(p, text, n) == 0` for a text of n characters.
unfoldable pub matches : Memory → ℕ → List ℕ → Bool
matches mem p [] = true
matches mem p (c ∷ text) = (mem p == c) && matches mem (suc p) text

abbrev pub is_mp : Memory → ℕ → Bool
is_mp mem mp = matches mem mp (codes "_MP_") && (sum mem mp 16 == 0)

unfoldable pub mp_loop : (fuel : ℕ) → Memory → (mp end : ℕ) → Option (Option ℕ)
mp_loop zero mem mp end = none
mp_loop (suc fuel) mem mp end =
    let rest = mp_loop fuel mem (mp + 16) end in
    if not (ltb mp end) then some none else if is_mp mem mp then some (some mp) else rest

abbrev pub or_none : Option (Option ℕ) → Option ℕ
or_none none = none
or_none (some o) = o

-- More rounds than bytes are enough.
unfoldable pub mpsearch1 : (npages : ℕ) → Memory → (a len : ℕ) → Checked (Option ℕ)
mpsearch1 npages mem a len = kaddr_of npages a >>= λ mp.
    kaddr_of npages (u32 (a + len)) >>= λ end. ok (or_none (mp_loop (suc len) mem mp end))

abbrev pub or_bios : (npages : ℕ) → Memory → Option ℕ → Checked (Option ℕ)
or_bios npages mem (some mp) = ok (some mp)
or_bios npages mem none = mpsearch1 npages mem 0xF0000 0x10000

unfoldable pub mpsearch : (npages : ℕ) → Memory → Checked (Option ℕ)
mpsearch npages mem =
    let ebda = word16 mem 0x40E in
    let base = word16 mem 0x413 * 1024 in
    kaddr_of npages 0x400
    >>= (λ bda.
        if ebda != 0
        then mpsearch1 npages mem (ebda * 2 ^ 4) 1024
        else mpsearch1 npages mem (u32 (base + 2 ^ 32 - 1024)) 1024)
    >>= or_bios npages mem

-- Whether the table at `conf` has its signature, checksums and a known version.
abbrev pub is_conf : Memory → ℕ → Bool
is_conf mem conf =
    matches mem conf (codes "PCMP")
    && (sum mem conf (word16 mem (conf + 4)) == 0)
    && ((mem (conf + 6) == 1) || (mem (conf + 6) == 4))
    && ((sum mem (conf + word16 mem (conf + 4)) (word16 mem (conf + 40)) + mem (conf + 42)) % 256
        == 0)

-- The structure and the table.
abbrev pub conf_of : (npages : ℕ) → Memory → Option ℕ → Checked (Option (ℕ × ℕ))
conf_of npages mem none = ok none
conf_of npages mem (some mp) =
    let physaddr = word mem (mp + 4) in
    if (physaddr == 0) || (mem (mp + 11) != 0)
    then ok none
    else kaddr_of npages physaddr >>= λ conf.
        ok (if is_conf mem conf then some (mp, conf) else none)

unfoldable pub mpconfig : (npages : ℕ) → Memory → Checked (Option (ℕ × ℕ))
mpconfig npages mem = mpsearch npages mem >>= conf_of npages mem

abbrev pub ncpu_max : ℕ
ncpu_max = 8

-- `bootcpu` is an index of `cpus`; `switched` is the write to the IMCR.
pub record Smp : Type 0 where
  pub cpu_id : ℕ → ℕ
  pub cpu_started : ℕ → Bool
  pub bootcpu : ℕ
  pub ismp : Bool
  pub ncpu : ℕ
  pub lapicaddr : ℕ
  pub switched : Bool

abbrev pub is_boot : (flags : ℕ) → Bool
is_boot flags = bit_and flags 2 != 0

-- A processor's entry.
unfoldable pub add_cpu : (flags : ℕ) → Smp → Smp
add_cpu flags s =
    let s1 = if is_boot flags then record s { bootcpu = s.ncpu } else s in
    if ltb s1.ncpu ncpu_max
    then record s1 { cpu_id = update s1.cpu_id s1.ncpu s1.ncpu; ncpu = s1.ncpu + 1 }
    else s1

-- The loop over the entries that are left.
unfoldable pub read_entries : Memory → (p n : ℕ) → Smp → Smp
read_entries mem p zero s = s
read_entries mem p (suc n) s =
    if mem p == 0
    then read_entries mem (p + 20) n (add_cpu (mem (p + 3)) s)
    else if leb (mem p) 4
    then read_entries mem (p + 8) n s
    else record s { ismp = false }

-- What follows the loop.
abbrev pub start_smp : Memory → (mp : ℕ) → Smp → Smp
start_smp mem mp s =
    let s1 = record s { cpu_started = update s.cpu_started s.bootcpu true } in
    if not s1.ismp
    then record s1 { ncpu = 1; lapicaddr = 0 }
    else record s1 { switched = mem (mp + 12) != 0 }

abbrev pub configure : Memory → Smp → Option (ℕ × ℕ) → Smp
configure mem s none = record s { bootcpu = 0 }
configure mem s (some (mp, conf)) = start_smp mem mp (
    read_entries mem (conf + 44) (word16 mem (conf + 34))
      (record s { bootcpu = 0; ismp = true; lapicaddr = word mem (conf + 36) }))

unfoldable pub mp_init : (npages : ℕ) → Memory → Smp → Checked Smp
mp_init npages mem s = mpconfig npages mem >>= λ o. ok (configure mem s o)
