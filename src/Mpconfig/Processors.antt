-- ===== src/Mpconfig/Processors.antt =====
-- `mp_init`: the processors that it counts, against the list of the entries.
use Prim.Native.Nat.{min}
use native.Mathlib.Decide.{dec_lt}
use joslab4_init.Base.{
  ℕ, zero, suc, ◌+◌, ◌≤◌, ◌<◌, ◌≡◌, ◌∙◌, ap, refl, Bool, true, false, ◌&&◌, some, List, [], ◌∷◌,
  arith, length, leb, ◌==◌, if◌then◌else◌, Bool-cases, inl, inr,
}
use joslab4_init.Memory.{Memory, word16, word}
use joslab4_init.Mpconfig.{
  ok, mpconfig, Smp, is_boot, add_cpu, read_entries, start_smp, configure, mp_init,
}

-- The flags of the processors among `n` entries, up to the first of an unknown type, and whether there
-- is none of an unknown type.
unfoldable pub processors : Memory → (p n : ℕ) → List ℕ × Bool
processors mem p zero = ([], true)
processors mem p (suc n) =
    if mem p == 0
    then (let rest = processors mem (p + 20) n in (mem (p + 3) ∷ rest.0, rest.1))
    else if leb (mem p) 4
    then processors mem (p + 8) n
    else ([], false)

-- The place of the last processor with the boot flag, or 8 if it is a later one; `k` processors stand
-- before the list.
unfoldable pub boot_place : (k default : ℕ) → List ℕ → ℕ
boot_place k default [] = default
boot_place k default (flags ∷ rest) =
    boot_place (suc k) (if is_boot flags then min 8 k else default) rest

-- The entries counted from a state with `k` processors.
record Counted (k : ℕ) (flags : List ℕ) (known : Bool) (s s' : Smp) : Type 0 where
  number : s'.ncpu ≡ min 8 (k + length flags)
  ids : (i : ℕ) → k ≤ i → i < s'.ncpu → s'.cpu_id i ≡ i
  before : (i : ℕ) → i < k → s'.cpu_id i ≡ s.cpu_id i
  boot : s'.bootcpu ≡ boot_place k s.bootcpu flags
  multi : s'.ismp ≡ s.ismp && known
  apic : s'.lapicaddr ≡ s.lapicaddr

record Added (k f : ℕ) (s s1 : Smp) : Type 0 where
  number : s1.ncpu ≡ min 8 (suc k)
  id : k < 8 → s1.cpu_id k ≡ k
  before : (i : ℕ) → i < k → s1.cpu_id i ≡ s.cpu_id i
  boot : s1.bootcpu ≡ (if is_boot f then min 8 k else s.bootcpu)
  multi : s1.ismp ≡ s.ismp
  apic : s1.lapicaddr ≡ s.lapicaddr

add_cpu-Added : (k f : ℕ) (s : Smp) → s.ncpu ≡ min 8 k → Added k f s (add_cpu f s)
unfolding add_cpu
add_cpu-Added k f s e = record {
  number = ground arith;
  id = λ h. ground arith;
  before = λ i h. ground arith;
  boot = ground arith;
  multi = ground arith;
  apic = ground arith;
}

Counted-cons :
    (k f : ℕ) (flags : List ℕ) (known : Bool) (s s1 s' : Smp)
    → Added k f s s1
    → Counted (suc k) flags known s1 s'
    → Counted k (f ∷ flags) known s s'
unfolding boot_place
Counted-cons k f flags known s s1 s' a c = record {
  number = omega (arith, c.number);
  ids = λ i h1 h2. elim (dec_lt k i) [
    | yes later ↦ c.ids i later h2
    | no same ↦
        ap s'.cpu_id (omega arith)
        ∙ (c.before k (omega arith) ∙ (a.id (omega (arith, c.number)) ∙ omega arith))
  ];
  before = λ i h. c.before i (omega arith) ∙ a.before i h;
  boot = c.boot ∙ ap (λ (b : ℕ). boot_place (suc k) b flags) a.boot;
  multi = c.multi ∙ ap (λ (b : Bool). b && known) a.multi;
  apic = c.apic ∙ a.apic;
}

read_entries-Counted :
    (mem : Memory) (p n k : ℕ) (s : Smp)
    → s.ncpu ≡ min 8 k
    → s.ismp ≡ true
    → Counted k ((processors mem p n).0) ((processors mem p n).1) s (read_entries mem p n s)
unfolding read_entries processors boot_place
read_entries-Counted mem p zero k s e t = record {
  number = omega (arith, e);
  ids = λ i h1 h2. absurd (omega (arith, e));
  before = λ i h. refl;
  boot = refl;
  multi = ground arith;
  apic = refl;
}
read_entries-Counted mem p (suc n) k s e t = elim (Bool-cases (mem p == 0)) [
  | inl cpu ↦
      let a = add_cpu-Added k (mem (p + 3)) s e in
      let ih =
        read_entries-Counted mem (p + 20) n (suc k) (add_cpu (mem (p + 3)) s) a.number
          (a.multi ∙ t) in
      rw cpu (Counted-cons k _ _ _ s _ _ a ih)
  | inr other ↦ elim (Bool-cases (leb (mem p) 4)) [
    | inl known ↦ rw (other, known) (read_entries-Counted mem (p + 8) n k s e t)
    | inr unknown ↦
        rw (other, unknown)
          (record {
            number = omega (arith, e);
            ids = λ i h1 h2. absurd (omega (arith, e));
            before = λ i h. refl;
            boot = refl;
            multi = ground arith;
            apic = refl;
          })
  ]
]

unfoldable pub known_entries : Memory → (conf : ℕ) → List ℕ × Bool
known_entries mem conf = processors mem (conf + 44) (word16 mem (conf + 34))

-- What `mp_init` leaves, for the entries' flags, whether all are known, and the table's APIC.
pub record Configured (flags : List ℕ) (known : Bool) (apic : ℕ) (s : Smp) : Type 0 where
  pub boot : s.bootcpu ≡ boot_place 0 0 flags
  pub started : s.cpu_started s.bootcpu ≡ true
  pub multi : s.ismp ≡ known
  pub number : s.ncpu ≡ (if known then min 8 (length flags) else 1)
  pub address : s.lapicaddr ≡ (if known then apic else 0)
  pub ids : (i : ℕ) → i < min 8 (length flags) → s.cpu_id i ≡ i

start_smp-Configured :
    (mem : Memory) (mp : ℕ) (flags : List ℕ) (known : Bool) (s0 s : Smp)
    → s0.bootcpu ≡ 0
    → s0.ismp ≡ true
    → Counted 0 flags known s0 s
    → Configured flags known s0.lapicaddr (start_smp mem mp s)
start_smp-Configured mem mp flags true s0 s b t c =
    let on : s.ismp ≡ true = c.multi ∙ ap (λ (x : Bool). x && true) t in
    rw on (record {
      boot = c.boot ∙ ap (λ (x : ℕ). boot_place 0 x flags) b;
      started = ground arith;
      multi = refl;
      number = omega (arith, c.number);
      address = c.apic;
      ids = λ i h. c.ids i (omega arith) (omega (arith, c.number));
    })
start_smp-Configured mem mp flags false s0 s b t c =
    let off : s.ismp ≡ false = c.multi ∙ ap (λ (x : Bool). x && false) t in
    rw off (record {
      boot = c.boot ∙ ap (λ (x : ℕ). boot_place 0 x flags) b;
      started = ground arith;
      multi = refl;
      number = refl;
      address = refl;
      ids = λ i h. c.ids i (omega arith) (omega (arith, c.number));
    })

-- `mp_init` from the state with no processor, when it finds a table: the boot processor is the last
-- one listed with the boot flag (the ninth and later ones count as place 8, which is outside
-- `cpus`) and is marked as started. If all entries have a known type, SMP is on, `ncpu` is the number
-- of the processors listed, at most 8, the processors from 0 on have their place as id, and the APIC's
-- address is the table's. If not, SMP is off, with one processor and no address.
pub mp_init-processors :
    (npages mp conf : ℕ) (mem : Memory) (s : Smp)
    → s.ncpu ≡ 0
    → mpconfig npages mem ≡ ok (some (mp, conf))
    → (s' : Smp) × (mp_init npages mem s ≡ ok s')
      × Configured
          ((known_entries mem conf).0)
          ((known_entries mem conf).1)
          (word mem (conf + 36))
          s'
unfolding mp_init known_entries
mp_init-processors npages mp conf mem s e found =
    let s0 = record s { bootcpu = 0; ismp = true; lapicaddr = word mem (conf + 36) } in
    let c = read_entries-Counted mem (conf + 44) (word16 mem (conf + 34)) 0 s0 (omega arith) refl in
    (
      configure mem s (some (mp, conf)),
      rw found refl,
      start_smp-Configured mem mp _ _ s0 _ refl refl c,
    )
