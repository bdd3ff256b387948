-- ===== src/Lapic/Startup.antt =====
-- The processors that `boot_aps` (kern/init.c) starts, as they read the commands sent to them.
use joslab4_init.Base.{
  ℕ, zero, suc, ◌+◌, ◌*◌, ◌/◌, ◌%◌, ◌^◌, ◌<◌, ◌≡◌, refl, Bool, some, List, [], ◌∷◌, ◌++◌, u32,
  bit_or, not, ltb, le→ltb, ◌≤◌, ◌==◌, if◌then◌else◌,
}
use joslab4_init.Memory.{Memory}
use joslab4_init.String.{memmove}
use joslab4_init.Mmu.{pgnum, pgsize, kernbase, mpentry_paddr}
use joslab4_init.Lapic.{Apic, Outcome, done, halted, spinning, icrlo, icrhi, io_rtc, lapic_startap}

-- `while(c->cpu_status != CPU_STARTED);`, with at most `polls` reads.
unfoldable pub wait_started : (started : ℕ → Bool) → (polls : ℕ) → Apic → Outcome
wait_started started zero a = spinning
wait_started started (suc polls) a =
    let rest = wait_started started polls a in if started polls then done a else rest

abbrev pub and_do : Outcome → (Apic → Outcome) → Outcome
and_do (done a) k = k a
and_do halted k = halted
and_do spinning k = spinning

abbrev pub kstksize : ℕ
kstksize = 8 * pgsize

-- `mpentry_kstack = percpu_kstacks[c] + KSTKSIZE;`
abbrev pub set_kstack : (percpu_kstacks c : ℕ) → Apic → Apic
set_kstack percpu_kstacks c a = record a {
  kstacks = (u32 (percpu_kstacks + c * kstksize + kstksize), a.writes) ∷ a.kstacks;
}

-- The rest of the loop of `boot_aps` on the ids of the processors `c`, …; `me` is `cpunum()`.
unfoldable pub start_aps :
    (started : ℕ → ℕ → Bool) (polls me percpu_kstacks c : ℕ) → List ℕ → Apic → Outcome
start_aps started polls me percpu_kstacks c [] a = done a
start_aps started polls me percpu_kstacks c (id ∷ ids) a =
    let rest = start_aps started polls me percpu_kstacks (c + 1) ids in
    let start = lapic_startap id mpentry_paddr (set_kstack percpu_kstacks c a) in
    if c == me then rest a else and_do (and_do start (wait_started (started c) polls)) rest

-- `memmove(code, mpentry_start, mpentry_end - mpentry_start);`
abbrev pub copy_code : (mpentry_start size : ℕ) → Apic → Apic
copy_code mpentry_start size a = record a {
  mem = memmove a.mem (kernbase + mpentry_paddr) mpentry_start size;
}

-- `size` is that of the entry code, and `ids` are those of the first `ncpu` processors. KADDR panics
-- if the page at MPENTRY_PADDR is not in memory.
unfoldable pub boot_aps :
    (started : ℕ → ℕ → Bool) (polls me percpu_kstacks mpentry_start size : ℕ)
    → List ℕ
    → Apic
    → Outcome
boot_aps started polls me percpu_kstacks mpentry_start size ids a =
    if not (ltb (pgnum mpentry_paddr) a.npages)
    then halted
    else start_aps started polls me percpu_kstacks 0 ids (copy_code mpentry_start size a)

-- How the hardware reads the registers (newest write first): a write of the low word sends a command
-- to the processor that the high word names, with delivery mode, level and vector.
dest : List (ℕ × ℕ) → ℕ
dest [] = 0
dest ((i, v) ∷ ws) = if i == icrhi then v / 2 ^ 24 else dest ws

abbrev pub SentCommand : Type 0
SentCommand = ℕ × ℕ × ℕ × ℕ

pub sent_commands : List (ℕ × ℕ) → List SentCommand
sent_commands [] = []
sent_commands ((i, v) ∷ ws) =
    if i == icrlo
    then (dest ws, v / 2 ^ 8 % 8, v / 2 ^ 14 % 2, v % 256) ∷ sent_commands ws
    else sent_commands ws

-- INIT asserted and deasserted, and two STARTUPs with the number of the page that holds the code.
abbrev pub start_commands : (id page : ℕ) → List SentCommand
start_commands id page = (id, 6, 0, page) ∷ (id, 6, 0, page) ∷ (id, 5, 0, 0) ∷ (id, 5, 1, 0) ∷ []

sent : (apicid addr : ℕ) → Apic → Apic
sent apicid addr a = record a {
  writes =
      (icrlo, bit_or 0x600 (addr / 2 ^ 12))
      ∷ (icrhi, u32 (apicid * 2 ^ 24))
      ∷ (icrlo, bit_or 0x600 (addr / 2 ^ 12))
      ∷ (icrhi, u32 (apicid * 2 ^ 24))
      ∷ (icrlo, 0x8500)
      ∷ (icrlo, 0xC500)
      ∷ (icrhi, u32 (apicid * 2 ^ 24))
      ∷ a.writes;
  outs = (io_rtc + 1, 0x0A) ∷ (io_rtc, 0xF) ∷ a.outs;
  warm_reset = some (0, addr / 2 ^ 4 % 2 ^ 16);
}

-- The commands for the processors `c`, … after `before`, the last one first.
pub all_commands : (me c : ℕ) → List ℕ → (before : List SentCommand) → List SentCommand
all_commands me c [] before = before
all_commands me c (id ∷ ids) before =
    if c == me
    then all_commands me (c + 1) ids before
    else all_commands me (c + 1) ids (start_commands id 7 ++ before)

-- The values of `mpentry_kstack`, each with the commands that had been sent when it was set.
pub set_stacks : List (ℕ × List (ℕ × ℕ)) → List (ℕ × List SentCommand)
set_stacks [] = []
set_stacks ((top, ws) ∷ rest) = (top, sent_commands ws) ∷ set_stacks rest

-- What `mpentry_kstack` is set to for the processors `c`, … after the commands `cs` and the values
-- `before`, the last one first: the top of each processor's stack, once the processors before it have
-- had their commands.
pub all_stacks :
    (me percpu_kstacks c : ℕ)
    → List ℕ
    → (cs : List SentCommand) → (before : List (ℕ × List SentCommand)) → List (ℕ × List SentCommand)
all_stacks me percpu_kstacks c [] cs before = before
all_stacks me percpu_kstacks c (id ∷ ids) cs before =
    if c == me
    then all_stacks me percpu_kstacks (c + 1) ids cs before
    else all_stacks me percpu_kstacks (c + 1) ids (start_commands id 7 ++ cs)
        ((u32 (percpu_kstacks + (c + 1) * 0x8000), cs) ∷ before)

abbrev pub AllBytes : List ℕ → Type 0
AllBytes [] = Unit
AllBytes (x ∷ xs) = (x < 256) × AllBytes xs

-- What the loop leaves: the commands and stacks of the processors from `c` on, and memory as it was.
record Started (me percpu_kstacks c : ℕ) (ids : List ℕ) (a a' : Apic) : Type 0 where
  commands : sent_commands a'.writes ≡ all_commands me c ids (sent_commands a.writes)
  stacks :
      set_stacks a'.kstacks
      ≡ all_stacks me percpu_kstacks c ids (sent_commands a.writes) (set_stacks a.kstacks)
  memory : a'.mem ≡ a.mem

-- Without a page at MPENTRY_PADDR `boot_aps` panics.
pub boot_aps_halted :
    (started : ℕ → ℕ → Bool) (polls me percpu_kstacks mpentry_start size : ℕ) (ids : List ℕ)
    → (a : Apic) → a.npages ≤ 7
    → boot_aps started polls me percpu_kstacks mpentry_start size ids a ≡ halted
unfolding boot_aps pgnum
boot_aps_halted started polls me ks code size ids a few = rw (le→ltb 7 a.npages few) refl
