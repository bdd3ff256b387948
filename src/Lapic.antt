-- ===== src/Lapic.antt =====
-- kern/lapic.c and kern/kclock.c: the local interrupt controller, the processors that it starts, and
-- the clock's memory. `writes` are the index and the word of each write to a register of the
-- controller, `outs` the port and the byte of each `outb`, the last one first; what a register reads
-- after some writes is the hardware's, and given, as is how often a loop may poll.
pub mod Startup
use joslab4_init.Base.{
  ℕ, zero, suc, ◌+◌, ◌*◌, ◌/◌, ◌%◌, ◌^◌, Bool, true, false, not, Option, none, some, List, [], ◌∷◌,
  u32, bit_and, bit_or, ltb, leb, ◌==◌, ◌!=◌, if◌then◌else◌,
}
use joslab4_init.Memory.{Memory}
use joslab4_init.Mmu.{pgnum}

pub record Apic : Type 0 where
  pub lapicaddr : ℕ
  pub lapic : Bool  -- whether the pointer is set
  pub npages : ℕ
  pub writes : List (ℕ × ℕ)
  pub outs : List (ℕ × ℕ)
  pub warm_reset : Option (ℕ × ℕ)  -- the two halves of the warm reset vector
  pub mem : Memory  -- the rest of memory
  pub kstacks : List (ℕ × List (ℕ × ℕ))  -- what `mpentry_kstack` was set to, with the writes so far

-- `halted` is a panic or a fault, `spinning` a loop that has used up its polls.
pub data Outcome : Type 0 where
  done : Apic → Outcome
  halted : Outcome
  spinning : Outcome

infixl 5 ◌then_do◌
abbrev ◌then_do◌ : Outcome → (Apic → Outcome) → Outcome
done a then_do k = k a
halted then_do k = halted
spinning then_do k = spinning

abbrev Registers : Type 0
Registers = List (ℕ × ℕ) → (polls index : ℕ) → ℕ

abbrev id_reg : ℕ
id_reg = 0x20 / 4

abbrev ver : ℕ
ver = 0x30 / 4

abbrev tpr : ℕ
tpr = 0x80 / 4

abbrev eoi : ℕ
eoi = 0xB0 / 4

abbrev svr : ℕ
svr = 0xF0 / 4

abbrev esr : ℕ
esr = 0x280 / 4

abbrev pub icrlo : ℕ
icrlo = 0x300 / 4

abbrev pub icrhi : ℕ
icrhi = 0x310 / 4

abbrev timer : ℕ
timer = 0x320 / 4

abbrev pcint : ℕ
pcint = 0x340 / 4

abbrev lint0 : ℕ
lint0 = 0x350 / 4

abbrev lint1 : ℕ
lint1 = 0x360 / 4

abbrev error_reg : ℕ
error_reg = 0x370 / 4

abbrev ticr : ℕ
ticr = 0x380 / 4

abbrev tdcr : ℕ
tdcr = 0x3E0 / 4

abbrev masked : ℕ
masked = 0x10000

abbrev delivs : ℕ
delivs = 0x1000

-- A write through a pointer that is not set faults.
unfoldable pub lapicw : (index value : ℕ) → Apic → Outcome
lapicw index value a =
    if a.lapic then done (record a { writes = (index, value) ∷ a.writes }) else halted

-- `while(lapic[ICRLO] & DELIVS);`, with at most `polls` reads.
unfoldable pub wait_delivered : Registers → (polls : ℕ) → Apic → Outcome
wait_delivered reg zero a = spinning
wait_delivered reg (suc polls) a =
    let rest = wait_delivered reg polls a in
    if bit_and (reg a.writes polls icrlo) delivs != 0 then rest else done a

-- `lapic_init` once the registers are mapped. IRQ_OFFSET is 32, and the vectors are those of the
-- spurious interrupt, the timer and errors.
unfoldable pub set_up : Registers → (polls : ℕ) → (is_bootcpu : Bool) → Apic → Outcome
set_up reg polls is_bootcpu a =
    lapicw svr (bit_or 0x100 (32 + 7)) a
    then_do lapicw tdcr 0xB
    then_do lapicw timer (bit_or 0x20000 (32 + 0))
    then_do lapicw ticr 10000000
    then_do (λ a. if is_bootcpu then done a else lapicw lint0 masked a)
    then_do lapicw lint1 masked
    then_do (λ a.
        if leb 4 (reg a.writes 0 ver / 2 ^ 16 % 256) then lapicw pcint masked a else done a)
    then_do lapicw error_reg (32 + 19)
    then_do lapicw esr 0
    then_do lapicw esr 0
    then_do lapicw eoi 0
    then_do lapicw icrhi 0
    then_do lapicw icrlo (bit_or (bit_or 0x80000 0x500) 0x8000)
    then_do wait_delivered reg polls
    then_do lapicw tpr 0

-- `mmio_map_region(lapicaddr, 4096)` panics; `map` is what it does, so that `lapic_init` is `halted`
-- when `map` is.
abbrev pub map_registers : Apic → Outcome
map_registers a = halted

unfoldable pub lapic_init : Registers → (polls : ℕ) → (is_bootcpu : Bool) → Apic → Outcome
lapic_init reg polls is_bootcpu a =
    if a.lapicaddr == 0
    then done a
    else map_registers a then_do (λ a. set_up reg polls is_bootcpu (record a { lapic = true }))

unfoldable pub cpunum : Registers → Apic → ℕ
cpunum reg a = if a.lapic then reg a.writes 0 id_reg / 2 ^ 24 else 0

unfoldable pub lapic_eoi : Apic → Outcome
lapic_eoi a = if a.lapic then lapicw eoi 0 a else done a

abbrev outb : (port byte : ℕ) → Apic → Apic
outb port byte a = record a { outs = (port, byte) ∷ a.outs }

abbrev pub io_rtc : ℕ
io_rtc = 0x70

-- `n` rounds of the loop that sends the startup interrupt.
unfoldable pub send_startup : (n apicid addr : ℕ) → Apic → Outcome
send_startup zero apicid addr a = done a
send_startup (suc n) apicid addr a =
    lapicw icrhi (u32 (apicid * 2 ^ 24)) a
    then_do lapicw icrlo (bit_or 0x600 (addr / 2 ^ 12))
    then_do send_startup n apicid addr

-- The warm reset vector stands at physical address 0x467, which KADDR checks to be in memory.
unfoldable pub lapic_startap : (apicid addr : ℕ) → Apic → Outcome
lapic_startap apicid addr a =
    if not (ltb (pgnum 0x467) a.npages)
    then halted
    else (let a1 = outb (io_rtc + 1) 0x0A (outb io_rtc 0xF a) in
        let a2 = record a1 { warm_reset = some (0, addr / 2 ^ 4 % 2 ^ 16) } in
        lapicw icrhi (u32 (apicid * 2 ^ 24)) a2
        then_do lapicw icrlo (bit_or (bit_or 0x500 0x8000) 0x4000)
        then_do lapicw icrlo (bit_or 0x500 0x8000)
        then_do send_startup 2 apicid addr)

unfoldable pub lapic_ipi : Registers → (polls vector : ℕ) → Apic → Outcome
lapic_ipi reg polls vector a =
    lapicw icrlo (bit_or (bit_or 0xC0000 0) vector) a then_do wait_delivered reg polls

-- kern/kclock.c, on the ports written and on what port 0x71 then reads.
unfoldable pub mc146818_read :
    (inb : List (ℕ × ℕ) → ℕ) → (reg : ℕ) → List (ℕ × ℕ) → ℕ × List (ℕ × ℕ)
mc146818_read inb reg outs = let outs' = (io_rtc, reg % 256) ∷ outs in (inb outs', outs')

unfoldable pub mc146818_write : (reg datum : ℕ) → List (ℕ × ℕ) → List (ℕ × ℕ)
mc146818_write reg datum outs = (io_rtc + 1, datum % 256) ∷ (io_rtc, reg % 256) ∷ outs
