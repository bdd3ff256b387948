-- ===== src/Trap/Gates.antt =====
-- `trap_init` and `trap_init_percpu` of kern/trap.c: the gates of the interrupt descriptor table and
-- the task state segment. `handlerN` is its number.
use joslab4_init.Base.{
  ℕ, ◌≡◌, refl, ap, ◌∙◌, ◌/◌, Bool, true, false, ◌&&◌, ◌||◌, leb, ltb, ◌!=◌, Bool-cases, inl, inr,
  Option, none, some, List, [], ◌∷◌, update, arith, ◌==◌, if◌then◌else◌,
}
use joslab4_init.Mmu.{kernbase}
use joslab4_init.Env.{gd_kt}

-- What SETGATE writes, less the fields that it sets to the same number in every gate.
pub record Gate : Type 0 where
  pub off : ℕ
  pub sel : ℕ
  pub type : ℕ
  pub dpl : ℕ

abbrev pub sts_ig32 : ℕ
sts_ig32 = 0xE

abbrev pub sts_tg32 : ℕ
sts_tg32 = 0xF

-- `ts_esp0`, `ts_ss0` and `ts_iomb`.
pub record Tss : Type 0 where
  pub esp0 : ℕ
  pub ss0 : ℕ
  pub iomb : ℕ

-- Of a descriptor in the GDT, the type, the base, the limit and the system bit (0 for a TSS).
pub record Descriptor : Type 0 where
  pub type : ℕ
  pub base : ℕ
  pub lim : ℕ
  pub s : ℕ

-- `idt_loaded` is the table that `lidt` has told the processor to use.
pub record Tables : Type 0 where
  pub idt : ℕ → Option Gate
  pub ts : Tss
  pub gdt : ℕ → Option Descriptor
  pub task_register : ℕ
  pub idt_loaded : ℕ → Option Gate

-- `SETGATE(idt[vector], istrap, sel, off, dpl)`
abbrev pub setgate : (vector istrap sel off dpl : ℕ) → Tables → Tables
setgate vector istrap sel off dpl t = record t {
  idt = update t.idt vector (
      some (record {
        off = off;
        sel = sel;
        type = if istrap != 0 then sts_tg32 else sts_ig32;
        dpl = dpl;
      }));
}

-- The arguments of one use of SETGATE.
abbrev SetGate : Type 0
SetGate = ℕ × ℕ × ℕ × ℕ × ℕ

abbrev setgates : List SetGate → Tables → Tables
setgates [] t = t
setgates ((vector, istrap, sel, off, dpl) ∷ rest) t =
    setgates rest (setgate vector istrap sel off dpl t)

-- The uses of SETGATE, in order: the vector, `istrap`, the selector, the handler and the privilege
-- level.
abbrev pub gates : List SetGate
gates =
    (0, 0, gd_kt, 0, 0)
    ∷ (1, 0, gd_kt, 1, 0)
    ∷ (2, 0, gd_kt, 2, 0)
    ∷ (3, 0, gd_kt, 3, 3)
    ∷ (4, 0, gd_kt, 4, 0)
    ∷ (5, 0, gd_kt, 5, 0)
    ∷ (6, 0, gd_kt, 6, 0)
    ∷ (7, 0, gd_kt, 7, 0)
    ∷ (8, 0, gd_kt, 8, 0)
    ∷ (10, 0, gd_kt, 10, 0)
    ∷ (11, 0, gd_kt, 11, 0)
    ∷ (12, 0, gd_kt, 12, 0)
    ∷ (13, 0, gd_kt, 13, 0)
    ∷ (14, 0, gd_kt, 14, 0)
    ∷ (16, 0, gd_kt, 16, 0)
    ∷ (48, 0, gd_kt, 48, 3)
    ∷ []

abbrev pub gd_kd : ℕ
gd_kd = 0x10

abbrev pub gd_tss0 : ℕ
gd_tss0 = 0x28

-- STS_T32A
abbrev pub sts_t32a : ℕ
sts_t32a = 9

-- `ts` stands at `ts_address`; a `struct Taskstate` has 104 bytes, and KSTACKTOP is KERNBASE.
unfoldable pub trap_init_percpu : (ts_address : ℕ) → Tables → Tables
trap_init_percpu ts_address t = record t {
  ts = record { esp0 = kernbase; ss0 = gd_kd; iomb = 104 };
  gdt =
      update t.gdt (gd_tss0 / 8)
        (some (record { type = sts_t32a; base = ts_address; lim = 103; s = 0 }));
  task_register = gd_tss0;
  idt_loaded = t.idt;
}

unfoldable pub trap_init : (ts_address : ℕ) → Tables → Tables
unfolding trap_init_percpu
trap_init ts_address t = trap_init_percpu ts_address (setgates gates t)

-- Whether the processor lets user mode call the vector with an `int` instruction.
abbrev pub user_may : Option Gate → Bool
user_may none = false
user_may (some g) = leb 3 g.dpl

-- Whether the vector's gate, if it has one, is an interrupt gate (interrupts are off behind it) that
-- leads to the handler of that number in the kernel's code segment, which stands at 8 in the GDT.
abbrev pub leads_to : ℕ → Option Gate → Bool
leads_to v none = true
leads_to v (some g) = (g.off == v) && ((g.sel == 8) && (g.type == sts_ig32))

-- The vectors of the processor's exceptions that the kernel handles, and of system calls.
abbrev pub is_handled : ℕ → Bool
is_handled v = ltb v 9 || ((leb 10 v && ltb v 15) || ((v == 16) || (v == 48)))

abbrev pub is_set : Option Gate → Bool
is_set none = false
is_set (some g) = true

-- The stack that the processor switches to on a trap from user mode: that of the TSS whose descriptor
-- the task register selects, if it is an available TSS that stands where `ts` does.
abbrev pub tss_at : (ts_address : ℕ) → Tss → Option Descriptor → Option (ℕ × ℕ)
tss_at ts_address ts none = none
tss_at ts_address ts (some d) =
    if (d.type == 9) && ((d.s == 0) && ((d.base == ts_address) && leb 103 d.lim))
    then some (ts.ss0, ts.esp0)
    else none

abbrev pub trap_stack : (ts_address : ℕ) → Tables → Option (ℕ × ℕ)
trap_stack ts_address t = tss_at ts_address t.ts (t.gdt (t.task_register / 8))

-- What a test of the vector `v`'s gate gives after the uses of SETGATE in the list, from what it gave
-- before.
after : (test : Option Gate → Bool) (v : ℕ) → List SetGate → Bool → Bool
after test v [] b = b
after test v ((n, istrap, sel, off, dpl) ∷ gs) b = after test v gs (
    if v == n
    then test (
        some (record {
          off = off;
          sel = sel;
          type = if istrap != 0 then sts_tg32 else sts_ig32;
          dpl = dpl;
        }))
    else b)

setgates-after :
    (test : Option Gate → Bool) (v : ℕ) (gs : List SetGate) (t : Tables)
    → test ((setgates gs t).idt v) ≡ after test v gs (test (t.idt v))
unfolding after
setgates-after test v [] t = refl
setgates-after test v ((n, istrap, sel, off, dpl) ∷ gs) t =
    setgates-after test v gs (setgate n istrap sel off dpl t)
    ∙ ap (after test v gs)
        (elim (Bool-cases (v == n)) [ inl here ↦ rw here refl | inr other ↦ rw other refl ])

-- What a test of a gate gives after `trap_init` on a table without gates.
trap_init-after :
    (test : Option Gate → Bool) (ts_address v : ℕ) (t : Tables)
    → t.idt ≡ (λ i. none)
    → test ((trap_init ts_address t).idt_loaded v) ≡ after test v gates (test none)
unfolding trap_init trap_init_percpu
trap_init-after test ts_address v t empty =
    setgates-after test v gates t
    ∙ ap (λ (f : ℕ → Option Gate). after test v gates (test (f v))) empty

-- After `trap_init`, on a table without gates: the processor uses a table that has a gate for exactly
-- the exceptions 0 to 8, 10 to 14 and 16 and for system calls; user mode can call exactly the vectors
-- of breakpoints and system calls; every gate is an interrupt gate to the handler of its vector in
-- the kernel's code segment; and the task register selects a TSS with the kernel's data segment and
-- the stack below KSTACKTOP, on which a trap from user mode enters the kernel.
pub trap_init-gates :
    (ts_address v : ℕ) (t : Tables)
    → t.idt ≡ (λ i. none)
    → (is_set ((trap_init ts_address t).idt_loaded v) ≡ is_handled v)
      × (user_may ((trap_init ts_address t).idt_loaded v) ≡ ((v == 3) || (v == 48)))
      × (leads_to v ((trap_init ts_address t).idt_loaded v) ≡ true)
      × (trap_stack ts_address (trap_init ts_address t) ≡ some (0x10, 0xF0000000))
unfolding trap_init trap_init_percpu after
trap_init-gates ts_address v t empty = (
  trap_init-after is_set ts_address v t empty ∙ ground arith,
  trap_init-after user_may ts_address v t empty ∙ ground arith,
  trap_init-after (leads_to v) ts_address v t empty ∙ ground arith,
  ground arith,
)
