-- ===== src/Tests/Starting.antt =====
-- Tests on the start of the kernel and of programs.
use joslab4_init.Base.{◌||◌, ◌%◌, ◌≡◌, refl, true, none, some, [], ◌==◌, if◌then◌else◌}
use joslab4_init.Lapic.{Apic}
use joslab4_init.Console.{cga_putc}
use joslab4_init.Console.Ports.{Ports, Devices, cons_putc}
use joslab4_init.Console.Sent.{bytes_to, on_line, cons_putc-bytes_to}
use joslab4_init.Trap.Gates.{
  Tables, is_set, is_handled, user_may, leads_to, trap_stack, trap_init, trap_init-gates,
}

abbrev apic : Apic
apic = record {
  lapicaddr = 0xFEE00000;
  lapic = true;
  npages = 8;
  writes = [];
  outs = [];
  warm_reset = none;
  mem = λ x. x % 256;
  kstacks = [];
}

-- A serial line that is never ready, and a parallel port that always is.
abbrev ports : Ports
ports reads port = if port == 0x379 then 0x80 else 0

abbrev console : Devices
console = record {
  io = record { reads = 0; outs = [] };
  screen = record { crt_buf = λ i. 0x0720; crt_pos = 1999 };
}

cons_putc-bytes_to_example :
    ((cons_putc ports 0x3D4 9 console).screen ≡ cga_putc 9 console.screen)
    × (bytes_to 0x3F8 (cons_putc ports 0x3D4 9 console).io.outs ≡ on_line 9 [])
unfolding bytes_to
cons_putc-bytes_to_example = cons_putc-bytes_to ports true true 9 console

abbrev no_gates : Tables
no_gates = record {
  idt = λ v. none;
  ts = record { esp0 = 0; ss0 = 0; iomb = 0 };
  gdt = λ i. none;
  task_register = 0;
  idt_loaded = λ v. none;
}

trap_init-gates_example :
    (is_set ((trap_init 0xF0200000 no_gates).idt_loaded 14) ≡ is_handled 14)
    × (user_may ((trap_init 0xF0200000 no_gates).idt_loaded 14) ≡ ((14 == 3) || (14 == 48)))
    × (leads_to 14 ((trap_init 0xF0200000 no_gates).idt_loaded 14) ≡ true)
    × (trap_stack 0xF0200000 (trap_init 0xF0200000 no_gates) ≡ some (0x10, 0xF0000000))
trap_init-gates_example = trap_init-gates 0xF0200000 14 no_gates refl
