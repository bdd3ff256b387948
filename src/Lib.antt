-- ===== src/Lib.antt =====
-- The JOS kernel (an exokernel-like teaching system for 32-bit x86), its parts as they are in the
-- repository, and what is proved of them.
--
-- The program. kern/pmap.c owns physical memory: the array `pages` with a reference count and a link
-- for each page, the list of free pages, and the two-level page tables. kern/env.c owns the array of
-- environments, their ids and address spaces, and takes pages and page tables from kern/pmap.c.
-- kern/trap.c enters the kernel, dispatches on the trap and leaves through env_run or through
-- kern/sched.c, which halts the CPU. kern/spinlock.c is the lock around the kernel, kern/console.c the
-- keyboard, its buffer and the screen.
-- lib/string.c and lib/printfmt.c are linked into the kernel and into user programs: lib/printfmt.c
-- formats, lib/printf.c and kern/printf.c pass the output on. kern/monitor.c reads lines with
-- lib/readline.c and runs commands, of which one uses kern/kdebug.c to find functions and lines.
-- kern/mpconfig.c finds the processors, which kern/init.c starts through kern/lapic.c. User programs
-- link lib/syscall.c, which enters the kernel. boot/main.c loads the kernel
-- from the disk, which then runs in the address space of kern/entrypgdir.c until it has its own.
--
-- The files.
--   Base        shared names: Boolean tests on numbers, lists, bit fields, integers, functions with
--               one value changed
--   Mmu         inc/mmu.h, inc/memlayout.h, inc/types.h: page size, layout, entries, rounding;
--               Mmu/Address has the laws of linear addresses
--   Machine     the state of kern/pmap.c, the monad of its operations, the inline functions of
--               kern/pmap.h, inc/error.h
--   Pmap        the operations of kern/pmap.c under the names of the source; its children hold what is
--               shown of the free list (FreeList, Alloc, DoubleFree, Init), of page tables (Walk,
--               Remove, Insert, Undo) and of user_mem_check (UserMem), and of the allocator over time (Reach);
--               Region has boot_map_region and check_va2pa, with what is shown of them in Mapped; Check
--               has check_page_free_list (Segments, Select, LowFirst, Verdict, Checked), CheckAlloc
--               check_page_alloc (Holding, Steal), CheckPage the tests of page tables, and MemInit
--               mem_init; Unfinished is about check_page
--   Kernel      inc/env.h, inc/trap.h, kern/cpu.h: the state of the whole kernel, and the monad of
--               operations on it
--   Env         kern/env.c: envid2env, env_init, env_setup_vm, env_alloc, with what is shown of them
--               in Env/Ids and Env/Alloc; env_free, whose model is free_env, in Env/Tables and
--               Env/Free, with what is shown of it in Env/Release; Env/Region has region_alloc, and
--               Env/Load load_icode and env_create
--   Sched       kern/sched.c, and env_run, env_destroy and user_mem_assert; Sched/Switch
--   Trap        kern/trap.c, and syscall of kern/syscall.c; Trap/Outcomes; Trap/Gates has trap_init
--   Spinlock    kern/spinlock.c: CPUs in turn, as a schedule; Spinlock/Exclusion
--   Memory      byte-addressed memory and strings in it
--   String      lib/string.c (strtol is in String/Number); its children hold what is shown of
--               lengths, copies, moves, fills and comparisons
--   Console     kern/console.c: the input ring (Console/Queue) and the screen (Console/Bounds);
--               Console/Ports has the ports, with what is sent to them in Console/Sent, and
--               Console/Start cons_init
--   Keyboard    kern/console.c: the translation of scan codes; Keyboard/Release
--   Printfmt    lib/printfmt.c: printnum and the flags of a conversion, Printfmt/Convert has vprintfmt;
--               Printfmt/Number has what is shown of printnum, Printfmt/Text of formats without
--               conversions, Printfmt/Ends, Escapes and Termination of the end of vprintfmt;
--               Printfmt/Buffer has vsnprintf, Printfmt/Cprintf the vcprintf of lib/printf.c and, as
--               kernel_vcprintf, that of kern/printf.c
--   Readline    lib/readline.c
--   Monitor     kern/monitor.c: runcmd; Monitor/Arguments has what is shown of its arguments;
--               Monitor/Backtrace has mon_backtrace
--   Kdebug      kern/kdebug.c: stab_binsearch, with what is shown of it in Kdebug/Scan and
--               Kdebug/Binsearch; Kdebug/Debuginfo has debuginfo_eip
--   Mpconfig    kern/mpconfig.c: mp_init and the search for its tables; Mpconfig/Floating and
--               Mpconfig/Processors have what is shown of them
--   Boot        boot/main.c, for a disk given by its sectors; Boot/Sectors has what is shown of readseg
--   Entry       kern/entrypgdir.c
--   Handlers    kern/syscall.c: the handlers that syscall does not reach
--   Picirq      kern/picirq.c
--   Lapic       kern/lapic.c and kern/kclock.c; Lapic/Startup has boot_aps of kern/init.c
--   User        lib/: system call stubs, getchar, libmain, ipc_find_env; User/Calls
--   Tests       concrete states, on which each result is applied
--
-- How the state corresponds. A `struct PageInfo *` is the page's number, a `struct Env *` is its index
-- in `envs`, a pointer to a page through the map at KERNBASE is the page's frame number, and a pointer to
-- an entry of a page table is a frame with an index. `uint32_t` and `int32_t` are numbers below 2 ^ 32
-- with the wrap-around written out; `pp_ref` wraps as `uint16_t`. A call of `panic` is the result
-- `panicked`. `nextfree` of boot_alloc and `end` are arguments. A character is an unsigned byte.
--
-- Loops. Counted loops recur on their count. The loops of strlen, strcpy, strcmp, strchr and strfind
-- take fuel, of which one more than the characters of the string is enough. The loop of
-- user_mem_check gets one round more than there are pages between its bounds, which is enough since each
-- round advances by one page.
--
-- A search of the stabs gets twice as many rounds as there are stabs and two more, as each round
-- narrows the range or is the one that meets the address. vprintfmt takes fuel for its rounds and `limit` for its
-- inner loops: one round more than the format has characters is enough, and a limit above 64 that is more
-- than the length of the format and of the strings in memory; printnum needs one more than the number
-- has binary digits. The loops of runcmd need more rounds than the line has
-- characters, and the search for the floating pointer has one more than it has bytes. readseg needs two
-- more than the sectors of the count. The loops over the free list get one round more than it has pages. What a device answers
-- to a poll is given, with the number of polls.
--
-- Several CPUs. Only Spinlock interleaves CPUs. The other parts run one handler at a time, as the lock
-- is there to ensure; `lock_kernel` of a lock that is taken is then `out_of_fuel`. The monitor's loop
-- ends only for a command that returns a negative number, and there is none, so it is an exit.
--
-- Not modelled. The system calls that only panic, boot/boot.S and what kern/init.c calls in order; the
-- other commands of the monitor, the printing of trap frames and other calls of cprintf, which print only;
-- segment and control registers (env_init_percpu, the end of mem_init); user programs, which are tests.
pub mod Base
pub mod Mmu
pub mod Machine
pub mod Pmap
pub mod Kernel
pub mod Env
pub mod Sched
pub mod Trap
pub mod Spinlock
pub mod Memory
pub mod String
pub mod Console
pub mod Keyboard
pub mod Printfmt
pub mod Readline
pub mod Monitor
pub mod Kdebug
pub mod Mpconfig
pub mod Boot
pub mod Entry
pub mod Handlers
pub mod Picirq
pub mod Lapic
pub mod User
mod Tests
