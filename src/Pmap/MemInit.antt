-- ===== src/Pmap/MemInit.antt =====
-- `i386_detect_memory`, `check_kern_pgdir` and `mem_init`. The bytes of the clock's memory, the end of
-- the kernel's image and the addresses of the kernel stacks are given. What `mem_init` does to the
-- registers cr3 and cr0 is left out.
use joslab4_init.Base.{
  ℕ, zero, suc, ◌+◌, ◌-◌, ◌*◌, ◌/◌, ◌^◌, Bool, true, false, ◌&&◌, ◌||◌, Option, none, u32, bit_and,
  bit_or, ltb, leb, ◌==◌, ◌!=◌, update, if◌then◌else◌,
}
use joslab4_init.Mmu.{
  pgsize, ptsize, npdentries, kernbase, uvpt, utop, pgnum, pdx, pte_p, pte_u, pte_w, present,
  roundup,
}
use joslab4_init.Machine.{Machine, Run, M, ok, panicked, out_of_fuel, ◌>>=◌, ◌>>◌}
use joslab4_init.Pmap.{boot_alloc, page_init}
use joslab4_init.Pmap.Region.{boot_map_region}
use joslab4_init.Pmap.Check.{check_page_free_list}
use joslab4_init.Pmap.CheckAlloc.{assert_that, check_page_alloc}
use joslab4_init.Pmap.CheckPage.{assert_va2pa, check_page, check_page_installed_pgdir}

unfoldable pub nvram_read : (mc146818_read : ℕ → ℕ) → (r : ℕ) → ℕ
nvram_read mc146818_read r = bit_or (mc146818_read r) (mc146818_read (r + 1) * 2 ^ 8)

-- `npages` and `npages_basemem`; NVRAM_BASELO, NVRAM_EXTLO and NVRAM_EXT16LO are 21, 23 and 52.
unfoldable pub i386_detect_memory : (mc146818_read : ℕ → ℕ) → ℕ × ℕ
unfolding nvram_read
i386_detect_memory mc146818_read =
    let basemem = nvram_read mc146818_read 21 in
    let extmem = nvram_read mc146818_read 23 in
    let ext16mem = nvram_read mc146818_read 52 * 64 in
    let totalmem =
      if ext16mem != 0
      then 16 * 1024 + ext16mem
      else if extmem != 0
      then 1 * 1024 + extmem
      else basemem in
    (totalmem / (pgsize / 1024), basemem / (pgsize / 1024))

-- `n` rounds of `assert(check_va2pa(pgdir, va + i) == pa + i)`
unfoldable pub assert_range : (n pgdir va pa : ℕ) → M (Unit {0})
assert_range zero pgdir va pa = ok tt
assert_range (suc n) pgdir va pa =
    assert_va2pa pgdir va pa >> assert_range n pgdir (u32 (va + pgsize)) (u32 (pa + pgsize))

-- `n` rounds of `assert(check_va2pa(pgdir, va + i) == ~0)`
unfoldable pub assert_unmapped : (n pgdir va : ℕ) → M (Unit {0})
assert_unmapped zero pgdir va = ok tt
assert_unmapped (suc n) pgdir va =
    assert_va2pa pgdir va 0xFFFFFFFF >> assert_unmapped n pgdir (u32 (va + pgsize))

-- The stacks of the CPUs `0`, …, `n - 1`; KSTKSIZE and KSTKGAP are 8 pages each, and KSTACKTOP is
-- KERNBASE.
unfoldable pub assert_stacks : (percpu_kstacks : ℕ → ℕ) → (n pgdir : ℕ) → M (Unit {0})
assert_stacks percpu_kstacks zero pgdir = ok tt
assert_stacks percpu_kstacks (suc n) pgdir =
    let base = kernbase - 16 * pgsize * (n + 1) in
    assert_stacks percpu_kstacks n pgdir
    >> assert_range 8 pgdir (base + 8 * pgsize) (percpu_kstacks n - kernbase)
    >> assert_unmapped 8 pgdir base

abbrev upages : ℕ
upages = uvpt - ptsize

-- The cases of the switch that ask for an entry: those of UVPT, KSTACKTOP - 1, UPAGES, UENVS and
-- MMIOBASE.
abbrev is_listed : ℕ → Bool
is_listed i =
    (i == pdx uvpt)
    || ((i == pdx (kernbase - 1))
        || ((i == pdx upages) || ((i == pdx utop) || (i == pdx (kernbase - 2 * ptsize)))))

unfoldable pub directory_ok : (pgdir i : ℕ) → Machine → Bool
directory_ok pgdir i m =
    if is_listed i
    then present (m.mem pgdir i)
    else if leb (pdx kernbase) i
    then present (m.mem pgdir i) && (bit_and (m.mem pgdir i) pte_w != 0)
    else m.mem pgdir i == 0

-- The rounds `0`, …, `n - 1` of the loop over the directory.
unfoldable pub assert_directory : (n pgdir : ℕ) → M (Unit {0})
assert_directory zero pgdir = ok tt
assert_directory (suc n) pgdir =
    assert_directory n pgdir >> (λ m. assert_that (directory_ok pgdir n m) m)

-- A `struct PageInfo` has 8 bytes, a `struct Env` 124.
unfoldable pub check_kern_pgdir :
    (percpu_kstacks : ℕ → ℕ) → (kern_pgdir pages envs : ℕ) → M (Unit {0})
unfolding roundup
check_kern_pgdir percpu_kstacks kern_pgdir pages envs m =
    (assert_range (roundup (u32 (m.npages * 8)) pgsize / pgsize) kern_pgdir upages
          (pages - kernbase)
        >> assert_range (roundup (1024 * 124) pgsize / pgsize) kern_pgdir utop (envs - kernbase)
        >> assert_range (u32 (m.npages * pgsize) / pgsize) kern_pgdir kernbase 0
        >> assert_stacks percpu_kstacks 8 kern_pgdir
        >> assert_directory npdentries kern_pgdir)
      m

-- `memset(pages, 0, npages*sizeof(struct PageInfo))`
abbrev clear_pages : Machine → Machine
clear_pages m = record m { pp_ref = λ p. 0; pp_link = λ p. none }

-- `memset` of `n` frames with zeroes.
abbrev clear_frames : (f n : ℕ) → Machine → Machine
clear_frames f n m = record m { mem = λ g i. if leb f g && ltb g (f + n) then 0 else m.mem g i }

-- The frame of a page at an address above KERNBASE.
abbrev pub frame_at : ℕ → ℕ
frame_at kva = pgnum (kva - kernbase)

-- What `mem_init` sets up before `page_init`: `pages`, `kern_pgdir`, `envs` and `nextfree`, and the
-- machine. The environments' array fills 31 pages.
unfoldable pub boot_tables : (end : ℕ) → Machine → (ℕ × ℕ × ℕ × ℕ) × Machine
boot_tables end m =
    let (pages, next1) = boot_alloc end 0 (u32 (8 * m.npages)) in
    let (kern_pgdir, next2) = boot_alloc end next1 pgsize in
    let (envs, next3) = boot_alloc end next2 (124 * 1024) in
    let k = frame_at kern_pgdir in
    let m1 = clear_frames k 1 (clear_pages m) in
    let uvpt_entry = bit_or (bit_or (kern_pgdir - kernbase) pte_u) pte_p in
    let m2 = record m1 { mem = update m1.mem k (update (m1.mem k) (pdx uvpt) uvpt_entry) } in
    ((pages, kern_pgdir, envs, next3), clear_frames (frame_at envs) 31 m2)

-- From `page_init` on. `fuel` is for each loop over the free list.
unfoldable pub check_and_map :
    (end npages_basemem : ℕ)
    → (rubbish : Bool → Option ℕ) → (percpu_kstacks : ℕ → ℕ)
    → (fuel pages kern_pgdir envs nextfree : ℕ) → M (Unit {0})
check_and_map end npages_basemem rubbish percpu_kstacks fuel pages kern_pgdir envs nextfree = do
  _ ← λ m. ok tt (page_init end nextfree npages_basemem m)
  _ ← check_page_free_list true rubbish fuel nextfree
  _ ← check_page_alloc true fuel
  _ ← check_page none (frame_at kern_pgdir)
  _ ← boot_map_region (frame_at kern_pgdir) utop ptsize (envs - kernbase) pte_u
  _ ← check_kern_pgdir percpu_kstacks (frame_at kern_pgdir) pages envs
  _ ← check_page_free_list false rubbish fuel nextfree
  check_page_installed_pgdir none (frame_at kern_pgdir)

unfoldable pub mem_init :
    (mc146818_read : ℕ → ℕ)
    → (end : ℕ) → (rubbish : Bool → Option ℕ) → (percpu_kstacks : ℕ → ℕ) → (fuel : ℕ) → M (Unit {0})
mem_init mc146818_read end rubbish percpu_kstacks fuel m =
    let (npages, npages_basemem) = i386_detect_memory mc146818_read in
    let ((pages, kern_pgdir, envs, nextfree), m1) =
      boot_tables end (record m { npages = npages }) in
    check_and_map end npages_basemem rubbish percpu_kstacks fuel pages kern_pgdir envs nextfree m1

-- Whether a run returns to its caller.
unfoldable pub returns : {A : Type 0} → Run A → Bool
returns (ok a m) = true
returns panicked = false
returns out_of_fuel = false
