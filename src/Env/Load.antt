-- ===== src/Env/Load.antt =====
-- `load_icode` and `env_create` of kern/env.c. `binary` are the bytes of the program's image, which
-- stands in the kernel. Bytes are written through the page tables in use, as the processor does: a
-- write to a page that is not present or not writable faults in the kernel, which panics.
use joslab4_init.Base.{
  ℕ, zero, suc, ◌+◌, ◌-◌, ◌*◌, ◌/◌, ◌%◌, ◌^◌, Bool, ◌&&◌, Option, none, some, u32, bit_and, ◌==◌,
  ◌!=◌, if◌then◌else◌,
}
use joslab4_init.Mmu.{pgsize, pgnum, pdx, ptx, pgoff, pte_addr, pte_w, present, ustacktop}
use joslab4_init.Machine.{Machine, M, ok, write, Error}
use joslab4_init.Machine
use joslab4_init.Kernel.{
  EnvType, Kernel, returned, panicked, fault, K, ◌>>=◌, ◌>>◌, lift, set_env, lcr3, cur_pgdir,
}
use joslab4_init.Env.{env_alloc}
use joslab4_init.Env.Region.{region_alloc}

abbrev writable : ℕ → Bool
writable pte = present pte && (bit_and pte pte_w != 0)

-- A word with byte `k` set to `b`.
abbrev pub set_byte : (word k b : ℕ) → ℕ
set_byte word k b = word - word / 256 ^ k % 256 * 256 ^ k + b * 256 ^ k

unfoldable pub write_byte : (pgdir va b : ℕ) → M (Unit {0})
write_byte pgdir va b m =
    let pde = m.mem pgdir (pdx va) in
    let pte = m.mem (pgnum (pte_addr pde)) (ptx va) in
    let f = pgnum (pte_addr pte) in
    let i = pgoff va / 4 in
    if writable pde && writable pte
    then ok tt (record m { mem = write m.mem f i (set_byte (m.mem f i) (va % 4) b) })
    else Machine.panicked

-- `memcpy(va, src, n)` from the image, and `memset(va, 0, n)`.
unfoldable pub copy_image : (pgdir : ℕ) → (binary : ℕ → ℕ) → (n va src : ℕ) → M (Unit {0})
copy_image pgdir binary zero va src = ok tt
copy_image pgdir binary (suc n) va src =
    Machine.◌>>◌ (write_byte pgdir va (binary src))
      (copy_image pgdir binary n (u32 (va + 1)) (u32 (src + 1)))

unfoldable pub clear_user : (pgdir n va : ℕ) → M (Unit {0})
clear_user pgdir zero va = ok tt
clear_user pgdir (suc n) va =
    Machine.◌>>◌ (write_byte pgdir va 0) (clear_user pgdir n (u32 (va + 1)))

-- A field of four bytes, and of two.
abbrev field : (binary : ℕ → ℕ) → ℕ → ℕ
field binary i =
    binary i + binary (i + 1) * 2 ^ 8 + binary (i + 2) * 2 ^ 16 + binary (i + 3) * 2 ^ 24

abbrev half_field : (binary : ℕ → ℕ) → ℕ → ℕ
half_field binary i = binary i + binary (i + 1) * 2 ^ 8

-- The body of the loop, for the program header at `ph`: p_type, p_offset, p_va, p_filesz and p_memsz
-- stand at 0, 4, 8, 16 and 20. ELF_PROG_LOAD is 1.
unfoldable pub load_segment :
    (cur : Option ℕ) → (pgdir : ℕ) → (binary : ℕ → ℕ) → (ph : ℕ) → M (Unit {0})
load_segment cur pgdir binary ph m =
    let va = field binary (ph + 8) in
    let filesz = field binary (ph + 16) in
    let memsz = field binary (ph + 20) in
    if field binary ph == 1
    then Machine.◌>>◌ (region_alloc cur pgdir va memsz)
        (Machine.◌>>◌ (copy_image pgdir binary filesz va (field binary (ph + 4)))
          (clear_user pgdir (u32 (memsz + 2 ^ 32 - filesz)) (u32 (va + filesz))))
        m
    else ok tt m

-- `n` rounds of the loop.
unfoldable pub load_image :
    (cur : Option ℕ) → (pgdir : ℕ) → (binary : ℕ → ℕ) → (n ph : ℕ) → M (Unit {0})
load_image cur pgdir binary zero ph = ok tt
load_image cur pgdir binary (suc n) ph =
    Machine.◌>>◌ (load_segment cur pgdir binary ph) (load_image cur pgdir binary n (u32 (ph + 32)))

-- `e->env_tf.tf_eip = env_elf->e_entry`
abbrev pub set_entry : (e entry : ℕ) → Kernel → Kernel
set_entry e entry k =
    let v = k.envs e in set_env e (record v { env_tf = record v.env_tf { tf_eip = entry } }) k

-- `load_icode` for the page directory `d`; e_entry, e_phoff and e_phnum stand at 24, 28 and 44.
unfoldable pub load_into : (e d : ℕ) → (binary : ℕ → ℕ) → K (Unit {0})
load_into e d binary k =
    let cur = cur_pgdir k in
    ((λ k. returned tt (lcr3 d k))
        >> lift (load_image cur d binary (half_field binary 44) (field binary 28))
        >> (λ k. returned tt (lcr3 k.kern_pgdir (set_entry e (field binary 24) k)))
        >> lift (region_alloc cur d (ustacktop - pgsize) pgsize))
      k

-- PADDR of a null `env_pgdir` panics.
unfoldable pub load_icode : (e : ℕ) → (binary : ℕ → ℕ) → K (Unit {0})
load_icode e binary k = elim (k.envs e).env_pgdir [
  | none ↦ panicked
  | some d ↦ load_into e d binary k
]

-- `e->env_type = type`
abbrev pub set_type : ℕ → EnvType → Kernel → Kernel
set_type e type k = set_env e (record (k.envs e) { env_type = type }) k

-- When `env_alloc` fails, its result is not looked at and `e` is not set: a write through it is
-- `fault`.
unfoldable pub create_at : (binary : ℕ → ℕ) → EnvType → Option Error × Option ℕ → K (Unit {0})
create_at binary type (r, none) k = fault
create_at binary type (r, some e) k = load_icode e binary (set_type e type k)

unfoldable pub env_create : (binary : ℕ → ℕ) → EnvType → K (Unit {0})
env_create binary type = env_alloc 0 >>= create_at binary type
