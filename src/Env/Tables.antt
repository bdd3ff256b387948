-- ===== src/Env/Tables.antt =====
-- `env_free` on the page tables of the directory `d`; `cur` is the directory of `curenv`, if any.
use joslab4_init.Base.{ℕ, zero, suc, not, Option, if◌then◌else◌}
use joslab4_init.Mmu.{present, pte_addr, pgaddr}
use joslab4_init.Machine.{M, ok, ◌>>=◌, ◌>>◌, store, kaddr, pa2page}
use joslab4_init.Pmap.{page_decref, page_remove}

-- The rounds 0, …, `n - 1` of the loop over a page table.
unfoldable pub unmap_entries : (cur : Option ℕ) → (d pdeno pt n : ℕ) → M (Unit {0})
unmap_entries cur d pdeno pt zero = ok tt
unmap_entries cur d pdeno pt (suc n) = unmap_entries cur d pdeno pt n >> λ m.
    if present (m.mem pt n) then page_remove cur d (pgaddr pdeno n 0) m else ok tt m

-- The body of the loop over the directory.
unfoldable pub free_table : (cur : Option ℕ) → (d pdeno : ℕ) → M (Unit {0})
free_table cur d pdeno m =
    let pa = pte_addr (m.mem d pdeno) in
    if not (present (m.mem d pdeno))
    then ok tt m
    else (do
      pt ← kaddr pa
      _ ← unmap_entries cur d pdeno pt 1024
      _ ← store d pdeno 0
      page ← pa2page pa
      page_decref page)
        m

-- Its rounds 0, …, `n - 1`.
unfoldable pub free_tables : (cur : Option ℕ) → (d n : ℕ) → M (Unit {0})
free_tables cur d zero = ok tt
free_tables cur d (suc n) = free_tables cur d n >> free_table cur d n
