-- ===== src/Pmap/Region.antt =====
-- `boot_map_region`, the static mappings above UTOP, and `check_va2pa`, which reads them back.
use joslab4_init.Base.{ℕ, zero, suc, ◌+◌, Option, none, some, u32, bit_or, true, not, if◌then◌else◌}
use joslab4_init.Mmu.{pgsize, pgnum, pte_p, pdx, ptx, present, pte_addr}
use joslab4_init.Machine.{M, ok, panicked, ◌>>◌, ◌>>=◌, store, kaddr}
use joslab4_init.Pmap.{pgdir_walk}

-- A round of the loop on the entry that `pgdir_walk` has found.
unfoldable pub map_entry : (pa perm : ℕ) → Option (ℕ × ℕ) → M (Unit {0})
map_entry pa perm none m = panicked
map_entry pa perm (some (t, i)) m = store t i (bit_or (bit_or pa perm) pte_p) m

-- `n` rounds.
unfoldable pub map_pages : (n pgdir va pa perm : ℕ) → M (Unit {0})
map_pages zero pgdir va pa perm = ok tt
map_pages (suc n) pgdir va pa perm =
    (pgdir_walk pgdir va true >>= map_entry pa perm)
    >> map_pages n pgdir (u32 (va + pgsize)) (u32 (pa + pgsize)) perm

unfoldable pub boot_map_region : (pgdir va size pa perm : ℕ) → M (Unit {0})
boot_map_region pgdir va size pa perm = map_pages (pgnum size) pgdir va pa perm

-- The second half of `check_va2pa`, in page table `p`. `~0` is 2 ^ 32 - 1.
unfoldable pub va2pa_in : (va p : ℕ) → M ℕ
va2pa_in va p m =
    if not (present (m.mem p (ptx va))) then ok 0xFFFFFFFF m else ok (pte_addr (m.mem p (ptx va))) m

unfoldable pub check_va2pa : (pgdir va : ℕ) → M ℕ
check_va2pa pgdir va m =
    if not (present (m.mem pgdir (pdx va)))
    then ok 0xFFFFFFFF m
    else (kaddr (pte_addr (m.mem pgdir (pdx va))) >>= va2pa_in va) m
