-- ===== src/Pmap/Mapped.antt =====
-- What `boot_map_region` maps, as `check_va2pa` reads it.
use joslab4_init.Base.{
  ℕ, zero, suc, ◌+◌, ◌*◌, ◌/◌, ◌%◌, ◌^◌, ◌≤◌, ◌<◌, ◌≡◌, ◌≢◌, ◌⊎◌, refl, sym, ap, ◌∙◌, inl, inr,
  true, Option, none, some, u32, bit_or, arith,
}
use joslab4_init.Mmu.{pgsize, pgnum, pdx, ptx, present, pte_addr, pte_p}
use joslab4_init.Machine.{Machine, Run, ok, panicked, and_then, page2pa, kaddr, write}
use joslab4_init.Pmap.{pgdir_walk}
use joslab4_init.Pmap.Walk.{IsEntry, walk_of_IsEntry, walk-IsEntry, entry_value, frame}
use joslab4_init.Pmap.Region.{map_entry, map_pages, boot_map_region, va2pa_in, check_va2pa}

region_value :
    (pa perm : ℕ)
    → pa % 4096 ≡ 0
    → pa < 2 ^ 32
    → perm < 2 ^ 12
    → bit_or (bit_or pa perm) pte_p ≡ pa + perm / 2 * 2 + 1
unfolding page2pa
region_value pa perm aligned hp hq =
    let same : page2pa (pa / 4096) ≡ pa = omega arith in
    ap (λ (a : ℕ). bit_or (bit_or a perm) pte_p) (sym same)
    ∙ omega (arith, entry_value (pa / 4096) perm (omega arith) hq)

-- The words `i`, …, `i + n - 1` of page table `t` map the pages from `pa` on, and nothing else has
-- changed.
pub record Written (t i n pa perm : ℕ) (mem mem' : ℕ → ℕ → ℕ) : Type 0 where
  pub entries : (k : ℕ) → k < n → mem' t (i + k) ≡ pa + k * 4096 + perm / 2 * 2 + 1
  pub others : (f j : ℕ) → (f ≢ t) ⊎ (j < i) ⊎ (i + n ≤ j) → mem' f j ≡ mem f j

Written-suc :
    (t i n pa perm : ℕ) (mem mem' : ℕ → ℕ → ℕ)
    → Written t (i + 1) n (u32 (pa + 4096)) perm (write mem t i (pa + perm / 2 * 2 + 1)) mem'
    → pa % 4096 ≡ 0
    → pa + suc n * 4096 ≤ 2 ^ 32
    → Written t i (suc n) pa perm mem mem'
Written-suc t i n pa perm mem mem' w aligned fits = record {
  entries = λ k h. entry k h;
  others = λ f j out. ground (arith, w.others f j);
}
  where
    entry : (k : ℕ) → k < suc n → mem' t (i + k) ≡ pa + k * 4096 + perm / 2 * 2 + 1
    entry zero h = ap (mem' t) (omega arith) ∙ w.others t i (inr (inl (omega arith))) ∙ ground arith
    entry (suc k) h = ap (mem' t) (omega arith) ∙ w.entries k (omega arith) ∙ omega arith

IsEntry-next :
    (pgdir va t i v : ℕ) (m : Machine)
    → t ≢ pgdir
    → va % 4096 ≡ 0
    → va < 2 ^ 32
    → ptx va < 1023
    → IsEntry pgdir va t i m
    → IsEntry pgdir (u32 (va + pgsize)) t (i + 1) (record m { mem = write m.mem t i v })
unfolding pdx ptx
IsEntry-next pgdir va t i v m ne aligned small room e =
    let same : pdx (u32 (va + pgsize)) ≡ pdx va = omega arith in
    record {
      is_present = ground (arith, same, e.is_present);
      table = ground (arith, same, e.table);
      exists = e.exists;
      index = omega (arith, e.index);
    }

map_entry-value :
    (va t i pa perm v : ℕ) (pgdir : ℕ) (m : Machine)
    → bit_or (bit_or pa perm) pte_p ≡ v
    → IsEntry pgdir va t i m
    → and_then (pgdir_walk pgdir va true m) (map_entry pa perm)
      ≡ ok tt (record m { mem = write m.mem t i v })
unfolding map_entry
map_entry-value va t i pa perm v pgdir m e entry =
    rw (walk_of_IsEntry pgdir va t i true m entry)
      (ap (λ (x : ℕ). ok tt (record m { mem = write m.mem t i x })) e)

map_pages-suc :
    (n pgdir va t i pa perm v : ℕ) (m : Machine)
    → bit_or (bit_or pa perm) pte_p ≡ v
    → IsEntry pgdir va t i m
    → map_pages (suc n) pgdir va pa perm m
      ≡ map_pages n pgdir
          (u32 (va + pgsize))
          (u32 (pa + pgsize))
          perm
          (record m { mem = write m.mem t i v })
unfolding map_pages
map_pages-suc n pgdir va t i pa perm v m e entry =
    ap
      (λ (r : Run (Unit {0})).
        and_then r (λ _. map_pages n pgdir (u32 (va + pgsize)) (u32 (pa + pgsize)) perm))
      (map_entry-value va t i pa perm v pgdir m e entry)

-- `n` rounds in one page table.
map_pages-Written :
    (n pgdir va t i pa perm : ℕ) (m : Machine)
    → t ≢ pgdir
    → va % 4096 ≡ 0
    → va < 2 ^ 32
    → pa % 4096 ≡ 0
    → pa + n * 4096 ≤ 2 ^ 32
    → perm < 2 ^ 12
    → i + n ≤ 1024
    → (0 < n → IsEntry pgdir va t i m)
    → (mem : ℕ → ℕ → ℕ) × (map_pages n pgdir va pa perm m ≡ ok tt (record m { mem = mem }))
      × Written t i n pa perm m.mem mem
unfolding map_pages
map_pages-Written zero pgdir va t i pa perm m ne av hv ap' fits hp room e =
    (m.mem, refl, record { entries = λ k h. absurd (omega arith); others = λ f j out. refl })
map_pages-Written (suc n) pgdir va t i pa perm m ne av hv ap' fits hp room e =
    let here = e (omega arith) in
    let v = region_value pa perm ap' (omega arith) hp in
    let m1 : Machine = record m { mem = write m.mem t i (pa + perm / 2 * 2 + 1) } in
    let (mem, run, w) =
      map_pages-Written n pgdir (u32 (va + pgsize)) t (i + 1) (u32 (pa + pgsize)) perm m1 ne
        (omega arith) (omega arith) (omega arith) (omega arith) hp (omega arith)
        (λ more.
          IsEntry-next pgdir va t i (pa + perm / 2 * 2 + 1) m ne av hv
            (omega (arith, sym here.index)) here) in
    (
      mem,
      map_pages-suc n pgdir va t i pa perm (pa + perm / 2 * 2 + 1) m v here ∙ run,
      Written-suc t i n pa perm m.mem mem w ap' fits,
    )

check_va2pa-entry :
    (pgdir va t i v : ℕ) (m : Machine)
    → IsEntry pgdir va t i m
    → present (m.mem t i) ≡ true
    → pte_addr (m.mem t i) ≡ v
    → check_va2pa pgdir va m ≡ ok v m
unfolding check_va2pa va2pa_in kaddr
check_va2pa-entry pgdir va t i v m e here same =
    let index = e.index in ground (arith, e.is_present, e.table, e.exists, ap (m.mem t))

-- The machine after the region has been mapped, at the page tables' words only.
pub record RegionMapped (pgdir va n pa t : ℕ) (m m' : Machine) : Type 0 where
  pub mapped : (k : ℕ) → k < n → check_va2pa pgdir (va + k * 4096) m' ≡ ok (pa + k * 4096) m'
  pub others : (f j : ℕ) → (f ≢ t) ⊎ (j < ptx va) ⊎ (ptx va + n ≤ j) → m'.mem f j ≡ m.mem f j
  pub rest : m' ≡ record m { mem = m'.mem }

read_back :
    (pgdir va n t i pa perm k : ℕ) (m : Machine) (mem : ℕ → ℕ → ℕ)
    → t ≢ pgdir
    → va % 4096 ≡ 0
    → va < 2 ^ 32
    → pa % 4096 ≡ 0
    → perm < 2 ^ 12
    → i + n ≤ 1024
    → IsEntry pgdir va t i m
    → Written t i n pa perm m.mem mem
    → k < n
    → check_va2pa pgdir (va + k * 4096) (record m { mem = mem })
      ≡ ok (pa + k * 4096) (record m { mem = mem })
unfolding pdx ptx pte_addr
read_back pgdir va n t i pa perm k m mem ne av hv ap' hp room e w h =
    let word = w.entries k h in
    let index = e.index in
    let same : pdx (va + k * 4096) ≡ pdx va = omega arith in
    let dir = w.others pgdir (pdx va) (inl (λ q. ne (sym q))) in
    check_va2pa-entry pgdir (va + k * 4096) t (i + k) (pa + k * 4096) (record m { mem = mem })
      (record {
        is_present = ap (λ (j : ℕ). present (mem pgdir j)) same ∙ ap present dir ∙ e.is_present;
        table = ap (λ (j : ℕ). frame (mem pgdir j)) same ∙ ap frame dir ∙ e.table;
        exists = e.exists;
        index = omega arith;
      })
      (ground arith) (omega arith)

-- The first round's walk may add the page table: from then on the machine is as if it had been there.
from_walk :
    (n pgdir va t i pa perm : ℕ) (m m1 : Machine)
    → pgdir_walk pgdir va true m ≡ ok (some (t, i)) m1
    → map_pages (suc n) pgdir va pa perm m ≡ map_pages (suc n) pgdir va pa perm m1
unfolding map_pages
from_walk n pgdir va t i pa perm m m1 e =
    ap
      (λ (r : Run (Option (ℕ × ℕ))).
        and_then (and_then r (map_entry pa perm))
          (λ _. map_pages n pgdir (u32 (va + pgsize)) (u32 (pa + pgsize)) perm))
      (e ∙ sym (walk_of_IsEntry pgdir va t i true m1 (walk-IsEntry pgdir va t i true m m1 e)))

-- `boot_map_region` on `suc n` pages that lie in one page table's 4 MB, with aligned addresses that
-- stay below 2 ^ 32, when the walk for the first address returns a place in page table `t` and leaves
-- the machine `m1`: it returns, `check_va2pa` then finds each page of [pa, pa + size) at its address
-- of [va, va + size), and compared with `m1` no other word of memory, no reference count and nothing
-- of the free list has changed.
pub boot_map_region-RegionMapped :
    (n pgdir va t i pa perm : ℕ) (m m1 : Machine)
    → pgdir_walk pgdir va true m ≡ ok (some (t, i)) m1
    → t ≢ pgdir
    → va % 4096 ≡ 0
    → va < 2 ^ 32
    → pa % 4096 ≡ 0
    → pa + suc n * 4096 ≤ 2 ^ 32
    → perm < 2 ^ 12
    → ptx va + suc n ≤ 1024
    → (m' : Machine) × (boot_map_region pgdir va (suc n * 4096) pa perm m ≡ ok tt m')
      × RegionMapped pgdir va (suc n) pa t m1 m'
unfolding boot_map_region pgnum
boot_map_region-RegionMapped n pgdir va t i pa perm m m1 e ne av hv ap' fits hp room =
    let entry = walk-IsEntry pgdir va t i true m m1 e in
    let index = entry.index in
    let (mem, run, w) =
      map_pages-Written (suc n) pgdir va t i pa perm m1 ne av hv ap' fits hp (omega arith)
        (λ more. entry) in
    let pages : pgnum (suc n * 4096) ≡ suc n = omega arith in
    (
      record m1 { mem = mem },
      ap (λ (k : ℕ). map_pages k pgdir va pa perm m) pages
          ∙ from_walk n pgdir va t i pa perm m m1 e
          ∙ run,
      record {
        mapped = λ k h.
            read_back pgdir va (suc n) t i pa perm k m1 mem ne av hv ap' hp (omega arith) entry w h;
        others = λ f j out. w.others f j (moved out);
        rest = refl;
      },
    )
  where
    moved :
        {f j : ℕ}
        → (f ≢ t) ⊎ (j < ptx va) ⊎ (ptx va + suc n ≤ j)
        → (f ≢ t) ⊎ (j < i) ⊎ (i + suc n ≤ j)
    moved o = rw (walk-IsEntry pgdir va t i true m m1 e).index o

-- Without a free page for a page table `boot_map_region` panics.
pub boot_map_region_no_table :
    (n pgdir va pa perm : ℕ) (m m1 : Machine)
    → pgdir_walk pgdir va true m ≡ ok none m1
    → suc n * 4096 < 2 ^ 32
    → boot_map_region pgdir va (suc n * 4096) pa perm m ≡ panicked
unfolding boot_map_region pgnum map_pages map_entry
boot_map_region_no_table n pgdir va pa perm m m1 e fits =
    let pages : pgnum (suc n * 4096) ≡ suc n = omega arith in
    ap (λ (k : ℕ). map_pages k pgdir va pa perm m) pages ∙ rw e refl
