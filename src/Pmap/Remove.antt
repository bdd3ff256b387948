-- ===== src/Pmap/Remove.antt =====
-- `page_lookup` and `page_remove` on an address whose page table is known.
use joslab4_init.Base.{
  ℕ, ◌+◌, ◌^◌, ◌<◌, ◌≡◌, ◌≢◌, ◌⊎◌, refl, Bool, true, false, Option, none, some, ◌∷◌, update, arith,
  ◌==◌, if◌then◌else◌, ◌&&◌, lt→ltb,
}
use joslab4_init.Mmu.{pdx, present}
use joslab4_init.Machine.{Machine, ok, pa2page, write}
use joslab4_init.Pmap.{
  page_lookup, lookup_at, tlb_invalidate, unmap, page_remove, page_decref, page_free, ref_dec,
}
use joslab4_init.Pmap.Alloc.{counted}
use joslab4_init.Pmap.Walk.{frame, IsEntry, walk_of_IsEntry}

-- The page that an entry maps exists, is not linked into the free list, and is referenced.
pub record IsMapping (pte : ℕ) (m : Machine) : Type 0 where
  pub here : present pte ≡ true
  pub exists : frame pte < m.npages
  pub unlinked : m.pp_link (frame pte) ≡ none
  pub referenced : 0 < m.pp_ref (frame pte)
  pub counted : m.pp_ref (frame pte) < 2 ^ 16

-- The entry maps nothing, or such a page.
abbrev pub IsRemovable : ℕ → Machine → Type 0
IsRemovable pte m = (present pte ≡ false) ⊎ IsMapping pte m

-- The machine after `page_decref` of a page with a null link.
abbrev pub dropped : ℕ → Machine → Machine
dropped p m =
    let n = ref_dec (m.pp_ref p) in
    record (counted p n m) {
      pp_link = if n == 0 then update m.pp_link p m.page_free_list else m.pp_link;
      page_free_list = if n == 0 then some p else m.page_free_list;
    }

pub page_decref-dropped :
    (p : ℕ) (m : Machine) → m.pp_link p ≡ none → page_decref p m ≡ ok tt (dropped p m)
unfolding page_decref page_free
page_decref-dropped p m null = ground arith

-- The address space is the current one, or there is no current environment.
abbrev pub is_current : Option ℕ → ℕ → Bool
is_current none pgdir = true
is_current (some d) pgdir = d == pgdir

abbrev pub flushed : Option ℕ → ℕ → ℕ → Machine → Machine
flushed cur pgdir va m = record m {
  tlb_flushed = if is_current cur pgdir then va ∷ m.tlb_flushed else m.tlb_flushed;
}

pub tlb_invalidate-flushed :
    (cur : Option ℕ) (pgdir va : ℕ) (m : Machine)
    → tlb_invalidate cur pgdir va m ≡ ok tt (flushed cur pgdir va m)
unfolding tlb_invalidate
tlb_invalidate-flushed none pgdir va m = refl
tlb_invalidate-flushed (some d) pgdir va m = ground arith

-- The machine after an entry at `(t, i)` that maps page `p` has been removed.
abbrev pub removed : Option ℕ → (pgdir va t i p : ℕ) → Machine → Machine
removed cur pgdir va t i p m =
    flushed cur pgdir va (dropped p (record m { mem = write m.mem t i 0 }))

pub lookup-mapped :
    (pgdir va t i : ℕ) (m : Machine)
    → IsEntry pgdir va t i m
    → present (m.mem t i) ≡ true
    → frame (m.mem t i) < m.npages
    → page_lookup pgdir va m ≡ ok (some (frame (m.mem t i), (t, i))) m
unfolding page_lookup lookup_at pa2page
lookup-mapped pgdir va t i m e here h =
    rw (walk_of_IsEntry pgdir va t i false m e, here, lt→ltb _ _ h)

pub lookup_unmapped :
    (pgdir va t i : ℕ) (m : Machine)
    → IsEntry pgdir va t i m
    → present (m.mem t i) ≡ false
    → page_lookup pgdir va m ≡ ok none m
unfolding page_lookup lookup_at
lookup_unmapped pgdir va t i m e gone = rw (walk_of_IsEntry pgdir va t i false m e, gone)

pub remove-removed :
    (cur : Option ℕ) (pgdir va t i : ℕ) (m : Machine)
    → IsEntry pgdir va t i m
    → present (m.mem t i) ≡ true
    → frame (m.mem t i) < m.npages
    → m.pp_link (frame (m.mem t i)) ≡ none
    → page_remove cur pgdir va m ≡ ok tt (removed cur pgdir va t i (frame (m.mem t i)) m)
unfolding page_remove unmap
remove-removed cur pgdir va t i m e here h null =
    let p = frame (m.mem t i) in
    let m' = record m { mem = write m.mem t i 0 } in
    rw (lookup-mapped pgdir va t i m e here h, here, page_decref-dropped p m' null)
      (tlb_invalidate-flushed cur pgdir va (dropped p m'))

-- What holds after `page_remove` of the entry at `(t, i)`, which mapped `p`: a lookup finds nothing,
-- the entry is 0 and no other word of memory changed, the page has lost one reference and no other
-- count changed, the page is in front of the free list if that was its last, and the address is
-- flushed from the TLB if the address space is the current one or no environment runs.
pub record Unmapped (cur : Option ℕ) (pgdir va t i p : ℕ) (m m' : Machine) : Type 0 where
  pub gone : page_lookup pgdir va m' ≡ ok none m'
  pub memory : (f j : ℕ) → m'.mem f j ≡ (if (f == t) && (j == i) then 0 else m.mem f j)
  pub references : (q : ℕ) → m'.pp_ref q + (if q == p then 1 else 0) ≡ m.pp_ref q
  pub head : m'.page_free_list ≡ (if m.pp_ref p == 1 then some p else m.page_free_list)
  pub link : m'.pp_link p ≡ (if m.pp_ref p == 1 then m.page_free_list else none)
  pub links :
      (q : ℕ)
      → m'.pp_link q ≡ (if (m.pp_ref p == 1) && (q == p) then m.page_free_list else m.pp_link q)
  pub flush : m'.tlb_flushed ≡ (if is_current cur pgdir then va ∷ m.tlb_flushed else m.tlb_flushed)

removed-Unmapped :
    (cur : Option ℕ) (pgdir va t i : ℕ) (m : Machine)
    → IsEntry pgdir va t i m
    → t ≢ pgdir
    → IsMapping (m.mem t i) m
    → Unmapped cur pgdir va t i
        (frame (m.mem t i))
        m
        (removed cur pgdir va t i (frame (m.mem t i)) m)
removed-Unmapped cur pgdir va t i m e apart p =
    let m' = removed cur pgdir va t i (frame (m.mem t i)) m in
    let same : m'.mem pgdir (pdx va) ≡ m.mem pgdir (pdx va) = ground arith in
    let e' : IsEntry pgdir va t i m' = record {
      is_present = rw same (e.is_present);
      table = rw same (e.table);
      exists = e.exists;
      index = e.index;
    } in
    let null = p.unlinked in
    let some_ref = p.referenced in
    let fits = p.counted in
    record {
      gone = lookup_unmapped pgdir va t i m' e' (ground arith);
      memory = λ f j. ground arith;
      references = λ q. ground arith;
      head = ground arith;
      link = ground arith;
      links = λ q. ground arith;
      flush = refl;
    }

-- `page_remove` of an address whose page table, outside the directory, maps there a page that exists, has
-- a null link and between 1 and 2 ^ 16 - 1 references: it returns, a lookup then finds nothing, the
-- entry is 0 and no other word of memory has changed, the page has lost one reference and no other
-- count has changed, the page is in front of the free list if that was its last, with no other link
-- changed, and the address is flushed from the TLB if the address space is the current one or no
-- environment runs.
pub page_remove-Unmapped :
    (cur : Option ℕ) (pgdir va t i : ℕ) (m : Machine)
    → IsEntry pgdir va t i m
    → t ≢ pgdir
    → IsMapping (m.mem t i) m
    → (m' : Machine) × (page_remove cur pgdir va m ≡ ok tt m')
      × Unmapped cur pgdir va t i (frame (m.mem t i)) m m'
page_remove-Unmapped cur pgdir va t i m e apart p = (
  removed cur pgdir va t i (frame (m.mem t i)) m,
  remove-removed cur pgdir va t i m e (p.here) (p.exists) (p.unlinked),
  removed-Unmapped cur pgdir va t i m e apart p,
)

-- `page_remove` of an address that maps nothing changes nothing.
pub page_remove_nothing :
    (cur : Option ℕ) (pgdir va t i : ℕ) (m : Machine)
    → IsEntry pgdir va t i m
    → present (m.mem t i) ≡ false
    → page_remove cur pgdir va m ≡ ok tt m
unfolding page_remove unmap
page_remove_nothing cur pgdir va t i m e gone = rw (lookup_unmapped pgdir va t i m e gone)
