-- ===== src/Pmap/Insert.antt =====
-- `page_insert` on an address whose page table is known.
use joslab4_init.Base.{
  ℕ, ◌+◌, ◌*◌, ◌/◌, ◌%◌, ◌^◌, ◌≤◌, ◌<◌, ◌≡◌, ◌≢◌, ◌⊎◌, refl, ap, ◌∙◌, inl, inr, Bool, true, false,
  Option, none, some, [], arith, bit_or, ◌==◌, eq→==, if◌then◌else◌, ◌&&◌, ◌!=◌,
}
use joslab4_init.Mmu.{pdx, present, pte_p}
use joslab4_init.Machine.{e_no_mem, Machine, ok, page2pa, write}
use joslab4_init.Pmap.{pgdir_walk, page_lookup, insert_at, page_insert, ref_inc}
use joslab4_init.Pmap.Alloc.{counted}
use joslab4_init.Pmap.FreeList.{IsFreeList}
use joslab4_init.Pmap.Remove.{IsRemovable, removed, remove-removed, lookup-mapped}
use joslab4_init.Pmap.Walk.{frame, frame_lem, entry_value, IsEntry, walk-IsEntry, walk-Created}

-- The page that an entry maps exists and is not linked into the free list.
pub record IsPlaced (pte : ℕ) (m : Machine) : Type 0 where
  pub here : present pte ≡ true
  pub exists : frame pte < m.npages
  pub unlinked : m.pp_link (frame pte) ≡ none

-- The entry maps nothing, or such a page.
abbrev pub IsReplaceable : ℕ → Machine → Type 0
IsReplaceable pte m = (present pte ≡ false) ⊎ IsPlaced pte m

removable-IsReplaceable : (pte : ℕ) (m : Machine) → IsRemovable pte m → IsReplaceable pte m
removable-IsReplaceable pte m (inl gone) = inl gone
removable-IsReplaceable pte m (inr old) =
    inr (record { here = old.here; exists = old.exists; unlinked = old.unlinked })

-- The machine after `page_insert` has written the entry at `(t, i)`.
abbrev pub inserted : Option ℕ → (pgdir pp va perm t i : ℕ) → Machine → Machine
inserted cur pgdir pp va perm t i m =
    let m2 = counted pp (ref_inc (m.pp_ref pp)) m in
    let m3 = if present (m.mem t i) then removed cur pgdir va t i (frame (m.mem t i)) m2 else m2 in
    record m3 { mem = write m3.mem t i (bit_or (bit_or (page2pa pp) perm) pte_p) }

pub insert_at-inserted :
    (cur : Option ℕ) (pgdir pp va perm t i : ℕ) (m : Machine)
    → IsEntry pgdir va t i m
    → IsReplaceable (m.mem t i) m
    → insert_at cur pgdir pp va perm (some (t, i)) m ≡ ok none (inserted cur pgdir pp va perm t i m)
unfolding insert_at
insert_at-inserted cur pgdir pp va perm t i m e (inl gone) = rw gone
insert_at-inserted cur pgdir pp va perm t i m e (inr old) =
    let m2 = counted pp (ref_inc (m.pp_ref pp)) m in
    let e2 : IsEntry pgdir va t i m2 = record {
      is_present = e.is_present;
      table = e.table;
      exists = e.exists;
      index = e.index;
    } in
    rw (old.here, remove-removed cur pgdir va t i m2 e2 (old.here) (old.exists) (old.unlinked))

module _ (cur : Option ℕ) (pgdir pp va perm t i : ℕ) (m : Machine) where
  mem_after :
      (f j : ℕ)
      → (inserted cur pgdir pp va perm t i m).mem f j
        ≡ write m.mem t i (bit_or (bit_or (page2pa pp) perm) pte_p) f j
  mem_after f j = ground arith

  npages_after : (inserted cur pgdir pp va perm t i m).npages ≡ m.npages
  npages_after = ground arith

  pub inserted-IsEntry :
      IsEntry pgdir va t i m
      → t ≢ pgdir
      → IsEntry pgdir va t i (inserted cur pgdir pp va perm t i m)
  inserted-IsEntry e apart =
      let same : (inserted cur pgdir pp va perm t i m).mem pgdir (pdx va) ≡ m.mem pgdir (pdx va) =
        ground (arith, mem_after pgdir (pdx va)) in
      record {
        is_present = rw same (e.is_present);
        table = rw same (e.table);
        exists = rw npages_after (e.exists);
        index = e.index;
      }

-- What holds after `page_insert` has mapped `pp`: a lookup finds the page at that entry, the entry
-- holds its address, the permissions and the present bit, and no other word of memory changed.
pub record Mapped (pgdir pp va perm t i : ℕ) (m m' : Machine) : Type 0 where
  pub found : page_lookup pgdir va m' ≡ ok (some (pp, (t, i))) m'
  pub memory :
      (f j : ℕ)
      → m'.mem f j ≡ (if (f == t) && (j == i) then pp * 4096 + perm / 2 * 2 + 1 else m.mem f j)

pub inserted-Mapped :
    (cur : Option ℕ) (pgdir pp va perm t i : ℕ) (m : Machine)
    → IsEntry pgdir va t i m
    → t ≢ pgdir
    → pp < m.npages
    → m.npages ≤ 2 ^ 20
    → perm < 2 ^ 12
    → Mapped pgdir pp va perm t i m (inserted cur pgdir pp va perm t i m)
inserted-Mapped cur pgdir pp va perm t i m e apart exists fits small =
    let m' = inserted cur pgdir pp va perm t i m in
    let value : m'.mem t i ≡ pp * 4096 + perm / 2 * 2 + 1 =
      ground (
        arith,
        mem_after cur pgdir pp va perm t i m t i,
        entry_value pp perm (omega arith) small,
      ) in
    let is_pp : frame (m'.mem t i) ≡ pp = omega (arith, frame_lem (m'.mem t i), value) in
    let here : present (m'.mem t i) ≡ true = eq→== (m'.mem t i % 2) 1 (omega (arith, value)) in
    let n = npages_after cur pgdir pp va perm t i m in
    record {
      found =
          lookup-mapped pgdir va t i m' (inserted-IsEntry cur pgdir pp va perm t i m e apart) here
            (omega (arith, is_pp, n))
          ∙ ap (λ (p : ℕ). ok (some (p, (t, i))) m') is_pp;
      memory = λ f j. ground (
        arith,
        mem_after cur pgdir pp va perm t i m f j,
        entry_value pp perm (omega arith) small,
      );
    }

-- If `pgdir_walk` finds or makes the entry, outside the directory itself, on a machine of at most
-- 2 ^ 20 pages, and the entry is not present or maps a page that exists and has a null link, whatever
-- its references, then `page_insert` of an existing page with permissions below 2 ^ 12 succeeds: a
-- lookup finds the page at that entry, which holds its address, the permissions and the present bit,
-- and no other word of memory has changed since `pgdir_walk`.
pub page_insert-Mapped :
    (cur : Option ℕ) (pgdir pp va perm t i : ℕ) (m m1 : Machine)
    → pgdir_walk pgdir va true m ≡ ok (some (t, i)) m1
    → t ≢ pgdir
    → pp < m1.npages
    → m1.npages ≤ 2 ^ 20
    → perm < 2 ^ 12
    → IsReplaceable (m1.mem t i) m1
    → (m' : Machine) × (page_insert cur pgdir pp va perm m ≡ ok none m')
      × Mapped pgdir pp va perm t i m1 m'
unfolding page_insert
page_insert-Mapped cur pgdir pp va perm t i m m1 walked apart exists fits small old =
    let e = walk-IsEntry pgdir va t i true m m1 walked in
    (
      inserted cur pgdir pp va perm t i m1,
      rw walked (insert_at-inserted cur pgdir pp va perm t i m1 e old),
      inserted-Mapped cur pgdir pp va perm t i m1 e apart exists fits small,
    )

-- Whether an entry maps page `q`.
abbrev pub maps : ℕ → ℕ → Bool
maps pte q = present pte && (q == frame pte)

-- The reference counts and the free list after `page_insert`: the inserted page gains a reference and
-- the page that the entry mapped before loses one, so that a page that is mapped again where it was
-- mapped keeps its count; a page is freed exactly if it was replaced by another and lost its last
-- reference.
pub record Counted (pp pte : ℕ) (m m' : Machine) : Type 0 where
  pub references :
      (q : ℕ)
      → m'.pp_ref q + (if maps pte q then 1 else 0) ≡ m.pp_ref q + (if q == pp then 1 else 0)
  pub head : m'.page_free_list ≡ (
      if present pte && (frame pte != pp) && (m.pp_ref (frame pte) == 1)
      then some (frame pte)
      else m.page_free_list)

pub inserted-Counted :
    (cur : Option ℕ) (pgdir pp va perm t i : ℕ) (m : Machine)
    → m.pp_ref pp + 1 < 2 ^ 16
    → IsRemovable (m.mem t i) m
    → Counted pp (m.mem t i) m (inserted cur pgdir pp va perm t i m)
inserted-Counted cur pgdir pp va perm t i m fits (inl gone) = record {
  references = λ q. ground arith;
  head = ground arith;
}
inserted-Counted cur pgdir pp va perm t i m fits (inr old) =
    let here = old.here in
    let some_ref = old.referenced in
    let small = old.counted in record { references = λ q. ground arith; head = ground arith }

-- If `pgdir_walk` finds or makes the entry, and the entry is not present or maps a
-- page that exists, has a null link and between 1 and 2 ^ 16 - 1 references, then
-- `page_insert` of a page with fewer than 2 ^ 16 - 1 references succeeds, the page gains a reference
-- and the page that the entry mapped loses one; that page is in front of the free list if it is
-- another one and has lost its last, else the head of the list stays.
pub page_insert-Counted :
    (cur : Option ℕ) (pgdir pp va perm t i : ℕ) (m m1 : Machine)
    → pgdir_walk pgdir va true m ≡ ok (some (t, i)) m1
    → m1.pp_ref pp + 1 < 2 ^ 16
    → IsRemovable (m1.mem t i) m1
    → (m' : Machine) × (page_insert cur pgdir pp va perm m ≡ ok none m')
      × Counted pp (m1.mem t i) m1 m'
unfolding page_insert
page_insert-Counted cur pgdir pp va perm t i m m1 walked fits old =
    let e = walk-IsEntry pgdir va t i true m m1 walked in
    (
      inserted cur pgdir pp va perm t i m1,
      rw walked (
          insert_at-inserted cur pgdir pp va perm t i m1 e
            (removable-IsReplaceable (m1.mem t i) m1 old)),
      inserted-Counted cur pgdir pp va perm t i m1 fits old,
    )

-- With no free page and no page table for the address, `page_insert` returns -E_NO_MEM and changes
-- nothing.
pub page_insert_no_mem :
    (cur : Option ℕ) (pgdir pp va perm : ℕ) (m : Machine)
    → m.npages ≤ 2 ^ 20
    → IsFreeList m []
    → present (m.mem pgdir (pdx va)) ≡ false
    → page_insert cur pgdir pp va perm m ≡ ok (some e_no_mem) m
unfolding page_insert insert_at
page_insert_no_mem cur pgdir pp va perm m fits l absent =
    rw (walk-Created pgdir va [] m fits l refl absent).1
