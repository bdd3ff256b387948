-- ===== src/Pmap/Undo.antt =====
-- `page_remove` after `page_insert`.
use joslab4_init.Base.{
  ℕ, ◌+◌, ◌*◌, ◌/◌, ◌^◌, ◌≤◌, ◌<◌, ◌≡◌, ◌≢◌, ◌∙◌, inl, false, true, Option, none, some, arith, ◌==◌,
  ◌&&◌, if◌then◌else◌,
}
use joslab4_init.Mmu.{present}
use joslab4_init.Machine.{Machine, ok}
use joslab4_init.Pmap.{pgdir_walk, page_insert, page_remove}
use joslab4_init.Pmap.Walk.{frame, frame_lem, walk-IsEntry}
use joslab4_init.Pmap.Remove.{IsMapping, page_remove-Unmapped}
use joslab4_init.Pmap.Insert.{
  inserted, insert_at-inserted, inserted-IsEntry, inserted-Mapped, inserted-Counted,
}

-- What is left of an insertion that has been undone: nothing but an entry of 0 where there was one
-- that was not present, and a page that nothing else refers to is free.
pub record Undone (t i pp : ℕ) (m m' : Machine) : Type 0 where
  pub memory : (f j : ℕ) → m'.mem f j ≡ (if (f == t) && (j == i) then 0 else m.mem f j)
  pub references : (q : ℕ) → m'.pp_ref q ≡ m.pp_ref q
  pub head : m'.page_free_list ≡ (if m.pp_ref pp == 0 then some pp else m.page_free_list)
  pub links :
      (q : ℕ)
      → m'.pp_link q ≡ (if (m.pp_ref pp == 0) && (q == pp) then m.page_free_list else m.pp_link q)

inserted-IsMapping :
    (cur : Option ℕ) (pgdir pp va perm t i : ℕ) (m : Machine)
    → (inserted cur pgdir pp va perm t i m).mem t i ≡ pp * 4096 + perm / 2 * 2 + 1
    → pp < m.npages
    → m.npages ≤ 2 ^ 20
    → perm < 2 ^ 12
    → present (m.mem t i) ≡ false
    → m.pp_ref pp + 1 < 2 ^ 16
    → m.pp_link pp ≡ none
    → (frame ((inserted cur pgdir pp va perm t i m).mem t i) ≡ pp)
      × IsMapping
          ((inserted cur pgdir pp va perm t i m).mem t i)
          (inserted cur pgdir pp va perm t i m)
inserted-IsMapping cur pgdir pp va perm t i m value exists fits small gone count null =
    let m' = inserted cur pgdir pp va perm t i m in
    let at : frame (m'.mem t i) ≡ pp = frame_lem (m'.mem t i) ∙ omega (arith, value) in
    (
      at,
      record {
        here = ground (arith, value);
        exists = rw at ground arith;
        unlinked = rw at ground arith;
        referenced = rw at ground arith;
        counted = rw at ground arith;
      },
    )

-- `page_insert` of an existing page that has a null link and fewer than 2 ^ 16 - 1 references, with
-- permissions below 2 ^ 12 on a machine of at most 2 ^ 20 pages, where the entry that `pgdir_walk` finds
-- or makes, outside the directory, is not present; then `page_remove` of the same address: both
-- return, and the counts, the other words of memory, the head of the free list and every link are as
-- `pgdir_walk` left them, but that a page without other references is then in front of the list and
-- links to the former head; the entry is 0.
pub page_remove-page_insert :
    (cur : Option ℕ) (pgdir pp va perm t i : ℕ) (m m1 : Machine)
    → pgdir_walk pgdir va true m ≡ ok (some (t, i)) m1
    → t ≢ pgdir
    → pp < m1.npages
    → m1.npages ≤ 2 ^ 20
    → perm < 2 ^ 12
    → present (m1.mem t i) ≡ false
    → m1.pp_ref pp + 1 < 2 ^ 16
    → m1.pp_link pp ≡ none
    → (m2 m3 : Machine) × (page_insert cur pgdir pp va perm m ≡ ok none m2)
      × (page_remove cur pgdir va m2 ≡ ok tt m3)
      × Undone t i pp m1 m3
unfolding page_insert
page_remove-page_insert cur pgdir pp va perm t i m m1 walked apart exists fits small gone count
      null =
    let e = walk-IsEntry pgdir va t i true m m1 walked in
    let m2 = inserted cur pgdir pp va perm t i m1 in
    let a = inserted-Mapped cur pgdir pp va perm t i m1 e apart exists fits small in
    let c = inserted-Counted cur pgdir pp va perm t i m1 count (inl gone) in
    let value : m2.mem t i ≡ pp * 4096 + perm / 2 * 2 + 1 = a.memory t i ∙ ground arith in
    let (at, mapping) =
      inserted-IsMapping cur pgdir pp va perm t i m1 value exists fits small gone count null in
    let (m3, run, u) =
      page_remove-Unmapped cur pgdir va t i m2
        (inserted-IsEntry cur pgdir pp va perm t i m1 e apart) apart mapping in
    (
      m2,
      m3,
      rw walked (insert_at-inserted cur pgdir pp va perm t i m1 e (inl gone)),
      run,
      record {
        memory = λ f j. ground (arith, u.memory f j, a.memory f j);
        references = λ q. ground (arith, u.references q, c.references q, at);
        head = ground (arith, u.head, c.head, at, c.references pp);
        links = λ q. ground (arith, u.links q, c.head, at, c.references pp);
      },
    )
