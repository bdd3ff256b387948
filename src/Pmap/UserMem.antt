-- ===== src/Pmap/UserMem.antt =====
-- `user_mem_check`: which ranges of user memory pass, and the address that is reported.
use joslab4_init.Base.{
  ℕ, zero, suc, ◌+◌, ◌-◌, ◌/◌, ◌%◌, ◌^◌, ◌≤◌, ◌<◌, ◌≡◌, refl, inl, inr, Bool, true, false, ◌&&◌,
  none, some, arith, Bool-cases, u32, bit_or, bit_and, ltb, leb, ◌==◌, if◌then◌else◌, lt→ltb,
  le→ltb,
}
use Prim.Native.Nat.{max}
use native.Mathlib.Decide.{dec_lt}
use joslab4_init.Mmu.{pgsize, ulim, pdx, ptx, present, pte_p, rounddown, roundup}
use joslab4_init.Machine.{e_fault, Machine, ok}
use joslab4_init.Pmap.{page_refused, check_pages, user_mem_check}
use joslab4_init.Pmap.Walk.{frame, IsEntry, walk_of_IsEntry, walk_absent}

-- The page at `a` may be accessed: it lies below ULIM, its page table is present, and its entry has
-- all of the bits.
unfoldable pub accessible : (pgdir bits a : ℕ) → Machine → Bool
accessible pgdir bits a m =
    let pde = m.mem pgdir (pdx a) in
    ltb a ulim && present pde && (bit_and (m.mem (frame pde) (ptx a)) bits == bits)

-- The page tables of a directory are pages that the machine has.
abbrev pub HasTables : ℕ → Machine → Type 0
HasTables pgdir m =
    (a : ℕ) → present (m.mem pgdir (pdx a)) ≡ true → frame (m.mem pgdir (pdx a)) < m.npages

-- One round of the loop, on a page that lies before the end.
check_page :
    (fuel pgdir begin end va bits : ℕ) (m : Machine)
    → HasTables pgdir m
    → begin < end
    → check_pages (suc fuel) pgdir begin end va bits m ≡ (
        if accessible pgdir bits begin m
        then check_pages fuel pgdir (u32 (begin + pgsize)) end va bits m
        else ok
            (some e_fault)
            (record m { user_mem_check_addr = if leb va begin then begin else va }))
unfolding check_pages page_refused accessible
check_page fuel pgdir begin end va bits m tables h =
    elim (Bool-cases (present (m.mem pgdir (pdx begin)))) [
      | inl here ↦
          let e : IsEntry pgdir begin (frame (m.mem pgdir (pdx begin))) (ptx begin) m = record {
            is_present = here;
            table = refl;
            exists = tables begin here;
            index = refl;
          } in
          rw (lt→ltb _ _ h, walk_of_IsEntry _ _ _ _ false m e, here) (ground arith)
      | inr gone ↦ rw (lt→ltb _ _ h, walk_absent pgdir begin m gone, gone) (ground arith)
    ]

check_end :
    (fuel pgdir begin end va bits : ℕ) (m : Machine)
    → end ≤ begin
    → check_pages (suc fuel) pgdir begin end va bits m ≡ ok none m
unfolding check_pages
check_end fuel pgdir begin end va bits m h = rw (le→ltb begin end h)

module _ (pgdir va bits : ℕ) (m : Machine) (tables : HasTables pgdir m) where
  -- Every page from `begin` to `end` is accessible.
  all_pass :
      (fuel begin end : ℕ)
      → end < 2 ^ 32
      → begin % 4096 ≡ 0
      → end % 4096 ≡ 0
      → (end - begin) / 4096 < fuel
      → ((a : ℕ) → a % 4096 ≡ 0 → begin ≤ a → a < end → accessible pgdir bits a m ≡ true)
      → check_pages fuel pgdir begin end va bits m ≡ ok none m
  all_pass zero begin end fits ab ae h good = absurd (omega arith)
  all_pass (suc fuel) begin end fits ab ae h good = elim (dec_lt begin end) [
    | no done ↦ check_end fuel pgdir begin end va bits m (omega arith)
    | yes more ↦
        let next : u32 (begin + pgsize) ≡ begin + 4096 = omega arith in
        rw
          (
            check_page fuel pgdir begin end va bits m tables more,
            good begin ab (omega arith) more,
            next,
          )
          (all_pass fuel (begin + 4096) end fits (omega arith) ae (omega arith)
            (λ a aa h1 h2. good a aa (omega arith) h2))
  ]

  -- The page at `bad` is the first one that is not accessible.
  first_fails :
      (fuel begin end bad : ℕ)
      → end < 2 ^ 32
      → begin % 4096 ≡ 0
      → end % 4096 ≡ 0
      → (end - begin) / 4096 < fuel
      → bad % 4096 ≡ 0
      → begin ≤ bad
      → bad < end
      → accessible pgdir bits bad m ≡ false
      → ((a : ℕ) → a % 4096 ≡ 0 → begin ≤ a → a < bad → accessible pgdir bits a m ≡ true)
      → check_pages fuel pgdir begin end va bits m
        ≡ ok (some e_fault) (record m { user_mem_check_addr = max bad va })
  first_fails zero begin end bad fits ab ae h ax h1 h2 fails good = absurd (omega arith)
  first_fails (suc fuel) begin end bad fits ab ae h ax h1 h2 fails good =
      let next : u32 (begin + pgsize) ≡ begin + 4096 = omega arith in
      elim (dec_lt begin bad) [
        | yes more ↦
            rw
              (
                check_page fuel pgdir begin end va bits m tables (omega arith),
                good begin ab (omega arith) more,
                next,
              )
              (first_fails fuel (begin + 4096) end bad fits (omega arith) ae (omega arith) ax
                (omega arith) h2 fails (λ a aa g1 g2. good a aa (omega arith) g2))
        | no last ↦
            let e : begin ≡ bad = omega arith in
            rw (check_page fuel pgdir begin end va bits m tables (omega arith), e, fails)
              (ground arith)
      ]

-- On a range that does not reach the last page of the address space, `user_mem_check` returns 0
-- and changes nothing if every page that the range touches is accessible.
pub user_mem_check_pass :
    (pgdir va len perm : ℕ) (m : Machine)
    → HasTables pgdir m
    → va + len ≤ 0xFFFFF000
    → ((a : ℕ)
        → a % 4096 ≡ 0
        → rounddown va 4096 ≤ a
        → a < va + len
        → accessible pgdir (bit_or perm pte_p) a m ≡ true)
    → user_mem_check pgdir va len perm m ≡ ok none m
unfolding user_mem_check rounddown roundup
user_mem_check_pass pgdir va len perm m tables fits good =
    all_pass pgdir va (bit_or perm pte_p) m tables _ (va - va % 4096) _ (omega arith) (omega arith)
      (omega arith) (omega arith) (λ a aa h1 h2. good a aa h1 (omega arith))

-- On such a range, if the page at `bad` is the first that the range touches and that is not
-- accessible, `user_mem_check` returns -E_FAULT and reports the first address of the range in it.
pub user_mem_check_fault :
    (pgdir va len perm bad : ℕ) (m : Machine)
    → HasTables pgdir m
    → va + len ≤ 0xFFFFF000
    → bad % 4096 ≡ 0
    → rounddown va 4096 ≤ bad
    → bad < va + len
    → accessible pgdir (bit_or perm pte_p) bad m ≡ false
    → ((a : ℕ)
        → a % 4096 ≡ 0
        → rounddown va 4096 ≤ a
        → a < bad
        → accessible pgdir (bit_or perm pte_p) a m ≡ true)
    → user_mem_check pgdir va len perm m
      ≡ ok (some e_fault) (record m { user_mem_check_addr = max bad va })
unfolding user_mem_check rounddown roundup
user_mem_check_fault pgdir va len perm bad m tables fits ab h1 h2 fails good =
    first_fails pgdir va (bit_or perm pte_p) m tables _ (va - va % 4096) _ bad (omega arith)
      (omega arith) (omega arith) (omega arith) ab h1 (omega arith) fails good

-- A range whose end wraps round in `uint32_t` to or below the page that it starts in passes the
-- check whatever is mapped, addresses of the kernel included: the loop makes no round.
pub user_mem_check_wraps :
    (pgdir va len perm : ℕ) (m : Machine)
    → va < 2 ^ 32
    → len < 2 ^ 32
    → 0xFFFFF000 < va + len
    → va + len ≤ 2 ^ 32 + rounddown va 4096
    → user_mem_check pgdir va len perm m ≡ ok none m
unfolding user_mem_check rounddown roundup
user_mem_check_wraps pgdir va len perm m h1 h2 h3 h4 =
    check_end _ pgdir (va - va % 4096) _ va (bit_or perm pte_p) m (omega arith)
