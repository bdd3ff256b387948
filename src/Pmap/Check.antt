-- ===== src/Pmap/Check.antt =====
-- `check_page_free_list`, the kernel's own test of its free list. `tp` holds addresses of pointers:
-- of `pp1`, of `pp2` or of a page's `pp_link`; `pagetype` is a Boolean.
use joslab4_init.Base.{
  ℕ, zero, suc, ◌+◌, Bool, true, false, not, ◌&&◌, Option, none, some, ltb, leb, update,
  if◌then◌else◌,
}
use joslab4_init.Mmu.{extphysmem, npdentries, pdx}
use joslab4_init.Machine.{M, ok, panicked, out_of_fuel, ◌>>=◌, ◌>>◌, page2pa, page2kva}
use joslab4_init.Pmap.{free_page_ok, is_some}

pub data Place : Type 0 where
  list : Bool → Place  -- `&pp1` and `&pp2`
  link_of : ℕ → Place  -- `&pp->pp_link`

pub record Split : Type 0 where
  pub pp : Bool → Option ℕ  -- `pp1` and `pp2`
  pub tp : Bool → Place
  pub pp_link : ℕ → Option ℕ

abbrev pub set_at {ℓ} : {A : Type ℓ} → Bool → A → (Bool → A) → Bool → A
set_at true a f true = a
set_at true a f false = f false
set_at false a f true = f true
set_at false a f false = a

-- `*place = v`
abbrev pub assign : Place → Option ℕ → Split → Split
assign (list k) v s = record s { pp = set_at k v s.pp }
assign (link_of p) v s = record s { pp_link = update s.pp_link p v }

-- `PDX(page2pa(pp)) >= pdx_limit`
unfoldable pub pagetype : (pdx_limit pp : ℕ) → Bool
unfolding page2pa
pagetype pdx_limit pp = leb pdx_limit (pdx (page2pa pp))

abbrev pub split_page : (k : Bool) (pp : ℕ) → Split → Split
split_page k pp s = record (assign (s.tp k) (some pp) s) { tp = set_at k (link_of pp) s.tp }

-- The loop that hangs each page on the list of its type, with fuel for the rounds.
unfoldable pub split_pages : (fuel pdx_limit : ℕ) → Option ℕ → Split → Option Split
split_pages zero pdx_limit pp s = none
split_pages (suc fuel) pdx_limit none s = some s
split_pages (suc fuel) pdx_limit (some pp) s =
    let s' = split_page (pagetype pdx_limit pp) pp s in
    split_pages fuel pdx_limit (s'.pp_link pp) s'

-- `*tp[1] = 0; *tp[0] = pp2;`
abbrev pub join : Split → Split
join s = let s' = assign (s.tp true) none s in assign (s'.tp false) (s'.pp true) s'

unfoldable pub joined : Option Split → M (Unit {0})
joined none m = out_of_fuel
joined (some s) m =
    let s' = join s in ok tt (record m { pp_link = s'.pp_link; page_free_list = s'.pp false })

-- `pp1` and `pp2` hold `rubbish` before they are set.
unfoldable pub low_pages_first : (rubbish : Bool → Option ℕ) → (fuel pdx_limit : ℕ) → M (Unit {0})
low_pages_first rubbish fuel pdx_limit m =
    joined
      (split_pages fuel pdx_limit m.page_free_list
        (record { pp = rubbish; tp = list; pp_link = m.pp_link }))
      m

-- `memset(page2kva(pp), 0x97, 128)`
unfoldable pub spoil_page : ℕ → M (Unit {0})
spoil_page pp = do
  f ← page2kva pp
  λ m. ok tt (record m { mem = update m.mem f (λ i. if ltb i 32 then 0x97979797 else m.mem f i) })

unfoldable pub spoil_pages : (fuel pdx_limit : ℕ) → Option ℕ → M (Unit {0})
spoil_pages zero pdx_limit pp m = out_of_fuel
spoil_pages (suc fuel) pdx_limit none m = ok tt m
spoil_pages (suc fuel) pdx_limit (some pp) m =
    ((λ m. if pagetype pdx_limit pp then ok tt m else spoil_page pp m)
        >> (λ m. spoil_pages fuel pdx_limit (m.pp_link pp) m))
      m

-- The loop of assertions, and the two that follow it. A failed assertion panics.
unfoldable pub assert_pages :
    (fuel first_free_page : ℕ) → Option ℕ → (nfree_basemem nfree_extmem : ℕ) → M (Unit {0})
unfolding page2pa
assert_pages zero first pp nfree_basemem nfree_extmem m = out_of_fuel
assert_pages (suc fuel) first none nfree_basemem nfree_extmem m =
    if ltb 0 nfree_basemem && ltb 0 nfree_extmem then ok tt m else panicked
assert_pages (suc fuel) first (some pp) nfree_basemem nfree_extmem m =
    let low = ltb (page2pa pp) extphysmem in
    let rest =
      assert_pages fuel first (m.pp_link pp) (if low then nfree_basemem + 1 else nfree_basemem)
        (if low then nfree_extmem else nfree_extmem + 1) m in
    if free_page_ok first m.npages pp then rest else panicked

-- `first_free_page` is what `boot_alloc(0)` returns.
unfoldable pub check_page_free_list :
    (only_low_memory : Bool)
    → (rubbish : Bool → Option ℕ) → (fuel first_free_page : ℕ) → M (Unit {0})
check_page_free_list only_low_memory rubbish fuel first_free_page m =
    let pdx_limit = if only_low_memory then 1 else npdentries in
    if not (is_some m.page_free_list)
    then panicked
    else ((λ m. if only_low_memory then low_pages_first rubbish fuel pdx_limit m else ok tt m)
          >> (λ m. spoil_pages fuel pdx_limit m.page_free_list m)
          >> (λ m. assert_pages fuel first_free_page m.page_free_list 0 0 m))
        m
