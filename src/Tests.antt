-- ===== src/Tests.antt =====
-- Small concrete states, and tests on them: a machine of 8 pages whose page 1 is a page directory, 2 a
-- page table that maps page 3 at address 0x3000, and whose free pages are 5 and 6.
mod Pages
mod Envs
mod Strings
mod Devices
mod Printing
mod Stabs
mod Config
mod Lines
mod Booting
mod FreePages
mod Starting
use joslab4_init.Base.{
  ℕ, Option, none, some, List, [], ◌∷◌, ◌==◌, if◌then◌else◌, Bool, ◌≡◌, refl, arith,
}
use joslab4_init.Machine.{Machine}
use joslab4_init.Pmap.FreeList.{IsFreeList}

abbrev pub words : ℕ → ℕ → ℕ
words f i =
    if f == 1
    then (if i == 0 then 0x2007 else 0)
    else if f == 2
    then (if i == 3 then 0x3007 else 0)
    else 0

abbrev pub small : Machine
small = record {
  npages = 8;
  pp_ref = λ p. if p == 4 then 0 else if p == 5 then 0 else if p == 6 then 0 else 1;
  pp_link = λ p. if p == 5 then some 6 else none;
  page_free_list = some 5;
  mem = words;
  tlb_flushed = [];
  user_mem_check_addr = 0;
}

pub small-IsFreeList : IsFreeList small (5 ∷ 6 ∷ [])
small-IsFreeList = record {
  chain = (refl, (refl, refl));
  distinct = (refl, (refl, tt));
  unused = λ p h. ground arith;
}

-- The same machine with no free page, as before `page_init`.
abbrev pub full : Machine
full = record small { page_free_list = none }

pub full-IsFreeList : IsFreeList full []
full-IsFreeList = record { chain = refl; distinct = tt; unused = λ p h. cc }
