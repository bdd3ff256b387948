-- ===== src/Machine.antt =====
-- The kernel's memory state, and the monad of operations on it (kern/pmap.c, kern/pmap.h).
-- A `struct PageInfo *` is its index in `pages`, a pointer to a page of physical memory through the
-- map at KERNBASE is the page's frame number, and a page is its 1024 words of 32 bits.
use joslab4_init.Base.{ℕ, ◌*◌, ◌^◌, Option, List, ltb, update, u32, if◌then◌else◌}
use joslab4_init.Mmu.{pgnum}

-- inc/error.h; `0` is `none`, and `-E_NO_MEM` is `some e_no_mem`.
pub data Error : Type 0 where
  e_unspecified e_bad_env e_inval e_no_mem e_no_free_env e_fault e_ipc_not_recv e_eof : Error

pub record Machine : Type 0 where
  pub npages : ℕ
  pub pp_ref : ℕ → ℕ  -- uint16_t
  pub pp_link : ℕ → Option ℕ
  pub page_free_list : Option ℕ
  pub mem : ℕ → ℕ → ℕ
  pub tlb_flushed : List ℕ  -- operands of `invlpg`, the last one first
  pub user_mem_check_addr : ℕ

-- `panicked` is a call of `panic`, which does not return. `out_of_fuel` is a loop that has used up
-- the rounds given to it.
pub data Run (A : Type 0) : Type 0 where
  ok : A → Machine → Run A
  panicked : Run A
  out_of_fuel : Run A

abbrev pub M : Type 0 → Type 0
M A = Machine → Run A

abbrev pub pure : {A : Type 0} → A → M A
pure a = ok a

abbrev pub panic : {A : Type 0} → M A
panic m = panicked

abbrev pub and_then : {A B : Type 0} → Run A → (A → M B) → Run B
and_then (ok a m) k = k a m
and_then panicked k = panicked
and_then out_of_fuel k = out_of_fuel

infixl 5 ◌>>=◌ ◌>>◌
abbrev pub ◌>>=◌ : {A B : Type 0} → M A → (A → M B) → M B
c >>= k = λ m. and_then (c m) k

abbrev pub ◌>>◌ : {B : Type 0} → M (Unit {0}) → M B → M B
c >> k = c >>= λ _. k

-- A word of physical memory.
abbrev pub load : ℕ → ℕ → M ℕ
load f i m = ok (m.mem f i) m

abbrev pub write : (ℕ → ℕ → ℕ) → ℕ → ℕ → ℕ → ℕ → ℕ → ℕ
write mem f i v = update mem f (update (mem f) i v)

abbrev pub store : ℕ → ℕ → ℕ → M (Unit {0})
store f i v m = ok tt (record m { mem = write m.mem f i v })

-- `pp->pp_ref = n`
abbrev pub set_ref : ℕ → ℕ → M (Unit {0})
set_ref p n m = ok tt (record m { pp_ref = update m.pp_ref p n })

-- page2pa
unfoldable pub page2pa : ℕ → ℕ
page2pa p = u32 (p * 2 ^ 12)

-- KADDR: the frame of a physical address, if the machine has it.
unfoldable pub kaddr : ℕ → M ℕ
kaddr pa m = if ltb (pgnum pa) m.npages then ok (pgnum pa) m else panicked

-- pa2page
unfoldable pub pa2page : ℕ → M ℕ
pa2page pa m = if ltb (pgnum pa) m.npages then ok (pgnum pa) m else panicked

-- page2kva
unfoldable pub page2kva : ℕ → M ℕ
unfolding kaddr page2pa
page2kva p = kaddr (page2pa p)
