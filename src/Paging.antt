-- ===== src/Paging.antt =====
-- kern/mm/mmu.h, kern/mm/pmm.h and the front of kern/mm/pmm.c: entries of page tables, the
-- conversions between addresses and pages, and the allocator as the rest of the kernel calls it.
-- A pointer into `pages` is its index, as in DefaultPmm. Memory is seen as cells of eight bytes:
-- a pointer to an entry is the number of its cell, its physical address divided by eight, which
-- KADDR only shifts.
pub mod Entry
use nkucore.Prelude.{
  ℕ, zero, suc, ◌+◌, ◌-◌, ◌*◌, ◌/◌, ◌%◌, ◌^◌, Bool, true, false, ◌&&◌, ◌||◌, not, Option, none,
  some, ltb, leb, ◌==◌, if◌then◌else◌, update, Outcome, returns, panics, out_of_fuel, ◌>>=◌, ◌>>◌,
  assert, ℤ, pos, word, page_size, has_flag,
}
use Prim.Native.Nat.{bit_or}
use nkucore.DefaultPmm.{
  Page, Area, uint, default_alloc_pages, default_free_pages, default_nr_free_pages,
}
use nkucore.Vmm.{e_no_mem}

-- `DRAM_BASE / PGSIZE`, the number of the first page of memory.
abbrev pub nbase : ℕ
nbase = 0x80000

-- The pages with their manager, the cells, and the variables `npage` and `swap_init_ok`.
pub record Paging : Type 0 where
  pub area : Area
  pub cell : ℕ → ℕ
  pub npage : ℕ
  pub swap_init_ok : Bool

abbrev pub pdx1 : ℕ → ℕ
pdx1 la = (la / 2 ^ 30) % 512

abbrev pub pdx0 : ℕ → ℕ
pdx0 la = (la / 2 ^ 21) % 512

abbrev pub ptx : ℕ → ℕ
ptx la = (la / 2 ^ 12) % 512

abbrev pub ppn : ℕ → ℕ
ppn pa = pa / 2 ^ 12

abbrev pub pte_v : ℕ
pte_v = 0x1

abbrev pub pte_u : ℕ
pte_u = 0x10

-- PTE_R | PTE_W | PTE_X | PTE_U | PTE_V
abbrev pub pte_user : ℕ
pte_user = 0x1F

-- The ten flag bits are cleared, and the rest is shifted to its place.
abbrev pub pte_addr : ℕ → ℕ
pte_addr pte = word ((pte - pte % 2 ^ 10) * 2 ^ 2)

-- An `int` as the word it is widened to.
abbrev pub widen_int : ℕ → ℕ
widen_int n = if ltb n (2 ^ 31) then n else n + (2 ^ 64 - 2 ^ 32)

unfoldable pub pte_create : (ppn type : ℕ) → ℕ
pte_create ppn type = bit_or (bit_or (word (ppn * 2 ^ 10)) pte_v) (widen_int type)

-- `(pte_t *)KADDR(pa)`
unfoldable pub kaddr : (npage pa : ℕ) → Outcome ℕ
kaddr npage pa = do assert (ltb (ppn pa) npage); returns (pa / 8)

abbrev pub page2ppn : ℕ → ℕ
page2ppn page = word (page + nbase)

abbrev pub page2pa : ℕ → ℕ
page2pa page = word (page2ppn page * 2 ^ 12)

-- The difference `PPN(pa) - nbase` is one of words.
unfoldable pub pa2page : (npage pa : ℕ) → Outcome ℕ
pa2page npage pa = do assert (ltb (ppn pa) npage); returns (word (ppn pa + (2 ^ 64 - nbase)))

unfoldable pub pte2page : (npage pte : ℕ) → Outcome ℕ
unfolding pa2page
pte2page npage pte = do assert (has_flag pte pte_v); pa2page npage (pte_addr pte)

abbrev pub page_ref : ℕ → Paging → ℕ
page_ref page s = (s.area.page page).ref

unfoldable pub set_page_ref : (page val : ℕ) → Paging → Paging
set_page_ref page val s = record s {
  area = record s.area { page = update s.area.page page (record (s.area.page page) { ref = val }) };
}

unfoldable pub page_ref_inc : (page : ℕ) → Paging → Paging
unfolding set_page_ref
page_ref_inc page s = set_page_ref page (uint (page_ref page s + 1)) s

unfoldable pub page_ref_dec : (page : ℕ) → Paging → Paging
unfolding set_page_ref
page_ref_dec page s = set_page_ref page (uint (page_ref page s + (2 ^ 32 - 1))) s

-- The loop ends in its first round, or calls `swap_out` with `check_mm_struct`. Outside of the
-- self tests that is null, and the read through it ends in the panic of the page fault handler.
unfoldable pub alloc_pages : (fuel n : ℕ) → Paging → Outcome (Option ℕ × Paging)
alloc_pages fuel n s = do
  got ← default_alloc_pages fuel n s.area
  elim got.0 [
    | some p ↦ returns (some p, record s { area = got.1 })
    | none ↦
        if ltb 1 n || not s.swap_init_ok then returns (none, record s { area = got.1 }) else panics
  ]

unfoldable pub free_pages : (fuel base n : ℕ) → Paging → Outcome Paging
free_pages fuel base n s = do
  a ← default_free_pages fuel base n s.area
  returns (record s { area = a })

unfoldable pub nr_free_pages : Paging → ℕ
nr_free_pages s = default_nr_free_pages s.area
