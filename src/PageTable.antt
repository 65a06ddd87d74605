-- ===== src/PageTable.antt =====
-- kern/mm/pmm.c: the three levels of page tables, from get_pte to pgdir_alloc_page. Emptying the
-- translation cache has no effect on the cells.
pub mod Wf
pub mod Made
pub mod MadeWf
pub mod Grow
pub mod Make
pub mod Walk
pub mod Create
pub mod Write
pub mod Insert
pub mod Fresh
pub mod Load
pub mod Remove
pub mod Tests
use nkucore.Prelude.{
  ℕ, zero, suc, ◌+◌, ◌-◌, ◌*◌, ◌/◌, ◌%◌, ◌^◌, Bool, true, false, ◌&&◌, ◌||◌, not, Option, none,
  some, ltb, leb, ◌==◌, if◌then◌else◌, update, Outcome, returns, panics, out_of_fuel, ◌>>=◌, ◌>>◌,
  assert, ℤ, pos, word, page_size, has_flag,
}
use Prim.Native.Nat.{bit_or}
use nkucore.DefaultPmm.{
  Page, Area, uint, default_alloc_pages, default_free_pages, default_nr_free_pages,
}
use nkucore.Vmm.{e_no_mem}
use nkucore.Paging.{
  nbase, Paging, pdx1, pdx0, ptx, pte_v, pte_u, pte_user, pte_addr, pte_create, kaddr, page2ppn,
  page2pa, pte2page, page_ref, set_page_ref, page_ref_inc, page_ref_dec, alloc_pages, free_pages,
}

abbrev pub set_cell : (e v : ℕ) → Paging → Paging
set_cell e v s = record s { cell = update s.cell e v }

-- `memset(KADDR(pa), 0, PGSIZE)`, from the cell of KADDR(pa) on.
unfoldable pub clear_page : (from : ℕ) → (ℕ → ℕ) → ℕ → ℕ
clear_page from f q = if leb from q && ltb q (from + 512) then 0 else f q

-- The two blocks of `get_pte` that look for the table an entry points to: whether there is one.
unfoldable pub make_table :
    (fuel : ℕ) → (create : Bool) → (pde : ℕ) → Paging → Outcome (Bool × Paging)
unfolding alloc_pages kaddr set_page_ref clear_page pte_create
make_table fuel create pde s =
    if has_flag (s.cell pde) pte_v
    then returns (true, s)
    else if not create
    then returns (false, s)
    else (do
      got ← alloc_pages fuel 1 s
      elim got.0 [
        | none ↦ returns (false, got.1)
        | some page ↦ kaddr s.npage (page2pa page) >>= (λ at.
            let s1 = set_page_ref page 1 got.1 in
            returns (
              true,
              set_cell pde (pte_create (page2ppn page) (pte_u + pte_v))
                  (record s1 { cell = clear_page at s1.cell }),
            ))
      ])

-- `get_pte` from `pdep0` on, in the directory at `pd0`.
unfoldable pub get_pte_from :
    (fuel pd0 la : ℕ) → (create : Bool) → Paging → Outcome (Option ℕ × Paging)
unfolding make_table kaddr
get_pte_from fuel pd0 la create s = do
  second ← make_table fuel create (pd0 + pdx0 la) s
  if not second.0 then returns (none, second.1) else (do
    pt ← kaddr second.1.npage (pte_addr (second.1.cell (pd0 + pdx0 la)))
    returns (some (pt + ptx la), second.1))

unfoldable pub get_pte :
    (fuel pgdir la : ℕ) → (create : Bool) → Paging → Outcome (Option ℕ × Paging)
unfolding make_table kaddr get_pte_from
get_pte fuel pgdir la create s = do
  first ← make_table fuel create (pgdir + pdx1 la) s
  if not first.0 then returns (none, first.1) else (do
    pd0 ← kaddr first.1.npage (pte_addr (first.1.cell (pgdir + pdx1 la)))
    get_pte_from fuel pd0 la create first.1)

-- Without `ptep_store`.
unfoldable pub get_page : (fuel pgdir la : ℕ) → Paging → Outcome (Option ℕ)
unfolding get_pte pte2page
get_page fuel pgdir la s = do
  got ← get_pte fuel pgdir la false s
  elim got.0 [
    | none ↦ returns none
    | some ptep ↦
        if has_flag (s.cell ptep) pte_v
        then pte2page s.npage (s.cell ptep) >>= (λ page. returns (some page))
        else returns none
  ]

unfoldable pub page_remove_pte : (fuel ptep : ℕ) → Paging → Outcome Paging
unfolding pte2page page_ref_dec free_pages
page_remove_pte fuel ptep s =
    if has_flag (s.cell ptep) pte_v
    then (do
      page ← pte2page s.npage (s.cell ptep)
      let s1 : Paging = page_ref_dec page s
      s2 ← (if page_ref page s1 == 0 then free_pages fuel page 1 s1 else returns s1)
      returns (set_cell ptep 0 s2))
    else returns s

unfoldable pub page_remove : (fuel pgdir la : ℕ) → Paging → Outcome Paging
unfolding get_pte page_remove_pte
page_remove fuel pgdir la s = do
  got ← get_pte fuel pgdir la false s
  elim got.0 [ none ↦ returns got.1 | some ptep ↦ page_remove_pte fuel ptep got.1 ]

-- What `page_insert` does about an entry that is in use already.
unfoldable pub release_entry : (fuel page ptep : ℕ) → Paging → Outcome Paging
unfolding pte2page page_ref_dec page_remove_pte
release_entry fuel page ptep s =
    if has_flag (s.cell ptep) pte_v
    then (do
      p ← pte2page s.npage (s.cell ptep)
      if p == page then returns (page_ref_dec page s) else page_remove_pte fuel ptep s)
    else returns s

unfoldable pub page_insert : (fuel pgdir page la perm : ℕ) → Paging → Outcome (ℤ × Paging)
unfolding get_pte page_ref_inc release_entry pte_create
page_insert fuel pgdir page la perm s = do
  got ← get_pte fuel pgdir la true s
  elim got.0 [
    | none ↦ returns (e_no_mem, got.1)
    | some ptep ↦ release_entry fuel page ptep (page_ref_inc page got.1) >>= (λ s1.
        returns (pos 0, set_cell ptep (pte_create (page2ppn page) (bit_or pte_v perm)) s1))
  ]

-- The result of a successful `page_insert` is 0; `check_mm_struct` is null as in `alloc_pages`.
unfoldable pub pgdir_alloc_page : (fuel pgdir la perm : ℕ) → Paging → Outcome (Option ℕ × Paging)
unfolding alloc_pages page_insert free_pages
pgdir_alloc_page fuel pgdir la perm s = do
  got ← alloc_pages fuel 1 s
  elim got.0 [
    | none ↦ returns (none, got.1)
    | some page ↦ page_insert fuel pgdir page la perm got.1 >>= (λ r. elim r.0 [
      | pos zero ↦ returns (some page, r.1)
      | _ ↦ free_pages fuel page 1 r.1 >>= (λ s1. returns (none, s1))
    ])
  ]
