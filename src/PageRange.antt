-- ===== src/PageRange.antt =====
-- kern/mm/pmm.c: the functions on ranges of addresses, and how a directory comes and goes
-- (setup_pgdir and put_pgdir of kern/process/proc.c). `fuel` serves the allocator, `rounds` the
-- loops.
pub mod Unmap
pub mod Loop
mod Tests
use nkucore.Prelude.{
  ℕ, zero, suc, ◌+◌, ◌-◌, ◌*◌, ◌/◌, ◌%◌, ◌^◌, Bool, true, false, ◌&&◌, ◌||◌, not, Option, none,
  some, ltb, leb, ◌==◌, if◌then◌else◌, update, Outcome, returns, panics, out_of_fuel, ◌>>=◌, ◌>>◌,
  assert, ℤ, pos, negsuc, word, page_size, round_down, round_up, has_flag,
}
use Prim.Native.Nat.{bit_and, bit_or}
use nkucore.Vmm.{e_no_mem, user_access}
use nkucore.Paging.{
  Paging, pdx1, pdx0, pte_v, pte_user, pte_addr, pte_create, kaddr, page2pa, pa2page, pte2page,
  alloc_pages, free_pages,
}
use nkucore.PageTable.{get_pte, page_remove_pte, page_insert, set_cell}

-- The bytes that an entry of the lowest and of the upper directory stands for.
abbrev pub ptsize : ℕ
ptsize = 2 ^ 21

abbrev pub pdsize : ℕ
pdsize = 2 ^ 30

abbrev pub aligned : (start end_ : ℕ) → Bool
aligned start end_ = (start % page_size == 0) && (end_ % page_size == 0)

-- `start != 0 && start < end`
abbrev pub goes_on : (start end_ : ℕ) → Bool
goes_on start end_ = not (start == 0) && ltb start end_

-- Where a loop goes on where there is no lowest table.
abbrev pub next_table : ℕ → ℕ
next_table start = round_down (word (start + ptsize)) ptsize

unfoldable pub unmap_loop : (rounds fuel pgdir start end_ : ℕ) → Paging → Outcome Paging
unfolding round_down get_pte page_remove_pte
unmap_loop zero fuel pgdir start end_ s = out_of_fuel
unmap_loop (suc k) fuel pgdir start end_ s =
    let next : ℕ → Paging → Outcome Paging = λ at s'.
      let rest = unmap_loop k fuel pgdir at end_ s' in
      if goes_on at end_ then rest else returns s' in
    get_pte fuel pgdir start false s >>= (λ got. elim got.0 [
      | none ↦ next (next_table start) s
      | some ptep ↦
          (if s.cell ptep == 0 then returns s else page_remove_pte fuel ptep s)
          >>= next (word (start + page_size))
    ])

unfoldable pub unmap_range : (rounds fuel pgdir start end_ : ℕ) → Paging → Outcome Paging
unfolding unmap_loop user_access
unmap_range rounds fuel pgdir start end_ s = do
  assert (aligned start end_)
  assert (user_access start end_)
  unmap_loop rounds fuel pgdir start end_ s

-- `page2kva(pde2page(pde))`
abbrev pub table_of : (npage pde : ℕ) → Outcome ℕ
table_of npage pde = do page ← pa2page npage (pte_addr pde); kaddr npage (page2pa page)

-- No entry of the `n` from `at` on is valid.
unfoldable pub none_valid : (n at : ℕ) → (ℕ → ℕ) → Bool
none_valid zero at cell = true
none_valid (suc n) at cell = not (has_flag (cell at) pte_v) && none_valid n (at + 1) cell

-- One round of the inner loop of `exit_range`, at the entry `e` of the level 0 directory.
unfoldable pub exit_table : (fuel e : ℕ) → (free_pd0 : Bool) → Paging → Outcome (Bool × Paging)
unfolding none_valid free_pages pa2page kaddr
exit_table fuel e free_pd0 s =
    if has_flag (s.cell e) pte_v
    then (do
      pt ← table_of s.npage (s.cell e)
      if none_valid 512 pt s.cell
          then (do
            page ← pa2page s.npage (pte_addr (s.cell e))
            s1 ← free_pages fuel page 1 s
            returns (free_pd0, set_cell e 0 s1))
          else returns (free_pd0, s))
    else returns (false, s)

unfoldable pub exit_tables :
    (rounds fuel pd0 d1start d0start end_ : ℕ)
    → (free_pd0 : Bool) → Paging
    → Outcome (Bool × Paging)
unfolding exit_table
exit_tables zero fuel pd0 d1start d0start end_ free_pd0 s = out_of_fuel
exit_tables (suc k) fuel pd0 d1start d0start end_ free_pd0 s = do
  r ← exit_table fuel (pd0 + pdx0 d0start) free_pd0 s
  let at : ℕ = word (d0start + ptsize)
  let rest : Outcome (Bool × Paging) = exit_tables k fuel pd0 d1start at end_ r.0 r.1
  if goes_on at (word (d1start + pdsize)) && ltb at end_ then rest else returns r

-- One round of the outer loop, at the entry `e` of the directory.
unfoldable pub exit_dir : (rounds fuel e d1start d0start end_ : ℕ) → Paging → Outcome Paging
unfolding exit_tables free_pages pa2page kaddr
exit_dir rounds fuel e d1start d0start end_ s =
    let pde1 = s.cell e in
    if has_flag pde1 pte_v
    then (do
      pd0 ← table_of s.npage pde1
      r ← exit_tables rounds fuel pd0 d1start d0start end_ true s
      if r.0
          then (do
            page ← pa2page r.1.npage (pte_addr pde1)
            s1 ← free_pages fuel page 1 r.1
            returns (set_cell e 0 s1))
          else returns r.1)
    else returns s

unfoldable pub exit_loop : (rounds fuel pgdir d1start d0start end_ : ℕ) → Paging → Outcome Paging
unfolding exit_dir
exit_loop zero fuel pgdir d1start d0start end_ s = out_of_fuel
exit_loop (suc k) fuel pgdir d1start d0start end_ s = do
  s1 ← exit_dir 513 fuel (pgdir + pdx1 d1start) d1start d0start end_ s
  let at : ℕ = word (d1start + pdsize)
  let rest : Outcome Paging = exit_loop k fuel pgdir at at end_ s1
  if goes_on at end_ then rest else returns s1

unfoldable pub exit_range : (rounds fuel pgdir start end_ : ℕ) → Paging → Outcome Paging
unfolding exit_loop user_access round_down
exit_range rounds fuel pgdir start end_ s = do
  assert (aligned start end_)
  assert (user_access start end_)
  exit_loop rounds fuel pgdir (round_down start pdsize) (round_down start ptsize) end_ s

-- `memcpy(page2kva(dst), page2kva(src), PGSIZE)`, from the first cells of the two pages on.
unfoldable pub copy_page : (dst src : ℕ) → (ℕ → ℕ) → ℕ → ℕ
copy_page dst src f q = if leb dst q && ltb q (dst + 512) then f (src + (q - dst)) else f q

-- What `copy_range` does for a page that is mapped in `from` by the entry at `ptep`.
unfoldable pub copy_mapped : (fuel to_ ptep start : ℕ) → Paging → Outcome (ℤ × Paging)
unfolding get_pte pte2page alloc_pages kaddr copy_page page_insert
copy_mapped fuel to_ ptep start s = do
  there ← get_pte fuel to_ start true s
  elim there.0 [
    | none ↦ returns (e_no_mem, there.1)
    | some nptep ↦ (do
      let s1 : Paging = there.1
      page ← pte2page s1.npage (s1.cell ptep)
      got ← alloc_pages fuel 1 s1
      elim got.0 [
        | none ↦ panics
        | some npage ↦ (do
          src ← kaddr s1.npage (page2pa page)
          dst ← kaddr s1.npage (page2pa npage)
          let s2 : Paging = record got.1 { cell = copy_page dst src got.1.cell }
          r ← page_insert fuel to_ npage start (bit_and (s1.cell ptep) pte_user) s2
          elim r.0 [ pos zero ↦ returns r | _ ↦ panics ])
      ])
  ]

unfoldable pub copy_loop : (rounds fuel to_ from start end_ : ℕ) → Paging → Outcome (ℤ × Paging)
unfolding get_pte copy_mapped round_down
copy_loop zero fuel to_ from start end_ s = out_of_fuel
copy_loop (suc k) fuel to_ from start end_ s =
    let next : ℕ → Paging → Outcome (ℤ × Paging) = λ at s'.
      let rest = copy_loop k fuel to_ from at end_ s' in
      if goes_on at end_ then rest else returns (pos 0, s') in
    get_pte fuel from start false s >>= (λ got. elim got.0 [
      | none ↦ next (next_table start) s
      | some ptep ↦
          if has_flag (s.cell ptep) pte_v
          then copy_mapped fuel to_ ptep start s
            >>= (λ r. elim r.0 [ pos zero ↦ next (word (start + page_size)) r.1 | _ ↦ returns r ])
          else next (word (start + page_size)) s
    ])

-- The argument `share` is not read.
unfoldable pub copy_range :
    (rounds fuel to_ from start end_ : ℕ) → (share : Bool) → Paging → Outcome (ℤ × Paging)
unfolding copy_loop user_access
copy_range rounds fuel to_ from start end_ share s = do
  assert (aligned start end_)
  assert (user_access start end_)
  copy_loop rounds fuel to_ from start end_ s
