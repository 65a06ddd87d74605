-- ===== src/PageFault.antt =====
-- kern/mm/vmm.c: do_pgfault; kern/mm/swap.c: swap_out and swap_in; swapfs_read and swapfs_write of
-- kern/fs/swapfs.c at the memory as cells, while Swap has them at bytes.
pub mod Demand
pub mod Slot
pub mod Loaded
pub mod SwapIn
mod Tests
use nkucore.Prelude.{
  ℕ, zero, suc, ◌+◌, ◌-◌, ◌*◌, ◌/◌, ◌%◌, ◌^◌, Bool, true, false, ◌&&◌, ◌||◌, not, Option, none,
  some, ltb, leb, ◌==◌, if◌then◌else◌, update, Outcome, returns, panics, out_of_fuel, ◌>>=◌, ◌>>◌,
  assert, ℤ, pos, negsuc, page_size, round_down, has_flag,
}
use Prim.Native.Nat.{bit_or}
use nkucore.Ring.{Links}
use nkucore.Swap.{fifo_map_swappable, fifo_swap_out_victim, swap_entry, swap_offset}
use nkucore.CString.{memcpy}
use nkucore.Vmm.{Vma, Mm, vm_write, find_in, e_inval, e_no_mem}
use nkucore.Paging.{Paging, pte_v, pte_u, kaddr, page2pa, alloc_pages, free_pages}
use nkucore.PageTable.{get_pte, page_insert, pgdir_alloc_page, set_cell}

-- The page tables, the queue of swappable pages, and `pra_vaddr` of each page.
pub record Swapping : Type 0 where
  pub paging : Paging
  pub queue : Links
  pub pra_vaddr : ℕ → ℕ

-- READ_WRITE
abbrev pub read_write : ℕ
read_write = 0x7

abbrev pub set_paging : Paging → Swapping → Swapping
set_paging p s = record s { paging = p }

abbrev pub is_zero : ℤ → Bool
is_zero (pos n) = n == 0
is_zero (negsuc n) = false

abbrev pub fault_perm : Vma → ℕ
fault_perm v = if has_flag v.vm_flags vm_write then bit_or pte_u read_write else pte_u

-- swapfs_read and swapfs_write: a page is 8 sectors of 512 bytes, which are 512 cells, and the array
-- `ide` begins at the cell `ide`.
unfoldable pub read_slot : (ide max_swap_offset entry page : ℕ) → Paging → Outcome (ℤ × Paging)
unfolding swap_offset
read_slot ide max_swap_offset entry page s = do
  offset ← swap_offset max_swap_offset entry
  kva ← kaddr s.npage (page2pa page)
  returns (pos 0, record s { cell = memcpy kva (ide + offset * 512) 512 s.cell })

unfoldable pub write_slot : (ide max_swap_offset entry page : ℕ) → Paging → Outcome (ℤ × Paging)
unfolding swap_offset
write_slot ide max_swap_offset entry page s = do
  offset ← swap_offset max_swap_offset entry
  kva ← kaddr s.npage (page2pa page)
  returns (pos 0, record s { cell = memcpy (ide + offset * 512) kva 512 s.cell })

module _ (ide max_swap_offset : ℕ) where
  -- One round of `swap_out`. A table that is missing is a NULL pointer that is read.
  unfoldable pub swap_out_one : (fuel in_tick : ℕ) → Mm → Swapping → Outcome Swapping
  unfolding fifo_swap_out_victim fifo_map_swappable get_pte free_pages swap_entry
  swap_out_one fuel in_tick mm s = do
    victim ← fifo_swap_out_victim in_tick s.queue
    let page : ℕ = victim.0
    let v : ℕ = s.pra_vaddr page
    let s1 : Swapping = record s { queue = victim.1 }
    got ← get_pte fuel mm.pgdir v false s1.paging
    elim got.0 [
      | none ↦ panics
      | some ptep ↦ (do
        assert (has_flag (s1.paging.cell ptep) pte_v)
        w ← write_slot ide max_swap_offset (swap_entry v) page s1.paging
        if is_zero w.0
            then free_pages fuel page 1 (set_cell ptep (swap_entry v) w.1)
              >>= (λ p. returns (set_paging p s1))
            else returns (record s1 { paging = w.1; queue = (fifo_map_swappable page s1.queue).1 }))
    ]

  -- It always makes `n` rounds, and returns `n`.
  unfoldable pub swap_out : (fuel n in_tick : ℕ) → Mm → Swapping → Outcome Swapping
  unfolding swap_out_one
  swap_out fuel zero in_tick mm s = returns s
  swap_out fuel (suc n) in_tick mm s = swap_out_one fuel in_tick mm s >>= swap_out fuel n in_tick mm

  -- The result of `swapfs_read` only decides about an assertion that holds.
  unfoldable pub swap_in : (fuel addr : ℕ) → Mm → Paging → Outcome (ℕ × Paging)
  unfolding alloc_pages get_pte
  swap_in fuel addr mm s = do
    got ← alloc_pages fuel 1 s
    elim got.0 [
      | none ↦ panics
      | some result ↦ (do
        at ← get_pte fuel mm.pgdir addr false got.1
        elim at.0 [
          | none ↦ panics
          | some ptep ↦ (do
            r ← read_slot ide max_swap_offset (got.1.cell ptep) result got.1
            returns (result, r.1))
        ])
    ]

  -- The page of a swap entry comes back.
  unfoldable pub fault_swapped : (fuel addr perm : ℕ) → Mm → Swapping → Outcome (ℤ × Swapping)
  fault_swapped fuel addr perm mm s = do
    got ← swap_in fuel addr mm s.paging
    r ← page_insert fuel mm.pgdir got.0 addr perm got.1
    returns (
        if is_zero r.0
        then (
          pos 0,
          record {
            paging = r.1;
            queue = (fifo_map_swappable got.0 s.queue).1;
            pra_vaddr = update s.pra_vaddr got.0 addr;
          },
        )
        else (e_no_mem, set_paging r.1 s))

  -- The access is allowed: `addr` is the address of its page.
  unfoldable pub fault_page : (fuel addr perm : ℕ) → Mm → Swapping → Outcome (ℤ × Swapping)
  fault_page fuel addr perm mm s = do
    got ← get_pte fuel mm.pgdir addr true s.paging
    elim got.0 [
      | none ↦ returns (e_no_mem, set_paging got.1 s)
      | some ptep ↦
          if got.1.cell ptep == 0
          then (do
            r ← pgdir_alloc_page fuel mm.pgdir addr perm got.1
            elim r.0 [
              | none ↦ returns (e_no_mem, set_paging r.1 s)
              | some page ↦ returns (pos 0, set_paging r.1 s)
            ])
          else if got.1.swap_init_ok
          then fault_swapped fuel addr perm mm (set_paging got.1 s)
          else returns (e_no_mem, set_paging got.1 s)
    ]

  unfoldable pub fault_vma : (fuel addr : ℕ) → Option Vma → Mm → Swapping → Outcome (ℤ × Swapping)
  fault_vma fuel addr none mm s = returns (e_inval, s)
  fault_vma fuel addr (some v) mm s =
      if ltb addr v.vm_start
      then returns (e_inval, s)
      else fault_page fuel (round_down addr page_size) (fault_perm v) mm s

  -- `error_code` is not read. The space comes back with the area that was found in its cache.
  unfoldable pub do_pgfault :
      (fuel addr : ℕ) → Option Mm → Swapping → Outcome (ℤ × Option Mm × Swapping)
  unfolding fault_vma
  do_pgfault fuel addr none s = returns (e_inval, none, s)
  do_pgfault fuel addr (some mm) s = do
    r ← fault_vma fuel addr (find_in mm addr).0 mm s
    returns (r.0, some (find_in mm addr).1, r.1)
