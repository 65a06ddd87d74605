-- ===== src/Swap.antt =====
-- kern/mm/swap_fifo.c: the first-in, first-out queue of pages; kern/fs/swapfs.c and
-- kern/driver/ide.c: the pages on the swap device, which is an array in memory.
mod Tests
pub mod Fifo
pub mod Device
use nkucore.Prelude.{
  ℕ, ◌+◌, ◌-◌, ◌*◌, ◌/◌, ◌%◌, ◌^◌, Bool, ◌&&◌, leb, ltb, ◌==◌, if◌then◌else◌, ℤ, pos, page_size,
  Outcome, returns, panics, ◌>>=◌, ◌>>◌, assert,
}
use nkucore.Ring.{Links, list_init, list_add_before, list_next, list_del}
use nkucore.CString.{Memory, memcpy}

-- Node 0 is `pra_list_head`, node `p + 1` the `pra_page_link` of page `p`.
abbrev pub pra_list_head : ℕ
pra_list_head = 0

abbrev pub pra_page_link : ℕ → ℕ
pra_page_link p = p + 1

-- `mm->sm_priv` is always the address of `pra_list_head`: the queue is shared by all spaces.
unfoldable pub fifo_init_mm : Links → ℤ × Links
unfolding list_init
fifo_init_mm l = (pos 0, list_init pra_list_head l)

unfoldable pub fifo_map_swappable : (page : ℕ) → Links → ℤ × Links
unfolding list_add_before
fifo_map_swappable page l = (pos 0, list_add_before pra_list_head (pra_page_link page) l)

-- The page that is stored through `ptr_page`, and the queue. `in_tick` has to be 0.
unfoldable pub fifo_swap_out_victim : (in_tick : ℕ) → Links → Outcome (ℕ × Links)
unfolding list_next list_del
fifo_swap_out_victim in_tick l = do
  assert (in_tick == 0)
  let entry : ℕ = list_next l pra_list_head
  returns (entry - 1, list_del entry l)

abbrev pub sect_size : ℕ
sect_size = 512

abbrev pub page_nsect : ℕ
page_nsect = 8

abbrev pub max_disk_nsecs : ℕ
max_disk_nsecs = 56

abbrev pub swap_dev_no : ℕ
swap_dev_no = 1

unfoldable pub ide_device_valid : (ideno : ℕ) → Bool
ide_device_valid ideno = ltb ideno 2

unfoldable pub ide_device_size : (ideno : ℕ) → ℕ
ide_device_size ideno = max_disk_nsecs

-- `ide` is the address of the array.
-- `&ide[iobase]`: `iobase` is an `int`, so the product is cut to 32 bits and has a sign.
abbrev pub sector : (ide secno : ℕ) → ℕ
sector ide secno =
    let iobase = secno * sect_size % 2 ^ 32 in
    if ltb iobase (2 ^ 31) then ide + iobase else ide - (2 ^ 32 - iobase)

unfoldable pub ide_read_secs : (ide secno dst nsecs : ℕ) → Memory → ℤ × Memory
unfolding memcpy
ide_read_secs ide secno dst nsecs m = (pos 0, memcpy dst (sector ide secno) (nsecs * sect_size) m)

unfoldable pub ide_write_secs : (ide secno src nsecs : ℕ) → Memory → ℤ × Memory
unfolding memcpy
ide_write_secs ide secno src nsecs m = (pos 0, memcpy (sector ide secno) src (nsecs * sect_size) m)

-- The value of `max_swap_offset`.
unfoldable pub swapfs_init : Outcome ℕ
unfolding ide_device_valid ide_device_size
swapfs_init = do
  assert (ide_device_valid swap_dev_no)
  returns (ide_device_size swap_dev_no / (page_size / sect_size))

-- The check of `swap_init`.
unfoldable pub check_max_swap_offset : (max_swap_offset : ℕ) → Outcome (Unit {0})
check_max_swap_offset max_swap_offset =
    assert (leb 7 max_swap_offset && ltb max_swap_offset (2 ^ 24))

unfoldable pub swap_offset : (max_swap_offset entry : ℕ) → Outcome ℕ
swap_offset max_swap_offset entry = do
  assert (ltb 0 (entry / 2 ^ 8) && ltb (entry / 2 ^ 8) max_swap_offset)
  returns (entry / 2 ^ 8)

-- `kva` is `page2kva(page)`.
unfoldable pub swapfs_read : (ide max_swap_offset entry kva : ℕ) → Memory → Outcome (ℤ × Memory)
unfolding swap_offset ide_read_secs
swapfs_read ide max_swap_offset entry kva m = do
  offset ← swap_offset max_swap_offset entry
  returns (ide_read_secs ide (offset * page_nsect) kva page_nsect m)

unfoldable pub swapfs_write : (ide max_swap_offset entry kva : ℕ) → Memory → Outcome (ℤ × Memory)
unfolding swap_offset ide_write_secs
swapfs_write ide max_swap_offset entry kva m = do
  offset ← swap_offset max_swap_offset entry
  returns (ide_write_secs ide (offset * page_nsect) kva page_nsect m)

-- The entry that `swap_out` gives the page at a virtual address.
unfoldable pub swap_entry : (pra_vaddr : ℕ) → ℕ
swap_entry pra_vaddr = (pra_vaddr / page_size + 1) * 2 ^ 8
