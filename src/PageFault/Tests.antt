-- ===== src/PageFault/Tests.antt =====
-- Inputs for the laws of do_pgfault: pages 0 to 16, of which 4 to 9 are free, page 0 a directory, 1
-- and 2 the tables below it, page 3 mapped at 0, the page of 0x1000 swapped out, the array `ide` in
-- the pages from 10 on, and writable areas at 0x1000 and at 0x40000000.
use nkucore.Prelude.{
  has_flag, ℕ, ◌+◌, ◌*◌, ◌≡◌, refl, true, false, [], ◌∷◌, none, some, arith, update, returns, pos,
  if◌then◌else◌, ◌==◌, round_down, page_size,
}
use nkucore.DefaultPmm.{Area}
use nkucore.DefaultPmm.Blocks.{Blocks, Represents}
use nkucore.PageTable.Wf.{View, Wf}
use nkucore.PageTable.Fresh.{Backed}
use nkucore.Vmm.{Vma, Mm, find_in, search_list, e_inval}
use nkucore.PageFault.{Swapping, set_paging, do_pgfault, fault_vma}
use nkucore.Swap.{swap_entry}
use nkucore.PageFault.Demand.{do_pgfault-Backed}

abbrev area : Area
area = record {
  page =
      update
        (update (λ p. record { ref = 1; reserved = false; free_head = false; property = 0 }) 3
          (record { ref = 1; reserved = false; free_head = false; property = 0 }))
        4 (record { ref = 0; reserved = false; free_head = true; property = 6 });
  links = record {
    prev = update (update (λ p. p) 0 5) 5 0;
    next = update (update (λ p. p) 0 5) 5 0;
  };
  nr_free = 6;
}

abbrev blocks : Blocks
blocks = (4, 6) ∷ []

area-Represents : Represents area blocks
area-Represents = record {
  ring = record { chain = (refl, refl, (refl, refl)); apart = refl; distinct = (refl, tt) };
  heads = (refl, refl, tt);
  ordered = omega arith;
  count = refl;
  small = omega arith;
}

abbrev root : ℕ
root = 0x80000

abbrev cells : ℕ → ℕ
cells x =
    if x == 0x80000 * 512
    then 0x80001 * 1024 + 17
    else if x == 0x80001 * 512
    then 0x80002 * 1024 + 17
    else if x == 0x80002 * 512
    then 0x80003 * 1024 + 23
    else if x == 0x80002 * 512 + 1
    then swap_entry 0x1000
    else 0

abbrev levels : ℕ → ℕ
levels n = if n == 0x80000 then 2 else if n == 0x80001 then 1 else if n == 0x80002 then 0 else 3

abbrev parents : ℕ → ℕ
parents n = if n == 0x80001 then 0x80000 * 512 else 0x80001 * 512

abbrev view : View
view = record {
  state = record { area = area; cell = cells; npage = 0x80011; swap_init_ok = true };
  blocks = blocks;
  level = levels;
  parent = parents;
}

view-Wf : Wf view
unfolding swap_entry
view-Wf = record {
  area = area-Represents;
  bound = omega arith;
  free_below = λ p h. ground arith;
  tables = λ n l. record { from = ground arith; below = ground arith; used = ground arith };
  levels = λ n i inner odd. ground (arith, inner.is_table, inner.inner, inner.index, odd);
  parents = λ n i inner odd. ground (arith, inner.is_table, inner.inner, inner.index, odd);
  mapped = λ n i l h odd.
      (record { from = ground arith; below = ground arith; used = ground arith }, ground arith);
}

abbrev heap : Vma
heap = record { vm_start = 0x40000000; vm_end = 0x40010000; vm_flags = 3 }

abbrev data_area : Vma
data_area = record { vm_start = 0x1000; vm_end = 0x6000; vm_flags = 3 }

abbrev space : Mm
space = record {
  mmap_list = data_area ∷ heap ∷ [];
  mmap_cache = none;
  pgdir = root * 512;
  map_count = 2;
  sm_priv = none;
  mm_count = 1;
  mm_lock = false;
}

abbrev ide : ℕ
ide = 0x8000A * 512

abbrev start : Swapping
start = record {
  paging = view.state;
  queue = record { prev = λ n. n; next = λ n. n };
  pra_vaddr = λ p. 0;
}

abbrev cached_space : Mm
cached_space = record space { mmap_cache = some heap }

found_heap : find_in space 0x40001234 ≡ (some heap, cached_space)
unfolding find_in search_list
found_heap = refl

do_pgfault-Backed_example :
    (page : ℕ) × (w : View) × (do_pgfault ide 7 9 0x40001234
        (some space)
        (set_paging view.state start)
      ≡ returns (pos 0, some cached_space, set_paging w.state start))
    × Backed view w root (round_down 0x40001234 page_size) page 11
unfolding round_down has_flag
do_pgfault-Backed_example =
    do_pgfault-Backed ide 7 9 0x40001234 root space cached_space heap start view found_heap
      (omega arith) view-Wf refl refl (omega arith) refl (omega arith) (omega arith)

outside_run :
    do_pgfault ide 7 9 0x50000000 (some space) start ≡ returns (e_inval, some space, start)
unfolding do_pgfault fault_vma find_in search_list
outside_run = refl
