-- ===== src/Vmm.antt =====
-- kern/mm/vmm.c: the areas of a virtual address space. The intrusive list `mmap_list` is the
-- sequence of its areas (Ring says what its operations do to that sequence), and a pointer to an
-- area, whose fields never change once it is linked, is the area.
pub mod Areas
mod Tests
pub mod Insert
pub mod Map
pub mod Access
pub mod Copy
pub mod Dup
use nkucore.Prelude.{
  ℕ, suc, zero, ◌+◌, ◌-◌, ◌%◌, ◌^◌, Bool, true, false, ◌&&◌, ◌||◌, not, Option, none, some, List,
  [], ◌∷◌, ◌++◌, ltb, leb, ◌==◌, if◌then◌else◌, Outcome, returns, panics, out_of_fuel, ◌>>=◌, ◌>>◌,
  assert, ℤ, pos, negsuc, word, page_size, round_down, round_up, has_flag,
}
use nkucore.CString.{Memory, memcpy}

pub record Vma : Type 0 where
  pub vm_start : ℕ
  pub vm_end : ℕ
  pub vm_flags : ℕ

abbrev pub vm_read : ℕ
vm_read = 0x1

abbrev pub vm_write : ℕ
vm_write = 0x2

abbrev pub vm_stack : ℕ
vm_stack = 0x8

-- A null page directory is 0.
pub record Mm : Type 0 where
  pub mmap_list : List Vma
  pub mmap_cache : Option Vma
  pub pgdir : ℕ
  pub map_count : ℕ
  pub sm_priv : Option ℕ
  pub mm_count : ℕ
  pub mm_lock : Bool

-- The error codes of libs/error.h that this file returns, negated.
abbrev pub e_inval : ℤ
e_inval = negsuc 2

abbrev pub e_no_mem : ℤ
e_no_mem = negsuc 3

-- `memory` tells whether `kmalloc` finds room; `swap_init_mm` is that of kern/mm/swap.c.
unfoldable pub mm_create : (memory swap_init_ok : Bool) → (swap_init_mm : Mm → Mm) → Option Mm
mm_create memory swap_init_ok swap_init_mm =
    let mm : Mm = record {
      mmap_list = [];
      mmap_cache = none;
      pgdir = 0;
      map_count = 0;
      sm_priv = none;
      mm_count = 0;
      mm_lock = false;
    } in
    if memory then some (if swap_init_ok then swap_init_mm mm else mm) else none

unfoldable pub vma_create : (memory : Bool) → (vm_start vm_end vm_flags : ℕ) → Option Vma
vma_create memory vm_start vm_end vm_flags =
    if memory
    then some (record { vm_start = vm_start; vm_end = vm_end; vm_flags = vm_flags })
    else none

abbrev pub holds : Vma → ℕ → Bool
holds v addr = leb v.vm_start addr && ltb addr v.vm_end

-- The walk of `find_vma` over the list.
unfoldable pub search_list : List Vma → ℕ → Option Vma
search_list [] addr = none
search_list (v ∷ vs) addr = if holds v addr then some v else search_list vs addr

abbrev pub cached : Option Vma → ℕ → Bool
cached none addr = false
cached (some v) addr = holds v addr

abbrev pub set_cache : Option Vma → Mm → Mm
set_cache none mm = mm
set_cache (some v) mm = record mm { mmap_cache = some v }

-- `find_vma` of an `mm` that is not null: the area, and the space with its cache.
unfoldable pub find_in : Mm → ℕ → Option Vma × Mm
unfolding search_list
find_in mm addr =
    let found =
      if cached mm.mmap_cache addr then mm.mmap_cache else search_list mm.mmap_list addr in
    (found, set_cache found mm)

unfoldable pub find_vma : Option Mm → ℕ → Option Vma × Option Mm
unfolding find_in
find_vma none addr = (none, none)
find_vma (some mm) addr = let (v, mm') = find_in mm addr in (v, some mm')

unfoldable pub check_vma_overlap : (prev next : Vma) → Outcome (Unit {0})
check_vma_overlap prev next = do
  assert (ltb prev.vm_start prev.vm_end)
  assert (leb prev.vm_end next.vm_start)
  assert (ltb next.vm_start next.vm_end)

-- The areas up to `le_prev`, and those behind it.
unfoldable pub areas_before : Vma → List Vma → List Vma
areas_before v [] = []
areas_before v (x ∷ xs) = if ltb v.vm_start x.vm_start then [] else x ∷ areas_before v xs

unfoldable pub areas_after : Vma → List Vma → List Vma
areas_after v [] = []
areas_after v (x ∷ xs) = if ltb v.vm_start x.vm_start then x ∷ xs else areas_after v xs

unfoldable pub check_prev : List Vma → Vma → Outcome (Unit {0})
unfolding check_vma_overlap
check_prev [] v = returns tt
check_prev (x ∷ []) v = check_vma_overlap x v
check_prev (x ∷ y ∷ ys) v = check_prev (y ∷ ys) v

unfoldable pub check_next : Vma → List Vma → Outcome (Unit {0})
unfolding check_vma_overlap
check_next v [] = returns tt
check_next v (x ∷ xs) = check_vma_overlap v x

unfoldable pub insert_vma_struct : Mm → Vma → Outcome Mm
unfolding areas_before areas_after check_prev check_next
insert_vma_struct mm v = do
  assert (ltb v.vm_start v.vm_end)
  check_prev (areas_before v mm.mmap_list) v
  check_next v (areas_after v mm.mmap_list)
  returns (record mm {
    mmap_list = areas_before v mm.mmap_list ++ v ∷ areas_after v mm.mmap_list;
    map_count = mm.map_count + 1;
  })

abbrev pub user_base : ℕ
user_base = 0x00200000

abbrev pub user_top : ℕ
user_top = 0x80000000

abbrev pub kern_base : ℕ
kern_base = 0xFFFFFFFFC0200000

abbrev pub kern_top : ℕ
kern_top = 0xFFFFFFFFC0200000 + 0x7E00000

unfoldable pub user_access : (start end_ : ℕ) → Bool
user_access start end_ = leb user_base start && ltb start end_ && leb end_ user_top

unfoldable pub kern_access : (start end_ : ℕ) → Bool
kern_access start end_ = leb kern_base start && ltb start end_ && leb end_ kern_top

-- `vma != NULL && end > vma->vm_start`
abbrev pub reaches : Option Vma → ℕ → Bool
reaches none end_ = false
reaches (some v) end_ = ltb v.vm_start end_

-- The result code, the area stored through `vma_store`, and the space.
unfoldable pub mm_map :
    (memory : Bool) → Mm → (addr len vm_flags : ℕ) → Outcome (ℤ × Option Vma × Mm)
unfolding round_down round_up user_access find_in vma_create insert_vma_struct
mm_map memory mm addr len vm_flags =
    let start = round_down addr page_size in
    let end_ = round_up (word (addr + len)) page_size in
    let (found, mm') = find_in mm start in
    if not (user_access start end_)
    then returns (e_inval, none, mm)
    else if reaches found end_
    then returns (e_inval, none, mm')
    else elim (vma_create memory start end_ vm_flags) [
      | none ↦ returns (e_no_mem, none, mm')
      | some v ↦ insert_vma_struct mm' v >>= (λ mm''. returns (pos 0, some v, mm''))
    ]

-- One round of `user_mem_check` refuses an area that lacks the flag, and a write within the lowest
-- page of a stack.
abbrev pub allows : (write : Bool) → Vma → ℕ → Bool
allows write v start =
    leb v.vm_start start
    && has_flag v.vm_flags (if write then vm_write else vm_read)
    && not (write && has_flag v.vm_flags vm_stack && ltb start (word (v.vm_start + page_size)))

unfoldable pub check_areas :
    (fuel : ℕ) → (write : Bool) → Mm → (start end_ : ℕ) → Outcome (Bool × Mm)
check_areas zero write mm start end_ = out_of_fuel
check_areas (suc k) write mm start end_ =
    if ltb start end_
    then elim ((find_in mm start).0) [
      | none ↦ returns (false, (find_in mm start).1)
      | some v ↦ elim (allows write v start) [
        | false ↦ returns (false, (find_in mm start).1)
        | true ↦ check_areas k write (find_in mm start).1 v.vm_end end_
      ]
    ]
    else returns (true, mm)

abbrev pub with_some : Outcome (Bool × Mm) → Outcome (Bool × Option Mm)
with_some r = r >>= λ p. returns (p.0, some p.1)

unfoldable pub user_mem_check :
    (fuel : ℕ) → Option Mm → (addr len : ℕ) → (write : Bool) → Outcome (Bool × Option Mm)
unfolding check_areas user_access kern_access
user_mem_check fuel none addr len write = returns (kern_access addr (word (addr + len)), none)
user_mem_check fuel (some mm) addr len write =
    let checked = with_some (check_areas fuel write mm addr (word (addr + len))) in
    if user_access addr (word (addr + len)) then checked else returns (false, some mm)

unfoldable pub copy_from_user :
    (fuel : ℕ)
    → Option Mm
    → (dst src len : ℕ) → (writable : Bool) → Memory
    → Outcome (Bool × Option Mm × Memory)
unfolding user_mem_check
copy_from_user fuel mm dst src len writable m = do
  r ← user_mem_check fuel mm src len writable
  returns (if r.0 then (true, r.1, memcpy dst src len m) else (false, r.1, m))

unfoldable pub copy_to_user :
    (fuel : ℕ) → Option Mm → (dst src len : ℕ) → Memory → Outcome (Bool × Option Mm × Memory)
unfolding user_mem_check
copy_to_user fuel mm dst src len m = do
  r ← user_mem_check fuel mm dst len true
  returns (if r.0 then (true, r.1, memcpy dst src len m) else (false, r.1, m))

-- The rounds of `dup_mmap` over the areas of `from`, last first. For each area: whether `kmalloc`
-- finds room, and whether `copy_range` returns 0.
unfoldable pub dup_areas : List (Vma × Bool × Bool) → Mm → Outcome (ℤ × Mm)
unfolding vma_create insert_vma_struct
dup_areas [] to = returns (pos 0, to)
dup_areas ((v, memory, copies) ∷ rest) to =
    elim (vma_create memory v.vm_start v.vm_end v.vm_flags) [
      | none ↦ returns (e_no_mem, to)
      | some n ↦
          insert_vma_struct to n
          >>= (λ to'. elim copies [ true ↦ dup_areas rest to' | false ↦ returns (e_no_mem, to') ])
    ]

-- The walk of `dup_mmap` by `list_prev`, with what `kmalloc` and `copy_range` come to at an area.
abbrev pub last_first :
    (memory copies : Vma → Bool)
    → (vs : List Vma) → List (Vma × Bool × Bool)
    → List (Vma × Bool × Bool)
last_first memory copies [] done = done
last_first memory copies (v ∷ vs) done =
    last_first memory copies vs ((v, memory v, copies v) ∷ done)

unfoldable pub dup_mmap : (memory copies : Vma → Bool) → (to from : Mm) → Outcome (ℤ × Mm)
unfolding dup_areas
dup_mmap memory copies to from = dup_areas (last_first memory copies from.mmap_list []) to

-- The calls that `exit_mmap` makes on the page tables.
pub data RangeCall : Type 0 where
  unmap_range : (pgdir start end_ : ℕ) → RangeCall
  exit_range : (pgdir start end_ : ℕ) → RangeCall

abbrev pub unmap_calls : ℕ → List Vma → List RangeCall
unmap_calls pgdir [] = []
unmap_calls pgdir (v ∷ vs) = unmap_range pgdir v.vm_start v.vm_end ∷ unmap_calls pgdir vs

abbrev pub exit_calls : ℕ → List Vma → List RangeCall
exit_calls pgdir [] = []
exit_calls pgdir (v ∷ vs) = exit_range pgdir v.vm_start v.vm_end ∷ exit_calls pgdir vs

unfoldable pub exit_mmap : Mm → Outcome (List RangeCall)
exit_mmap mm = do
  assert (mm.mm_count == 0)
  returns (unmap_calls mm.pgdir mm.mmap_list ++ exit_calls mm.pgdir mm.mmap_list)
