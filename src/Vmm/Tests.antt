-- ===== src/Vmm/Tests.antt =====
-- Inputs for the laws of kern/mm/vmm.c: a space with a readable area of two pages and a writable
-- one of two pages behind a hole.
use nkucore.Prelude.{
  ℕ, ◌+◌, ◌≤◌, ◌<◌, ◌≡◌, ◌≢◌, refl, inl, inr, Bool, true, false, Option, none, some, [], ◌∷◌, arith,
  update, returns, panics, if◌then◌else◌, pos, word, round_up, has_flag,
}
use nkucore.CString.{Memory, memcpy}
use nkucore.Vmm.{
  Vma, Mm, holds, search_list, find_in, insert_vma_struct, mm_map, user_access, user_mem_check,
  copy_to_user, check_areas, dup_areas, e_inval, e_no_mem,
}
use nkucore.Vmm.Areas.{IsSpace, IsFound, find_in_lem}
use nkucore.Vmm.Insert.{insert_vma_struct-Apart, insert_vma_struct-overlap}
use nkucore.Vmm.Map.{mm_map_outside, mm_map_maps, mm_map_taken, mm_map_overlap}
use nkucore.Vmm.Access.{
  permits, user_mem_check-returns, user_mem_check-permits, user_mem_check-accepts,
}
use nkucore.Vmm.Copy.{copy_to_user-writable}
use nkucore.Vmm.Dup.{dup_areas_onto, dup_areas_fails}

abbrev vma : ℕ → ℕ → ℕ → Vma
vma s e f = record { vm_start = s; vm_end = e; vm_flags = f }

abbrev text : Vma
text = vma 0x800000 0x802000 0x5

abbrev heap : Vma
heap = vma 0x804000 0x806000 0x3

abbrev space : Mm
space = record {
  mmap_list = text ∷ heap ∷ [];
  mmap_cache = some heap;
  pgdir = 0x1000;
  map_count = 2;
  sm_priv = none;
  mm_count = 1;
  mm_lock = false;
}

space-IsSpace : IsSpace space
space-IsSpace = record { areas = omega arith; cache = inr (inl refl); count = refl }

find_in_lem_example :
    IsFound (text ∷ heap ∷ []) 0x801000 (find_in space 0x801000).0
    × IsSpace (find_in space 0x801000).1
    × ((find_in space 0x801000).1.mmap_list ≡ text ∷ heap ∷ [])
find_in_lem_example = find_in_lem space 0x801000 space-IsSpace

insert_vma_struct-Apart_example :
    (mm' : Mm) × (insert_vma_struct space (vma 0x802000 0x804000 0x3) ≡ returns mm')
    × IsSpace mm'
    × (mm'.map_count ≡ 3)
    × ((addr : ℕ)
        → search_list mm'.mmap_list addr ≡ (
            if holds (vma 0x802000 0x804000 0x3) addr
            then some (vma 0x802000 0x804000 0x3)
            else search_list (text ∷ heap ∷ []) addr))
insert_vma_struct-Apart_example =
    insert_vma_struct-Apart (vma 0x802000 0x804000 0x3) space space-IsSpace (omega arith)
      (inl (omega arith), (inr (omega arith), tt))

insert_vma_struct-overlap_run : insert_vma_struct space (vma 0x803000 0x805000 0x3) ≡ panics
insert_vma_struct-overlap_run =
    insert_vma_struct-overlap (vma 0x803000 0x805000 0x3) heap space space-IsSpace (omega arith)
      (inr (inl refl)) (omega arith) (omega arith)

mm_map_outside_run : mm_map true space 0x1000 0x1000 0x1 ≡ returns (e_inval, none, space)
unfolding round_up user_access
mm_map_outside_run = mm_map_outside true space 0x1000 0x1000 0x1 refl

mm_map_maps_run :
    (mm' : Mm) × (mm_map true space 0x802010 0x100 0x1
      ≡ returns (pos 0, some (vma 0x802000 0x803000 0x1), mm'))
    × IsSpace mm'
    × ((c : ℕ)
        → search_list mm'.mmap_list c ≡ (
            if holds (vma 0x802000 0x803000 0x1) c
            then some (vma 0x802000 0x803000 0x1)
            else search_list (text ∷ heap ∷ []) c))
unfolding round_up user_access
mm_map_maps_run =
    mm_map_maps space 0x802010 0x100 0x1 space-IsSpace refl
      (inl (omega arith), (inr (omega arith), tt))

mm_map_taken_run :
    (mm' : Mm) × (mm_map true space 0x801010 0x100 0x1 ≡ returns (e_inval, none, mm'))
    × (mm'.mmap_list ≡ text ∷ heap ∷ [])
unfolding round_up user_access search_list
mm_map_taken_run = mm_map_taken space 0x801010 0x100 0x1 space-IsSpace refl true text refl

mm_map_overlap_example : mm_map true space 0x803000 0x2000 0x1 ≡ panics
unfolding round_up user_access search_list
mm_map_overlap_example =
    mm_map_overlap space 0x803000 0x2000 0x1 space-IsSpace refl heap refl (inr (inl refl))
      (omega arith) (omega arith)

user_mem_check-returns_example :
    (r : Bool × Option Mm) × (user_mem_check 300 (some space) 0x801000 256 false ≡ returns r)
user_mem_check-returns_example =
    user_mem_check-returns 300 space 0x801000 256 false space-IsSpace (omega arith)

accepted_heap : user_mem_check 3 (some space) 0x804010 16 true ≡ returns (true, some space)
unfolding user_mem_check check_areas user_access find_in has_flag
accepted_heap = refl

user_mem_check-permits_example :
    (user_access 0x804010 (word (0x804010 + 16)) ≡ true)
    × (permits true (search_list (text ∷ heap ∷ []) 0x804018) ≡ true)
user_mem_check-permits_example =
    user_mem_check-permits 3 space 0x804010 16 0x804018 true space-IsSpace accepted_heap
      (omega arith) (omega arith)

readable :
    (c : ℕ)
    → 0x804010 ≤ c
    → c < word (0x804010 + 16)
    → permits false (search_list (text ∷ heap ∷ []) c) ≡ true
unfolding search_list has_flag
readable c l u = ground arith

user_mem_check-accepts_example :
    (mm' : Mm) × (user_mem_check 17 (some space) 0x804010 16 false ≡ returns (true, some mm'))
unfolding user_access
user_mem_check-accepts_example =
    user_mem_check-accepts 17 space 0x804010 16 space-IsSpace refl readable (omega arith)

-- One byte from kernel memory to 0x804010.
abbrev kernel_memory : Memory
kernel_memory = update (λ a. 0) 0x90 7

abbrev user_memory : Memory
user_memory = memcpy 0x804010 0x90 1 kernel_memory

copied_out :
    copy_to_user 3 (some space) 0x804010 0x90 1 kernel_memory
    ≡ returns (true, some space, user_memory)
unfolding copy_to_user check_areas user_access find_in has_flag
copied_out = refl

byte_changed : user_memory 0x804010 ≢ kernel_memory 0x804010
unfolding memcpy
byte_changed = omega arith

copy_to_user-writable_example : permits true (search_list (text ∷ heap ∷ []) 0x804010) ≡ true
copy_to_user-writable_example =
    copy_to_user-writable 3 space 0x804010 0x90 1 0x804010 kernel_memory user_memory space-IsSpace
      (omega arith) (omega arith) copied_out byte_changed

abbrev empty : Mm
empty = record space { mmap_list = []; mmap_cache = none; map_count = 0 }

dup_areas_onto_example :
    (to' : Mm) × (dup_areas ((heap, true, true) ∷ (text, true, true) ∷ []) empty
      ≡ returns (pos 0, to'))
    × (to'.mmap_list ≡ text ∷ heap ∷ [])
    × (to'.map_count ≡ 2)
    × (to'.pgdir ≡ 0x1000)
dup_areas_onto_example =
    dup_areas_onto ((heap, true, true) ∷ (text, true, true) ∷ []) [] empty refl (omega arith)
      (refl, refl, (refl, refl, tt))

dup_areas_fails_run :
    (to' : Mm) × (dup_areas ((heap, true, false) ∷ (text, true, true) ∷ []) empty
      ≡ returns (e_no_mem, to'))
    × (to'.mmap_list ≡ heap ∷ [])
dup_areas_fails_run =
    dup_areas_fails heap true false ((text, true, true) ∷ []) [] empty refl (omega arith) tt
      (inr refl)
