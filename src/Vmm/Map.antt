-- ===== src/Vmm/Map.antt =====
-- `mm_map`: what it answers, and when it stops the kernel instead.
use nkucore.Prelude.{
  ℕ, ◌+◌, ◌<◌, ◌≡◌, refl, ◌∙◌, Bool, true, false, none, some, List, [], ◌∷◌, arith, if◌then◌else◌,
  returns, panics, ◌>>=◌, pos, word, page_size, round_down, round_up,
}
use nkucore.Vmm.{
  Vma, Mm, holds, search_list, reaches, find_in, vma_create, insert_vma_struct, user_access,
  e_inval, e_no_mem, mm_map,
}
use nkucore.Vmm.Areas.{
  In, IsSpace, In-search_list, find_in-search_list, find_in-IsSpace, find_in-mmap_list,
}
use nkucore.Vmm.Insert.{Apart, insert_vma_struct-Apart, insert_vma_struct-overlap}

search_list-Apart :
    (addr : ℕ) (v : Vma) (vs : List Vma)
    → Apart v vs
    → holds v addr ≡ true
    → search_list vs addr ≡ none
unfolding search_list
search_list-Apart addr v [] o h = refl
search_list-Apart addr v (x ∷ xs) o h = ground (arith, search_list-Apart addr v xs o.1 h)

user_access-lt : (start end_ : ℕ) → user_access start end_ ≡ true → start < end_
unfolding user_access
user_access-lt start end_ h = ground arith

-- What `mm_map` comes to once the range is known to lie in user memory.
mm_map-free :
    (memory : Bool) (mm : Mm) (addr len vm_flags : ℕ)
    → user_access (round_down addr page_size) (round_up (word (addr + len)) page_size) ≡ true
    → reaches (find_in mm (round_down addr page_size)).0 (round_up (word (addr + len)) page_size)
      ≡ false
    → mm_map memory mm addr len vm_flags
      ≡ (elim (vma_create memory
          (round_down addr page_size)
          (round_up (word (addr + len)) page_size)
          vm_flags) [
            | none ↦ returns (e_no_mem, none, (find_in mm (round_down addr page_size)).1)
            | some v ↦
                insert_vma_struct (find_in mm (round_down addr page_size)).1 v
                >>= (λ mm'. returns (pos 0, some v, mm'))
          ])
unfolding mm_map
mm_map-free memory mm addr len vm_flags u r = rw (u, r)

-- A range outside user memory is refused with -E_INVAL, and nothing changes.
pub mm_map_outside :
    (memory : Bool) (mm : Mm) (addr len vm_flags : ℕ)
    → user_access (round_down addr page_size) (round_up (word (addr + len)) page_size) ≡ false
    → mm_map memory mm addr len vm_flags ≡ returns (e_inval, none, mm)
unfolding mm_map
mm_map_outside memory mm addr len vm_flags u = rw u

module _ (mm : Mm) (addr len vm_flags : ℕ) (s : IsSpace mm)
    (user : user_access (round_down addr page_size) (round_up (word (addr + len)) page_size)
      ≡ true) where
  abbrev start : ℕ
  start = round_down addr page_size

  abbrev end_ : ℕ
  end_ = round_up (word (addr + len)) page_size

  abbrev area : Vma
  area = record { vm_start = start; vm_end = end_; vm_flags = vm_flags }

  -- A range in user memory whose pages are in no area is mapped by one new area: the call returns
  -- 0, and an address is looked up to that area if it lies in the range, and as before otherwise.
  pub mm_map_maps :
      Apart area mm.mmap_list
      → (mm' : Mm) × (mm_map true mm addr len vm_flags ≡ returns (pos 0, some area, mm'))
        × IsSpace mm'
        × ((c : ℕ)
            → search_list mm'.mmap_list c
              ≡ (if holds area c then some area else search_list mm.mmap_list c))
  unfolding vma_create
  mm_map_maps o =
      let lt = user_access-lt start end_ user in
      let h : holds area start ≡ true = ground arith in
      let f : (find_in mm start).0 ≡ none =
        find_in-search_list mm start s ∙ search_list-Apart start area mm.mmap_list o h in
      let o' : Apart area (find_in mm start).1.mmap_list = rw (find_in-mmap_list mm start) o in
      let (mm', e, s', n, look) =
        insert_vma_struct-Apart area (find_in mm start).1 (find_in-IsSpace mm start s) lt o' in
      (
        mm',
        rw (mm_map-free true mm addr len vm_flags user (rw f), e) refl,
        s',
        λ c. rw (← find_in-mmap_list mm start) (look c),
      )

  -- Where the first page is in an area already, the call returns -E_INVAL and changes no area.
  pub mm_map_taken :
      (memory : Bool) (x : Vma)
      → search_list mm.mmap_list start ≡ some x
      → (mm' : Mm) × (mm_map memory mm addr len vm_flags ≡ returns (e_inval, none, mm'))
        × (mm'.mmap_list ≡ mm.mmap_list)
  unfolding mm_map
  mm_map_taken memory x e =
      let lt = user_access-lt start end_ user in
      let f : (find_in mm start).0 ≡ some x = find_in-search_list mm start s ∙ e in
      let h = (In-search_list start x mm.mmap_list e).1 in
      let r : reaches (some x) end_ ≡ true = ground arith in
      ((find_in mm start).1, rw (user, f, r) refl, find_in-mmap_list mm start)

  -- In a well-formed space, with memory for the area and a range in user memory: where the first page
  -- is in no area but a later page of the range is in some area `x`, the call does not return
  -- -E_INVAL: the overlap check of `insert_vma_struct` stops the kernel.
  pub mm_map_overlap :
      (x : Vma)
      → search_list mm.mmap_list start ≡ none
      → In x mm.mmap_list
      → x.vm_start < end_
      → start < x.vm_end
      → mm_map true mm addr len vm_flags ≡ panics
  unfolding vma_create
  mm_map_overlap x e i l r =
      let lt = user_access-lt start end_ user in
      let f : (find_in mm start).0 ≡ none = find_in-search_list mm start s ∙ e in
      let i' : In x (find_in mm start).1.mmap_list = rw (find_in-mmap_list mm start) i in
      let p =
        insert_vma_struct-overlap area x (find_in mm start).1 (find_in-IsSpace mm start s) lt i' l
          r in
      rw (mm_map-free true mm addr len vm_flags user (rw f), p) refl
