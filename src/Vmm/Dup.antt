-- ===== src/Vmm/Dup.antt =====
-- `dup_mmap`: the copy of an address space has the same areas.
use nkucore.Prelude.{
  ◌∙◌, ap, ◌++◌, ℕ, ◌+◌, ◌<◌, ◌≡◌, ◌⊎◌, refl, Bool, true, false, List, [], ◌∷◌, arith,
  if◌then◌else◌, length, returns, lt→ltb, pos,
}
use nkucore.Vmm.{
  Vma, Mm, vma_create, areas_before, areas_after, check_prev, check_next, check_vma_overlap,
  insert_vma_struct, dup_areas, dup_mmap, last_first, e_no_mem,
}
use nkucore.Vmm.Areas.{Areas}

-- The areas of a list in reverse order, in front of others: what a walk by `list_prev` hands out.
abbrev pub rev_onto : List Vma → List Vma → List Vma
rev_onto [] post = post
rev_onto (v ∷ vs) post = rev_onto vs (v ∷ post)

abbrev pub areas_of : List (Vma × Bool × Bool) → List Vma
areas_of [] = []
areas_of ((v, a, b) ∷ rs) = v ∷ areas_of rs

-- Every `kmalloc` and every `copy_range` of the walk succeeds.
abbrev pub AllSucceed : List (Vma × Bool × Bool) → Type 0
AllSucceed [] = Unit
AllSucceed ((v, a, b) ∷ rs) = (a ≡ true) × (b ≡ true) × AllSucceed rs

Areas-onto : (lo : ℕ) (vs post : List Vma) → Areas lo (rev_onto vs post) → (hi : ℕ) × Areas hi post
Areas-onto lo [] post a = (lo, a)
Areas-onto lo (v ∷ vs) post a = let (hi, b) = Areas-onto lo vs (v ∷ post) a in (v.vm_end, b.2)

Areas-head :
    (lo : ℕ) (v : Vma) (vs post : List Vma)
    → Areas lo (rev_onto (v ∷ vs) post)
    → (v.vm_start < v.vm_end) × Areas v.vm_end post
Areas-head lo v vs post a = let (hi, b) = Areas-onto lo vs (v ∷ post) a in (b.1, b.2)

-- An area below all others goes in front.
insert_first :
    (v : Vma) (mm : Mm) (post : List Vma)
    → mm.mmap_list ≡ post
    → v.vm_start < v.vm_end
    → Areas v.vm_end post
    → insert_vma_struct mm v
      ≡ returns (record mm { mmap_list = v ∷ post; map_count = mm.map_count + 1 })
unfolding insert_vma_struct areas_before areas_after check_prev check_next check_vma_overlap
insert_first v mm [] e p a = rw (e, lt→ltb _ _ p)
insert_first v mm (x ∷ xs) e p a = rw (e, lt→ltb _ _ p) (ground arith)

-- The walk over areas in order, last first, with memory for each, adds them all in front of what
-- `to` holds.
pub dup_areas_onto :
    (rs : List (Vma × Bool × Bool)) (post : List Vma) (to : Mm)
    → to.mmap_list ≡ post
    → Areas 0 (rev_onto (areas_of rs) post)
    → AllSucceed rs
    → (to' : Mm) × (dup_areas rs to ≡ returns (pos 0, to'))
      × (to'.mmap_list ≡ rev_onto (areas_of rs) post)
      × (to'.map_count ≡ to.map_count + length rs)
      × (to'.pgdir ≡ to.pgdir)
unfolding dup_areas vma_create
dup_areas_onto [] post to e a ok = (to, refl, e, omega arith, refl)
dup_areas_onto ((v, m, c) ∷ rs) post to e a ok =
    let (p, q) = Areas-head 0 v (areas_of rs) post a in
    let (to', f, g, h, i) =
      dup_areas_onto rs (v ∷ post)
        (record to { mmap_list = v ∷ post; map_count = to.map_count + 1 }) refl a ok.2 in
    (to', rw (ok.0, insert_first v to post e p q, ok.1) f, g, omega arith, i)

-- A failed `kmalloc` or `copy_range` makes `dup_mmap` return -E_NO_MEM at that area, with the areas
-- behind it copied and, where `copy_range` failed, the area itself.
pub dup_areas_fails :
    (v : Vma) (m c : Bool) (rs : List (Vma × Bool × Bool)) (post : List Vma) (to : Mm)
    → to.mmap_list ≡ post
    → v.vm_start < v.vm_end
    → Areas v.vm_end post
    → (m ≡ false) ⊎ (c ≡ false)
    → (to' : Mm) × (dup_areas ((v, m, c) ∷ rs) to ≡ returns (e_no_mem, to'))
      × (to'.mmap_list ≡ (if m then v ∷ post else post))
unfolding dup_areas vma_create
dup_areas_fails v false c rs post to e p q f = (to, refl, e)
dup_areas_fails v true false rs post to e p q f = (
  record to { mmap_list = v ∷ post; map_count = to.map_count + 1 },
  rw (insert_first v to post e p q) refl,
  refl,
)
dup_areas_fails v true true rs post to e p q f = ground arith

areas-last_first :
    (memory copies : Vma → Bool) (vs post : List Vma) (done : List (Vma × Bool × Bool))
    → rev_onto (areas_of (last_first memory copies vs done)) post
      ≡ rev_onto (areas_of done) (vs ++ post)
areas-last_first memory copies [] post done = refl
areas-last_first memory copies (v ∷ vs) post done =
    areas-last_first memory copies vs post ((v, memory v, copies v) ∷ done)

append_nil : (vs : List Vma) → vs ++ [] ≡ vs
append_nil [] = refl
append_nil (v ∷ vs) = ap (λ xs. v ∷ xs) (append_nil vs)

last_first-AllSucceed :
    (memory copies : Vma → Bool) (vs : List Vma) (done : List (Vma × Bool × Bool))
    → ((v : Vma) → (memory v ≡ true) × (copies v ≡ true))
    → AllSucceed done
    → AllSucceed (last_first memory copies vs done)
last_first-AllSucceed memory copies [] done h ok = ok
last_first-AllSucceed memory copies (v ∷ vs) done h ok =
    last_first-AllSucceed memory copies vs ((v, memory v, copies v) ∷ done) h ((h v).0, (h v).1, ok)

length-last_first :
    (memory copies : Vma → Bool) (vs : List Vma) (done : List (Vma × Bool × Bool))
    → length (last_first memory copies vs done) ≡ length vs + length done
length-last_first memory copies [] done = omega arith
length-last_first memory copies (v ∷ vs) done =
    let e = length-last_first memory copies vs ((v, memory v, copies v) ∷ done) in omega (arith, e)

-- With memory for every area and every page, `dup_mmap` into an empty space returns 0, and `to` has
-- the areas of `from`, in the same order, and counts them.
pub dup_mmap_lem :
    (memory copies : Vma → Bool) (to from : Mm)
    → ((v : Vma) → (memory v ≡ true) × (copies v ≡ true))
    → to.mmap_list ≡ []
    → Areas 0 from.mmap_list
    → (to' : Mm) × (dup_mmap memory copies to from ≡ returns (pos 0, to'))
      × (to'.mmap_list ≡ from.mmap_list)
      × (to'.map_count ≡ to.map_count + length from.mmap_list)
      × (to'.pgdir ≡ to.pgdir)
unfolding dup_mmap
dup_mmap_lem memory copies to from ok empty a =
    let rs = last_first memory copies from.mmap_list [] in
    let same : rev_onto (areas_of rs) [] ≡ from.mmap_list =
      areas-last_first memory copies from.mmap_list [] [] ∙ append_nil from.mmap_list in
    let (to', f, g, h, i) =
      dup_areas_onto rs [] to empty (rw same a)
        (last_first-AllSucceed memory copies from.mmap_list [] ok tt) in
    let n = length-last_first memory copies from.mmap_list [] in
    (to', f, g ∙ same, omega (arith, h, n), i)
