-- ===== src/Vmm/Access.antt =====
-- `user_mem_check`: which ranges it accepts.
use nkucore.Prelude.{
  ℕ, suc, zero, ◌+◌, ◌-◌, ◌≤◌, ◌<◌, ◌≡◌, inl, inr, refl, sym, ◌∙◌, Bool, true, false, Option, none,
  some, arith, ltb, if◌then◌else◌, Bool-cases, Option-cases, Outcome, returns, panics, out_of_fuel,
  ltb→le, word, has_flag,
}
use nkucore.Vmm.{
  Vma, Mm, holds, search_list, find_in, check_areas, allows, with_some, user_access, user_mem_check,
  vm_read, vm_write,
}
use nkucore.Vmm.Areas.{
  search_list-In, IsSpace, In-search_list, find_in-search_list, find_in-IsSpace, find_in-mmap_list,
}

abbrev pub needed : Bool → ℕ
needed write = if write then vm_write else vm_read

-- The address lies in an area that has the flag.
abbrev pub permits : Bool → Option Vma → Bool
permits write none = false
permits write (some v) = has_flag v.vm_flags (needed write)

-- One round of the loop: past the end, in a hole, in an area that refuses, on to the next area.
module _ (k : ℕ) (write : Bool) (mm : Mm) (start end_ : ℕ) where
  round_done : ltb start end_ ≡ false → check_areas (suc k) write mm start end_ ≡ returns (true, mm)
  unfolding check_areas
  round_done n = rw n

  round_hole :
      ltb start end_ ≡ true
      → (find_in mm start).0 ≡ none
      → check_areas (suc k) write mm start end_ ≡ returns (false, (find_in mm start).1)
  unfolding check_areas
  round_hole y e = rw (y, e)

  round_refused :
      (v : Vma)
      → ltb start end_ ≡ true
      → (find_in mm start).0 ≡ some v
      → allows write v start ≡ false
      → check_areas (suc k) write mm start end_ ≡ returns (false, (find_in mm start).1)
  unfolding check_areas
  round_refused v y e n = rw (y, e, n)

  round_on :
      (v : Vma)
      → ltb start end_ ≡ true
      → (find_in mm start).0 ≡ some v
      → allows write v start ≡ true
      → check_areas (suc k) write mm start end_
        ≡ check_areas k write (find_in mm start).1 v.vm_end end_
  unfolding check_areas
  round_on v y e a = rw (y, e, a)

  -- Which of these a round is.
  data Round : Type 0 where
    done : ltb start end_ ≡ false → Round
    hole : ltb start end_ ≡ true → (find_in mm start).0 ≡ none → Round
    refused :
        (v : Vma)
        → ltb start end_ ≡ true
        → (find_in mm start).0 ≡ some v
        → allows write v start ≡ false
        → Round
    on :
        (v : Vma)
        → ltb start end_ ≡ true
        → (find_in mm start).0 ≡ some v
        → allows write v start ≡ true
        → Round

  round_cases : Round
  round_cases = elim (Bool-cases (ltb start end_)) [
    | inr n ↦ done n
    | inl y ↦ elim (Option-cases (find_in mm start).0) [
      | inl e ↦ hole y e
      | inr (v, e) ↦ elim (Bool-cases (allows write v start)) [
        | inr n ↦ refused v y e n
        | inl a ↦ on v y e a
      ]
    ]
  ]

found_holds :
    (mm : Mm) (start : ℕ) (v : Vma)
    → IsSpace mm
    → (find_in mm start).0 ≡ some v
    → holds v start ≡ true
found_holds mm start v s e =
    (In-search_list start v mm.mmap_list (sym (find_in-search_list mm start s) ∙ e)).1

-- The loop ends: each round goes on at the end of an area, behind where it stood.
pub check_areas-returns :
    (k : ℕ) (write : Bool) (mm : Mm) (start end_ : ℕ)
    → IsSpace mm
    → end_ - start < k
    → (r : Bool × Mm) × (check_areas k write mm start end_ ≡ returns r)
check_areas-returns zero write mm start end_ s f = absurd (omega arith)
check_areas-returns (suc k) write mm start end_ s f = elim (round_cases k write mm start end_) [
  | done n ↦ ((true, mm), round_done k write mm start end_ n)
  | hole y e ↦ ((false, (find_in mm start).1), round_hole k write mm start end_ y e)
  | refused v y e n ↦ ((false, (find_in mm start).1), round_refused k write mm start end_ v y e n)
  | on v y e a ↦
      let h = found_holds mm start v s e in
      let (r, q) =
        check_areas-returns k write (find_in mm start).1 v.vm_end end_ (find_in-IsSpace mm start s)
          (ground arith) in
      (r, round_on k write mm start end_ v y e a ∙ q)
]

no_true : (a b : Mm) → ◌≡◌ {A = Outcome (Bool × Mm)} (returns (false, a)) (returns (true, b)) → ⊥
no_true a b e = cc

-- An accepted range: every address of it lies in an area with the flag.
pub check_areas-permits :
    (k : ℕ) (write : Bool) (mm mm' : Mm) (start end_ c : ℕ)
    → IsSpace mm
    → check_areas k write mm start end_ ≡ returns (true, mm')
    → start ≤ c
    → c < end_
    → permits write (search_list mm.mmap_list c) ≡ true
unfolding check_areas
check_areas-permits zero write mm mm' start end_ c s e l u = ground arith
check_areas-permits (suc k) write mm mm' start end_ c s e l u =
    elim (round_cases k write mm start end_) [
      | done n ↦ absurd (omega (arith, ltb→le start end_ n))
      | hole y f ↦
          absurd (no_true (find_in mm start).1 mm' (sym (round_hole k write mm start end_ y f) ∙ e))
      | refused v y f n ↦
          absurd (
            no_true (find_in mm start).1 mm'
              (sym (round_refused k write mm start end_ v y f n) ∙ e))
      | on v y f a ↦
          let h = found_holds mm start v s f in
          let rest = sym (round_on k write mm start end_ v y f a) ∙ e in
          elim (Bool-cases (ltb c v.vm_end)) [
            | inl b ↦
                let i =
                  (In-search_list start v mm.mmap_list
                    (sym (find_in-search_list mm start s) ∙ f)).0 in
                let g : search_list mm.mmap_list c ≡ some v =
                  search_list-In 0 c v mm.mmap_list s.areas i (ground arith) in
                rw g (ground arith)
            | inr b ↦ rw (← find_in-mmap_list mm start) (
                check_areas-permits k write (find_in mm start).1 mm' v.vm_end end_ c
                  (find_in-IsSpace mm start s) rest (ground arith) u)
          ]
    ]

hole_denied : (o : Option Vma) → permits false o ≡ true → o ≡ none → ⊥
hole_denied o p e = ground arith

refused_denied :
    (v : Vma) (start : ℕ)
    → permits false (some v) ≡ true
    → holds v start ≡ true
    → allows false v start ≡ false
    → ⊥
refused_denied v start p h n = ground arith

-- A range that lies in readable areas is accepted.
check_areas-accepts :
    (k : ℕ) (mm : Mm) (start end_ : ℕ)
    → IsSpace mm
    → ((c : ℕ) → start ≤ c → c < end_ → permits false (search_list mm.mmap_list c) ≡ true)
    → end_ - start < k
    → (mm' : Mm) × (check_areas k false mm start end_ ≡ returns (true, mm'))
check_areas-accepts zero mm start end_ s all f = absurd (omega arith)
check_areas-accepts (suc k) mm start end_ s all f = elim (round_cases k false mm start end_) [
  | done n ↦ (mm, round_done k false mm start end_ n)
  | hole y e ↦
      let p = all start (omega arith) (ground arith) in
      absurd
        (hole_denied (search_list mm.mmap_list start) p (sym (find_in-search_list mm start s) ∙ e))
  | refused v y e n ↦
      let p = all start (omega arith) (ground arith) in
      let h = found_holds mm start v s e in
      let g : search_list mm.mmap_list start ≡ some v = sym (find_in-search_list mm start s) ∙ e in
      absurd (refused_denied v start (rw g at p) h n)
  | on v y e a ↦
      let h = found_holds mm start v s e in
      let (mm', q) =
        check_areas-accepts k (find_in mm start).1 v.vm_end end_ (find_in-IsSpace mm start s)
          (λ c l u. rw (find_in-mmap_list mm start) (all c (ground arith) u)) (ground arith) in
      (mm', round_on k false mm start end_ v y e a ∙ q)
]

-- With more rounds than the range has bytes, `user_mem_check` of an address space returns.
pub user_mem_check-returns :
    (fuel : ℕ) (mm : Mm) (addr len : ℕ) (write : Bool)
    → IsSpace mm
    → word (addr + len) - addr < fuel
    → (r : Bool × Option Mm) × (user_mem_check fuel (some mm) addr len write ≡ returns r)
unfolding user_mem_check
user_mem_check-returns fuel mm addr len write s f =
    elim (Bool-cases (user_access addr (word (addr + len)))) [
      | inl u ↦
          let (r, e) = check_areas-returns fuel write mm addr (word (addr + len)) s f in
          ((r.0, some r.1), rw (u, e) refl)
      | inr n ↦ ((false, some mm), rw n refl)
    ]

with_some-true :
    (r : Outcome (Bool × Mm)) {o : Option Mm}
    → with_some r ≡ returns (true, o)
    → (mm' : Mm) × (r ≡ returns (true, mm'))
with_some-true (returns (true, m)) e = (m, refl)
with_some-true (returns (false, m)) e = ground arith
with_some-true panics e = ground arith
with_some-true out_of_fuel e = ground arith

pub accepted :
    (fuel : ℕ) (mm : Mm) (addr len : ℕ) (write : Bool) {o : Option Mm}
    → user_mem_check fuel (some mm) addr len write ≡ returns (true, o)
    → (user_access addr (word (addr + len)) ≡ true)
      × ((mm' : Mm) × (check_areas fuel write mm addr (word (addr + len)) ≡ returns (true, mm')))
unfolding user_mem_check
accepted fuel mm addr len write e = elim (Bool-cases (user_access addr (word (addr + len)))) [
  | inl u ↦ (u, with_some-true (check_areas fuel write mm addr (word (addr + len))) (rw u at e))
  | inr n ↦ ground arith
]

-- A range that `user_mem_check` accepts lies in user memory, and each of its addresses in an area
-- with the flag that the access needs.
pub user_mem_check-permits :
    (fuel : ℕ) (mm : Mm) (addr len c : ℕ) (write : Bool) {o : Option Mm}
    → IsSpace mm
    → user_mem_check fuel (some mm) addr len write ≡ returns (true, o)
    → addr ≤ c
    → c < word (addr + len)
    → (user_access addr (word (addr + len)) ≡ true)
      × (permits write (search_list mm.mmap_list c) ≡ true)
user_mem_check-permits fuel mm addr len c write s e l u =
    let a = accepted fuel mm addr len write e in
    (a.0, check_areas-permits fuel write mm a.1.0 addr (word (addr + len)) c s a.1.1 l u)

-- A range of user memory that lies in readable areas may be read.
pub user_mem_check-accepts :
    (fuel : ℕ) (mm : Mm) (addr len : ℕ)
    → IsSpace mm
    → user_access addr (word (addr + len)) ≡ true
    → ((c : ℕ)
        → addr ≤ c
        → c < word (addr + len)
        → permits false (search_list mm.mmap_list c) ≡ true)
    → word (addr + len) - addr < fuel
    → (mm' : Mm) × (user_mem_check fuel (some mm) addr len false ≡ returns (true, some mm'))
unfolding user_mem_check
user_mem_check-accepts fuel mm addr len s a all f =
    let (mm', e) = check_areas-accepts fuel mm addr (word (addr + len)) s all f in
    (mm', rw (a, e) refl)
