-- ===== src/Vmm/Insert.antt =====
-- `insert_vma_struct`: where an area goes, and when the overlap checks stop the kernel.
use nkucore.Prelude.{
  ℕ, ◌+◌, ◌≤◌, ◌<◌, ◌≡◌, ◌⊎◌, inl, inr, refl, ap, Bool, true, false, Option, none, some, List, [],
  ◌∷◌, ◌++◌, arith, ltb, leb, if◌then◌else◌, length, All, Bool-cases, Outcome, returns, panics,
  ◌>>◌, assert, lt→ltb,
}
use nkucore.Vmm.{
  Vma, Mm, holds, search_list, areas_before, areas_after, check_prev, check_next, check_vma_overlap,
  insert_vma_struct,
}
use nkucore.Vmm.Areas.{Areas, In, CacheIn, IsSpace, In-start}

-- No area of the list shares an address with `v`.
abbrev pub Apart : Vma → List Vma → Type 0
Apart v vs = All (λ x. (x.vm_end ≤ v.vm_start) ⊎ (v.vm_end ≤ x.vm_start)) vs

abbrev inserted : Vma → List Vma → List Vma
inserted v vs = areas_before v vs ++ v ∷ areas_after v vs

check_prev-Apart :
    (lo : ℕ) (v : Vma) (vs : List Vma)
    → Areas lo vs
    → v.vm_start < v.vm_end
    → Apart v vs
    → check_prev (areas_before v vs) v ≡ returns tt
unfolding check_prev areas_before
check_prev-Apart lo v [] a p o = refl
check_prev-Apart lo v (x ∷ []) a p o = ground arith
check_prev-Apart lo v (x ∷ y ∷ ys) a p o =
    ground (arith, check_prev-Apart x.vm_end v (y ∷ ys) a.2 p o.1)

check_next-Apart :
    (lo : ℕ) (v : Vma) (vs : List Vma)
    → Areas lo vs
    → v.vm_start < v.vm_end
    → Apart v vs
    → check_next v (areas_after v vs) ≡ returns tt
unfolding check_next areas_after
check_next-Apart lo v [] a p o = refl
check_next-Apart lo v (x ∷ xs) a p o = ground (arith, check_next-Apart x.vm_end v xs a.2 p o.1)

Areas-inserted :
    (lo : ℕ) (v : Vma) (vs : List Vma)
    → Areas lo vs
    → lo ≤ v.vm_start
    → v.vm_start < v.vm_end
    → Apart v vs
    → Areas lo (inserted v vs)
unfolding areas_before areas_after
Areas-inserted lo v [] a l p o = (l, p, tt)
Areas-inserted lo v (x ∷ xs) a l p o = elim (Bool-cases (ltb v.vm_start x.vm_start)) [
  | inl y ↦ rw y (l, p, (ground arith, a.1, a.2))
  | inr n ↦ rw n (a.0, a.1, Areas-inserted x.vm_end v xs a.2 (ground arith) p o.1)
]

length-inserted : (v : Vma) (vs : List Vma) → length (inserted v vs) ≡ length vs + 1
unfolding areas_before areas_after
length-inserted v [] = omega arith
length-inserted v (x ∷ xs) = ground (arith, length-inserted v xs)

In-inserted : (u v : Vma) (vs : List Vma) → In u vs → In u (inserted v vs)
unfolding areas_before areas_after
In-inserted u v [] i = elim i [ ]
In-inserted u v (x ∷ xs) i = elim (Bool-cases (ltb v.vm_start x.vm_start)) [
  | inl y ↦ rw y (inr i)
  | inr n ↦ rw n (elim i [ inl e ↦ inl e | inr j ↦ inr (In-inserted u v xs j) ])
]

CacheIn-inserted :
    (c : Option Vma) (v : Vma) (vs : List Vma) → CacheIn c vs → CacheIn c (inserted v vs)
CacheIn-inserted none v vs i = tt
CacheIn-inserted (some u) v vs i = In-inserted u v vs i

search_list-inserted :
    (addr : ℕ) (v : Vma) (vs : List Vma)
    → Apart v vs
    → search_list (inserted v vs) addr ≡ (if holds v addr then some v else search_list vs addr)
unfolding search_list areas_before areas_after
search_list-inserted addr v [] o = refl
search_list-inserted addr v (x ∷ xs) o = ground (arith, search_list-inserted addr v xs o.1)

-- The space after an area went in.
abbrev pub with_area : Vma → Mm → Mm
unfolding areas_before areas_after
with_area v mm = record mm { mmap_list = inserted v mm.mmap_list; map_count = mm.map_count + 1 }

with_area-IsSpace :
    (v : Vma) (mm : Mm)
    → IsSpace mm
    → v.vm_start < v.vm_end
    → Apart v mm.mmap_list
    → IsSpace (with_area v mm)
unfolding with_area areas_before areas_after
with_area-IsSpace v mm s p o = record {
  areas = Areas-inserted 0 v mm.mmap_list s.areas (omega arith) p o;
  cache = CacheIn-inserted mm.mmap_cache v mm.mmap_list s.cache;
  count = omega (arith, s.count, length-inserted v mm.mmap_list);
}

-- An area that is not empty and shares no address with another goes in: the space stays well
-- formed, `map_count` grows by 1, and an address is looked up to the new area if that holds it, and
-- as before otherwise.
pub insert_vma_struct-Apart :
    (v : Vma) (mm : Mm)
    → IsSpace mm
    → v.vm_start < v.vm_end
    → Apart v mm.mmap_list
    → (mm' : Mm) × (insert_vma_struct mm v ≡ returns mm')
      × IsSpace mm'
      × (mm'.map_count ≡ mm.map_count + 1)
      × ((addr : ℕ)
          → search_list mm'.mmap_list addr
            ≡ (if holds v addr then some v else search_list mm.mmap_list addr))
unfolding insert_vma_struct with_area
insert_vma_struct-Apart v mm s p o = (
  with_area v mm,
  rw
      (
        lt→ltb _ _ p,
        check_prev-Apart 0 v mm.mmap_list s.areas p o,
        check_next-Apart 0 v mm.mmap_list s.areas p o,
      )
      refl,
  with_area-IsSpace v mm s p o,
  refl,
  λ addr. search_list-inserted addr v mm.mmap_list o,
)

check_prev-cons :
    (y v : Vma) (bs : List Vma) → check_prev bs v ≡ panics → check_prev (y ∷ bs) v ≡ panics
unfolding check_prev
check_prev-cons y v [] e = ground arith
check_prev-cons y v (z ∷ zs) e = e

In-first :
    (lo : ℕ) (x y : Vma) (ys : List Vma)
    → Areas lo (y ∷ ys)
    → In x (y ∷ ys)
    → y.vm_start ≤ x.vm_start
In-first lo x y ys a (inl e) = rw e (omega arith)
In-first lo x y ys a (inr j) = omega (arith, a.1, (In-start y.vm_end x ys a.2 j).0)

check_prev-last :
    (v y : Vma) (zs : List Vma)
    → v.vm_start < y.vm_end
    → Areas y.vm_end zs
    → check_prev (y ∷ areas_before v zs) v ≡ panics
unfolding check_prev areas_before
check_prev-last v y [] q b = ground arith
check_prev-last v y (z ∷ zs) q b = ground arith

asserts :
    (a b c : Bool)
    → ((assert a >> (assert b >> assert c)) ≡ returns tt)
      ⊎ ((assert a >> (assert b >> assert c)) ≡ panics)
asserts false b c = inr refl
asserts true false c = inr refl
asserts true true false = inr refl
asserts true true true = inl refl

-- A failed check stops the kernel, whatever another check says that returns or stops.
panics_behind :
    (o : Outcome (Unit {0})) (k : Outcome Mm)
    → (o ≡ returns tt) ⊎ (o ≡ panics)
    → k ≡ panics
    → (o >> k) ≡ panics
panics_behind o k (inl e) f = rw (e, f)
panics_behind o k (inr e) f = rw e

check_prev-returns :
    (bs : List Vma) (v : Vma) → (check_prev bs v ≡ returns tt) ⊎ (check_prev bs v ≡ panics)
unfolding check_prev check_vma_overlap
check_prev-returns [] v = inl refl
check_prev-returns (x ∷ []) v =
    asserts (ltb x.vm_start x.vm_end) (leb x.vm_end v.vm_start) (ltb v.vm_start v.vm_end)
check_prev-returns (x ∷ y ∷ ys) v = check_prev-returns (y ∷ ys) v

checks-overlap :
    (lo : ℕ) (v x : Vma) (vs : List Vma)
    → Areas lo vs
    → In x vs
    → x.vm_start < v.vm_end
    → v.vm_start < x.vm_end
    → (check_prev (areas_before v vs) v ≡ panics) ⊎ (check_next v (areas_after v vs) ≡ panics)
unfolding check_next areas_before areas_after
checks-overlap lo v x [] a i p q = elim i [ ]
checks-overlap lo v x (y ∷ ys) a i p q = elim (Bool-cases (ltb v.vm_start y.vm_start)) [
  | inl t ↦ rw t (inr (ground (arith, In-first lo x y ys a i)))
  | inr n ↦ rw n (elim i [
    | inl e ↦ inl (check_prev-last v y ys (rw (ap (λ (t : Vma). t.vm_end) e) at q) a.2)
    | inr j ↦ elim (checks-overlap y.vm_end v x ys a.2 j p q) [
      | inl u ↦ inl (check_prev-cons y v (areas_before v ys) u)
      | inr w ↦ inr w
    ]
  ])
]

-- An area that is not empty and shares an address with one of a well-formed space stops the kernel.
pub insert_vma_struct-overlap :
    (v x : Vma) (mm : Mm)
    → IsSpace mm
    → v.vm_start < v.vm_end
    → In x mm.mmap_list
    → x.vm_start < v.vm_end
    → v.vm_start < x.vm_end
    → insert_vma_struct mm v ≡ panics
unfolding insert_vma_struct
insert_vma_struct-overlap v x mm s p i l r =
    elim (checks-overlap 0 v x mm.mmap_list s.areas i l r) [
      | inl e ↦ rw (lt→ltb _ _ p, e) refl
      | inr e ↦
          rw (lt→ltb _ _ p, e)
            (panics_behind (check_prev (areas_before v mm.mmap_list) v) panics
              (check_prev-returns (areas_before v mm.mmap_list) v) refl)
    ]
