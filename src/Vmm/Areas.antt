-- ===== src/Vmm/Areas.antt =====
-- A well-formed address space: areas in order, none empty, none overlapping, the cache one of them.
use nkucore.Prelude.{
  ℕ, ◌≤◌, ◌<◌, ◌≡◌, ◌⊎◌, inl, inr, refl, sym, ◌∙◌, true, Option, none, some, List, [], ◌∷◌, arith,
  length, Bool-cases,
}
use nkucore.Vmm.{Vma, Mm, holds, search_list, cached, set_cache, find_in}

abbrev pub Areas : ℕ → List Vma → Type 0
Areas lo [] = Unit
Areas lo (v ∷ vs) = (lo ≤ v.vm_start) × (v.vm_start < v.vm_end) × Areas v.vm_end vs

abbrev pub In : Vma → List Vma → Type 0
In v [] = ⊥
In v (x ∷ xs) = (v ≡ x) ⊎ In v xs

abbrev pub CacheIn : Option Vma → List Vma → Type 0
CacheIn none vs = Unit
CacheIn (some v) vs = In v vs

pub record IsSpace (mm : Mm) : Type 0 where
  pub areas : Areas 0 mm.mmap_list
  pub cache : CacheIn mm.mmap_cache mm.mmap_list
  pub count : mm.map_count ≡ length mm.mmap_list

pub In-start :
    (lo : ℕ) (v : Vma) (vs : List Vma)
    → Areas lo vs
    → In v vs
    → (lo ≤ v.vm_start) × (v.vm_start < v.vm_end)
In-start lo v [] a i = elim i [ ]
In-start lo v (x ∷ xs) a (inl e) = rw e (a.0, a.1)
In-start lo v (x ∷ xs) a (inr i) =
    let (l, h) = In-start x.vm_end v xs a.2 i in (omega (arith, a.0, a.1), h)

-- An address lies in one area only.
pub search_list-In :
    (lo addr : ℕ) (v : Vma) (vs : List Vma)
    → Areas lo vs
    → In v vs
    → holds v addr ≡ true
    → search_list vs addr ≡ some v
unfolding search_list
search_list-In lo addr v [] a i h = elim i [ ]
search_list-In lo addr v (x ∷ xs) a (inl e) h = ground arith
search_list-In lo addr v (x ∷ xs) a (inr i) h =
    ground (arith, search_list-In x.vm_end addr v xs a.2 i h, In-start x.vm_end v xs a.2 i)

pub In-search_list :
    (addr : ℕ) (v : Vma) (vs : List Vma)
    → search_list vs addr ≡ some v
    → In v vs × (holds v addr ≡ true)
unfolding search_list
In-search_list addr v [] e = ground arith
In-search_list addr v (x ∷ xs) e = elim (Bool-cases (holds x addr)) [
  | inl y ↦ (inl (ground arith), ground arith)
  | inr n ↦ let (i, h) = In-search_list addr v xs (ground arith) in (inr i, h)
]

found_cached :
    (mm : Mm) (addr : ℕ)
    → IsSpace mm
    → cached mm.mmap_cache addr ≡ true
    → mm.mmap_cache ≡ search_list mm.mmap_list addr
found_cached mm addr s h = go mm.mmap_cache refl
  where
    go : (o : Option Vma) → mm.mmap_cache ≡ o → mm.mmap_cache ≡ search_list mm.mmap_list addr
    go none e = ground arith
    go (some v) e =
        e ∙ sym (search_list-In 0 addr v mm.mmap_list s.areas (rw e at s.cache) (rw e at h))

-- `find_vma` finds what a walk over the whole list finds, so the cache is not seen.
pub find_in-search_list :
    (mm : Mm) (addr : ℕ) → IsSpace mm → (find_in mm addr).0 ≡ search_list mm.mmap_list addr
unfolding find_in
find_in-search_list mm addr s = elim (Bool-cases (cached mm.mmap_cache addr)) [
  | inl y ↦ rw y (found_cached mm addr s y)
  | inr n ↦ rw n
]

set_cache-IsSpace :
    (o : Option Vma) (mm : Mm) → IsSpace mm → CacheIn o mm.mmap_list → IsSpace (set_cache o mm)
set_cache-IsSpace none mm s c = s
set_cache-IsSpace (some v) mm s c = record { areas = s.areas; cache = c; count = s.count }

CacheIn-search_list : (addr : ℕ) (vs : List Vma) → CacheIn (search_list vs addr) vs
CacheIn-search_list addr vs = go (search_list vs addr) refl
  where
    go : (o : Option Vma) → search_list vs addr ≡ o → CacheIn o vs
    go none e = tt
    go (some v) e = (In-search_list addr v vs e).0

pub find_in-IsSpace : (mm : Mm) (addr : ℕ) → IsSpace mm → IsSpace (find_in mm addr).1
unfolding find_in
find_in-IsSpace mm addr s =
    set_cache-IsSpace (find_in mm addr).0 mm s
      (rw (find_in-search_list mm addr s) (CacheIn-search_list addr mm.mmap_list))

pub set_cache-mmap_list : (o : Option Vma) (mm : Mm) → (set_cache o mm).mmap_list ≡ mm.mmap_list
set_cache-mmap_list none mm = refl
set_cache-mmap_list (some v) mm = refl

pub find_in-mmap_list : (mm : Mm) (addr : ℕ) → (find_in mm addr).1.mmap_list ≡ mm.mmap_list
unfolding find_in
find_in-mmap_list mm addr = set_cache-mmap_list (find_in mm addr).0 mm

pub set_cache-map_count : (o : Option Vma) (mm : Mm) → (set_cache o mm).map_count ≡ mm.map_count
set_cache-map_count none mm = refl
set_cache-map_count (some v) mm = refl

-- What an address should be looked up to: an area around it, or NULL where there is none.
abbrev pub IsFound : List Vma → (addr : ℕ) → Option Vma → Type 0
IsFound vs addr none = (v : Vma) → In v vs → (addr < v.vm_start) ⊎ (v.vm_end ≤ addr)
IsFound vs addr (some v) = In v vs × (v.vm_start ≤ addr) × (addr < v.vm_end)

IsFound-cons :
    (x : Vma) (vs : List Vma) (addr : ℕ) (o : Option Vma)
    → (addr < x.vm_start) ⊎ (x.vm_end ≤ addr)
    → IsFound vs addr o
    → IsFound (x ∷ vs) addr o
IsFound-cons x vs addr none out f = λ v i. elim i [ inl e ↦ rw e out | inr j ↦ f v j ]
IsFound-cons x vs addr (some v) out f = (inr f.0, f.1, f.2)

search_list-IsFound : (addr : ℕ) (vs : List Vma) → IsFound vs addr (search_list vs addr)
unfolding search_list
search_list-IsFound addr [] = λ v i. elim i [ ]
search_list-IsFound addr (x ∷ xs) = elim (Bool-cases (holds x addr)) [
  | inl y ↦ rw y (inl refl, ground (arith, y), ground (arith, y))
  | inr n ↦ rw n (
      IsFound-cons x xs addr (search_list xs addr) (grind (arith, n)) (search_list-IsFound addr xs))
]

-- In a well-formed space `find_vma` returns an area around the address, vm_start <= addr < vm_end,
-- or NULL where no area lies around it, whatever the cache is; the areas stay as they are and the
-- space well formed.
pub find_in_lem :
    (mm : Mm) (addr : ℕ)
    → IsSpace mm
    → IsFound mm.mmap_list addr (find_in mm addr).0
      × IsSpace (find_in mm addr).1
      × ((find_in mm addr).1.mmap_list ≡ mm.mmap_list)
find_in_lem mm addr s = (
  rw (find_in-search_list mm addr s) (search_list-IsFound addr mm.mmap_list),
  find_in-IsSpace mm addr s,
  find_in-mmap_list mm addr,
)
