-- ===== src/DefaultPmm/Fit.antt =====
-- `default_alloc_pages`: first fit, and what it leaves in the free area.
use nkucore.Prelude.{
  ℕ, zero, suc, ◌+◌, ◌-◌, ◌≤◌, ◌<◌, ◌≡◌, refl, ap, true, false, ◌&&◌, not, List, [], ◌∷◌, ◌++◌,
  Option, none, some, arith, ltb, leb, if◌then◌else◌, All, length, Bool-cases, inl, inr, returns,
}
use nkucore.Ring.{Links, list_next}
use nkucore.Ring.Chain.{Chain}
use nkucore.DefaultPmm.{Page, Area, free_list, find_fit}
use nkucore.DefaultPmm.Blocks.{
  Blocks, nodes, total, Ordered, Heads, within, is_free, total-append, Ordered-weaken,
  Ordered-start,
}

-- The first block of at least `n` pages, by its first page.
abbrev pub first_fit : ℕ → Blocks → Option ℕ
first_fit n [] = none
first_fit n ((p, k) ∷ bs) = if leb n k then some p else first_fit n bs

-- What stays of a block of `k` pages from `p` on when `n` are taken from its front.
abbrev pub rest_of : (p n k : ℕ) → Blocks → Blocks
rest_of p n k bs = if ltb n k then (p + n, k - n) ∷ bs else bs

-- The `next` pointers alone, and the sizes alone, are what the walk reads.
abbrev pub NextChain : Links → ℕ → List ℕ → ℕ → Type 0
NextChain l a [] b = l.next a ≡ b
NextChain l a (x ∷ xs) b = (l.next a ≡ x) × NextChain l x xs b

abbrev pub Sizes : (ℕ → Page) → Blocks → Type 0
Sizes f [] = Unit
Sizes f ((p, k) ∷ bs) = ((f p).property ≡ k) × Sizes f bs

pub Chain-NextChain : (l : Links) (a b : ℕ) (xs : List ℕ) → Chain l a xs b → NextChain l a xs b
Chain-NextChain l a b [] c = c.0
Chain-NextChain l a b (x ∷ xs) c = (c.0, Chain-NextChain l x b xs c.2)

pub Heads-Sizes : (f : ℕ → Page) (bs : Blocks) → Heads f bs → Sizes f bs
Heads-Sizes f [] h = tt
Heads-Sizes f ((p, k) ∷ bs) h = (h.1, Heads-Sizes f bs h.2)

pub find_fit-first_fit :
    (fuel n le : ℕ) (a : Area) (bs : Blocks)
    → NextChain a.links le (nodes bs) free_list
    → Sizes a.page bs
    → length bs < fuel
    → find_fit fuel le n a ≡ returns (first_fit n bs)
unfolding find_fit list_next
find_fit-first_fit zero n le a bs c h f = absurd (omega arith)
find_fit-first_fit (suc fuel) n le a [] c h f = rw c
find_fit-first_fit (suc fuel) n le a ((p, k) ∷ bs) c h f =
    rw (c.0, h.0, find_fit-first_fit fuel n (suc p) a bs c.1 h.1 (omega arith)) (ground arith)

pub find_fit-scan :
    (fuel n le : ℕ) (a : Area) (bs : Blocks)
    → Chain a.links le (nodes bs) free_list
    → Heads a.page bs
    → length bs < fuel
    → find_fit fuel le n a ≡ returns (first_fit n bs)
find_fit-scan fuel n le a bs c h f =
    find_fit-first_fit fuel n le a bs (Chain-NextChain a.links le free_list (nodes bs) c)
      (Heads-Sizes a.page bs h) f

-- Where the first fit stands.
pub first_fit-split :
    (n p : ℕ) (bs : Blocks)
    → first_fit n bs ≡ some p
    → (pre : Blocks) × (k : ℕ) × (post : Blocks) × (bs ≡ pre ++ (p, k) ∷ post)
      × (n ≤ k)
      × (first_fit n pre ≡ none)
first_fit-split n p [] e = ground arith
first_fit-split n p ((q, j) ∷ bs) e = elim (Bool-cases (leb n j)) [
  | inl y ↦ ([], j, bs, ground arith, ground arith, refl)
  | inr m ↦
      let (pre, k, post, s, l, r) = first_fit-split n p bs (ground arith) in
      ((q, j) ∷ pre, k, post, ap (λ t. (q, j) ∷ t) s, l, ground arith)
]

pub first_fit-le-total : (n p : ℕ) (bs : Blocks) → first_fit n bs ≡ some p → n ≤ total bs
first_fit-le-total n p [] e = ground arith
first_fit-le-total n p ((q, j) ∷ bs) e = ground (arith, first_fit-le-total n p bs)

pub Ordered-rest :
    (lo p n k : ℕ) (pre post : Blocks)
    → n ≤ k
    → 0 < n
    → Ordered lo (pre ++ (p, k) ∷ post)
    → Ordered lo (pre ++ rest_of p n k post)
Ordered-rest lo p n k [] post h z o = elim (Bool-cases (ltb n k)) [
  | inl y ↦
      rw y (omega arith, ground arith, let e : p + n + (k - n) ≡ p + k = ground arith in rw e (o.2))
  | inr m ↦ rw m (Ordered-weaken lo (p + k) post (omega arith) o.2)
]
Ordered-rest lo p n k ((q, j) ∷ pre) post h z o =
    (o.0, o.1, Ordered-rest (q + j) p n k pre post h z o.2)

pub total-rest :
    (p n k : ℕ) (pre post : Blocks)
    → n ≤ k
    → total (pre ++ rest_of p n k post) + n ≡ total (pre ++ (p, k) ∷ post)
total-rest p n k pre post h =
    ground (arith, total-append pre (rest_of p n k post), total-append pre ((p, k) ∷ post))

pub is_free-below : (lo c : ℕ) (bs : Blocks) → Ordered lo bs → c < lo → is_free c bs ≡ false
is_free-below lo c [] o h = refl
is_free-below lo c ((p, k) ∷ bs) o h = ground (arith, is_free-below (p + k) c bs)

-- The pages that are free after `n` pages are taken from a block: those before, without the taken.
pub is_free-rest :
    (lo p n k c : ℕ) (pre post : Blocks)
    → n ≤ k
    → Ordered lo (pre ++ (p, k) ∷ post)
    → is_free c (pre ++ rest_of p n k post)
      ≡ (is_free c (pre ++ (p, k) ∷ post) && not (within p n c))
is_free-rest lo p n k c [] post h o = ground (arith, is_free-below (p + k) c post o.2)
is_free-rest lo p n k c ((q, j) ∷ pre) post h o =
    ground
      (arith, is_free-rest (q + j) p n k c pre post h o.2, Ordered-start (q + j) p k pre post o.2)

pub is_free-taken :
    (p n k c : ℕ) (pre post : Blocks)
    → n ≤ k
    → within p n c ≡ true
    → is_free c (pre ++ (p, k) ∷ post) ≡ true
is_free-taken p n k c [] post h w = ground arith
is_free-taken p n k c ((q, j) ∷ pre) post h w = ground (arith, is_free-taken p n k c pre post h w)

pub first_fit-none : (n : ℕ) (bs : Blocks) → All (λ b. b.1 < n) bs → first_fit n bs ≡ none
first_fit-none n [] h = refl
first_fit-none n ((p, k) ∷ bs) h = ground (arith, first_fit-none n bs h.1)
