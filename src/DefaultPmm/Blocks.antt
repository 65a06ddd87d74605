-- ===== src/DefaultPmm/Blocks.antt =====
-- The free list of kern/mm/default_pmm.c seen as blocks of pages, and as a set of pages.
use nkucore.Prelude.{
  ℕ, suc, ◌+◌, ◌^◌, ◌≤◌, ◌<◌, ◌≡◌, refl, ap, ◌∙◌, update-same, Bool, true, false, ◌&&◌, ◌||◌, List,
  [], ◌∷◌, ◌++◌, arith, ltb, leb, ◌∉◌, update, length,
}
use nkucore.Ring.Chain.{IsRing}
use nkucore.DefaultPmm.{Page, Area, free_list, page_link}

-- A block: its first page and its number of pages.
abbrev pub Blocks : Type 0
Blocks = List (ℕ × ℕ)

abbrev pub nodes : Blocks → List ℕ
nodes [] = []
nodes ((p, k) ∷ bs) = page_link p ∷ nodes bs

abbrev pub total : Blocks → ℕ
total [] = 0
total ((p, k) ∷ bs) = k + total bs

-- In ascending order from `lo` on, no block empty, no two overlapping.
abbrev pub Ordered : ℕ → Blocks → Type 0
Ordered lo [] = Unit
Ordered lo ((p, k) ∷ bs) = (lo ≤ p) × (0 < k) × Ordered (p + k) bs

-- The first page of each block carries the block's size and the mark `PG_property`.
abbrev pub Heads : (ℕ → Page) → Blocks → Type 0
Heads f [] = Unit
Heads f ((p, k) ∷ bs) = ((f p).free_head ≡ true) × ((f p).property ≡ k) × Heads f bs

-- The free area holds exactly these blocks.
pub record Represents (a : Area) (bs : Blocks) : Type 0 where
  pub ring : IsRing a.links free_list (nodes bs)
  pub heads : Heads a.page bs
  pub ordered : Ordered 0 bs
  pub count : a.nr_free ≡ total bs
  pub small : total bs < 2 ^ 32

-- Page `c` lies in the `k` pages from `p` on; in one of the blocks.
abbrev pub within : ℕ → ℕ → ℕ → Bool
within p k c = leb p c && ltb c (p + k)

abbrev pub is_free : ℕ → Blocks → Bool
is_free c [] = false
is_free c ((p, k) ∷ bs) = within p k c || is_free c bs

pub nodes-append : (bs cs : Blocks) → nodes (bs ++ cs) ≡ nodes bs ++ nodes cs
nodes-append [] cs = refl
nodes-append ((p, k) ∷ bs) cs = ap (λ t. page_link p ∷ t) (nodes-append bs cs)

pub length-nodes : (bs : Blocks) → length (nodes bs) ≡ length bs
length-nodes [] = refl
length-nodes ((p, k) ∷ bs) = ap suc (length-nodes bs)

pub total-append : (bs cs : Blocks) → total (bs ++ cs) ≡ total bs + total cs
total-append [] cs = omega arith
total-append ((p, k) ∷ bs) cs = omega (arith, total-append bs cs)

pub Ordered-weaken : (lo hi : ℕ) (bs : Blocks) → lo ≤ hi → Ordered hi bs → Ordered lo bs
Ordered-weaken lo hi [] h o = tt
Ordered-weaken lo hi ((p, k) ∷ bs) h (o, q, r) = (omega arith, q, r)

pub Ordered-start : (lo p k : ℕ) (pre post : Blocks) → Ordered lo (pre ++ (p, k) ∷ post) → lo ≤ p
Ordered-start lo p k [] post o = o.0
Ordered-start lo p k ((q, j) ∷ pre) post o =
    omega (arith, o.0, Ordered-start (q + j) p k pre post o.2)

pub Ordered-size : (lo p k : ℕ) (pre post : Blocks) → Ordered lo (pre ++ (p, k) ∷ post) → 0 < k
Ordered-size lo p k [] post o = o.1
Ordered-size lo p k ((q, j) ∷ pre) post o = Ordered-size (q + j) p k pre post o.2

-- No block starts below the bound.
pub not_has-below : (lo c : ℕ) (bs : Blocks) → Ordered lo bs → c < lo → suc c ∉ nodes bs
not_has-below lo c [] o h = refl
not_has-below lo c ((p, k) ∷ bs) o h = ground (arith, not_has-below (p + k) c bs)

-- No other block starts inside a block.
pub not_has-inside :
    (lo p k c : ℕ) (pre post : Blocks)
    → Ordered lo (pre ++ (p, k) ∷ post)
    → p ≤ c
    → c < p + k
    → suc c ∉ nodes (pre ++ post)
not_has-inside lo p k c [] post o h g = not_has-below (p + k) c post o.2 g
not_has-inside lo p k c ((q, j) ∷ pre) post o h g =
    ground
      (arith, not_has-inside (q + j) p k c pre post o.2 h g, Ordered-start (q + j) p k pre post o.2)

pub Heads-update :
    (f : ℕ → Page) (c : ℕ) (v : Page) (bs : Blocks)
    → suc c ∉ nodes bs
    → Heads f bs
    → Heads (update f c v) bs
Heads-update f c v [] n h = tt
Heads-update f c v ((p, k) ∷ bs) n h =
    (ground arith, ground arith, Heads-update f c v bs (ground arith) h.2)

pub Heads-append : (f : ℕ → Page) (bs cs : Blocks) → Heads f bs → Heads f cs → Heads f (bs ++ cs)
Heads-append f [] cs h g = g
Heads-append f ((p, k) ∷ bs) cs h g = (h.0, h.1, Heads-append f bs cs h.2 g)

pub Heads-left : (f : ℕ → Page) (bs cs : Blocks) → Heads f (bs ++ cs) → Heads f bs
Heads-left f [] cs h = tt
Heads-left f ((p, k) ∷ bs) cs h = (h.0, h.1, Heads-left f bs cs h.2)

pub Heads-right : (f : ℕ → Page) (bs cs : Blocks) → Heads f (bs ++ cs) → Heads f cs
Heads-right f [] cs h = h
Heads-right f ((p, k) ∷ bs) cs h = Heads-right f bs cs h.2

-- A block put between two others, its first page written.
pub Heads-insert :
    (f : ℕ → Page) (c j : ℕ) (v : Page) (pre post : Blocks)
    → suc c ∉ nodes (pre ++ post)
    → Heads f (pre ++ post)
    → v.free_head ≡ true
    → v.property ≡ j
    → Heads (update f c v) (pre ++ (c, j) ∷ post)
Heads-insert f c j v [] post n h t e = (ground arith, ground arith, Heads-update f c v post n h)
Heads-insert f c j v ((p, k) ∷ pre) post n h t e =
    (ground arith, ground arith, Heads-insert f c j v pre post (ground arith) h.2 t e)

pub length-le-total : (lo : ℕ) (bs : Blocks) → Ordered lo bs → length bs ≤ total bs
length-le-total lo [] o = omega arith
length-le-total lo ((p, k) ∷ bs) o = omega (arith, o.1, length-le-total (p + k) bs o.2)

-- Only the marks and the sizes of the pages matter to the free list.
pub Heads-same :
    (f g : ℕ → Page) (bs : Blocks)
    → ((q : ℕ) → (g q).free_head ≡ (f q).free_head)
    → ((q : ℕ) → (g q).property ≡ (f q).property)
    → Heads f bs
    → Heads g bs
Heads-same f g [] h e x = tt
Heads-same f g ((p, k) ∷ bs) h e x = (h p ∙ x.0, e p ∙ x.1, Heads-same f g bs h e x.2)

pub Represents-ref :
    (a : Area) (bs : Blocks) (p v : ℕ)
    → Represents a bs
    → Represents (record a { page = update a.page p (record (a.page p) { ref = v }) }) bs
Represents-ref a bs p v r = record {
  ring = r.ring;
  heads =
      Heads-same a.page (update a.page p (record (a.page p) { ref = v })) bs
        (λ q. update-same Page.free_head a.page p (record (a.page p) { ref = v }) refl q)
        (λ q. update-same Page.property a.page p (record (a.page p) { ref = v }) refl q) r.heads;
  ordered = r.ordered;
  count = r.count;
  small = r.small;
}
