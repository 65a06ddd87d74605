-- ===== src/DefaultPmm/Free.antt =====
-- `default_free_pages` against the set of free pages.
use nkucore.Prelude.{
  ℕ, ◌+◌, ◌^◌, ◌<◌, ◌≡◌, refl, ◌∙◌, ◌||◌, [], ◌∷◌, ◌++◌, arith, ◌∉◌, length, returns, lt→ltb,
}
use nkucore.Ring.{Links, list_add, list_add_before, list_empty}
use nkucore.Ring.Chain.{IsRing}
use nkucore.Ring.Laws.{list_add-IsRing, list_add_before-IsRing}
use nkucore.DefaultPmm.{
  Page, Area, free_list, page_link, uint, set_head, insert_block, merge_before, merge_after,
  default_free_pages,
}
use nkucore.DefaultPmm.Blocks.{
  Blocks, nodes, total, Ordered, Heads, Represents, within, is_free, nodes-append, total-append,
  Ordered-size, not_has-inside, Heads-insert,
}
use nkucore.DefaultPmm.Insert.{cleared, AllUsed, clear_used-cleared, insert_block_lem}
use nkucore.DefaultPmm.Merge.{merges-Same}

pub Heads-cleared :
    (n base : ℕ) (f : ℕ → Page) (bs : Blocks)
    → AllUsed n base f
    → Heads f bs
    → Heads (cleared n base f) bs
Heads-cleared n base f [] u h = tt
Heads-cleared n base f ((p, k) ∷ bs) u h =
    (ground (arith, u p), ground (arith, u p), Heads-cleared n base f bs u h.2)

is_free-insert :
    (c base n : ℕ) (pre post : Blocks)
    → is_free c (pre ++ (base, n) ∷ post) ≡ (is_free c (pre ++ post) || within base n c)
is_free-insert c base n [] post = ground arith
is_free-insert c base n ((p, k) ∷ pre) post = ground (arith, is_free-insert c base n pre post)

merge_after-nr_free : (base : ℕ) (a : Area) → (merge_after base a).nr_free ≡ a.nr_free
unfolding merge_after
merge_after-nr_free base a = ground arith

merge_before-nr_free : (base : ℕ) (a : Area) → (merge_before base a).1.nr_free ≡ a.nr_free
unfolding merge_before
merge_before-nr_free base a = ground arith

-- The state after a block went back: its pages are free besides those that were.
pub record Freed (a : Area) (bs : Blocks) (base n : ℕ) (b : Area) : Type 0 where
  pub blocks : Blocks
  pub represents : Represents b blocks
  pub now_free : (c : ℕ) → is_free c blocks ≡ (is_free c bs || within base n c)
  pub nr_free_more : b.nr_free ≡ a.nr_free + n

module _ (fuel base n : ℕ) (a : Area) (pre post : Blocks) (r : Represents a (pre ++ post))
    (gap : Ordered 0 (pre ++ (base, n) ∷ post)) (used : AllUsed n base a.page)
    (room : total (pre ++ post) + n < 2 ^ 32) where
  pos : 0 < n
  pos = Ordered-size 0 base n pre post gap

  out : page_link base ∉ nodes (pre ++ post)
  out = not_has-inside 0 base n base pre post gap (omega arith) (omega (arith, pos))

  -- The state between the walk and the merges.
  abbrev placed : Links → Area
  unfolding set_head
  placed l = record {
    page = set_head base n (cleared n base a.page);
    links = l;
    nr_free = uint (a.nr_free + n);
  }

  placed-Represents :
      (l : Links)
      → IsRing l free_list (nodes (pre ++ (base, n) ∷ post))
      → Represents (placed l) (pre ++ (base, n) ∷ post)
  unfolding set_head
  placed-Represents l i = record {
    ring = i;
    heads =
        Heads-insert (cleared n base a.page) base n _ pre post out
          (Heads-cleared n base a.page (pre ++ post) used r.heads) refl (omega (arith, room));
    ordered = gap;
    count =
        omega (arith, r.count, room, total-append pre post, total-append pre ((base, n) ∷ post));
    small = omega (arith, room, total-append pre post, total-append pre ((base, n) ∷ post));
  }

  -- Where the walk puts the block in its place, the call succeeds.
  free_placed :
      (l : Links)
      → insert_block fuel base a.links ≡ returns l
      → IsRing l free_list (nodes (pre ++ (base, n) ∷ post))
      → (b : Area) × (default_free_pages fuel base n a ≡ returns b) × Freed a (pre ++ post) base n b
  unfolding default_free_pages set_head
  free_placed l e i =
      let m = merges-Same (placed l) base n pre post (placed-Represents l i) in
      let joined = merge_before base (placed l) in
      (
        merge_after joined.0 joined.1,
        rw (lt→ltb 0 n pos, clear_used-cleared n base a.page used, e) refl,
        record {
          blocks = m.blocks;
          represents = m.represents;
          now_free = λ c. m.same c ∙ is_free-insert c base n pre post;
          nr_free_more =
              merge_after-nr_free joined.0 joined.1
              ∙ merge_before-nr_free base (placed l)
              ∙ omega (arith, r.count, room);
        },
      )

-- The pages `base` to `base + n - 1` are in use and lie between two neighbouring blocks, the later
-- of which is `(q, j)`, or before the first block. With more rounds than blocks before them,
-- `default_free_pages` succeeds: exactly these pages join the set of free pages, `nr_free` grows by
-- `n`, and the free list stays well formed.
pub free_before_block :
    (fuel base n q j : ℕ) (a : Area) (pre post : Blocks)
    → Represents a (pre ++ (q, j) ∷ post)
    → Ordered 0 (pre ++ (base, n) ∷ (q, j) ∷ post)
    → AllUsed n base a.page
    → total (pre ++ (q, j) ∷ post) + n < 2 ^ 32
    → length pre < fuel
    → (b : Area) × (default_free_pages fuel base n a ≡ returns b)
      × Freed a (pre ++ (q, j) ∷ post) base n b
free_before_block fuel base n q j a pre post r gap used room f =
    let o : page_link base ∉ (nodes pre ++ page_link q ∷ nodes post) =
      rw nodes-append at (out fuel base n a pre ((q, j) ∷ post) r gap used room) in
    free_placed fuel base n a pre ((q, j) ∷ post) r gap used room
      (list_add_before (page_link q) (page_link base) a.links)
      (insert_block_lem fuel base n q j a.links pre post r.ring gap f)
      (rw (nodes-append pre ((base, n) ∷ (q, j) ∷ post)) (
        list_add_before-IsRing a.links free_list (page_link base) (nodes pre)
          (page_link q ∷ nodes post) (rw nodes-append at r.ring) (omega arith) o))

-- Into an empty free list `default_free_pages` puts any block of pages in use.
pub free_into_empty :
    (fuel base n : ℕ) (a : Area)
    → Represents a []
    → 0 < n
    → AllUsed n base a.page
    → n < 2 ^ 32
    → (b : Area) × (default_free_pages fuel base n a ≡ returns b) × Freed a [] base n b
unfolding insert_block list_empty
free_into_empty fuel base n a r z used room =
    free_placed fuel base n a [] [] r (omega arith, z, tt) used (omega arith)
      (list_add free_list (page_link base) a.links) (rw (r.ring.chain.0) refl)
      (list_add-IsRing a.links free_list (page_link base) [] [] r.ring (omega arith) refl)
