-- ===== src/DefaultPmm/Twice.antt =====
-- What the self-linked last block leads to: the same pages are handed out twice.
use nkucore.Prelude.{
  ℕ, suc, ◌+◌, ◌-◌, ◌^◌, ◌≤◌, ◌<◌, ◌≡◌, refl, ap, ◌∙◌, [], ◌∷◌, ◌++◌, some, arith, ◌∉◌, update, All,
  length, length-append, returns, lt→ltb, le→ltb,
}
use mathlib.Core.List.{append_assoc, append-nil}
use nkucore.Ring.{Links, list_next, list_prev, list_del, list_add}
use nkucore.Ring.Chain.{IsRing}
use nkucore.Ring.Laws.{not_has-insert, Distinct-insert}
use nkucore.DefaultPmm.{
  Page, Area, free_list, page_link, clear_head, uint, set_head, merge_before, merge_after,
  default_free_pages, default_alloc_pages, take_from,
}
use nkucore.DefaultPmm.Blocks.{
  Ordered-size, Blocks, nodes, total, Ordered, Represents, nodes-append, not_has-inside,
}
use nkucore.DefaultPmm.Fit.{
  NextChain, Sizes, find_fit-first_fit, first_fit, Chain-NextChain, Heads-Sizes,
}
use nkucore.DefaultPmm.Insert.{cleared, AllUsed, clear_used-cleared}
use nkucore.DefaultPmm.Merge.{merge_before-apart}
use nkucore.DefaultPmm.Free.{Heads-cleared}
use nkucore.DefaultPmm.Tail.{
  tail_links, NextChain-last, insert_block-tail, NextChain-tail, NextChain-frame, NextChain-append,
}

first_fit-behind :
    (m p k : ℕ) (bs cs : Blocks)
    → All (λ b. b.1 < m) bs
    → m ≤ k
    → first_fit m (bs ++ (p, k) ∷ cs) ≡ some p
first_fit-behind m p k [] cs s h = ground arith
first_fit-behind m p k ((q, j) ∷ bs) cs s h = ground (arith, first_fit-behind m p k bs cs s.1 h)

Sizes-update :
    (f : ℕ → Page) (c : ℕ) (v : Page) (bs : Blocks)
    → suc c ∉ nodes bs
    → Sizes f bs
    → Sizes (update f c v) bs
Sizes-update f c v [] n h = tt
Sizes-update f c v ((p, k) ∷ bs) n h = (ground arith, Sizes-update f c v bs (ground arith) h.1)

-- The same sizes with another entry at the end.
Sizes-append :
    (f : ℕ → Page) (c k : ℕ) (bs : Blocks)
    → Sizes f bs
    → (f c).property ≡ k
    → Sizes f (bs ++ (c, k) ∷ [])
Sizes-append f c k [] h e = (e, tt)
Sizes-append f c k ((p, j) ∷ bs) h e = (h.0, Sizes-append f c k bs h.1 e)

Sizes-same :
    (f g : ℕ → Page) (bs : Blocks)
    → ((c : ℕ) → (g c).property ≡ (f c).property)
    → Sizes f bs
    → Sizes g bs
Sizes-same f g [] e h = tt
Sizes-same f g ((p, k) ∷ bs) e h = (e p ∙ h.0, Sizes-same f g bs e h.1)

next-list_del_self : (l : Links) (p c : ℕ) → l.prev p ≡ p → (list_del p l).next c ≡ l.next c
unfolding list_del
next-list_del_self l p c e = ground arith

module _ (fuel base n q j m : ℕ) (a : Area) (pre : Blocks) (r : Represents a (pre ++ (q, j) ∷ []))
    (behind : Ordered 0 (pre ++ (q, j) ∷ (base, n) ∷ [])) (used : AllUsed n base a.page)
    (room : total (pre ++ (q, j) ∷ []) + n < 2 ^ 32) (rounds : length pre + 3 < fuel) where
  pub after_free : Area
  unfolding set_head
  after_free = record {
    page = set_head base n (cleared n base a.page);
    links = tail_links q base a.links;
    nr_free = uint (a.nr_free + n);
  }

  ring : IsRing a.links free_list (nodes pre ++ page_link q ∷ [])
  ring = rw (nodes-append pre ((q, j) ∷ [])) at r.ring

  gap : Ordered 0 ((pre ++ (q, j) ∷ []) ++ (base, n) ∷ [])
  gap = rw (append_assoc pre ((q, j) ∷ []) ((base, n) ∷ [])) behind

  pos : 0 < n
  pos = Ordered-size 0 base n (pre ++ (q, j) ∷ []) [] gap

  fresh : (c : ℕ) → base ≤ c → c < base + n → page_link c ∉ nodes (pre ++ (q, j) ∷ [])
  fresh c l u =
      rw (append-nil (pre ++ (q, j) ∷ [])) at
        (not_has-inside 0 base n c (pre ++ (q, j) ∷ []) [] gap l u)

  fresh_node : (c : ℕ) → base ≤ c → c < base + n → page_link c ∉ (nodes pre ++ page_link q ∷ [])
  fresh_node c l u = rw (nodes-append pre ((q, j) ∷ [])) at (fresh c l u)

  linked_to_self : after_free.links.prev (page_link base) ≡ page_link base
  unfolding after_free list_add
  linked_to_self = ground arith

  links_chain :
      NextChain after_free.links free_list
        (nodes pre ++ page_link q ∷ page_link base ∷ [])
        free_list
  unfolding after_free
  links_chain =
      NextChain-tail a.links free_list (page_link q) base (nodes pre)
        (Chain-NextChain a.links free_list free_list _ ring.chain) ring.apart ring.distinct
        (omega arith) (fresh_node base (omega arith) (omega (arith, pos)))

  chain : NextChain after_free.links free_list (nodes (pre ++ (q, j) ∷ (base, n) ∷ [])) free_list
  chain = rw (nodes-append pre ((q, j) ∷ (base, n) ∷ [])) links_chain

  last_next : after_free.links.next (page_link base) ≡ free_list
  last_next =
      NextChain-last after_free.links free_list free_list (page_link base)
        (nodes pre ++ page_link q ∷ [])
        (rw (append_assoc (nodes pre) (page_link q ∷ []) (page_link base ∷ [])) links_chain)

  base_size : (after_free.page base).property ≡ n
  unfolding after_free set_head
  base_size = ground (arith, room)

  Sizes-others : Sizes after_free.page (pre ++ (q, j) ∷ [])
  unfolding after_free set_head
  Sizes-others =
      let h = Heads-cleared n base a.page (pre ++ (q, j) ∷ []) used r.heads in
      Sizes-update (cleared n base a.page) base _ (pre ++ (q, j) ∷ [])
        (fresh base (omega arith) (omega (arith, pos)))
        (Heads-Sizes (cleared n base a.page) (pre ++ (q, j) ∷ []) h)

  sizes : Sizes after_free.page (pre ++ (q, j) ∷ (base, n) ∷ [])
  sizes =
      rw (append_assoc pre ((q, j) ∷ []) ((base, n) ∷ [])) at
        (Sizes-append after_free.page base n (pre ++ (q, j) ∷ []) Sizes-others base_size)

  no_merge_after : merge_after base after_free ≡ after_free
  unfolding merge_after list_next
  no_merge_after = rw last_next

  no_merge :
      merge_after (merge_before base after_free).0 (merge_before base after_free).1 ≡ after_free
  no_merge =
      rw (merge_before-apart after_free base base linked_to_self (omega (arith, base_size, pos)))
        no_merge_after

  freed : default_free_pages fuel base n a ≡ returns after_free
  unfolding default_free_pages after_free
  freed =
      let walk =
        insert_block-tail fuel base n q j a.links pre
          (Chain-NextChain a.links free_list free_list _ r.ring.chain) behind (omega arith) in
      rw (lt→ltb 0 n pos, clear_used-cleared n base a.page used, walk) (ap returns no_merge)

  nr_after : after_free.nr_free ≡ total (pre ++ (q, j) ∷ []) + n
  unfolding after_free
  nr_after = omega (arith, r.count, room)

  module _ (z : 0 < m) (smaller : All (λ b. b.1 < m) (pre ++ (q, j) ∷ [])) (larger : m < n) where
    fit : (cs : Blocks) → first_fit m (pre ++ (q, j) ∷ (base, n) ∷ cs) ≡ some base
    fit cs =
        rw (append_assoc pre ((q, j) ∷ []) ((base, n) ∷ cs)) at
          (first_fit-behind m base n (pre ++ (q, j) ∷ []) cs smaller (omega arith))

    once : Area
    once = take_from base m after_free

    first : default_alloc_pages fuel m after_free ≡ returns (some base, once)
    unfolding default_alloc_pages once
    first =
        let scan =
          find_fit-first_fit fuel m free_list after_free (pre ++ (q, j) ∷ (base, n) ∷ []) chain
            sizes (omega (arith, length-append {0} pre ((q, j) ∷ (base, n) ∷ []))) in
        rw (lt→ltb 0 m z, le→ltb after_free.nr_free m (omega (arith, nr_after)), scan, fit []) refl

    once_links :
        once.links
        ≡ list_add
            (page_link base)
            (page_link (base + m))
            (list_del (page_link base) after_free.links)
    unfolding once take_from list_prev
    once_links = rw (base_size, lt→ltb m n larger, linked_to_self)

    once_base : (once.page base).property ≡ n
    unfolding once take_from clear_head
    once_base = rw (base_size, lt→ltb m n larger) (ground (arith, base_size))

    once_rest : (once.page (base + m)).property ≡ n - m
    unfolding once take_from clear_head
    once_rest = rw (base_size, lt→ltb m n larger) (ground (arith, room))

    once_others : Sizes once.page (pre ++ (q, j) ∷ [])
    unfolding once take_from clear_head
    once_others =
        rw (base_size, lt→ltb m n larger)
          (Sizes-update _ base _ (pre ++ (q, j) ∷ []) (fresh base (omega arith) (omega arith)) (
            Sizes-update after_free.page (base + m) _ (pre ++ (q, j) ∷ [])
              (fresh (base + m) (omega arith) (omega arith)) Sizes-others))

    once_chain :
        NextChain once.links free_list
          (nodes (pre ++ (q, j) ∷ (base, n) ∷ (base + m, n - m) ∷ []))
          free_list
    once_chain =
        let xs = nodes pre ++ page_link q ∷ [] in
        let l = list_del (page_link base) after_free.links in
        let c : NextChain after_free.links free_list (xs ++ page_link base ∷ []) free_list =
          rw (append_assoc (nodes pre) (page_link q ∷ []) (page_link base ∷ [])) links_chain in
        let c' =
          NextChain-frame after_free.links l free_list free_list (xs ++ page_link base ∷ []) c
            (next-list_del_self after_free.links (page_link base) free_list linked_to_self)
            (λ d i. next-list_del_self after_free.links (page_link base) d linked_to_self) in
        let o = fresh_node base (omega arith) (omega arith) in
        let e = fresh_node (base + m) (omega arith) (omega arith) in
        let t =
          NextChain-append l free_list (page_link base) (page_link (base + m)) xs c'
            (not_has-insert free_list (page_link base) xs [] (omega arith)
              (rw (append-nil xs) ring.apart))
            (Distinct-insert (page_link base) xs [] (rw (append-nil xs) ring.distinct)
              (rw (append-nil xs) o))
            (omega arith)
            (not_has-insert (page_link (base + m)) (page_link base) xs [] (omega arith)
              (rw (append-nil xs) e)) in
        rw (once_links, nodes-append)
          (rw
            (append_assoc (nodes pre) (page_link q ∷ [])
              (page_link base ∷ page_link (base + m) ∷ []))
            at t)

    once-Sizes : Sizes once.page (pre ++ (q, j) ∷ (base, n) ∷ (base + m, n - m) ∷ [])
    once-Sizes = simp append_assoc at (
        Sizes-append once.page (base + m) (n - m) ((pre ++ (q, j) ∷ []) ++ (base, n) ∷ [])
          (Sizes-append once.page base n (pre ++ (q, j) ∷ []) once_others once_base) once_rest)

    once_nr : once.nr_free ≡ after_free.nr_free - m
    unfolding once take_from
    once_nr = ground arith

    second :
        m + m ≤ total (pre ++ (q, j) ∷ []) + n
        → default_alloc_pages fuel m once ≡ returns (some base, take_from base m once)
    unfolding default_alloc_pages
    second enough =
        let scan =
          find_fit-first_fit fuel m free_list once
            (pre ++ (q, j) ∷ (base, n) ∷ (base + m, n - m) ∷ []) once_chain once-Sizes
            (omega (arith, length-append {0} pre ((q, j) ∷ (base, n) ∷ (base + m, n - m) ∷ []))) in
        rw
          (
            lt→ltb 0 m z,
            le→ltb once.nr_free m (omega (arith, nr_after, once_nr)),
            scan,
            fit ((base + m, n - m) ∷ []),
          )
          refl

-- A block of `n` pages in use, from `base` on, that lies behind the last block of the free list is
-- appended by `default_free_pages` in such a way that its `prev` pointer leads to itself. If every
-- other block has fewer than `m` pages, `m < n`, and there are at least `2 * m` free pages with the
-- new block, then two calls of `default_alloc_pages` for `m` pages, with nothing freed between them,
-- both return `base`. The free area is well formed and has fewer than 2^32 pages.
pub alloc_same_page_twice :
    (fuel base n q j m : ℕ) (a : Area) (pre : Blocks)
    → Represents a (pre ++ (q, j) ∷ [])
    → Ordered 0 (pre ++ (q, j) ∷ (base, n) ∷ [])
    → AllUsed n base a.page
    → total (pre ++ (q, j) ∷ []) + n < 2 ^ 32
    → length pre + 3 < fuel
    → 0 < m
    → m < n
    → All (λ b. b.1 < m) (pre ++ (q, j) ∷ [])
    → m + m ≤ total (pre ++ (q, j) ∷ []) + n
    → (b c d : Area) × (default_free_pages fuel base n a ≡ returns b)
      × (b.links.prev (page_link base) ≡ page_link base)
      × (default_alloc_pages fuel m b ≡ returns (some base, c))
      × (default_alloc_pages fuel m c ≡ returns (some base, d))
alloc_same_page_twice fuel base n q j m a pre r behind used room rounds z larger smaller enough = (
  after_free fuel base n q j m a pre r behind used room rounds,
  once fuel base n q j m a pre r behind used room rounds z smaller larger,
  take_from base m (once fuel base n q j m a pre r behind used room rounds z smaller larger),
  freed fuel base n q j m a pre r behind used room rounds,
  linked_to_self fuel base n q j m a pre r behind used room rounds,
  first fuel base n q j m a pre r behind used room rounds z smaller larger,
  second fuel base n q j m a pre r behind used room rounds z smaller larger enough,
)
