-- ===== src/DefaultPmm/Join.antt =====
-- Two neighbouring blocks of the free list become one.
use nkucore.Prelude.{ℕ, ◌+◌, ◌≡◌, sym, true, [], ◌∷◌, ◌++◌, arith, ◌∉◌, update}
use mathlib.Core.List.{append_assoc}
use nkucore.Ring.{list_del}
use nkucore.Ring.Chain.{IsRing}
use nkucore.Ring.Laws.{list_del-IsRing, Distinct-remove, not_has-remove}
use nkucore.DefaultPmm.{Page, Area, free_list, page_link, clear_head, uint}
use nkucore.DefaultPmm.Blocks.{
  Blocks, nodes, Ordered, Heads, Represents, is_free, nodes-append, total-append, Heads-update,
  Heads-insert,
}

-- Block `q` is merged into block `p`.
abbrev pub joined : (p q : ℕ) → Area → Area
unfolding clear_head
joined p q a = record a {
  page = clear_head q (
      update a.page p
        (record (a.page p) { property = uint ((a.page p).property + (a.page q).property) }));
  links = list_del (page_link q) a.links;
}

pub Ordered-join :
    (lo p k j : ℕ) (pre post : Blocks)
    → Ordered lo (pre ++ (p, k) ∷ (p + k, j) ∷ post)
    → Ordered lo (pre ++ (p, k + j) ∷ post)
Ordered-join lo p k j [] post o =
    (omega arith, omega arith, let e : p + k + j ≡ p + (k + j) = omega arith in rw e at (o.2.2))
Ordered-join lo p k j ((r, i) ∷ pre) post o = (o.0, o.1, Ordered-join (r + i) p k j pre post o.2)

pub is_free-join :
    (c p k j : ℕ) (pre post : Blocks)
    → is_free c (pre ++ (p, k + j) ∷ post) ≡ is_free c (pre ++ (p, k) ∷ (p + k, j) ∷ post)
is_free-join c p k j [] post = ground arith
is_free-join c p k j ((r, i) ∷ pre) post = ground (arith, is_free-join c p k j pre post)

-- The entry of a block in the list.
pub Heads-at :
    (f : ℕ → Page) (p k : ℕ) (pre post : Blocks)
    → Heads f (pre ++ (p, k) ∷ post)
    → ((f p).free_head ≡ true) × ((f p).property ≡ k) × Heads f (pre ++ post)
Heads-at f p k [] post h = h
Heads-at f p k ((r, i) ∷ pre) post h =
    let (u, v, w) = Heads-at f p k pre post h.2 in (u, v, (h.0, h.1, w))

module _ (a : Area) (p k q j : ℕ) (pre post : Blocks)
    (r : Represents a (pre ++ (p, k) ∷ (q, j) ∷ post)) (next : p + k ≡ q) where
  assoc : pre ++ (p, k) ∷ (q, j) ∷ post ≡ (pre ++ (p, k) ∷ []) ++ (q, j) ∷ post
  assoc = sym (append_assoc pre ((p, k) ∷ []) ((q, j) ∷ post))

  r' : Represents a ((pre ++ (p, k) ∷ []) ++ (q, j) ∷ post)
  r' = rw assoc at r

  ring : IsRing a.links free_list (nodes pre ++ page_link p ∷ page_link q ∷ nodes post)
  ring = rw (nodes-append pre ((p, k) ∷ (q, j) ∷ post)) at r.ring

  out_p : page_link p ∉ nodes (pre ++ (q, j) ∷ post)
  out_p =
      rw nodes-append
        ((Distinct-remove (page_link p) (nodes pre) (page_link q ∷ nodes post) ring.distinct).1)

  del-IsRing : IsRing (list_del (page_link q) a.links) free_list (nodes (pre ++ (p, k + j) ∷ post))
  del-IsRing =
      let x : IsRing a.links free_list
          ((nodes pre ++ page_link p ∷ []) ++ page_link q ∷ nodes post) =
        rw (append_assoc (nodes pre) (page_link p ∷ []) (page_link q ∷ nodes post)) ring in
      let y =
        list_del-IsRing a.links free_list (page_link q) (nodes pre ++ page_link p ∷ []) (nodes post)
          x in
      rw (nodes-append pre ((p, k + j) ∷ post))
        (rw (append_assoc (nodes pre) (page_link p ∷ []) (nodes post)) at y)

  split-IsRing :
      IsRing a.links free_list ((nodes pre ++ page_link p ∷ []) ++ page_link q ∷ nodes post)
  split-IsRing = rw (append_assoc (nodes pre) (page_link p ∷ []) (page_link q ∷ nodes post)) ring

  out_q : page_link q ∉ nodes (pre ++ (p, k + j) ∷ post)
  out_q =
      let d =
        (Distinct-remove (page_link q) (nodes pre ++ page_link p ∷ []) (nodes post)
          split-IsRing.distinct).1 in
      rw (nodes-append pre ((p, k + j) ∷ post))
        (rw (append_assoc (nodes pre) (page_link p ∷ []) (nodes post)) at d)

  out : page_link p ∉ nodes (pre ++ post)
  out = rw nodes-append (
      (not_has-remove (page_link p) (page_link q) (nodes pre) (nodes post)
        (rw nodes-append at out_p)).0)

  size_p : ((a.page p).free_head ≡ true) × ((a.page p).property ≡ k)
  size_p = let (u, v, w) = Heads-at a.page p k pre ((q, j) ∷ post) r.heads in (u, v)

  size_q : ((a.page q).property ≡ j) × Heads a.page (pre ++ post)
  size_q =
      let (u, v, w) = Heads-at a.page q j (pre ++ (p, k) ∷ []) post r'.heads in
      let w' : Heads a.page (pre ++ (p, k) ∷ post) =
        rw (append_assoc pre ((p, k) ∷ []) post) at w in
      (v, (Heads-at a.page p k pre post w').2)

  fits : uint ((a.page p).property + (a.page q).property) ≡ k + j
  fits = omega (arith, size_p.1, size_q.0, r.small, total-append pre ((p, k) ∷ (q, j) ∷ post))

  pub joined-Represents : Represents (joined p q a) (pre ++ (p, k + j) ∷ post)
  unfolding clear_head
  joined-Represents = record {
    ring = del-IsRing;
    heads =
        Heads-update _ q _ (pre ++ (p, k + j) ∷ post) out_q
          (Heads-insert a.page p (k + j) _ pre post out size_q.1 size_p.0 fits);
    ordered = Ordered-join 0 p k j pre post (rw (← next) at r.ordered);
    count = omega (
      arith,
      r.count,
      total-append pre ((p, k) ∷ (q, j) ∷ post),
      total-append pre ((p, k + j) ∷ post),
    );
    small = omega (
      arith,
      r.small,
      total-append pre ((p, k) ∷ (q, j) ∷ post),
      total-append pre ((p, k + j) ∷ post),
    );
  }
