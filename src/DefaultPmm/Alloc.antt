-- ===== src/DefaultPmm/Alloc.antt =====
-- `default_alloc_pages` against the set of free pages.
use nkucore.Prelude.{
  ℕ, ◌+◌, ◌-◌, ◌%◌, ◌^◌, ◌≤◌, ◌<◌, ◌≡◌, refl, true, false, ◌&&◌, not, ◌∷◌, ◌++◌, none, some, arith,
  ltb, ◌∉◌, All, length, Bool-cases, inl, inr, returns, lt→ltb, le→ltb,
}
use nkucore.Ring.{list_prev, list_del}
use nkucore.Ring.Chain.{IsRing}
use nkucore.Ring.Laws.{
  list_add-IsRing, list_del-IsRing, Chain-around, Distinct-remove, not_has-insert,
}
use nkucore.DefaultPmm.{Area, free_list, page_link, take_from, clear_head, default_alloc_pages}
use nkucore.DefaultPmm.Blocks.{
  Blocks, nodes, total, Ordered, Heads, Represents, within, is_free, nodes-append, total-append,
  not_has-inside, Heads-update, Heads-append, Heads-left, Heads-right, Heads-insert,
}
use nkucore.DefaultPmm.Fit.{
  first_fit, rest_of, find_fit-scan, first_fit-split, first_fit-none, first_fit-le-total,
  Ordered-rest, total-rest, is_free-rest, is_free-taken,
}

module _ (a : Area) (p n k : ℕ) (pre post : Blocks) (r : Represents a (pre ++ (p, k) ∷ post))
    (pos : 0 < n) (fits : n ≤ k) where
  ring : IsRing a.links free_list (nodes pre ++ page_link p ∷ nodes post)
  ring = rw (← nodes-append pre ((p, k) ∷ post)) r.ring

  others : page_link p ∉ nodes (pre ++ post)
  others =
      rw nodes-append ((Distinct-remove (page_link p) (nodes pre) (nodes post) ring.distinct).1)

  inside : (c : ℕ) → p ≤ c → c < p + k → page_link c ∉ nodes (pre ++ post)
  inside c = not_has-inside 0 p k c pre post r.ordered

  size : (a.page p).property ≡ k
  size = (Heads-right a.page pre ((p, k) ∷ post) r.heads).1

  Heads-others : Heads a.page (pre ++ post)
  Heads-others =
      Heads-append a.page pre post (Heads-left a.page pre ((p, k) ∷ post) r.heads)
        (Heads-right a.page pre ((p, k) ∷ post) r.heads).2

  links_part :
      n < k → IsRing (take_from p n a).links free_list (nodes (pre ++ (p + n, k - n) ∷ post))
  unfolding take_from list_prev
  links_part l =
      let (u, v) =
        Chain-around a.links free_list free_list (page_link p) (nodes pre) (nodes post)
          ring.chain in
      let i : page_link (p + n) ∉ nodes (pre ++ post) =
        inside (p + n) (omega arith) (omega arith) in
      rw (size, lt→ltb n k l, nodes-append, u)
        (list_add-IsRing (list_del (page_link p) a.links) free_list (page_link (p + n)) (nodes pre)
          (nodes post)
          (list_del-IsRing a.links free_list (page_link p) (nodes pre) (nodes post) ring)
          (ground arith) (rw nodes-append at i))

  Heads-part : n < k → Heads (take_from p n a).page (pre ++ (p + n, k - n) ∷ post)
  unfolding take_from clear_head
  Heads-part l =
      let i : page_link (p + n) ∉ nodes (pre ++ post) =
        inside (p + n) (omega arith) (omega arith) in
      let o : page_link p ∉ nodes (pre ++ (p + n, k - n) ∷ post) = rw nodes-append (
        not_has-insert (page_link p) (page_link (p + n)) (nodes pre) (nodes post) (omega arith)
          (rw nodes-append at others)) in
      rw (size, lt→ltb n k l)
        (Heads-update _ p _ (pre ++ (p + n, k - n) ∷ post) o
          (Heads-insert a.page (p + n) (k - n) _ pre post i Heads-others refl small))
    where
      small : (k - n) % 2 ^ 32 ≡ k - n
      small = omega (arith, r.small, total-append pre ((p, k) ∷ post))

  nr_part : (take_from p n a).nr_free ≡ a.nr_free - n
  unfolding take_from
  nr_part = ground arith

  part : n < k → Represents (take_from p n a) (pre ++ (p + n, k - n) ∷ post)
  part l =
      let o : Ordered 0 (pre ++ rest_of p n k post) =
        Ordered-rest 0 p n k pre post fits pos r.ordered in
      let t : total (pre ++ rest_of p n k post) + n ≡ total (pre ++ (p, k) ∷ post) =
        total-rest p n k pre post fits in
      record {
        ring = links_part l;
        heads = Heads-part l;
        ordered = rw (lt→ltb n k l) at o;
        count = omega (arith, r.count, nr_part, rw (lt→ltb n k l) at t);
        small = omega (arith, r.small, rw (lt→ltb n k l) at t);
      }

  whole : k ≡ n → Represents (take_from p n a) (pre ++ post)
  unfolding take_from clear_head
  whole e =
      let o : Ordered 0 (pre ++ rest_of p n k post) =
        Ordered-rest 0 p n k pre post fits pos r.ordered in
      let t : total (pre ++ rest_of p n k post) + n ≡ total (pre ++ (p, k) ∷ post) =
        total-rest p n k pre post fits in
      let m : ltb n k ≡ false = le→ltb n k (omega arith) in
      rw (size, m)
        record {
          ring =
              rw nodes-append
                (list_del-IsRing a.links free_list (page_link p) (nodes pre) (nodes post) ring);
          heads = Heads-update a.page p _ (pre ++ post) others Heads-others;
          ordered = rw m at o;
          count = omega (arith, r.count, rw m at t);
          small = omega (arith, r.small, rw m at t);
        }

  pub take_from-Represents : Represents (take_from p n a) (pre ++ rest_of p n k post)
  take_from-Represents = elim (Bool-cases (ltb n k)) [
    | inl y ↦ rw y (part (ground arith))
    | inr m ↦ rw m (whole (ground arith))
  ]

-- The state after a call that found page `p`: `n` pages from `p` on were free, and are taken.
pub record Allocated (a : Area) (bs : Blocks) (n p : ℕ) (b : Area) : Type 0 where
  pub blocks : Blocks
  pub represents : Represents b blocks
  pub were_free : (c : ℕ) → within p n c ≡ true → is_free c bs ≡ true
  pub now_free : (c : ℕ) → is_free c blocks ≡ (is_free c bs && not (within p n c))
  pub nr_free_left : b.nr_free + n ≡ a.nr_free

take_from-Allocated :
    (a : Area) (n p : ℕ) (bs : Blocks)
    → Represents a bs
    → 0 < n
    → first_fit n bs ≡ some p
    → Allocated a bs n p (take_from p n a)
take_from-Allocated a n p bs r z e =
    let (pre, k, post, s, l, f) = first_fit-split n p bs e in
    let r' : Represents a (pre ++ (p, k) ∷ post) = rw s at r in
    let b = take_from-Represents a p n k pre post r' z l in
    let t = total-rest p n k pre post l in
    record {
      blocks = pre ++ rest_of p n k post;
      represents = b;
      were_free = λ c w. rw s (is_free-taken p n k c pre post l w);
      now_free = λ c. rw s (is_free-rest 0 p n k c pre post l r'.ordered);
      nr_free_left = omega (arith, b.count, r'.count, t);
    }

alloc_takes :
    (fuel n p : ℕ) (a : Area) (bs : Blocks)
    → Represents a bs
    → 0 < n
    → length bs < fuel
    → first_fit n bs ≡ some p
    → default_alloc_pages fuel n a ≡ returns (some p, take_from p n a)
unfolding default_alloc_pages
alloc_takes fuel n p a bs r z f e =
    let scan = find_fit-scan fuel n free_list a bs r.ring.chain r.heads f in
    rw
      (
        lt→ltb 0 n z,
        le→ltb a.nr_free n (omega (arith, r.count, first_fit-le-total n p bs e)),
        scan,
        e,
      )
      refl

-- If a block of a free area with the blocks `bs` has `n` pages, `0 < n`, then with more rounds than
-- blocks `default_alloc_pages` returns the first page `p` of the first such block: the `n` pages
-- from `p` on were free, exactly these leave the set of free pages, `nr_free` falls by `n`, and the
-- free list stays well formed.
pub alloc_first_fit :
    (fuel n p : ℕ) (a : Area) (bs : Blocks)
    → Represents a bs
    → 0 < n
    → length bs < fuel
    → first_fit n bs ≡ some p
    → (b : Area) × (default_alloc_pages fuel n a ≡ returns (some p, b)) × Allocated a bs n p b
alloc_first_fit fuel n p a bs r z f e =
    (take_from p n a, alloc_takes fuel n p a bs r z f e, take_from-Allocated a n p bs r z e)

-- If every block of the free area has fewer than `n` pages, `default_alloc_pages` returns NULL and
-- changes nothing.
pub alloc_none :
    (fuel n : ℕ) (a : Area) (bs : Blocks)
    → Represents a bs
    → 0 < n
    → length bs < fuel
    → All (λ b. b.1 < n) bs
    → default_alloc_pages fuel n a ≡ returns (none, a)
unfolding default_alloc_pages
alloc_none fuel n a bs r z f small =
    rw
      (
        lt→ltb 0 n z,
        find_fit-scan fuel n free_list a bs r.ring.chain r.heads f,
        first_fit-none n bs small,
      )
      (ground arith)

take_from-ref : (p n : ℕ) (a : Area) (q : ℕ) → ((take_from p n a).page q).ref ≡ (a.page q).ref
unfolding take_from clear_head
take_from-ref p n a q = ground arith

-- One page out of the first block.
pub alloc_one :
    (fuel p k : ℕ) (a : Area) (bs : Blocks)
    → Represents a ((p, k) ∷ bs)
    → length bs + 1 < fuel
    → (b : Area) × (default_alloc_pages fuel 1 a ≡ returns (some p, b))
      × Allocated a ((p, k) ∷ bs) 1 p b
      × ((q : ℕ) → (b.page q).ref ≡ (a.page q).ref)
alloc_one fuel p k a bs r f =
    let e : first_fit 1 ((p, k) ∷ bs) ≡ some p = ground (arith, r.ordered.1) in
    (
      take_from p 1 a,
      alloc_takes fuel 1 p a ((p, k) ∷ bs) r (omega arith) (omega arith) e,
      take_from-Allocated a 1 p ((p, k) ∷ bs) r (omega arith) e,
      take_from-ref p 1 a,
    )
