-- ===== src/DefaultPmm/Merge.antt =====
-- The merges of `default_free_pages`: a block is joined to its neighbours.
use nkucore.Prelude.{ℕ, ◌+◌, ◌≡◌, ◌≢◌, refl, ap, ◌∙◌, List, [], ◌∷◌, ◌++◌, arith}
use mathlib.Core.List.{append_assoc}
use native.Mathlib.Decide.{ℕ_discrete}
use nkucore.Ring.{list_next, list_prev}
use nkucore.Ring.Chain.{IsRing, last_from, first_or}
use nkucore.Ring.Laws.{Chain-around}
use nkucore.DefaultPmm.{Area, free_list, page_link, clear_head, merge_before, merge_after}
use nkucore.DefaultPmm.Blocks.{Blocks, nodes, Represents, is_free, nodes-append}
use nkucore.DefaultPmm.Join.{joined, joined-Represents, is_free-join, Heads-at}

-- The same free pages, in other blocks: `base` heads one of them, behind which `post` stands.
record Merged (bs post : Blocks) (base : ℕ) (b : Area) : Type 0 where
  pre : Blocks
  size : ℕ
  represents : Represents b (pre ++ (base, size) ∷ post)
  same : (c : ℕ) → is_free c (pre ++ (base, size) ∷ post) ≡ is_free c bs

last-cases :
    (x : ℕ × ℕ) (bs : Blocks) → (pre : Blocks) × (p : ℕ) × (k : ℕ) × (x ∷ bs ≡ pre ++ (p, k) ∷ [])
last-cases (p, k) [] = ([], p, k, refl)
last-cases x (y ∷ bs) = let (pre, p, k, e) = last-cases y bs in (x ∷ pre, p, k, ap (λ t. x ∷ t) e)

last_from-append : (h x : ℕ) (xs : List ℕ) → last_from h (xs ++ x ∷ []) ≡ x
last_from-append h x [] = refl
last_from-append h x (y ∷ xs) = last_from-append y x xs

-- What the two tests of the merges lead to.
module _ (a : Area) (base p : ℕ) where
  merge_before-joined :
      a.links.prev (page_link base) ≡ page_link p
      → p + (a.page p).property ≡ base
      → merge_before base a ≡ (p, joined p base a)
  unfolding merge_before list_prev clear_head
  merge_before-joined e f = rw e (ground arith)

  pub merge_before-apart :
      a.links.prev (page_link base) ≡ page_link p
      → p + (a.page p).property ≢ base
      → merge_before base a ≡ (base, a)
  unfolding merge_before list_prev clear_head
  merge_before-apart e f = rw e (ground arith)

  merge_after-joined :
      a.links.next (page_link base) ≡ page_link p
      → base + (a.page base).property ≡ p
      → merge_after base a ≡ joined base p a
  unfolding merge_after list_next clear_head
  merge_after-joined e f = rw e (ground arith)

  merge_after-apart :
      a.links.next (page_link base) ≡ page_link p
      → base + (a.page base).property ≢ p
      → merge_after base a ≡ a
  unfolding merge_after list_next clear_head
  merge_after-apart e f = rw e (ground arith)

merge_before-start :
    (a : Area) (base n : ℕ) (post : Blocks)
    → Represents a ((base, n) ∷ post)
    → Merged ((base, n) ∷ post) post (merge_before base a).0 (merge_before base a).1
unfolding merge_before list_prev
merge_before-start a base n post r =
    rw (r.ring.chain.1) record { pre = []; size = n; represents = r; same = λ c. refl }

prev_of :
    (a : Area) (base n p k : ℕ) (pre post : Blocks)
    → Represents a (pre ++ (p, k) ∷ (base, n) ∷ post)
    → a.links.prev (page_link base) ≡ page_link p
prev_of a base n p k pre post r =
    let x : IsRing a.links free_list (nodes (pre ++ (p, k) ∷ []) ++ page_link base ∷ nodes post) =
      rw
        (
          ← nodes-append (pre ++ (p, k) ∷ []) ((base, n) ∷ post),
          append_assoc pre ((p, k) ∷ []) ((base, n) ∷ post),
        )
        r.ring in
    let u =
      (Chain-around a.links free_list free_list (page_link base) (nodes (pre ++ (p, k) ∷ []))
        (nodes post) x.chain).0 in
    u ∙ (rw (nodes-append pre ((p, k) ∷ [])) (last_from-append free_list (page_link p) (nodes pre)))

merge_before-last :
    (a : Area) (base n p k : ℕ) (pre post : Blocks)
    → Represents a (pre ++ (p, k) ∷ (base, n) ∷ post)
    → Merged (pre ++ (p, k) ∷ (base, n) ∷ post) post (merge_before base a).0 (merge_before base a).1
merge_before-last a base n p k pre post r =
    let v = prev_of a base n p k pre post r in
    let s = (Heads-at a.page p k pre ((base, n) ∷ post) r.heads).1 in
    elim (ℕ_discrete (p + k) base) [
      | yes e ↦ rw (merge_before-joined a base p v (rw s e)) record {
        pre = pre;
        size = k + n;
        represents = joined-Represents a p k base n pre post r e;
        same = λ c.
            (is_free-join c p k n pre post) ∙ ap (λ t. is_free c (pre ++ (p, k) ∷ (t, n) ∷ post)) e;
      }
      | no m ↦ rw (merge_before-apart a base p v (rw s m)) record {
        pre = pre ++ (p, k) ∷ [];
        size = n;
        represents = rw (append_assoc pre ((p, k) ∷ []) ((base, n) ∷ post)) r;
        same = λ c. ap (is_free c) (append_assoc pre ((p, k) ∷ []) ((base, n) ∷ post));
      }
    ]

merge_before-Merged :
    (a : Area) (base n : ℕ) (pre post : Blocks)
    → Represents a (pre ++ (base, n) ∷ post)
    → Merged (pre ++ (base, n) ∷ post) post (merge_before base a).0 (merge_before base a).1
merge_before-Merged a base n [] post r = merge_before-start a base n post r
merge_before-Merged a base n (x ∷ pre) post r =
    let (pre', p, k, e) = last-cases x pre in
    let f : x ∷ pre ++ (base, n) ∷ post ≡ pre' ++ (p, k) ∷ (base, n) ∷ post =
      ap (λ t. t ++ (base, n) ∷ post) e ∙ append_assoc pre' ((p, k) ∷ []) ((base, n) ∷ post) in
    rw f (merge_before-last a base n p k pre' post (rw f at r))

-- The same free pages, in other blocks.
pub record Same (bs : Blocks) (b : Area) : Type 0 where
  pub blocks : Blocks
  pub represents : Represents b blocks
  pub same : (c : ℕ) → is_free c blocks ≡ is_free c bs

next_of :
    (a : Area) (base n : ℕ) (pre post : Blocks)
    → Represents a (pre ++ (base, n) ∷ post)
    → a.links.next (page_link base) ≡ first_or (nodes post) free_list
next_of a base n pre post r =
    let x : IsRing a.links free_list (nodes pre ++ page_link base ∷ nodes post) =
      rw (← nodes-append pre ((base, n) ∷ post)) r.ring in
    (Chain-around a.links free_list free_list (page_link base) (nodes pre) (nodes post) x.chain).1

merge_after-Same :
    (a : Area) (base n : ℕ) (pre post : Blocks)
    → Represents a (pre ++ (base, n) ∷ post)
    → Same (pre ++ (base, n) ∷ post) (merge_after base a)
unfolding merge_after list_next
merge_after-Same a base n pre [] r =
    rw (next_of a base n pre [] r)
      record { blocks = pre ++ (base, n) ∷ []; represents = r; same = λ c. refl }
merge_after-Same a base n pre ((q, j) ∷ post) r =
    let v = next_of a base n pre ((q, j) ∷ post) r in
    let s = (Heads-at a.page base n pre ((q, j) ∷ post) r.heads).1 in
    elim (ℕ_discrete (base + n) q) [
      | yes e ↦ rw (merge_after-joined a base q v (rw s e)) record {
        blocks = pre ++ (base, n + j) ∷ post;
        represents = joined-Represents a base n q j pre post r e;
        same = λ c.
            (is_free-join c base n j pre post)
            ∙ ap (λ t. is_free c (pre ++ (base, n) ∷ (t, j) ∷ post)) e;
      }
      | no m ↦
          rw (merge_after-apart a base q v (rw s m))
            record { blocks = pre ++ (base, n) ∷ (q, j) ∷ post; represents = r; same = λ c. refl }
    ]

pub merges-Same :
    (a : Area) (base n : ℕ) (pre post : Blocks)
    → Represents a (pre ++ (base, n) ∷ post)
    → Same (pre ++ (base, n) ∷ post) (merge_after (merge_before base a).0 (merge_before base a).1)
merges-Same a base n pre post r =
    let m = merge_before-Merged a base n pre post r in
    let s =
      merge_after-Same (merge_before base a).1 (merge_before base a).0 m.size m.pre post
        m.represents in
    record { blocks = s.blocks; represents = s.represents; same = λ c. s.same c ∙ m.same c }
