-- ===== src/DefaultPmm/Tail.antt =====
-- The append at the end of the walk: a block that goes behind all others is linked to itself.
use nkucore.Prelude.{
  ℕ, zero, suc, ◌+◌, ◌≤◌, ◌<◌, ◌≡◌, ◌≢◌, ◌∙◌, true, List, [], ◌∷◌, ◌++◌, arith, has, ◌∉◌, length,
  Distinct, returns, not_has-append_right,
}
use nkucore.Ring.{Links, list_next, list_add, list_empty}
use nkucore.DefaultPmm.{free_list, page_link, insert_loop, insert_block}
use nkucore.DefaultPmm.Blocks.{Blocks, nodes, Ordered, Ordered-start}
use nkucore.DefaultPmm.Fit.{NextChain}

-- The last append and the one that follows it.
abbrev pub tail_links : (q base : ℕ) → Links → Links
tail_links q base l =
    list_add (page_link base) (page_link base) (list_add (page_link q) (page_link base) l)

-- One round of the walk: at its end, at the last block, at an earlier block.
module _ (k le base p : ℕ) (l : Links) (below : p ≤ base) where
  round_end : l.next le ≡ free_list → insert_loop (suc k) le base l ≡ returns l
  unfolding insert_loop list_next
  round_end e = rw e

  round_last :
      l.next le ≡ page_link p
      → l.next (page_link p) ≡ free_list
      → insert_loop (suc k) le base l
        ≡ insert_loop k (page_link p) base (list_add (page_link p) (page_link base) l)
  unfolding insert_loop list_next
  round_last e f = rw (e, f) (ground arith)

  round_pass :
      (q : ℕ)
      → l.next le ≡ page_link p
      → l.next (page_link p) ≡ page_link q
      → insert_loop (suc k) le base l ≡ insert_loop k (page_link p) base l
  unfolding insert_loop list_next
  round_pass q e f = rw (e, f) (ground arith)

Ordered-below-last :
    (lo q j base n : ℕ) (pre : Blocks) → Ordered lo (pre ++ (q, j) ∷ (base, n) ∷ []) → q + j ≤ base
Ordered-below-last lo q j base n [] o = o.2.0
Ordered-below-last lo q j base n ((p, k) ∷ pre) o = Ordered-below-last (p + k) q j base n pre o.2

pub insert_loop-tail :
    (fuel le base n lo q j : ℕ) (l : Links) (pre : Blocks)
    → NextChain l le (nodes (pre ++ (q, j) ∷ [])) free_list
    → Ordered lo (pre ++ (q, j) ∷ (base, n) ∷ [])
    → length pre + 2 < fuel
    → insert_loop fuel le base l ≡ returns (tail_links q base l)
unfolding list_add
insert_loop-tail zero le base n lo q j l pre c o f = absurd (omega arith)
insert_loop-tail (suc zero) le base n lo q j l pre c o f = absurd (omega arith)
insert_loop-tail (suc (suc zero)) le base n lo q j l pre c o f = absurd (omega arith)
insert_loop-tail (suc (suc (suc fuel))) le base n lo q j l [] c o f =
    let m = list_add (page_link q) (page_link base) l in
    let m' = tail_links q base l in
    round_last (suc (suc fuel)) le base q l (omega arith) c.0 c.1
    ∙ round_last (suc fuel) (page_link q) base base m (omega arith) (ground arith) (ground arith)
    ∙ round_end fuel (page_link base) base base m' (omega arith) (ground arith)
insert_loop-tail (suc (suc (suc fuel))) le base n lo q j l ((p, k) ∷ []) c o f =
    round_pass (suc (suc fuel)) le base p l (omega arith) q c.0 c.1.0
    ∙ insert_loop-tail (suc (suc fuel)) (suc p) base n (p + k) q j l [] c.1 o.2 (omega arith)
insert_loop-tail (suc (suc (suc fuel))) le base n lo q j l ((p, k) ∷ (p', k') ∷ pre) c o f =
    let s = Ordered-start (p + k) q j ((p', k') ∷ pre) ((base, n) ∷ []) o.2 in
    let t = Ordered-below-last (p + k) q j base n ((p', k') ∷ pre) o.2 in
    round_pass (suc (suc fuel)) le base p l (omega arith) p' c.0 c.1.0
    ∙ insert_loop-tail (suc (suc fuel)) (suc p) base n (p + k) q j l ((p', k') ∷ pre) c.1 o.2
        (omega arith)

pub NextChain-frame :
    (l m : Links) (a b : ℕ) (xs : List ℕ)
    → NextChain l a xs b
    → m.next a ≡ l.next a
    → ((c : ℕ) → has c xs ≡ true → m.next c ≡ l.next c)
    → NextChain m a xs b
NextChain-frame l m a b [] c n same = n ∙ c
NextChain-frame l m a b (x ∷ xs) c n same =
    (n ∙ c.0, NextChain-frame l m x b xs c.1 (same x (ground arith)) (λ d i. same d (ground arith)))

-- The `next` pointers after the two appends.
pub NextChain-tail :
    (l : Links) (a q base : ℕ) (pre : List ℕ)
    → NextChain l a (pre ++ q ∷ []) free_list
    → a ∉ (pre ++ q ∷ [])
    → Distinct (pre ++ q ∷ [])
    → page_link base ≢ a
    → page_link base ∉ (pre ++ q ∷ [])
    → NextChain
        (list_add (page_link base) (page_link base) (list_add q (page_link base) l))
        a
        (pre ++ q ∷ page_link base ∷ [])
        free_list
unfolding list_add
NextChain-tail l a q base [] c an d n m = (ground arith, (ground arith, ground arith))
NextChain-tail l a q base (x ∷ pre) c an d n m = (
  ground (arith, c.0, not_has-append_right a pre (q ∷ [])),
  NextChain-tail l x q base pre c.1 d.0 d.1 (ground arith) (ground arith),
)

-- A node appended to the last one, as `next` pointers show it.
pub NextChain-append :
    (l : Links) (a q e : ℕ) (pre : List ℕ)
    → NextChain l a (pre ++ q ∷ []) free_list
    → a ∉ (pre ++ q ∷ [])
    → Distinct (pre ++ q ∷ [])
    → e ≢ a
    → e ∉ (pre ++ q ∷ [])
    → NextChain (list_add q e l) a (pre ++ q ∷ e ∷ []) free_list
unfolding list_add
NextChain-append l a q e [] c an d n m = (ground arith, (ground arith, ground arith))
NextChain-append l a q e (x ∷ pre) c an d n m = (
  ground (arith, c.0, not_has-append_right a pre (q ∷ [])),
  NextChain-append l x q e pre c.1 d.0 d.1 (ground arith) (ground arith),
)

pub NextChain-last :
    (l : Links) (a b q : ℕ) (pre : List ℕ) → NextChain l a (pre ++ q ∷ []) b → l.next q ≡ b
NextChain-last l a b q [] c = c.1
NextChain-last l a b q (x ∷ pre) c = NextChain-last l x b q pre c.1

pub insert_block-tail :
    (fuel base n q j : ℕ) (l : Links) (pre : Blocks)
    → NextChain l free_list (nodes (pre ++ (q, j) ∷ [])) free_list
    → Ordered 0 (pre ++ (q, j) ∷ (base, n) ∷ [])
    → length pre + 2 < fuel
    → insert_block fuel base l ≡ returns (tail_links q base l)
unfolding insert_block list_empty
insert_block-tail fuel base n q j l [] c o f =
    ground (arith, c.0, insert_loop-tail fuel free_list base n 0 q j l [] c o f)
insert_block-tail fuel base n q j l ((p, k) ∷ pre) c o f =
    ground (arith, c.0, insert_loop-tail fuel free_list base n 0 q j l ((p, k) ∷ pre) c o f)
