-- ===== src/DefaultPmm/Insert.antt =====
-- How `default_free_pages` puts a block back: the walk to its place, and the pages that it clears.
use nkucore.Prelude.{
  ℕ, zero, suc, ◌+◌, ◌<◌, ◌≡◌, ap, fun_ext, true, false, [], ◌∷◌, ◌++◌, arith, if◌then◌else◌,
  update, length, returns,
}
use nkucore.Ring.{Links, list_next, list_add_before, list_empty}
use nkucore.Ring.Chain.{Chain, IsRing}
use nkucore.DefaultPmm.{Page, free_list, page_link, insert_loop, insert_block, clear_used}
use nkucore.DefaultPmm.Blocks.{Blocks, nodes, Ordered, within, Ordered-start}

insert_loop-scan :
    (fuel le base n lo q j : ℕ) (l : Links) (pre post : Blocks)
    → Chain l le (nodes (pre ++ (q, j) ∷ post)) free_list
    → Ordered lo (pre ++ (base, n) ∷ (q, j) ∷ post)
    → length pre < fuel
    → insert_loop fuel le base l ≡ returns (list_add_before (page_link q) (page_link base) l)
unfolding insert_loop list_next
insert_loop-scan zero le base n lo q j l pre post c o f = absurd (omega arith)
insert_loop-scan (suc fuel) le base n lo q j l [] post c o f = rw (c.0) (ground arith)
insert_loop-scan (suc fuel) le base n lo q j l ((p, k) ∷ []) post c o f =
    rw
      (c.0, c.2.0, insert_loop-scan fuel (suc p) base n (p + k) q j l [] post c.2 o.2 (omega arith))
      (ground arith)
insert_loop-scan (suc fuel) le base n lo q j l ((p, k) ∷ (p', k') ∷ pre) post c o f =
    let s = Ordered-start (p + k) base n ((p', k') ∷ pre) ((q, j) ∷ post) o.2 in
    rw
      (
        c.0,
        c.2.0,
        insert_loop-scan fuel (suc p) base n (p + k) q j l ((p', k') ∷ pre) post c.2 o.2
            (omega arith),
      )
      (ground arith)

-- The links after a block has gone in before the first of `post`.
pub insert_block_lem :
    (fuel base n q j : ℕ) (l : Links) (pre post : Blocks)
    → IsRing l free_list (nodes (pre ++ (q, j) ∷ post))
    → Ordered 0 (pre ++ (base, n) ∷ (q, j) ∷ post)
    → length pre < fuel
    → insert_block fuel base l ≡ returns (list_add_before (page_link q) (page_link base) l)
unfolding insert_block list_empty
insert_block_lem fuel base n q j l [] post r o f =
    ground (arith, r.chain.0, insert_loop-scan fuel free_list base n 0 q j l [] post r.chain o f)
insert_block_lem fuel base n q j l ((p, k) ∷ pre) post r o f = ground (
  arith,
  r.chain.0,
  insert_loop-scan fuel free_list base n 0 q j l ((p, k) ∷ pre) post r.chain o f,
)

-- The pages of the freed block after the loop over them.
abbrev pub cleared : (n base : ℕ) → (ℕ → Page) → ℕ → Page
cleared n base f c =
    if within base n c then record (f c) { ref = 0; reserved = false; free_head = false } else f c

-- No page of the block is reserved or heads a free block.
abbrev pub AllUsed : (n base : ℕ) → (ℕ → Page) → Type 0
AllUsed n base f =
    (c : ℕ) → within base n c ≡ true → ((f c).reserved ≡ false) × ((f c).free_head ≡ false)

pub clear_used-cleared :
    (n base : ℕ) (f : ℕ → Page)
    → AllUsed n base f
    → clear_used n base f ≡ returns (cleared n base f)
unfolding clear_used
clear_used-cleared zero base f u = ap returns (fun_ext λ c. ground arith)
clear_used-cleared (suc n) base f u =
    let here = u base (ground arith) in
    rw
      (
        here.0,
        here.1,
        clear_used-cleared n (base + 1)
            (update f base (record (f base) { ref = 0; reserved = false; free_head = false }))
            (λ c w. ground (arith, u c)),
      )
      (ap returns (fun_ext λ c. ground arith))
