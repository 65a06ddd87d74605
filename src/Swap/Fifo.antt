-- ===== src/Swap/Fifo.antt =====
-- The queue of pages as a sequence: a page joins at the end and leaves from the front.
use nkucore.Prelude.{ℕ, ◌+◌, ◌-◌, ◌≡◌, refl, ap, List, [], ◌∷◌, ◌++◌, map, ◌∉◌, arith, returns}
use nkucore.Ring.{Links, list_next, list_del}
use nkucore.Ring.Chain.{IsRing}
use nkucore.Ring.Laws.{list_add_before-IsRing, list_del-IsRing}
use nkucore.Swap.{pra_list_head, pra_page_link, fifo_map_swappable, fifo_swap_out_victim}

-- The queue holds the pages, the oldest first.
unfoldable pub Queue : Links → List ℕ → Type 0
Queue l ps = IsRing l pra_list_head (map pra_page_link ps)

append_nil : (xs : List ℕ) → xs ++ [] ≡ xs
append_nil [] = refl
append_nil (x ∷ xs) = ap (λ ys. x ∷ ys) (append_nil xs)

map-append :
    (ps : List ℕ) (p : ℕ)
    → map pra_page_link (ps ++ p ∷ []) ≡ map pra_page_link ps ++ pra_page_link p ∷ []
map-append [] p = refl
map-append (q ∷ ps) p = ap (λ ys. pra_page_link q ∷ ys) (map-append ps p)

map_swappable-Queue :
    (l : Links) (p : ℕ) (ps : List ℕ)
    → Queue l ps
    → pra_page_link p ∉ map pra_page_link ps
    → Queue (fifo_map_swappable p l).1 (ps ++ p ∷ [])
unfolding Queue fifo_map_swappable
map_swappable-Queue l p ps r n = rw (map-append ps p) (
    list_add_before-IsRing l pra_list_head (pra_page_link p) (map pra_page_link ps) []
      (rw (append_nil (map pra_page_link ps)) r) (omega arith)
      (rw (append_nil (map pra_page_link ps)) n))

swap_out_victim-Queue :
    (l : Links) (p : ℕ) (ps : List ℕ)
    → Queue l (p ∷ ps)
    → (l' : Links) × (fifo_swap_out_victim 0 l ≡ returns (p, l')) × Queue l' ps
unfolding Queue fifo_swap_out_victim list_next
swap_out_victim-Queue l p ps r =
    let e : l.next pra_list_head ≡ pra_page_link p = r.chain.0 in
    let b : p + 1 - 1 ≡ p = omega arith in
    (
      list_del (pra_page_link p) l,
      rw (e, b) refl,
      list_del-IsRing l pra_list_head (pra_page_link p) [] (map pra_page_link ps) r,
    )

-- A page that is made swappable joins the queue at the end, and a swap right after it takes the
-- oldest page, which is the new one where the queue was empty; the others stay in their order.
pub fifo-Queue :
    (l : Links) (p q : ℕ) (ps rest : List ℕ)
    → Queue l ps
    → pra_page_link p ∉ map pra_page_link ps
    → ps ++ p ∷ [] ≡ q ∷ rest
    → (l' : Links) × (fifo_swap_out_victim 0 (fifo_map_swappable p l).1 ≡ returns (q, l'))
      × Queue l' rest
fifo-Queue l p q ps rest r n e =
    swap_out_victim-Queue (fifo_map_swappable p l).1 q rest
      (rw e at (map_swappable-Queue l p ps r n))
