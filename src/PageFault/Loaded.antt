-- ===== src/PageFault/Loaded.antt =====
-- kern/mm/swap.c, swap_in, and what do_pgfault does with its page.
use nkucore.Prelude.{
  ℕ, ◌+◌, ◌-◌, ◌*◌, ◌/◌, ◌%◌, ◌≤◌, ◌<◌, ◌≡◌, ◌≢◌, ◌∙◌, ap, refl, none, some, arith, inr, ◌^◌,
  returns, pos, update,
}
use nkucore.DefaultPmm.Blocks.{total}
use nkucore.Swap.{fifo_map_swappable}
use nkucore.Paging.Entry.{rwxu}
use nkucore.Vmm.{Mm}
use nkucore.Paging.{Paging, nbase, ptx, alloc_pages}
use nkucore.PageTable.Wf.{View, Wf, UserAddress, entry_of, table, translate, target}
use nkucore.PageTable.Walk.{get_pte-leaf}
use nkucore.PageTable.Grow.{SameContents-trans}
use nkucore.PageTable.Insert.{page_insert-Inserted, Inserted, inserted, no_memory}
use nkucore.PageTable.Fresh.{Backed, Given, alloc_page-Given}
use nkucore.PageTable.Load.{
  load, load_view, load_other, load_page, load_used, load-Wf, load-entry_of,
}
use nkucore.PageFault.{Swapping, set_paging, fault_swapped, swap_in}
use nkucore.PageFault.Slot.{slot_of, content_of, IsSlot, read_slot-load}

-- The page is the last of the queue, and it knows its address.
abbrev pub swapped_in : (la page : ℕ) → Paging → Swapping → Swapping
swapped_in la page p s = record {
  paging = p;
  queue = (fifo_map_swappable page s.queue).1;
  pra_vaddr = update s.pra_vaddr page la;
}

-- The page is mapped, was free, and has the contents of the slot.
pub record Restored (v w : View) (root la page flags : ℕ) (slot : ℕ → ℕ) : Type 0 where
  pub backed : Backed v w root la page flags
  pub content : (i : ℕ) → i < 512 → w.state.cell ((page + nbase) * 512 + i) ≡ slot i

module _ (ide max_swap_offset e : ℕ) where
  -- The page `page` was given out by `x`, and loaded.
  loaded-Restored :
      (slot : ℕ → ℕ) (x y w : View) (root la page flags : ℕ)
      → x.level root ≡ 2
      → (g : Given x page y) → Wf w
      → Inserted (load_view slot page y) w root la page flags (pos 0)
      → Restored x w root la page flags slot
  loaded-Restored slot x y w root la page flags l g wf how = elim how [
    | no_memory a b c ↦ ground (arith, a)
    | inserted a m ↦ record {
      backed = record {
        wf = wf;
        was_free = g.was_free;
        contents =
            SameContents-trans x (load_view slot page y) w
              (λ n u. load_used slot page y g.wf g.no_table n (g.kept n u))
              (λ n _. ap (λ h. h n) g.levels)
              (λ c u _.
                load_other slot page y g.wf g.no_table c
                  (λ h. ground (arith, u.used, ap (λ n. n - nbase) h, g.was_free))
                ∙ ap (λ h. h c) g.cells)
              m.contents;
        here = m.here;
        permits = m.permits;
        elsewhere = λ root' la' l' u other.
            let l2 : y.level root' ≡ 2 = ap (λ h. h root') g.levels ∙ l' in
            m.elsewhere root' la' l2 u other
            ∙ ap target (load-entry_of slot page y g.wf g.no_table root' la' l2 u)
            ∙ ap (λ c. translate c root' la') g.cells;
      };
      content = λ i b.
          let n : ((page + nbase) * 512 + i) / 512 ≡ page + nbase = omega (arith, b) in
          m.contents ((page + nbase) * 512 + i)
            (rw n (load_used slot page y g.wf g.no_table (page + nbase) g.in_use)) (rw n g.no_table)
          ∙ load_page slot page y g.wf g.no_table i b;
    }
  ]

  swap_in-load :
      (fuel la root t page : ℕ) (mm : Mm) (x y : View)
      → alloc_pages fuel 1 x.state ≡ returns (some page, y.state)
      → Wf y
      → y.level root ≡ 2
      → mm.pgdir ≡ root * 512
      → UserAddress la
      → table y.state.cell root la ≡ some t
      → y.state.cell (t * 512 + ptx la) ≡ e
      → page + nbase < y.state.npage
      → 0 < e / 2 ^ 8
      → e / 2 ^ 8 < max_swap_offset
      → ((i : ℕ) → i < 512 → (slot_of ide e + i) / 512 ≢ page + nbase)
      → swap_in ide max_swap_offset fuel la mm x.state
        ≡ returns (page, load (content_of ide e y) page y.state)
  unfolding swap_in
  swap_in-load fuel la root t page mm x y runs wf l d u at is_e below low high apart =
      rw (runs, d, get_pte-leaf y root la wf l u fuel, at, is_e)
        (rw (read_slot-load ide max_swap_offset e page y wf below low high apart) refl)

  pub fault_swapped-Restored :
      (fuel la perm root t : ℕ) (mm : Mm) (s : Swapping) (x : View)
      → Wf x
      → x.level root ≡ 2
      → mm.pgdir ≡ root * 512
      → UserAddress la
      → table x.state.cell root la ≡ some t
      → x.state.cell (t * 512 + ptx la) ≡ e
      → e % 2 ≡ 0
      → total x.blocks < fuel
      → 3 ≤ total x.blocks
      → perm < 1024
      → IsSlot ide max_swap_offset e x
      → (page : ℕ) × (w : View) × (fault_swapped ide max_swap_offset fuel la perm mm
            (set_paging x.state s)
          ≡ returns (pos 0, swapped_in la page w.state s))
        × Restored x w root la page (rwxu perm) (content_of ide e x)
  unfolding fault_swapped
  fault_swapped-Restored fuel la perm root t mm s x wf l d u at is_e even f three small sl =
      let (page, y, runs, g) = alloc_page-Given fuel x wf f (omega (arith, three)) in
      let ly : y.level root ≡ 2 = ap (λ h. h root) g.levels ∙ l in
      let at_y : table y.state.cell root la ≡ some t = rw g.cells at in
      let cell_y : y.state.cell (t * 512 + ptx la) ≡ e = rw g.cells is_e in
      let slot = content_of ide e x in
      let apart : (i : ℕ) → i < 512 → (slot_of ide e + i) / 512 ≢ page + nbase =
        λ i b h. ground (arith, (sl.used i b).used, ap (λ n. n - nbase) h, g.was_free) in
      let loads : swap_in ide max_swap_offset fuel la mm x.state
          ≡ returns (page, load slot page y.state) =
        swap_in-load fuel la root t page mm x y runs g.wf ly d u at_y cell_y g.in_use.below sl.low
          sl.high apart
        ∙ ap (λ c. returns (page, load (λ i. c (slot_of ide e + i)) page y.state)) g.cells in
      let wfz = load-Wf slot page y g.wf g.no_table in
      let entry_y : entry_of y.state.cell root la ≡ e = rw at_y cell_y in
      let entry_z = load-entry_of slot page y g.wf g.no_table root la ly u ∙ entry_y in
      let none_z : target e ≡ none = rw even refl in
      let (r, w, runs2, wfw, how) =
        page_insert-Inserted fuel (load_view slot page y) root la page perm wfz ly u
          (omega (arith, f, g.one_less)) (inr (omega (arith, three, g.one_less)))
          (load_used slot page y g.wf g.no_table (page + nbase) g.in_use) g.no_table small
          (ap target entry_z ∙ none_z) in
      elim how [
        | no_memory a b c ↦ absurd (omega (arith, b, three, g.one_less))
        | inserted a m ↦ (
          page,
          w,
          rw (loads, d, runs2, a) refl,
          loaded-Restored slot x y w root la page (rwxu perm) l g wfw (inserted refl m),
        )
      ]
