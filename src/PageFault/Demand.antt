-- ===== src/PageFault/Demand.antt =====
-- kern/mm/vmm.c, do_pgfault: a page that was never there is supplied.
use nkucore.Prelude.{
  has_flag, if◌then◌else◌, ℕ, ◌+◌, ◌*◌, ◌≤◌, ◌<◌, ◌≡◌, ◌∙◌, ap, refl, some, arith, inl, inr,
  returns, Bool-cases, le→ltb, pos, round_down, page_size,
}
use nkucore.DefaultPmm.Blocks.{total, is_free}
use nkucore.Vmm.{vm_write, Vma, Mm, find_in}
use nkucore.Paging.{ptx}
use nkucore.PageTable.Wf.{View, Wf, UserAddress, Grows, entry_of, target}
use nkucore.PageTable.Grow.{Grows-translate, InUse-Grows, SameContents-trans}
use nkucore.PageTable.Create.{get_pte-create, found, too_few}
use nkucore.Paging.Entry.{rwxu}
use nkucore.PageTable.Fresh.{Backed, pgdir_alloc_page-Backed}
use nkucore.PageFault.{Swapping, set_paging, fault_page, fault_perm, do_pgfault}

-- The same seen from the state before the tables grew.
pub Backed-Grows :
    (k : ℕ) (v x w : View) (root la page flags : ℕ)
    → Wf v
    → Grows k v x
    → Backed x w root la page flags
    → Backed v w root la page flags
Backed-Grows k v x w root la page flags wf g b = record {
  wf = b.wf;
  was_free = elim (Bool-cases (is_free page v.blocks)) [
    | inl h ↦ h
    | inr h ↦ ground (arith, g.used_same page h, b.was_free)
  ];
  contents =
      SameContents-trans v x w (λ n u. InUse-Grows v x n g u) (λ n u. g.level_same n u.used u.from)
        g.contents b.contents;
  here = b.here;
  permits = b.permits;
  elsewhere = λ root' la' l u other.
      let s = wf.tables root' (omega (arith, l)) in
      b.elsewhere root' la' (g.level_same root' s.used s.from ∙ l) u other
      ∙ Grows-translate k v x g root' la' l u;
}

-- What a program may do in an area by the entries that a page fault makes: the bits of `rwxu`. The
-- entry lets it read and write where the area is writable; without a bit R, W or X the processor
-- takes no entry for that of a page.
abbrev pub area_flags : Vma → ℕ
area_flags a = if has_flag a.vm_flags vm_write then 11 else 8

pub perm_small : (a : Vma) → fault_perm a < 1024
perm_small a = ground arith

pub fault_perm-area_flags : (a : Vma) → rwxu (fault_perm a) ≡ area_flags a
fault_perm-area_flags a = elim (Bool-cases (has_flag a.vm_flags vm_write)) [
  | inl h ↦ rw h refl
  | inr h ↦ rw h refl
]

module _ (ide max_swap_offset : ℕ) where
  fault_page-Backed :
      (fuel la perm root : ℕ) (mm : Mm) (s : Swapping) (v : View)
      → Wf v
      → v.level root ≡ 2
      → mm.pgdir ≡ root * 512
      → UserAddress la
      → entry_of v.state.cell root la ≡ 0
      → total v.blocks < fuel
      → 5 ≤ total v.blocks
      → perm < 1024
      → (page : ℕ) × (w : View) × (fault_page ide max_swap_offset fuel la perm mm
            (set_paging v.state s)
          ≡ returns (pos 0, set_paging w.state s))
        × Backed v w root la page (rwxu perm)
  unfolding fault_page
  fault_page-Backed fuel la perm root mm s v wf l d u z f five small =
      let (got, x, runs, g, how) =
        get_pte-create fuel v root la wf l u f (inr (omega (arith, five))) in
      let s1 = wf.tables root (omega (arith, l)) in
      let l' : x.level root ≡ 2 = g.level_same root s1.used s1.from ∙ l in
      elim how [
        | too_few n r ↦ absurd (omega (arith, n, five))
        | found t y e tr r ↦
            let zero_x : entry_of x.state.cell root la ≡ 0 = g.entry_same root la l u ∙ z in
            let zero_cell : x.state.cell (t * 512 + ptx la) ≡ 0 = rw e at zero_x in
            let (page, w, runs2, b) =
              pgdir_alloc_page-Backed fuel x root la perm g.wf l' u (omega (arith, f, g.left))
                (omega (arith, five, g.taken)) small (ap target zero_x) in
            (
              page,
              w,
              rw (d, runs, r, zero_cell) (rw (d, runs2) refl),
              Backed-Grows 2 v x w root la page (rwxu perm) wf g b,
            )
      ]

  -- With more rounds than free pages and five of these: at an address of the lower half that lies in
  -- an area, and whose entry is empty or has no table yet, `do_pgfault` returns 0 and makes a valid
  -- entry there for a page that was free, with the bits R, W and U where the area is writable, and
  -- with U alone of R, W, X and U where it is not; every other page of every directory stays as it
  -- was, so do the contents of the pages in use that are no tables, and the tables stay well formed.
  pub do_pgfault-Backed :
      (fuel addr root : ℕ) (mm mm' : Mm) (a : Vma) (s : Swapping) (v : View)
      → find_in mm addr ≡ (some a, mm')
      → a.vm_start ≤ addr
      → Wf v
      → v.level root ≡ 2
      → mm.pgdir ≡ root * 512
      → UserAddress (round_down addr page_size)
      → entry_of v.state.cell root (round_down addr page_size) ≡ 0
      → total v.blocks < fuel
      → 5 ≤ total v.blocks
      → (page : ℕ) × (w : View) × (do_pgfault ide max_swap_offset fuel addr
            (some mm)
            (set_paging v.state s)
          ≡ returns (pos 0, some mm', set_paging w.state s))
        × Backed v w root (round_down addr page_size) page (area_flags a)
  unfolding do_pgfault
  do_pgfault-Backed fuel addr root mm mm' a s v h i wf l d u z f five =
      let (page, w, runs, b) =
        fault_page-Backed fuel (round_down addr page_size) (fault_perm a) root mm s v wf l d u z f
          five (perm_small a) in
      (page, w, rw (h, le→ltb addr a.vm_start i, runs) refl, rw (fault_perm-area_flags a) at b)
