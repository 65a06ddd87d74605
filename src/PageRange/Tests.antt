-- ===== src/PageRange/Tests.antt =====
-- The functions on ranges at the page tables of PageTable.Tests.
use nkucore.Prelude.{
  Bool-cases, ==_iff, ne_of_==, inl, inr, ◌==◌, some, Option, sym, ap, ◌∙◌, ℕ, ◌+◌, ◌*◌, ◌≡◌, refl,
  none, arith, Outcome, returns, panics, update,
}
use nkucore.Prelude.{has_flag}
use nkucore.Ring.{list_empty, list_next}
use nkucore.DefaultPmm.{default_free_pages}
use nkucore.Vmm.{user_access}
use nkucore.Paging.{Paging, pdx1, pdx0, ptx, nbase}
use nkucore.PageTable.Wf.{View, translate}
use nkucore.PageTable.Tests.{view, view-Wf, root}
use nkucore.PageRange.{unmap_range, exit_range}
use nkucore.PageRange.Unmap.{Refs, Unmapped}
use nkucore.PageRange.Loop.{unmap_range-Unmapped}

some_or : Option ℕ → ℕ
some_or none = 0
some_or (some n) = n

some_injective : {m n : ℕ} → some m ≡ some n → m ≡ n
unfolding some_or
some_injective e = ap some_or e

three_references : Refs 2 view root 0x800000 0x802000
three_references = λ la p l u e.
    let a : pdx1 la ≡ 0 = omega (arith, l, u) in
    let b : pdx0 la ≡ 4 = omega (arith, l, u) in
    let here : translate view.state.cell root la ≡ some 0x80003 = elim (Bool-cases (ptx la == 0)) [
      | inl x ↦ let c : ptx la ≡ 0 = (==_iff (ptx la) 0).0 x in rw (a, b, c) refl
      | inr x ↦ let c : ptx la ≡ 1 = omega (arith, ne_of_== _ _ x, l, u) in rw (a, b, c) refl
    ] in
    let same : p + nbase ≡ 0x80003 = some_injective (sym e ∙ here) in
    let is : p ≡ 3 = omega (arith, same) in rw is (omega arith, omega arith)

unmap_range-Unmapped_example :
    (x : View) × (unmap_range 2 9 (root * 512) 0x800000 0x802000 view.state ≡ returns x.state)
    × Unmapped view x root 0x800000 0x802000
unfolding user_access
unmap_range-Unmapped_example =
    unmap_range-Unmapped 2 9 root 0x800000 0x802000 view view-Wf refl refl refl refl (omega arith)
      three_references

-- The second entry of the directory of level 1 leads to a table too, page 3.
abbrev two_tables : Paging
two_tables = record view.state {
  cell = update view.state.cell (0x80001 * 512 + 5) (0x80003 * 1024 + 17);
}

abbrev cell_after : ℕ → Outcome Paging → ℕ
cell_after e (returns s) = s.cell e
cell_after e panics = 1
cell_after e Outcome.out_of_fuel = 2

-- The directory is given back although its table still maps two pages and another table hangs on it.
exit_range_run :
    cell_after (0x80000 * 512) (exit_range 2 9 (0x80000 * 512) 0x800000 0xA00000 two_tables) ≡ 0
unfolding exit_range has_flag default_free_pages list_empty list_next
exit_range_run = refl
