-- ===== src/PageTable/Walk.antt =====
-- kern/mm/pmm.c: get_pte and get_page follow the valid bits of the entries.
use nkucore.Prelude.{
  ℕ, ◌+◌, ◌-◌, ◌*◌, ◌/◌, ◌%◌, ◌≡◌, refl, false, Option, none, some, ◌==◌, arith, inl, inr,
  Bool-cases, ==_iff, ne_of_==, returns, has_flag-odd, has_flag-even,
}
use nkucore.Paging.{nbase, pdx1, pdx0, ptx, pte_addr, kaddr}
use nkucore.Paging.Entry.{kaddr-entry, pa2page-entry}
use nkucore.PageTable.{get_pte, get_page, make_table}
use nkucore.PageTable.Wf.{View, Wf, Inner, UserAddress, target, table, translate, leaf}

module _ (v : View) (root la : ℕ) (wf : Wf v) (l : v.level root ≡ 2) (u : UserAddress la) where
  abbrev cell : ℕ → ℕ
  cell = v.state.cell

  abbrev pub pdep1 : ℕ
  pdep1 = root * 512 + pdx1 la

  pub Inner-root : Inner v root (pdx1 la)
  Inner-root = record {
    is_table = omega (arith, l);
    inner = omega (arith, l);
    index = omega (arith, u);
    user = λ _. u;
  }

  -- The directory of level 1 behind a valid entry.
  abbrev pub dir : ℕ
  dir = cell pdep1 / 1024

  abbrev pub pdep0 : ℕ
  pdep0 = dir * 512 + pdx0 la

  pub level-dir : cell pdep1 % 2 ≡ 1 → v.level dir ≡ 1
  level-dir odd = omega (arith, wf.levels root (pdx1 la) Inner-root odd, l)

  pub Inner-dir : cell pdep1 % 2 ≡ 1 → Inner v dir (pdx0 la)
  Inner-dir odd =
      let e = level-dir odd in
      record {
        is_table = omega (arith, e);
        inner = omega (arith, e);
        index = omega arith;
        user = λ x. absurd (omega (arith, x, e));
      }

  pub kaddr-dir :
      cell pdep1 % 2 ≡ 1 → kaddr v.state.npage (pte_addr (cell pdep1)) ≡ returns (dir * 512)
  kaddr-dir odd =
      let t = wf.tables dir (omega (arith, level-dir odd)) in
      kaddr-entry v.state.npage wf.bound (cell pdep1) t.below

  abbrev pub low : ℕ
  low = cell pdep0 / 1024

  pub level-low : cell pdep1 % 2 ≡ 1 → cell pdep0 % 2 ≡ 1 → v.level low ≡ 0
  level-low odd odd' = omega (arith, wf.levels dir (pdx0 la) (Inner-dir odd) odd', level-dir odd)

  pub kaddr-low :
      cell pdep1 % 2 ≡ 1
      → cell pdep0 % 2 ≡ 1
      → kaddr v.state.npage (pte_addr (cell pdep0)) ≡ returns (low * 512)
  kaddr-low odd odd' =
      let t = wf.tables low (omega (arith, level-low odd odd')) in
      kaddr-entry v.state.npage wf.bound (cell pdep0) t.below

  table-both : cell pdep1 % 2 ≡ 1 → cell pdep0 % 2 ≡ 1 → table cell root la ≡ some low
  table-both odd odd' = rw (odd, odd') refl

  -- How far the walk gets.
  pub data Walked : Type 0 where
    no_dir : cell pdep1 % 2 ≡ 0 → Walked
    no_low : cell pdep1 % 2 ≡ 1 → cell pdep0 % 2 ≡ 0 → Walked
    both : cell pdep1 % 2 ≡ 1 → cell pdep0 % 2 ≡ 1 → Walked

  pub walked : Walked
  walked = elim (Bool-cases (cell pdep1 % 2 == 1)) [
    | inr h ↦ no_dir (omega (arith, ne_of_== _ _ h))
    | inl h ↦
        let odd = (==_iff (cell pdep1 % 2) 1).0 h in
        elim (Bool-cases (cell pdep0 % 2 == 1)) [
          | inr g ↦ no_low odd (omega (arith, ne_of_== _ _ g))
          | inl g ↦ both odd ((==_iff (cell pdep0 % 2) 1).0 g)
        ]
  ]

  -- Without `create`, `get_pte` changes nothing and finds the entry of the lowest table.
  pub get_pte-leaf :
      (fuel : ℕ) → get_pte fuel (root * 512) la false v.state ≡ returns (leaf cell root la, v.state)
  unfolding get_pte make_table
  get_pte-leaf fuel = elim walked [
    | no_dir even ↦ rw (has_flag-even (cell pdep1) even, even) refl
    | no_low odd even ↦
        rw
          (has_flag-odd (cell pdep1) odd, kaddr-dir odd, odd, has_flag-even (cell pdep0) even, even)
          refl
    | both odd odd' ↦
        rw
          (
            has_flag-odd (cell pdep1) odd,
            kaddr-dir odd,
            odd,
            has_flag-odd (cell pdep0) odd',
            kaddr-low odd odd',
            odd',
          )
          refl
  ]

  -- The entry of the lowest table, if there is one.
  pub data Leaf : Type 0 where
    no_leaf : table cell root la ≡ none → translate cell root la ≡ none → Leaf
    at_leaf :
        (t : ℕ)
        → v.level t ≡ 0
        → table cell root la ≡ some t
        → translate cell root la ≡ target (cell (t * 512 + ptx la))
        → Leaf

  pub leaf_case : Leaf
  leaf_case = elim walked [
    | no_dir even ↦ no_leaf (rw even refl) (rw even refl)
    | no_low odd even ↦ no_leaf (rw (odd, even) refl) (rw (odd, even) refl)
    | both odd odd' ↦ at_leaf low (level-low odd odd') (rw (odd, odd') refl) (rw (odd, odd') refl)
  ]

-- The index of a physical page in `pages`.
abbrev pub page_of : Option ℕ → Option ℕ
page_of none = none
page_of (some n) = some (n - nbase)

-- In well formed page tables, `get_page` at an address of the lower half returns the page that the
-- valid entries of the three levels lead to, or NULL where one of them is not valid. Neither looks at
-- the bits R, W and X.
pub get_page-translate :
    (fuel root la : ℕ) (v : View)
    → Wf v
    → v.level root ≡ 2
    → UserAddress la
    → get_page fuel (root * 512) la v.state ≡ returns (page_of (translate v.state.cell root la))
unfolding get_page
get_page-translate fuel root la v wf l u =
    let got = get_pte-leaf v root la wf l u fuel in
    elim (leaf_case v root la wf l u) [
      | no_leaf e f ↦ rw (got, e) refl
      | at_leaf t z e f ↦
          let pte = v.state.cell (t * 512 + ptx la) in
          elim (Bool-cases (pte % 2 == 1)) [
            | inl h ↦
                let odd = (==_iff (pte % 2) 1).0 h in
                let m = wf.mapped t (ptx la) z (omega arith) odd in
                rw
                  (
                    got,
                    e,
                    has_flag-odd pte odd,
                    pa2page-entry v.state.npage wf.bound pte m.0.from m.0.below,
                    odd,
                  )
                  refl
            | inr h ↦
                let even : pte % 2 ≡ 0 = omega (arith, ne_of_== _ _ h) in
                rw (got, e, has_flag-even pte even, even) refl
          ]
    ]
