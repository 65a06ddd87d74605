-- ===== src/PageTable/Create.antt =====
-- kern/mm/pmm.c: get_pte with `create`.
use nkucore.Prelude.{
  ℕ, ◌+◌, ◌*◌, ◌%◌, ◌≤◌, ◌<◌, ◌≡◌, ◌∙◌, refl, true, Option, none, some, arith, inl, inr, returns,
}
use nkucore.DefaultPmm.Blocks.{total}
use nkucore.Paging.{pdx1, pdx0, ptx}
use nkucore.PageTable.{get_pte, get_pte_from}
use nkucore.PageTable.Wf.{View, Wf, Grows, Roomy, UserAddress, target, table, translate}
use nkucore.PageTable.Make.{made, no_memory, make_table_lem}
use nkucore.PageTable.Grow.{Grows-trans, Grows-weaken}
use nkucore.PageTable.Walk.{Inner-root, Inner-dir, dir, low, pdep0, kaddr-dir, kaddr-low, level-low}

-- What `get_pte` comes to with `create`.
pub data Found (k : ℕ) (v w : View) (root la : ℕ) (r : Option ℕ) : Type 0 where
  found :
      (t : ℕ)
      → w.level t ≡ 0
      → table w.state.cell root la ≡ some t
      → translate w.state.cell root la ≡ target (w.state.cell (t * 512 + ptx la))
      → r ≡ some (t * 512 + ptx la)
      → Found k v w root la r
  too_few : total v.blocks ≤ k → r ≡ none → Found k v w root la r

Roomy-less : (j k : ℕ) (v w : View) → Grows j v w → Roomy (j + k) v → Roomy k w
Roomy-less j k v w g r = elim r [
  | inl s ↦ inl (g.swap ∙ s)
  | inr t ↦ inr (omega (arith, t, g.taken))
]

Roomy-one : (v : View) → Roomy 2 v → Roomy 1 v
Roomy-one v room = elim room [ inl s ↦ inl s | inr t ↦ inr (omega (arith, t)) ]

-- The second half, where the entry of the directory is valid.
get_pte_from-create :
    (fuel : ℕ) (v : View) (root la : ℕ) (wf : Wf v) (l : v.level root ≡ 2) (u : UserAddress la)
    → total v.blocks < fuel
    → Roomy 1 v
    → v.state.cell (root * 512 + pdx1 la) % 2 ≡ 1
    → (r : Option ℕ) × (w : View) × (get_pte_from fuel (dir v root la wf l u * 512) la true v.state
        ≡ returns (r, w.state))
      × Grows 1 v w
      × Found 0 v w root la r
unfolding get_pte_from
get_pte_from-create fuel v root la wf l u f room odd =
    let d = dir v root la wf l u in
    let (ok, x, runs, h, m) =
      make_table_lem v d (pdx0 la) wf (Inner-dir v root la wf l u odd) fuel f room in
    elim m [
      | no_memory n z ↦ (none, x, rw (runs, n) refl, h, too_few (omega (arith, z)) refl)
      | made y odd2 ↦
          let root' = wf.tables root (omega (arith, l)) in
          let l' : x.level root ≡ 2 = h.level_same root root'.used root'.from ∙ l in
          let same = h.entries_same root (pdx1 la) (Inner-root v root la wf l u) odd in
          let odd1 : x.state.cell (root * 512 + pdx1 la) % 2 ≡ 1 = rw same odd in
          let odd3 : x.state.cell (pdep0 x root la h.wf l' u) % 2 ≡ 1 = rw same odd2 in
          let low' = low x root la h.wf l' u in
          let k = kaddr-low x root la h.wf l' u odd1 odd3 in
          (
            some (low' * 512 + ptx la),
            x,
            rw (runs, y, ← same) (rw k refl),
            h,
            found low' (level-low x root la h.wf l' u odd1 odd3) (rw (odd1, odd3) refl)
                (rw (odd1, odd3) refl) refl,
          )
    ]

-- `get_pte` with `create`, with more rounds than free pages: the tables grow, and the entry of the
-- lowest table for the address is found, or there was at most one free page.
pub get_pte-create :
    (fuel : ℕ) (v : View) (root la : ℕ) (wf : Wf v) (l : v.level root ≡ 2) (u : UserAddress la)
    → total v.blocks < fuel
    → Roomy 2 v
    → (r : Option ℕ) × (w : View) × (get_pte fuel (root * 512) la true v.state
        ≡ returns (r, w.state))
      × Grows 2 v w
      × Found 1 v w root la r
unfolding get_pte
get_pte-create fuel v root la wf l u f room =
    let (ok, w, runs, g, m) =
      make_table_lem v root (pdx1 la) wf (Inner-root v root la wf l u) fuel f (Roomy-one v room) in
    let f' : total w.blocks < fuel = omega (arith, f, g.left) in
    let root' = wf.tables root (omega (arith, l)) in
    let l' : w.level root ≡ 2 = g.level_same root root'.used root'.from ∙ l in
    elim m [
      | no_memory n z ↦ (
        none,
        w,
        rw (runs, n) refl,
        Grows-weaken 1 2 v w (omega arith) g,
        too_few (omega (arith, z)) refl,
      )
      | made y odd ↦
          let (r, x, runs2, h, how) =
            get_pte_from-create fuel w root la g.wf l' u f' (Roomy-less 1 1 v w g room) odd in
          (
            r,
            x,
            rw (runs, y, kaddr-dir w root la g.wf l' u odd) runs2,
            Grows-trans 1 1 v w x wf g h,
            elim how [
              | found t z e tr q ↦ found t z e tr q
              | too_few z q ↦ too_few (omega (arith, z, g.taken)) q
            ],
          )
    ]
