-- ===== src/PageTable/Write.antt =====
-- kern/mm/pmm.c: what the write of one entry of a lowest table does to well formed page tables.
use nkucore.Prelude.{
  ℕ, ◌+◌, ◌*◌, ◌/◌, ◌%◌, ◌^◌, ◌≤◌, ◌<◌, ◌≡◌, ◌≢◌, ◌∙◌, ◌⊎◌, ap, refl, sym, true, some, ◌==◌, arith,
  inl, inr, Bool-cases, Option-cases, ==_iff, ne_of_==,
}
use nkucore.DefaultPmm.Blocks.{Represents, is_free}
use nkucore.Paging.{pdx1, pdx0, ptx}
use nkucore.PageTable.Wf.{View, Wf, InUse, Inner, UserAddress, target, table, translate, entry_of}
use nkucore.PageTable.Walk.{
  walked, no_dir, no_low, both, Inner-root, Inner-dir, dir, low, level-low,
}

-- The number of the page that an address lies in, within the reach of the tables.
abbrev pub vpn : ℕ → ℕ
vpn la = (la / 4096) % 2 ^ 27

-- From `v` to `w` entry `j` of the lowest table `t` became `pte`.
pub record Written (v : View) (t j pte : ℕ) (w : View) : Type 0 where
  pub npage : w.state.npage ≡ v.state.npage
  pub swap : w.state.swap_init_ok ≡ v.state.swap_init_ok
  pub blocks : w.blocks ≡ v.blocks
  pub level : w.level ≡ v.level
  pub parent : w.parent ≡ v.parent
  pub area : Represents w.state.area v.blocks
  pub self : w.state.cell (t * 512 + j) ≡ pte
  pub others : (x : ℕ) → x ≢ t * 512 + j → w.state.cell x ≡ v.state.cell x

module _ (v w : View) (t j pte : ℕ) (wf : Wf v) (z : v.level t ≡ 0) (b : j < 512)
    (wr : Written v t j pte w) where
  Inner-kept : (n i : ℕ) → Inner v n i → w.state.cell (n * 512 + i) ≡ v.state.cell (n * 512 + i)
  Inner-kept n i inner = wr.others (n * 512 + i) (λ e.
      let m : n ≡ t = omega (arith, e, b, inner.index) in
      let l : v.level n ≡ 0 = rw m z in omega (arith, l, inner.inner))

  InUse-written : (n : ℕ) → InUse v n → InUse w n
  InUse-written n u = record {
    from = u.from;
    below = rw wr.npage u.below;
    used = rw wr.blocks u.used;
  }

  Inner-old : (n i : ℕ) → Inner w n i → Inner v n i
  Inner-old n i inner = record {
    is_table = rw wr.level at inner.is_table;
    inner = rw wr.level at inner.inner;
    index = inner.index;
    user = rw wr.level at inner.user;
  }

  -- The tables stay well formed if the entry leads nowhere, or to a page that is no table.
  pub written-Wf : (pte % 2 ≡ 1 → InUse v (pte / 1024) × (2 < v.level (pte / 1024))) → Wf w
  written-Wf ok = record {
    area = rw wr.blocks wr.area;
    bound = rw wr.npage wf.bound;
    free_below = λ p h.
        let free : is_free p v.blocks ≡ true = rw wr.blocks at h in
        rw wr.npage (wf.free_below p free);
    tables = λ n l. let l' : v.level n ≤ 2 = rw wr.level at l in InUse-written n (wf.tables n l');
    levels = λ n i inner odd.
        let old = Inner-old n i inner in
        let s = Inner-kept n i old in
        let odd' : v.state.cell (n * 512 + i) % 2 ≡ 1 = rw s at odd in
        rw (s, wr.level) (wf.levels n i old odd');
    parents = λ n i inner odd.
        let old = Inner-old n i inner in
        let s = Inner-kept n i old in
        let odd' : v.state.cell (n * 512 + i) % 2 ≡ 1 = rw s at odd in
        rw (s, wr.parent) (wf.parents n i old odd');
    mapped = λ n i l h odd. elim (Bool-cases (n * 512 + i == t * 512 + j)) [
      | inl e ↦
          let e' = (==_iff (n * 512 + i) (t * 512 + j)).0 e in
          let s : w.state.cell (n * 512 + i) ≡ pte = rw e' wr.self in
          let odd' : pte % 2 ≡ 1 = rw s at odd in
          let k = ok odd' in (rw s (InUse-written (pte / 1024) k.0), rw (s, wr.level) k.1)
      | inr e ↦
          let s = wr.others (n * 512 + i) (ne_of_== _ _ e) in
          let l' : v.level n ≡ 0 = rw wr.level at l in
          let odd' : v.state.cell (n * 512 + i) % 2 ≡ 1 = rw s at odd in
          let k = wf.mapped n i l' h odd' in
          (rw s (InUse-written (v.state.cell (n * 512 + i) / 1024) k.0), rw (s, wr.level) k.1)
    ];
  }

  -- The lowest tables are where they were.
  table-written :
      (root la : ℕ)
      → v.level root ≡ 2
      → UserAddress la
      → table w.state.cell root la ≡ table v.state.cell root la
  table-written root la l u =
      let s = Inner-kept root (pdx1 la) (Inner-root v root la wf l u) in
      elim (walked v root la wf l u) [
        | no_dir even ↦ rw (s, even) refl
        | no_low odd even ↦
            rw (s, odd)
              (ap target
                (Inner-kept (dir v root la wf l u) (pdx0 la) (Inner-dir v root la wf l u odd)))
        | both odd odd' ↦
            rw (s, odd)
              (ap target
                (Inner-kept (dir v root la wf l u) (pdx0 la) (Inner-dir v root la wf l u odd)))
      ]

-- Which entries lead to the entry of the lowest table.
pub record Route (v : View) (root la t : ℕ) : Type 0 where
  pub dir_page : ℕ
  pub level_t : v.level t ≡ 0
  pub up : v.parent t ≡ dir_page * 512 + pdx0 la
  pub upper : v.parent dir_page ≡ root * 512 + pdx1 la

pub table-Route :
    (v : View) (root la t : ℕ)
    → Wf v
    → v.level root ≡ 2
    → UserAddress la
    → table v.state.cell root la ≡ some t
    → Route v root la t
table-Route v root la t wf l u e = elim (walked v root la wf l u) [
  | no_dir even ↦ ground (arith, e, even)
  | no_low odd even ↦ ground (arith, e, odd, even)
  | both odd odd' ↦
      let d = dir v root la wf l u in
      let same : low v root la wf l u ≡ t = ground (arith, e, odd, odd') in
      record {
        dir_page = d;
        level_t = rw (← same) (level-low v root la wf l u odd odd');
        up = rw (← same) (wf.parents d (pdx0 la) (Inner-dir v root la wf l u odd) odd');
        upper = wf.parents root (pdx1 la) (Inner-root v root la wf l u) odd;
      }
]

-- No two addresses of different pages, or of different directories, share an entry.
pub leaf-distinct :
    (v : View) (root la root' la' t : ℕ)
    → Wf v
    → v.level root ≡ 2
    → v.level root' ≡ 2
    → UserAddress la
    → UserAddress la'
    → table v.state.cell root la ≡ some t
    → table v.state.cell root' la' ≡ some t
    → ptx la ≡ ptx la'
    → (root ≡ root') × (vpn la ≡ vpn la')
leaf-distinct v root la root' la' t wf l l' u u' e e' p =
    let a = table-Route v root la t wf l u e in
    let b = table-Route v root' la' t wf l' u' e' in
    let up = sym a.up ∙ b.up in
    let d : a.dir_page ≡ b.dir_page = omega (arith, up) in
    let i : pdx0 la ≡ pdx0 la' = omega (arith, up) in
    let upper = sym a.upper ∙ ap v.parent d ∙ b.upper in
    (omega (arith, upper, u, u'), omega (arith, upper, i, p, u, u'))

module _ (v w : View) (t pte root la : ℕ) (wf : Wf v) (l : v.level root ≡ 2) (u : UserAddress la)
    (e : table v.state.cell root la ≡ some t) (wr : Written v t (ptx la) pte w) where
  low_level : v.level t ≡ 0
  low_level = (table-Route v root la t wf l u e).level_t

  -- The address of the entry gets what is written there,
  pub written-target : translate w.state.cell root la ≡ target pte
  written-target =
      rw (table-written v w t (ptx la) pte wf low_level (omega arith) wr root la l u, e, wr.self)
        refl

  pub written-entry_of : entry_of w.state.cell root la ≡ pte
  written-entry_of =
      rw (table-written v w t (ptx la) pte wf low_level (omega arith) wr root la l u, e) wr.self

  -- and no other page of any address space changes.
  pub written-others :
      (root' la' : ℕ)
      → v.level root' ≡ 2
      → UserAddress la'
      → (root' ≢ root) ⊎ (vpn la' ≢ vpn la)
      → translate w.state.cell root' la' ≡ translate v.state.cell root' la'
  written-others root' la' l' u' other =
      let s = table-written v w t (ptx la) pte wf low_level (omega arith) wr root' la' l' u' in
      elim (Option-cases (table v.state.cell root' la')) [
        | inl n ↦ rw (s, n) refl
        | inr (t', n) ↦
            let apart : t' * 512 + ptx la' ≢ t * 512 + ptx la = λ x.
              let m : t' ≡ t = omega (arith, x) in
              let p : ptx la' ≡ ptx la = omega (arith, x) in
              let d = leaf-distinct v root' la' root la t wf l' l u' u (rw m at n) e p in
              elim other [ inl h ↦ h d.0 | inr h ↦ h d.1 ] in
            rw (s, n) (ap target (wr.others (t' * 512 + ptx la') apart))
      ]
