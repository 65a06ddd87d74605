-- ===== src/PageTable/MadeWf.antt =====
-- kern/mm/pmm.c, get_pte: a new, empty table keeps the page tables well formed.
use nkucore.Prelude.{
  ℕ, suc, ◌+◌, ◌-◌, ◌*◌, ◌/◌, ◌%◌, ◌≤◌, ◌<◌, ◌≡◌, ◌≢◌, ◌∙◌, ap, refl, sym, false, ◌==◌, arith, inl,
  inr, Bool-cases, ==_iff, ne_of_==,
}
use nkucore.DefaultPmm.Blocks.{is_free}
use nkucore.Paging.{nbase}
use nkucore.PageTable.Wf.{View, Wf, InUse, Inner, Grows}
use nkucore.PageTable.Made.{TableMade, not_new, keeps, keeps-leaf, made-entry_same}

module _ (v w : View) (n i q : ℕ) (wf : Wf v) (at : Inner v n i) (made : TableMade v n i q w) where
  abbrev cell : ℕ → ℕ
  cell = v.state.cell

  abbrev cell' : ℕ → ℕ
  cell' = w.state.cell

  still_used : (p : ℕ) → is_free p v.blocks ≡ false → is_free p w.blocks ≡ false
  still_used p h = rw (made.now_free p, h) refl

  InUse-kept : (m : ℕ) → InUse v m → InUse w m
  InUse-kept m u = record {
    from = u.from;
    below = rw made.npage u.below;
    used = still_used (m - nbase) u.used;
  }

  new-InUse : InUse w q
  new-InUse = record {
    from = made.from;
    below =
        let b = wf.free_below (q - nbase) made.was_free in
        rw made.npage (omega (arith, b, made.from));
    used = rw (made.now_free (q - nbase)) (ground (arith, made.was_free));
  }

  -- A table of the new state is the new one, or an old one at its old level.
  old_table : (m : ℕ) → m ≢ q → w.level m ≤ 2 → v.level m ≤ 2
  old_table m h l = rw (made.level_else m h) at l

  entry_not_new : (m j : ℕ) → m ≡ q → j < 512 → cell' (m * 512 + j) % 2 ≢ 1
  entry_not_new m j e b h =
      let z : cell' (m * 512 + j) ≡ 0 = rw e (made.zeros j b) in omega (arith, z, h)

  -- A valid inner entry of the new state is the new entry, or an old one.
  data Entry (m j : ℕ) : Type 0 where
    fresh : m ≡ n → j ≡ i → Entry m j
    old : Inner v m j → v.level m ≡ w.level m → cell' (m * 512 + j) ≡ cell (m * 512 + j) → Entry m j

  entry : (m j : ℕ) → Inner w m j → cell' (m * 512 + j) % 2 ≡ 1 → Entry m j
  entry m j inner odd = elim (Bool-cases (m == q)) [
    | inl h ↦ absurd (entry_not_new m j ((==_iff m q).0 h) inner.index odd)
    | inr h ↦
        let ne = ne_of_== m q h in
        let same = made.level_else m ne in
        elim (Bool-cases (m * 512 + j == n * 512 + i)) [
          | inl g ↦
              let e = (==_iff (m * 512 + j) (n * 512 + i)).0 g in
              fresh (omega (arith, e, inner.index, at.index))
                (omega (arith, e, inner.index, at.index))
          | inr g ↦
              let is_table = old_table m ne inner.is_table in
              old
                (record {
                  is_table = is_table;
                  inner = rw (← same) inner.inner;
                  index = inner.index;
                  user = λ x. inner.user (same ∙ x);
                })
                (sym same) (keeps v w n i q wf at made m j is_table inner.index (ne_of_== _ _ g))
        ]
  ]

  -- The target of an old entry is not the new table.
  target-not_new :
      (m j : ℕ) → Inner v m j → cell (m * 512 + j) % 2 ≡ 1 → cell (m * 512 + j) / 1024 ≢ q
  target-not_new m j inner odd = not_new v w n i q wf at made (cell (m * 512 + j) / 1024) (
      wf.tables (cell (m * 512 + j) / 1024)
        (omega (arith, wf.levels m j inner odd, inner.is_table)))

  made-levels :
      (m j : ℕ)
      → Inner w m j
      → cell' (m * 512 + j) % 2 ≡ 1
      → suc (w.level (cell' (m * 512 + j) / 1024)) ≡ w.level m
  made-levels m j inner odd = elim (entry m j inner odd) [
    | fresh a b ↦
        let ne = not_new v w n i q wf at made n (wf.tables n at.is_table) in
        rw (a, b, made.points, made.level_new, made.level_else n ne) refl
    | old o l s ↦
        let odd' = rw s at odd in
        rw (s, made.level_else (cell (m * 512 + j) / 1024) (target-not_new m j o odd'), ← l)
          (wf.levels m j o odd')
  ]

  made-parents :
      (m j : ℕ)
      → Inner w m j
      → cell' (m * 512 + j) % 2 ≡ 1
      → w.parent (cell' (m * 512 + j) / 1024) ≡ m * 512 + j
  made-parents m j inner odd = elim (entry m j inner odd) [
    | fresh a b ↦ rw (a, b, made.points) made.parent_new
    | old o l s ↦
        let odd' = rw s at odd in
        rw (s, made.parent_else (cell (m * 512 + j) / 1024) (target-not_new m j o odd'))
          (wf.parents m j o odd')
  ]

  made-mapped :
      (m j : ℕ)
      → w.level m ≡ 0
      → j < 512
      → cell' (m * 512 + j) % 2 ≡ 1
      → InUse w (cell' (m * 512 + j) / 1024) × (2 < w.level (cell' (m * 512 + j) / 1024))
  made-mapped m j l b odd = elim (Bool-cases (m == q)) [
    | inl h ↦ absurd (entry_not_new m j ((==_iff m q).0 h) b odd)
    | inr h ↦
        let z : v.level m ≡ 0 = sym (made.level_else m (ne_of_== m q h)) ∙ l in
        let s = keeps-leaf v w n i q wf at made m j z b in
        let old = wf.mapped m j z b (rw s at odd) in
        let ne = not_new v w n i q wf at made (cell (m * 512 + j) / 1024) old.0 in
        (
          rw s (InUse-kept (cell (m * 512 + j) / 1024) old.0),
          rw (s, made.level_else (cell (m * 512 + j) / 1024) ne) old.1,
        )
  ]

  made-Wf : Wf w
  made-Wf = record {
    area = made.area;
    bound = rw made.npage wf.bound;
    free_below = λ p h. rw made.npage (wf.free_below p (ground (arith, made.now_free p, h)));
    tables = λ m l. elim (Bool-cases (m == q)) [
      | inl h ↦ let e = (==_iff m q).0 h in rw e new-InUse
      | inr h ↦ InUse-kept m (wf.tables m (old_table m (ne_of_== m q h) l))
    ];
    levels = made-levels;
    parents = made-parents;
    mapped = made-mapped;
  }

  pub made-Grows : Grows 1 v w
  made-Grows = record {
    wf = made-Wf;
    npage = made.npage;
    swap = made.swap;
    entry_same = made-entry_same v w n i q wf at made;
    entries_same = λ m j inner odd.
        keeps v w n i q wf at made m j inner.is_table inner.index (λ e.
          let o : cell (n * 512 + i) % 2 ≡ 1 = rw (← e) odd in omega (arith, o, made.was_even));
    used_same = still_used;
    level_same =
        λ m h l. made.level_else m (λ e. ground (arith, made.was_free, h, ap (λ x. x - nbase) e));
    ref_same = λ p h. made.refs p (λ e. ground (arith, made.was_free, h, e));
    contents = λ x u l.
        made.others x
          (λ e.
            let n' : x / 512 ≡ n = omega (arith, e, at.index) in
            omega (arith, rw n' at l, at.is_table))
          (not_new v w n i q wf at made (x / 512) u);
    taken = omega (arith, made.one_less);
    left = omega (arith, made.one_less);
  }
