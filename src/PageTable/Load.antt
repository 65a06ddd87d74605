-- ===== src/PageTable/Load.antt =====
-- kern/mm/pmm.c: a page that is no table gets other contents, and the page tables stay as they are.
use nkucore.Prelude.{
  ℕ, ◌+◌, ◌*◌, ◌/◌, ◌%◌, ◌≤◌, ◌<◌, ◌≡◌, ◌≢◌, ap, refl, ◌==◌, ==_ne, arith, if◌then◌else◌,
}
use nkucore.Paging.{Paging, nbase, pdx1, pdx0, ptx}
use nkucore.PageTable.Wf.{View, Wf, InUse, Inner, UserAddress, entry_of}
use nkucore.PageTable.Walk.{walked, no_dir, no_low, both, Inner-dir, dir, low, level-low}

-- The page gets the contents of the slot.
abbrev pub load : (slot : ℕ → ℕ) → (page : ℕ) → Paging → Paging
load slot page s = record s {
  cell = λ x. if x / 512 == page + nbase then slot (x % 512) else s.cell x;
}

abbrev pub load_view : (slot : ℕ → ℕ) → (page : ℕ) → View → View
load_view slot page v = record v { state = load slot page v.state }

module _ (slot : ℕ → ℕ) (page : ℕ) (v : View) (wf : Wf v)
    (no_table : 2 < v.level (page + nbase)) where
  pub load_other :
      (x : ℕ) → x / 512 ≢ page + nbase → (load slot page v.state).cell x ≡ v.state.cell x
  load_other x h = rw (==_ne (x / 512) (page + nbase) h) refl

  load_table :
      (n i : ℕ)
      → v.level n ≤ 2
      → i < 512
      → (load slot page v.state).cell (n * 512 + i) ≡ v.state.cell (n * 512 + i)
  load_table n i l b = load_other (n * 512 + i) (λ e.
      let m : n ≡ page + nbase = omega (arith, e, b) in
      let l' : v.level (page + nbase) ≤ 2 = rw m at l in omega (arith, l', no_table))

  pub load_page :
      (i : ℕ) → i < 512 → (load slot page v.state).cell ((page + nbase) * 512 + i) ≡ slot i
  load_page i b =
      let e : ((page + nbase) * 512 + i) / 512 ≡ page + nbase = omega (arith, b) in
      let m : ((page + nbase) * 512 + i) % 512 ≡ i = omega (arith, b) in
      ground (arith, e, ap slot m)

  pub load_used : (n : ℕ) → InUse v n → InUse (load_view slot page v) n
  load_used n u = record { from = u.from; below = u.below; used = u.used }

  old : (n i : ℕ) → Inner (load_view slot page v) n i → Inner v n i
  old n i inner = record {
    is_table = inner.is_table;
    inner = inner.inner;
    index = inner.index;
    user = inner.user;
  }

  pub load-Wf : Wf (load_view slot page v)
  load-Wf = record {
    area = wf.area;
    bound = wf.bound;
    free_below = wf.free_below;
    tables = λ n l. load_used n (wf.tables n l);
    levels = λ n i inner odd.
        let s = load_table n i inner.is_table inner.index in
        rw s (wf.levels n i (old n i inner) (rw s at odd));
    parents = λ n i inner odd.
        let s = load_table n i inner.is_table inner.index in
        rw s (wf.parents n i (old n i inner) (rw s at odd));
    mapped = λ n i l b odd.
        let s = load_table n i (omega (arith, l)) b in
        let m = wf.mapped n i l b (rw s at odd) in
        rw s (load_used (v.state.cell (n * 512 + i) / 1024) m.0, m.1);
  }

  pub load-entry_of :
      (root la : ℕ)
      → v.level root ≡ 2
      → UserAddress la
      → entry_of (load slot page v.state).cell root la ≡ entry_of v.state.cell root la
  load-entry_of root la l u =
      let s = load_table root (pdx1 la) (omega (arith, l)) (omega (arith, u)) in
      let below : (odd : v.state.cell (root * 512 + pdx1 la) % 2 ≡ 1)
          → (load slot page v.state).cell (dir v root la wf l u * 512 + pdx0 la)
            ≡ v.state.cell (dir v root la wf l u * 512 + pdx0 la) =
        λ odd.
          let inner = Inner-dir v root la wf l u odd in
          load_table (dir v root la wf l u) (pdx0 la) inner.is_table inner.index in
      elim (walked v root la wf l u) [
        | no_dir even ↦ rw (s, even) refl
        | no_low odd even ↦ rw (s, odd, below odd, even) refl
        | both odd odd' ↦
            let low_is = level-low v root la wf l u odd odd' in
            rw (s, odd, below odd, odd')
              (load_table (low v root la wf l u) (ptx la) (omega (arith, low_is)) (omega arith))
      ]
