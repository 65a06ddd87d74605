-- ===== src/PageTable/Fresh.antt =====
-- kern/mm/pmm.c: a page that alloc_pages gives out, seen from the page tables; pgdir_alloc_page.
use nkucore.Prelude.{
  ℕ, ◌+◌, ◌-◌, ◌*◌, ◌/◌, ◌≤◌, ◌<◌, ◌≡◌, ◌≢◌, ◌∙◌, ◌⊎◌, ap, refl, true, none, some, ◌∷◌, arith, inl,
  inr, returns, Bool-cases, ltb, ltb→lt, ltb→le,
}
use nkucore.DefaultPmm.Blocks.{Blocks, total, Represents, is_free, length-le-total}
use nkucore.DefaultPmm.Alloc.{Allocated, alloc_one}
use nkucore.DefaultPmm.{Area}
use nkucore.Paging.{nbase, alloc_pages}
use nkucore.Paging.Entry.{rwxu}
use nkucore.PageTable.{pgdir_alloc_page}
use nkucore.PageTable.Wf.{View, Wf, InUse, SameContents, Inner, UserAddress, translate, entry_of}
use nkucore.PageTable.Grow.{SameContents-trans}
use nkucore.PageTable.Make.{Blocks-cases}
use nkucore.PageTable.Insert.{page_insert-Inserted, inserted, no_memory}
use nkucore.PageTable.Write.{vpn}

-- Page `p` was free and is now in use, and no table changed.
pub record Given (v : View) (p : ℕ) (w : View) : Type 0 where
  pub wf : Wf w
  pub was_free : is_free p v.blocks ≡ true
  pub in_use : InUse w (p + nbase)
  pub no_table : 2 < w.level (p + nbase)
  pub kept : (n : ℕ) → InUse v n → InUse w n
  pub cells : w.state.cell ≡ v.state.cell
  pub levels : w.level ≡ v.level
  pub swap : w.state.swap_init_ok ≡ v.state.swap_init_ok
  pub one_less : total w.blocks + 1 ≡ total v.blocks

given_view : View → Area → Blocks → View
given_view v a bs = record v { state = record v.state { area = a }; blocks = bs }

Given-Given :
    (v : View) (p : ℕ) (a : Area)
    → Wf v
    → (got : Allocated v.state.area v.blocks 1 p a) → Given v p (given_view v a got.blocks)
unfolding given_view
Given-Given v p a wf got =
    let free : is_free p v.blocks ≡ true = got.were_free p (ground arith) in
    let same : p + nbase - nbase ≡ p = omega arith in
    let kept : (n : ℕ) → InUse v n → InUse (given_view v a got.blocks) n = λ n u. record {
      from = u.from;
      below = u.below;
      used = rw (got.now_free (n - nbase), u.used) refl;
    } in
    let old : (n i : ℕ) → Inner (given_view v a got.blocks) n i → Inner v n i = λ n i inner.
      record {
        is_table = inner.is_table;
        inner = inner.inner;
        index = inner.index;
        user = inner.user;
      } in
    record {
      wf = record {
        area = got.represents;
        bound = wf.bound;
        free_below = λ q h. wf.free_below q (ground (arith, got.now_free q, h));
        tables = λ n l. kept n (wf.tables n l);
        levels = λ n i inner odd. wf.levels n i (old n i inner) odd;
        parents = λ n i inner odd. wf.parents n i (old n i inner) odd;
        mapped = λ n i l h odd.
            let m = wf.mapped n i l h odd in (kept (v.state.cell (n * 512 + i) / 1024) m.0, m.1);
      };
      was_free = free;
      in_use = record {
        from = omega arith;
        below = wf.free_below p free;
        used = rw (same, got.now_free p) (ground (arith, free));
      };
      no_table = elim (Bool-cases (ltb 2 (v.level (p + nbase)))) [
        | inl h ↦ ltb→lt 2 (v.level (p + nbase)) h
        | inr h ↦
            let u = wf.tables (p + nbase) (ltb→le 2 (v.level (p + nbase)) h) in
            ground (arith, free, u.used, same)
      ];
      kept = kept;
      cells = refl;
      levels = refl;
      swap = refl;
      one_less = omega (arith, got.nr_free_left, got.represents.count, wf.area.count);
    }

-- With more rounds than free pages and at least one free page.
pub alloc_page-Given :
    (fuel : ℕ) (v : View)
    → Wf v
    → total v.blocks < fuel
    → 1 ≤ total v.blocks
    → (p : ℕ) × (w : View) × (alloc_pages fuel 1 v.state ≡ returns (some p, w.state)) × Given v p w
unfolding alloc_pages given_view
alloc_page-Given fuel v wf f some_page = elim (Blocks-cases v.blocks) [
  | inl e ↦ absurd (omega (arith, ap total e, some_page))
  | inr (p, k, bs, e) ↦
      let r : Represents v.state.area ((p, k) ∷ bs) = rw (← e) wf.area in
      let size = length-le-total 0 ((p, k) ∷ bs) r.ordered in
      let (a, runs, got, refs) =
        alloc_one fuel p k v.state.area bs r (omega (arith, f, size, ap total e)) in
      let got' : Allocated v.state.area v.blocks 1 p a = rw e got in
      (p, given_view v a got'.blocks, rw runs refl, Given-Given v p a wf got')
]

-- A page that was free is mapped at the address with the permissions `flags`, and nothing else
-- changes.
pub record Backed (v w : View) (root la page flags : ℕ) : Type 0 where
  pub wf : Wf w
  pub was_free : is_free page v.blocks ≡ true
  pub contents : SameContents v w
  pub permits : rwxu (entry_of w.state.cell root la) ≡ flags
  pub here : translate w.state.cell root la ≡ some (page + nbase)
  pub elsewhere :
      (root' la' : ℕ)
      → v.level root' ≡ 2
      → UserAddress la'
      → (root' ≢ root) ⊎ (vpn la' ≢ vpn la)
      → translate w.state.cell root' la' ≡ translate v.state.cell root' la'

-- With more rounds than free pages, three of these, and an address of the lower half that is not
-- mapped: `pgdir_alloc_page` maps a page there that was free.
pub pgdir_alloc_page-Backed :
    (fuel : ℕ) (v : View) (root la perm : ℕ)
    → Wf v
    → v.level root ≡ 2
    → UserAddress la
    → total v.blocks < fuel
    → 3 ≤ total v.blocks
    → perm < 1024
    → translate v.state.cell root la ≡ none
    → (page : ℕ) × (w : View) × (pgdir_alloc_page fuel (root * 512) la perm v.state
        ≡ returns (some page, w.state))
      × Backed v w root la page (rwxu perm)
unfolding pgdir_alloc_page
pgdir_alloc_page-Backed fuel v root la perm wf l u f three small e =
    let (page, x, runs, g) = alloc_page-Given fuel v wf f (omega (arith, three)) in
    let l' : x.level root ≡ 2 = ap (λ h. h root) g.levels ∙ l in
    let e' : translate x.state.cell root la ≡ none = rw g.cells e in
    let (r, w, runs2, wf', how) =
      page_insert-Inserted fuel x root la page perm g.wf l' u (omega (arith, f, g.one_less))
        (inr (omega (arith, three, g.one_less))) g.in_use g.no_table small e' in
    elim how [
      | no_memory a b c ↦ absurd (omega (arith, b, three, g.one_less))
      | inserted a m ↦ (
        page,
        w,
        rw (runs, runs2, a) refl,
        record {
          wf = wf';
          was_free = g.was_free;
          contents =
              SameContents-trans v x w g.kept (λ n _. ap (λ h. h n) g.levels)
                (λ c _ _. ap (λ h. h c) g.cells) m.contents;
          here = m.here;
          permits = m.permits;
          elsewhere = λ root' la' l2 u2 other.
              m.elsewhere root' la' (ap (λ h. h root') g.levels ∙ l2) u2 other
              ∙ ap (λ c. translate c root' la') g.cells;
        },
      )
    ]
