-- ===== src/PageTable/Grow.antt =====
-- Page tables that grow several times.
use nkucore.Paging.{nbase}
use nkucore.Prelude.{ℕ, ◌/◌, ◌+◌, ◌-◌, ◌≤◌, ◌≡◌, ◌∙◌, sym, ap, refl, arith}
use nkucore.PageTable.Wf.{
  InUse, SameContents, View, Wf, Inner, Grows, UserAddress, target, translate,
}

pub Inner-same : (v w : View) (n i : ℕ) → w.level n ≡ v.level n → Inner v n i → Inner w n i
Inner-same v w n i e inner = record {
  is_table = rw e inner.is_table;
  inner = rw e inner.inner;
  index = inner.index;
  user = λ x. inner.user (sym e ∙ x);
}

pub Grows-refl : (v : View) → Wf v → Grows 0 v v
Grows-refl v wf = record {
  wf = wf;
  npage = refl;
  swap = refl;
  entry_same = λ root la l u. refl;
  entries_same = λ n i inner odd. refl;
  used_same = λ p h. h;
  level_same = λ n h l. refl;
  ref_same = λ p h. refl;
  contents = λ x u l. refl;
  taken = omega arith;
  left = omega arith;
}

pub Grows-weaken : (j k : ℕ) (v w : View) → j ≤ k → Grows j v w → Grows k v w
Grows-weaken j k v w h g = record {
  wf = g.wf;
  npage = g.npage;
  swap = g.swap;
  entry_same = g.entry_same;
  entries_same = g.entries_same;
  used_same = g.used_same;
  level_same = g.level_same;
  ref_same = g.ref_same;
  contents = g.contents;
  taken = omega (arith, g.taken);
  left = g.left;
}

pub SameContents-trans :
    (v w x : View)
    → ((n : ℕ) → InUse v n → InUse w n)
    → ((n : ℕ) → InUse v n → w.level n ≡ v.level n)
    → SameContents v w
    → SameContents w x
    → SameContents v x
SameContents-trans v w x used level a b =
    λ c u l. b c (used (c / 512) u) (rw (level (c / 512) u) l) ∙ a c u l

pub InUse-Grows : (v x : View) (n : ℕ) {k : ℕ} → Grows k v x → InUse v n → InUse x n
InUse-Grows v x n g used = record {
  from = used.from;
  below = rw g.npage used.below;
  used = g.used_same (n - nbase) used.used;
}

pub Grows-trans : (j k : ℕ) (v w x : View) → Wf v → Grows j v w → Grows k w x → Grows (j + k) v x
Grows-trans j k v w x wf g h = record {
  wf = h.wf;
  npage = h.npage ∙ g.npage;
  swap = h.swap ∙ g.swap;
  entry_same = λ root la l a.
      let r = wf.tables root (omega (arith, l)) in
      h.entry_same root la (g.level_same root r.used r.from ∙ l) a ∙ g.entry_same root la l a;
  entries_same = λ n i inner odd.
      let t = wf.tables n inner.is_table in
      let e = g.entries_same n i inner odd in
      h.entries_same n i (Inner-same v w n i (g.level_same n t.used t.from) inner) (rw e odd) ∙ e;
  used_same = λ p f. h.used_same p (g.used_same p f);
  level_same = λ n f l. h.level_same n (g.used_same (n - 0x80000) f) l ∙ g.level_same n f l;
  ref_same = λ p f. h.ref_same p (g.used_same p f) ∙ g.ref_same p f;
  contents =
      SameContents-trans v w x (λ n u. InUse-Grows v w n g u) (λ n u. g.level_same n u.used u.from)
        g.contents h.contents;
  taken = omega (arith, g.taken, h.taken);
  left = omega (arith, g.left, h.left);
}

-- No address gets or loses its page.
pub Grows-translate :
    (k : ℕ) (v w : View)
    → Grows k v w
    → (root la : ℕ) → v.level root ≡ 2
    → UserAddress la
    → translate w.state.cell root la ≡ translate v.state.cell root la
Grows-translate k v w g root la l u = ap target (g.entry_same root la l u)
