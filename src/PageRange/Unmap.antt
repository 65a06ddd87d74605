-- ===== src/PageRange/Unmap.antt =====
-- kern/mm/pmm.c: unmap_range takes the mappings of a range away.
use nkucore.Prelude.{
  ℕ, suc, ◌+◌, ◌/◌, ◌%◌, ◌^◌, ◌≤◌, ◌<◌, ◌≡◌, ◌≢◌, ◌⊎◌, ◌∙◌, ap, refl, sym, none, some, arith, inl,
  inr, Bool-cases, ◌==◌, ==_iff, ne_of_==,
}
use native.Mathlib.Decide.{dec_lt}
use nkucore.Vmm.{user_top}
use nkucore.Paging.{nbase, ptx, pdx1, pdx0, page_ref}
use nkucore.PageTable.Wf.{View, Wf, UserAddress, translate, table}
use nkucore.PageTable.Write.{vpn}
use nkucore.PageTable.Remove.{Removed}

-- Every page that is mapped in the range has more than `k` references.
abbrev pub Refs : (k : ℕ) → View → (root start end_ : ℕ) → Type 0
Refs k v root start end_ =
    (la p : ℕ)
    → start ≤ la
    → la < end_
    → translate v.state.cell root la ≡ some (p + nbase)
    → (k < page_ref p v.state) × (page_ref p v.state < 2 ^ 32)

-- The page of an address lies outside of the range, or it is another directory.
abbrev pub Outside : (root start end_ root' la' : ℕ) → Type 0
Outside root start end_ root' la' =
    (root' ≢ root) ⊎ ((vpn la' < start / 4096) ⊎ (end_ / 4096 ≤ vpn la'))

-- No address of the range is mapped any more, and no other mapping changed.
pub record Unmapped (v w : View) (root start end_ : ℕ) : Type 0 where
  pub wf : Wf w
  pub levels : w.level ≡ v.level
  pub gone : (la : ℕ) → start ≤ la → la < end_ → translate w.state.cell root la ≡ none
  pub elsewhere :
      (root' la' : ℕ)
      → v.level root' ≡ 2
      → UserAddress la'
      → Outside root start end_ root' la'
      → translate w.state.cell root' la' ≡ translate v.state.cell root' la'

-- Addresses of one page, and of one lowest table.
pub same_page :
    (cell : ℕ → ℕ) (root a b : ℕ)
    → a / 4096 ≡ b / 4096
    → translate cell root a ≡ translate cell root b
same_page cell root a b e =
    let p : pdx1 a ≡ pdx1 b = omega (arith, e) in
    let q : pdx0 a ≡ pdx0 b = omega (arith, e) in
    let r : ptx a ≡ ptx b = omega (arith, e) in rw (p, q, r) refl

pub same_table :
    (cell : ℕ → ℕ) (root a b : ℕ)
    → a / 2 ^ 21 ≡ b / 2 ^ 21
    → table cell root b ≡ none
    → translate cell root a ≡ none
same_table cell root a b e h =
    let p : pdx1 a ≡ pdx1 b = omega (arith, e) in
    let q : pdx0 a ≡ pdx0 b = omega (arith, e) in
    let t : table cell root a ≡ none = rw (p, q) h in rw t refl

-- One round, up to `next`: what is mapped there is gone, and `k` references are left.
pub record Round (k : ℕ) (v w : View) (root start next end_ : ℕ) : Type 0 where
  pub unmapped : Unmapped v w root start next
  pub refs : Refs k w root next end_

pub Refs-less :
    (k : ℕ) (v : View) (root start next end_ : ℕ)
    → start ≤ next
    → Refs (suc k) v root start end_
    → Refs k v root next end_
Refs-less k v root start next end_ l h =
    λ la p a b e. let r = h la p (omega (arith, a, l)) b e in (omega (arith, r.0), r.1)

pub nothing-Round :
    (k : ℕ) (v : View) (root start next end_ : ℕ)
    → Wf v
    → start ≤ next
    → Refs (suc k) v root start end_
    → ((la : ℕ) → start ≤ la → la < next → translate v.state.cell root la ≡ none)
    → Round k v v root start next end_
nothing-Round k v root start next end_ wf l h n = record {
  unmapped = record { wf = wf; levels = refl; gone = n; elsewhere = λ root' la' l u o. refl };
  refs = Refs-less k v root start next end_ l h;
}

pub removed-Round :
    (k : ℕ) (v w : View) (root start end_ page : ℕ)
    → v.level root ≡ 2
    → start % 4096 ≡ 0
    → start < end_
    → end_ ≤ user_top
    → Refs (suc k) v root start end_
    → Removed v w root start page
    → Round k v w root start (start + 4096) end_
removed-Round k v w root start end_ page l a s t h r = record {
  unmapped = record {
    wf = r.wf;
    levels = r.levels;
    gone = λ la x y. same_page w.state.cell root la start (omega (arith, x, y, a)) ∙ r.here;
    elsewhere = λ root' la' l' u o. r.elsewhere root' la' l' u (elim o [
      | inl n ↦ inl n
      | inr m ↦ inr (λ e. elim m [
        | inl b ↦ omega (arith, b, e, s, t, a)
        | inr b ↦ omega (arith, b, e, s, t, a)
      ])
    ]);
  };
  refs = λ la p x y e.
      let old =
        r.elsewhere root la l (omega (arith, y, t)) (inr (λ q. omega (arith, q, x, y, t, a))) in
      let c = h la p (omega (arith, x)) y (sym old ∙ e) in
      elim (Bool-cases (p == page)) [
        | inl q ↦
            let is : p ≡ page = (==_iff p page).0 q in
            let n : page_ref p w.state + 1 ≡ page_ref p v.state = rw is r.count in
            (omega (arith, n, c.0), omega (arith, n, c.1))
        | inr q ↦
            let n = r.counts p (ne_of_== p page q) in (omega (arith, n, c.0), omega (arith, n, c.1))
      ];
}

pub Unmapped-trans :
    (v w x : View) (root start next end_ : ℕ)
    → v.level root ≡ 2
    → start ≤ next
    → next ≤ end_
    → next % 4096 ≡ 0
    → end_ ≤ user_top
    → Unmapped v w root start next
    → Unmapped w x root next end_
    → Unmapped v x root start end_
Unmapped-trans v w x root start next end_ l a b z t f g = record {
  wf = g.wf;
  levels = g.levels ∙ f.levels;
  gone = λ la p q. elim (dec_lt la next) [
    | yes y ↦
        g.elsewhere root la (ap (λ h. h root) f.levels ∙ l) (omega (arith, q, t))
          (inr (inl (omega (arith, y, z, q, t))))
        ∙ f.gone la p y
    | no n ↦ g.gone la (omega (arith, n)) q
  ];
  elsewhere = λ root' la' l' u o.
      g.elsewhere root' la' (ap (λ h. h root') f.levels ∙ l') u (elim o [
        | inl n ↦ inl n
        | inr m ↦ elim m [ inl c ↦ inr (inl (omega (arith, c, a))) | inr c ↦ inr (inr c) ]
      ])
      ∙ f.elsewhere root' la' l' u (elim o [
        | inl n ↦ inl n
        | inr m ↦ elim m [ inl c ↦ inr (inl c) | inr c ↦ inr (inr (omega (arith, c, b))) ]
      ]);
}
