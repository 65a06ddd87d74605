-- ===== src/PageTable/Insert.antt =====
-- kern/mm/pmm.c: page_insert maps a page, or runs out of memory.
use nkucore.Prelude.{
  ℕ, ◌+◌, ◌-◌, ◌*◌, ◌/◌, ◌≤◌, ◌<◌, ◌≡◌, ◌≢◌, ◌∙◌, ◌⊎◌, ap, refl, sym, false, none, some, arith,
  update_self, update_ne, returns, has_flag-even, ℤ, pos,
}
use Prim.Native.Nat.{bit_or}
use nkucore.DefaultPmm.{Page, uint}
use nkucore.DefaultPmm.Blocks.{total, is_free, Represents-ref}
use nkucore.Vmm.{e_no_mem}
use nkucore.Paging.{
  Paging, nbase, ptx, pte_v, pte_create, page2ppn, page_ref, page_ref_inc, set_page_ref,
}
use nkucore.Paging.Entry.{
  pte_create-rwxu, rwxu, pte_create-high, pte_create-odd, page2ppn-sum, bit_or-small,
}
use nkucore.PageTable.{page_insert, release_entry, set_cell}
use nkucore.PageTable.Wf.{
  View, Wf, InUse, SameContents, Grows, Roomy, UserAddress, target, target-none, table, translate,
  entry_of,
}
use nkucore.PageTable.Create.{get_pte-create, found, too_few}
use nkucore.PageTable.Grow.{InUse-Grows, SameContents-trans, Grows-translate}
use nkucore.PageTable.Write.{
  Written, written-Wf, written-target, written-entry_of, written-others, vpn,
}

-- The page is mapped at the address with the permissions `flags` and nowhere else, with its count
-- one more.
pub record Mapped (v w : View) (root la page flags : ℕ) : Type 0 where
  pub here : translate w.state.cell root la ≡ some (page + nbase)
  pub elsewhere :
      (root' la' : ℕ)
      → v.level root' ≡ 2
      → UserAddress la'
      → (root' ≢ root) ⊎ (vpn la' ≢ vpn la)
      → translate w.state.cell root' la' ≡ translate v.state.cell root' la'
  pub permits : rwxu (entry_of w.state.cell root la) ≡ flags
  pub count : page_ref page w.state ≡ uint (page_ref page v.state + 1)
  pub contents : SameContents v w

-- What `page_insert` comes to: the page is mapped, or there was at most one free page and nothing
-- changes for any address.
pub data Inserted (v w : View) (root la page flags : ℕ) (r : ℤ) : Type 0 where
  inserted : r ≡ pos 0 → Mapped v w root la page flags → Inserted v w root la page flags r
  no_memory :
      r ≡ e_no_mem
      → total v.blocks ≤ 1
      → ((root' la' : ℕ)
          → v.level root' ≡ 2
          → UserAddress la'
          → translate w.state.cell root' la' ≡ translate v.state.cell root' la')
      → Inserted v w root la page flags r

-- The state after the entry `e` got the page.
mapped_state : (page perm e : ℕ) → Paging → Paging
unfolding page_ref_inc set_page_ref
mapped_state page perm e s =
    set_cell e (pte_create (page2ppn page) (bit_or pte_v perm)) (page_ref_inc page s)

mapped_view : (page perm e : ℕ) → View → View
unfolding mapped_state
mapped_view page perm e v = record v { state = mapped_state page perm e v.state }

module _ (v : View) (t page perm : ℕ) (wf : Wf v) (below : page + nbase < v.state.npage)
    (small : perm < 1024) where
  abbrev pte : ℕ
  pte = pte_create (page2ppn page) (bit_or pte_v perm)

  pte-page : pte / 1024 ≡ page + nbase
  pte-page = rw (page2ppn-sum v.state.npage wf.bound page below) (
      pte_create-high (page + nbase) (bit_or pte_v perm) (omega (arith, below, wf.bound))
        (bit_or-small pte_v perm (omega arith) small))

  pte-target : target pte ≡ some (page + nbase)
  pte-target = rw (pte_create-odd (page2ppn page) (bit_or pte_v perm), pte-page) refl

  mapped-Written : (j : ℕ) → Written v t j pte (mapped_view page perm (t * 512 + j) v)
  unfolding mapped_view mapped_state page_ref_inc set_page_ref
  mapped-Written j = record {
    npage = refl;
    swap = refl;
    blocks = refl;
    level = refl;
    parent = refl;
    area = Represents-ref v.state.area v.blocks page (uint (page_ref page v.state + 1)) wf.area;
    self = update_self v.state.cell (t * 512 + j) pte;
    others = λ x h. update_ne v.state.cell (t * 512 + j) x pte h;
  }

-- The entry is in place: the rest is one write.
mapped_lem :
    (x : View) (t root la page perm : ℕ)
    → Wf x
    → x.level root ≡ 2
    → UserAddress la
    → table x.state.cell root la ≡ some t
    → x.level t ≡ 0
    → InUse x (page + nbase)
    → 2 < x.level (page + nbase)
    → perm < 1024
    → Wf (mapped_view page perm (t * 512 + ptx la) x)
      × Mapped x (mapped_view page perm (t * 512 + ptx la) x) root la page (rwxu perm)
unfolding mapped_view mapped_state page_ref_inc set_page_ref
mapped_lem x t root la page perm wf l u e z used no_table small =
    let wr = mapped-Written x t page perm wf used.below small (ptx la) in
    let c = pte x t page perm wf used.below small in
    let w = mapped_view page perm (t * 512 + ptx la) x in
    let h = pte-page x t page perm wf used.below small in
    (
      written-Wf x w t (ptx la) c wf z (omega arith) wr (λ _. rw h (used, no_table)),
      record {
        here =
            written-target x w t c root la wf l u e wr
            ∙ pte-target x t page perm wf used.below small;
        elsewhere = written-others x w t c root la wf l u e wr;
        permits =
            ap rwxu (written-entry_of x w t c root la wf l u e wr)
            ∙ pte_create-rwxu (page2ppn page) perm small;
        count = ap Page.ref (update_self x.state.area.page page _);
        contents = λ y u' l'.
            wr.others y
              (λ e'. let n : y / 512 ≡ t = omega (arith, e') in omega (arith, rw n at l', z));
      },
    )

level-kept : (v x : View) (n : ℕ) {k : ℕ} → Wf v → Grows k v x → v.level n ≡ 2 → x.level n ≡ 2
level-kept v x n wf g l = let s = wf.tables n (omega (arith, l)) in g.level_same n s.used s.from ∙ l

-- The same seen from the state before the tables grew.
Mapped-Grows :
    (v x w : View) (root la page flags : ℕ)
    → Wf v
    → Grows 2 v x
    → InUse v (page + nbase)
    → Mapped x w root la page flags
    → Mapped v w root la page flags
Mapped-Grows v x w root la page flags wf g used m =
    let e : page + nbase - nbase ≡ page = omega arith in
    let free : is_free page v.blocks ≡ false = rw e at used.used in
    record {
      here = m.here;
      permits = m.permits;
      elsewhere = λ root' la' l u other.
          m.elsewhere root' la' (level-kept v x root' wf g l) u other
          ∙ Grows-translate 2 v x g root' la' l u;
      contents =
          SameContents-trans v x w (λ n u. InUse-Grows v x n g u)
            (λ n u. g.level_same n u.used u.from) g.contents m.contents;
      count = m.count ∙ ap (λ n. uint (n + 1)) (g.ref_same page free);
    }

pub page_insert-Inserted :
    (fuel : ℕ) (v : View) (root la page perm : ℕ)
    → Wf v
    → v.level root ≡ 2
    → UserAddress la
    → total v.blocks < fuel
    → Roomy 2 v
    → InUse v (page + nbase)
    → 2 < v.level (page + nbase)
    → perm < 1024
    → translate v.state.cell root la ≡ none
    → (r : ℤ) × (w : View) × (page_insert fuel (root * 512) page la perm v.state
        ≡ returns (r, w.state))
      × Wf w
      × Inserted v w root la page (rwxu perm) r
unfolding page_insert release_entry mapped_view mapped_state
page_insert-Inserted fuel v root la page perm wf l u f room used no_table small none_before =
    let (got, x, runs, g, how) = get_pte-create fuel v root la wf l u f room in
    elim how [
      | too_few z e ↦
          (e_no_mem, x, rw (runs, e) refl, g.wf, no_memory refl z (Grows-translate 2 v x g))
      | found t z e tr r ↦
          let c = x.state.cell (t * 512 + ptx la) in
          let even = target-none c (sym tr ∙ Grows-translate 2 v x g root la l u ∙ none_before) in
          let no_table' : 2 < x.level (page + nbase) =
            rw (g.level_same (page + nbase) used.used used.from) no_table in
          let m =
            mapped_lem x t root la page perm g.wf (level-kept v x root wf g l) u e z
              (InUse-Grows v x (page + nbase) g used) no_table' small in
          (
            pos 0,
            mapped_view page perm (t * 512 + ptx la) x,
            rw (runs, r) (rw (has_flag-even c even) refl),
            m.0,
            inserted refl (
                Mapped-Grows v x (mapped_view page perm (t * 512 + ptx la) x) root la page
                  (rwxu perm) wf g used m.1),
          )
    ]
