-- ===== src/PageTable/Remove.antt =====
-- kern/mm/pmm.c: page_remove takes one mapping of a page away.
use nkucore.Prelude.{
  ℕ, ◌+◌, ◌-◌, ◌*◌, ◌/◌, ◌%◌, ◌^◌, ◌<◌, ◌≡◌, ◌≢◌, ◌∙◌, ◌⊎◌, ap, refl, sym, none, some, arith,
  update_self, update_ne, returns, has_flag-even, has_flag-odd, ==_ne,
}
use nkucore.DefaultPmm.{Page, uint}
use nkucore.DefaultPmm.Blocks.{Represents-ref}
use nkucore.Paging.{nbase, ptx, page_ref, page_ref_dec, set_page_ref}
use nkucore.Paging.Entry.{pa2page-entry}
use nkucore.PageTable.{page_remove, page_remove_pte, set_cell}
use nkucore.PageTable.Wf.{View, Wf, UserAddress, translate, target-none, target-some}
use nkucore.PageTable.Walk.{get_pte-leaf, leaf_case, no_leaf, at_leaf}
use nkucore.PageTable.Write.{Written, written-Wf, written-target, written-others, vpn}

-- The mapping of the address is gone, and no other; its page has one reference less.
pub record Removed (v w : View) (root la page : ℕ) : Type 0 where
  pub wf : Wf w
  pub levels : w.level ≡ v.level
  pub here : translate w.state.cell root la ≡ none
  pub elsewhere :
      (root' la' : ℕ)
      → v.level root' ≡ 2
      → UserAddress la'
      → (root' ≢ root) ⊎ (vpn la' ≢ vpn la)
      → translate w.state.cell root' la' ≡ translate v.state.cell root' la'
  pub count : page_ref page w.state + 1 ≡ page_ref page v.state
  pub counts : (p : ℕ) → p ≢ page → page_ref p w.state ≡ page_ref p v.state

-- An address that is not mapped: `page_remove` changes nothing.
pub page_remove-none :
    (fuel : ℕ) (v : View) (root la : ℕ)
    → Wf v
    → v.level root ≡ 2
    → UserAddress la
    → translate v.state.cell root la ≡ none
    → page_remove fuel (root * 512) la v.state ≡ returns v.state
unfolding page_remove page_remove_pte
page_remove-none fuel v root la wf l u h =
    let got = get_pte-leaf v root la wf l u fuel in
    elim (leaf_case v root la wf l u) [
      | no_leaf e f ↦ rw (got, e) refl
      | at_leaf t z e f ↦
          let pte = v.state.cell (t * 512 + ptx la) in
          rw (got, e, has_flag-even pte (target-none pte (sym f ∙ h))) refl
    ]

removed_view : (page e : ℕ) → View → View
unfolding page_ref_dec set_page_ref
removed_view page e v = record v { state = set_cell e 0 (page_ref_dec page v.state) }

-- An address that is mapped to a page with another reference: `page_remove` takes the mapping away,
-- that of no other page of any directory, the page has one reference less and is not freed, and the
-- tables stay well formed.
pub page_remove-Removed :
    (fuel : ℕ) (v : View) (root la page : ℕ)
    → Wf v
    → v.level root ≡ 2
    → UserAddress la
    → translate v.state.cell root la ≡ some (page + nbase)
    → 1 < page_ref page v.state
    → page_ref page v.state < 2 ^ 32
    → (w : View) × (page_remove fuel (root * 512) la v.state ≡ returns w.state)
      × Removed v w root la page
unfolding page_remove page_remove_pte removed_view page_ref_dec set_page_ref
page_remove-Removed fuel v root la page wf l u h two small =
    let got = get_pte-leaf v root la wf l u fuel in
    elim (leaf_case v root la wf l u) [
      | no_leaf e f ↦ ground (arith, h, f)
      | at_leaf t z e f ↦
          let pte = v.state.cell (t * 512 + ptx la) in
          let odd : pte % 2 ≡ 1 = (target-some pte (page + nbase) (sym f ∙ h)).0 in
          let at : pte / 1024 ≡ page + nbase = (target-some pte (page + nbase) (sym f ∙ h)).1 in
          let m = wf.mapped t (ptx la) z (omega arith) odd in
          let p : pte / 1024 - nbase ≡ page = omega (arith, at) in
          let ref' : ℕ = uint (page_ref page v.state + (2 ^ 32 - 1)) in
          let some_left : ref' ≢ 0 = omega (arith, two, small) in
          let w = removed_view page (t * 512 + ptx la) v in
          let same : page_ref page w.state ≡ ref' =
            ap Page.ref (
              update_self v.state.area.page page
                (record (v.state.area.page page) { ref = ref' })) in
          let wr : Written v t (ptx la) 0 w = record {
            npage = refl;
            swap = refl;
            blocks = refl;
            level = refl;
            parent = refl;
            area = Represents-ref v.state.area v.blocks page ref' wf.area;
            self = update_self v.state.cell (t * 512 + ptx la) 0;
            others = λ x g. update_ne v.state.cell (t * 512 + ptx la) x 0 g;
          } in
          (
            w,
            rw
                (
                  got,
                  e,
                  has_flag-odd pte odd,
                  pa2page-entry v.state.npage wf.bound pte m.0.from m.0.below,
                  p,
                )
                (rw (==_ne (page_ref page w.state) 0 (rw same some_left)) refl),
            record {
              wf =
                  written-Wf v w t (ptx la) 0 wf z (omega arith) wr
                    (λ o. absurd (omega (arith, o)));
              levels = refl;
              here = written-target v w t 0 root la wf l u e wr;
              elsewhere = written-others v w t 0 root la wf l u e wr;
              count = omega (arith, same, two, small);
              counts = λ q g. ap Page.ref (update_ne v.state.area.page page q _ g);
            },
          )
    ]
