-- ===== src/PageRange/Loop.antt =====
-- kern/mm/pmm.c: the loop of unmap_range.
use nkucore.Prelude.{
  ℕ, zero, suc, ◌+◌, ◌-◌, ◌*◌, ◌/◌, ◌%◌, ◌^◌, ◌≤◌, ◌<◌, ◌≡◌, ◌≢◌, ◌∙◌, ap, refl, sym, true, false,
  none, some, arith, inl, inr, Bool-cases, returns, has_flag-even, word, page_size, ◌==◌, ==_iff,
  ==_ne, ne_of_==, if◌then◌else◌, round_down,
}
use nkucore.Vmm.{user_access, user_top}
use nkucore.Paging.{nbase, ptx}
use nkucore.PageTable.{page_remove, page_remove_pte, get_pte}
use nkucore.PageTable.Wf.{View, Wf, UserAddress, translate, target}
use nkucore.PageTable.Walk.{get_pte-leaf, leaf_case, no_leaf, at_leaf}
use nkucore.PageTable.Remove.{page_remove-Removed}
use nkucore.PageRange.{unmap_range, unmap_loop, next_table, goes_on}
use nkucore.PageRange.Unmap.{
  Refs, Unmapped, Round, same_page, same_table, nothing-Round, removed-Round, Unmapped-trans,
}

next_table-ahead :
    (start : ℕ) → start % 4096 ≡ 0 → start < user_top → start + 4096 ≤ next_table start
unfolding round_down
next_table-ahead start a h = omega arith

next_table-aligned : (start : ℕ) → start < user_top → next_table start % 4096 ≡ 0
unfolding round_down
next_table-aligned start h = omega arith

next_table-same :
    (start la : ℕ)
    → start < user_top
    → start ≤ la
    → la < next_table start
    → la / 2 ^ 21 ≡ start / 2 ^ 21
unfolding round_down
next_table-same start la h l u = omega (arith, h, l, u)

removed_by_pte :
    (fuel pgdir la e : ℕ) (v : View)
    → get_pte fuel pgdir la false v.state ≡ returns (some e, v.state)
    → page_remove fuel pgdir la v.state ≡ page_remove_pte fuel e v.state
unfolding page_remove
removed_by_pte fuel pgdir la e v got = rw got refl

unchanged :
    (fuel e : ℕ) (v : View)
    → v.state.cell e % 2 ≡ 0
    → (if v.state.cell e == 0 then returns v.state else page_remove_pte fuel e v.state)
      ≡ returns v.state
unfolding page_remove_pte
unchanged fuel e v even = rw (has_flag-even (v.state.cell e) even) (ground arith)

module _ (fuel root end_ : ℕ) (aligned_end : end_ % 4096 ≡ 0) (top : end_ ≤ user_top) where
  -- One round at an entry of a lowest table.
  page-Round :
      (k start t : ℕ) (v : View)
      → Wf v
      → v.level root ≡ 2
      → start % 4096 ≡ 0
      → start < end_
      → Refs (suc k) v root start end_
      → v.level t ≡ 0
      → get_pte fuel (root * 512) start false v.state
        ≡ returns (some (t * 512 + ptx start), v.state)
      → translate v.state.cell root start ≡ target (v.state.cell (t * 512 + ptx start))
      → (w : View) × ((if v.state.cell (t * 512 + ptx start) == 0
            then returns v.state
            else page_remove_pte fuel (t * 512 + ptx start) v.state)
          ≡ returns w.state)
        × Round k v w root start (start + 4096) end_
  page-Round k start t v wf l a s refs z got q =
      let e = t * 512 + ptx start in
      let pte = v.state.cell e in
      elim (Bool-cases (pte % 2 == 1)) [
        | inl h ↦
            let odd : pte % 2 ≡ 1 = (==_iff (pte % 2) 1).0 h in
            let m = wf.mapped t (ptx start) z (omega arith) odd in
            let page = pte / 1024 - nbase in
            let back : pte / 1024 ≡ page + nbase = omega (arith, m.0.from) in
            let some_page : target pte ≡ some (page + nbase) = rw odd (ap some back) in
            let c = refs start page (omega arith) s (q ∙ some_page) in
            let (w, runs, r) =
              page_remove-Removed fuel v root start page wf l (omega (arith, s, top))
                (q ∙ some_page) (omega (arith, c.0)) c.1 in
            let not_zero : pte ≢ 0 = λ x. omega (arith, odd, x) in
            (
              w,
              rw (==_ne pte 0 not_zero)
                  (sym (removed_by_pte fuel (root * 512) start e v got) ∙ runs),
              removed-Round k v w root start end_ page l a s top refs r,
            )
        | inr h ↦
            let even : pte % 2 ≡ 0 = omega (arith, ne_of_== _ _ h) in
            let gone : target pte ≡ none = rw even refl in
            (
              v,
              unchanged fuel e v even,
              nothing-Round k v root start (start + 4096) end_ wf (omega arith) refs (λ la x y.
                  same_page v.state.cell root la start (omega (arith, x, y, a)) ∙ q ∙ gone),
            )
      ]

  -- What a loop comes to from `start` on.
  abbrev Ends : (k start : ℕ) → View → Type 0
  Ends k start v =
      (x : View) × (unmap_loop k fuel (root * 512) start end_ v.state ≡ returns x.state)
      × Unmapped v x root start end_

  next-Round :
      (k start next : ℕ) (v w : View)
      → v.level root ≡ 2
      → start ≤ next
      → 0 < next
      → next ≤ end_
      → next % 4096 ≡ 0
      → Unmapped v w root start next
      → (next < end_ → Ends k next w)
      → (x : View) × ((if goes_on next end_
            then unmap_loop k fuel (root * 512) next end_ w.state
            else returns w.state)
          ≡ returns x.state)
        × Unmapped v x root start end_
  next-Round k start next v w l a p b z u ih = elim (Bool-cases (goes_on next end_)) [
    | inl m ↦
        let (x, runs, r) = ih (ground (arith, m)) in
        (x, rw m runs, Unmapped-trans v w x root start next end_ l a b z top u r)
    | inr m ↦ let e : next ≡ end_ = ground (arith, m, b, p) in (w, rw m refl, rw e at u)
  ]

  unmap_loop-Unmapped :
      (rounds start : ℕ) (v : View)
      → Wf v
      → v.level root ≡ 2
      → start % 4096 ≡ 0
      → start < end_
      → end_ ≤ start + rounds * 4096
      → Refs rounds v root start end_
      → Ends rounds start v
  unfolding unmap_loop
  unmap_loop-Unmapped zero start v wf l a s f refs = absurd (omega (arith, s, f))
  unmap_loop-Unmapped (suc k) start v wf l a s f refs =
      let u : UserAddress start = omega (arith, s, top) in
      let got = get_pte-leaf v root start wf l u fuel in
      elim (leaf_case v root start wf l u) [
        | no_leaf e q ↦
            let next = next_table start in
            let ahead = next_table-ahead start a (omega (arith, s, top)) in
            let gone : (la : ℕ) → start ≤ la → la < next → translate v.state.cell root la ≡ none =
              λ la x y.
                same_table v.state.cell root la start
                  (next_table-same start la (omega (arith, s, top)) x y) e in
            elim (Bool-cases (goes_on next end_)) [
              | inl m ↦
                  let on : next < end_ = ground (arith, m) in
                  let z = next_table-aligned start (omega (arith, s, top)) in
                  let r =
                    nothing-Round k v root start next end_ wf (omega (arith, ahead)) refs gone in
                  let (x, runs, g) =
                    unmap_loop-Unmapped k next v wf l z on (omega (arith, f, ahead)) r.refs in
                  (
                    x,
                    rw (got, e, m) runs,
                    Unmapped-trans v v x root start next end_ l (omega (arith, ahead))
                        (omega (arith, on)) z top r.unmapped g,
                  )
              | inr m ↦
                  let past : end_ ≤ next = ground (arith, m, ahead) in
                  let r =
                    nothing-Round k v root start end_ end_ wf (omega (arith, s)) refs
                      (λ la x y. gone la x (omega (arith, y, past))) in
                  (v, rw (got, e, m) refl, r.unmapped)
            ]
        | at_leaf t z e q ↦
            let (w, runs, r) = page-Round k start t v wf l a s refs z (rw e at got) q in
            let lw : w.level root ≡ 2 = ap (λ h. h root) r.unmapped.levels ∙ l in
            let (x, runs2, g) =
              next-Round k start (start + 4096) v w l (omega arith) (omega arith)
                (omega (arith, s, a, aligned_end)) (omega (arith, a)) r.unmapped
                (λ on.
                  unmap_loop-Unmapped k (start + 4096) w r.unmapped.wf lw (omega (arith, a)) on
                    (omega (arith, f)) r.refs) in
            let at : word (start + page_size) ≡ start + 4096 = omega (arith, s, top) in
            (x, rw (got, e, runs, at) runs2, g)
      ]

-- With at least as many rounds as the range of user addresses has pages, and where every page that
-- is mapped in it has more references than there are rounds, so that none is freed: `unmap_range`
-- returns, no address of the range is mapped any more, every other page of every directory stays as
-- it was, and the tables stay well formed.
pub unmap_range-Unmapped :
    (rounds fuel root start end_ : ℕ) (v : View)
    → Wf v
    → v.level root ≡ 2
    → start % 4096 ≡ 0
    → end_ % 4096 ≡ 0
    → user_access start end_ ≡ true
    → end_ ≤ start + rounds * 4096
    → Refs rounds v root start end_
    → (x : View) × (unmap_range rounds fuel (root * 512) start end_ v.state ≡ returns x.state)
      × Unmapped v x root start end_
unfolding unmap_range user_access
unmap_range-Unmapped rounds fuel root start end_ v wf l a b access f refs =
    let (x, runs, u) =
      unmap_loop-Unmapped fuel root end_ b (ground (arith, access)) rounds start v wf l a
        (ground (arith, access)) f refs in
    (x, rw (a, b, access) runs, u)
