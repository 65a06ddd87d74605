-- ===== src/PageTable/Make.antt =====
-- kern/mm/pmm.c, get_pte: one of its two blocks that find or make a table.
use nkucore.Prelude.{
  ℕ, ◌+◌, ◌-◌, ◌*◌, ◌%◌, ◌^◌, ◌≤◌, ◌<◌, ◌≡◌, ◌≢◌, ◌∙◌, ap, refl, Bool, true, false, [], ◌∷◌, ◌==◌,
  ◌⊎◌, arith, inl, inr, Bool-cases, ==_iff, ne_of_==, returns, length, update, update_self,
  update_ne, has_flag-odd, has_flag-even,
}
use nkucore.DefaultPmm.{Page, Area}
use nkucore.DefaultPmm.Blocks.{Blocks, total, Represents, is_free, length-le-total, Represents-ref}
use nkucore.DefaultPmm.Alloc.{Allocated, alloc_one, alloc_none}
use nkucore.Paging.{Paging, nbase, alloc_pages, set_page_ref, pte_create, pte_u, pte_v, page2ppn}
use nkucore.Paging.Entry.{pte_create-high, pte_create-odd, page2ppn-sum, kaddr-page}
use nkucore.PageTable.{make_table, clear_page, set_cell}
use nkucore.PageTable.Wf.{View, Wf, Inner, Grows, Roomy}
use nkucore.PageTable.Made.{TableMade}
use nkucore.PageTable.MadeWf.{made-Grows}
use nkucore.PageTable.Grow.{Grows-refl, Grows-weaken}

-- The state after page `p` has become the table of entry `e`, with `a` as the new free area.
new_state : (e p : ℕ) → Area → Paging → Paging
unfolding set_page_ref clear_page pte_create
new_state e p a s =
    let s1 = set_page_ref p 1 (record s { area = a }) in
    set_cell e (pte_create (page2ppn p) (pte_u + pte_v))
      (record s1 { cell = clear_page ((p + nbase) * 512) s1.cell })

new_view : (n i p : ℕ) → Area → Blocks → View → View
unfolding new_state
new_view n i p a bs v = record {
  state = new_state (n * 512 + i) p a v.state;
  blocks = bs;
  level = update v.level (p + nbase) (v.level n - 1);
  parent = update v.parent (p + nbase) (n * 512 + i);
}

pub Blocks-cases : (bs : Blocks) → (bs ≡ []) ⊎ ((p k : ℕ) × (cs : Blocks) × (bs ≡ (p, k) ∷ cs))
Blocks-cases [] = inl refl
Blocks-cases ((p, k) ∷ bs) = inr (p, k, bs, refl)

module _ (v : View) (n i : ℕ) (wf : Wf v) (at : Inner v n i) where
  abbrev entry : ℕ
  entry = n * 512 + i

  new-TableMade :
      (p : ℕ) (a : Area) (got : Allocated v.state.area v.blocks 1 p a)
      → ((q : ℕ) → (a.page q).ref ≡ (v.state.area.page q).ref)
      → v.state.cell entry % 2 ≡ 0
      → TableMade v n i (p + nbase) (new_view n i p a got.blocks v)
  unfolding new_view new_state set_page_ref clear_page
  new-TableMade p a got refs even =
      let free : is_free p v.blocks ≡ true = got.were_free p (ground arith) in
      let below = wf.free_below p free in
      let e : p + nbase - nbase ≡ p = omega arith in
      let ne : n ≢ p + nbase = λ x. ground (arith, free, (wf.tables n at.is_table).used, x, e) in
      let b : p + nbase < 2 ^ 50 = omega (arith, below, wf.bound) in
      let q : page2ppn p ≡ p + nbase = page2ppn-sum v.state.npage wf.bound p below in
      record {
        npage = refl;
        swap = refl;
        area = Represents-ref a got.blocks p 1 got.represents;
        was_even = even;
        now_odd =
            rw (update_self _ entry (pte_create (page2ppn p) (pte_u + pte_v)))
              (pte_create-odd (page2ppn p) 17);
        points =
            rw (update_self _ entry (pte_create (page2ppn p) (pte_u + pte_v)), q)
              (pte_create-high (p + nbase) 17 b (omega arith));
        zeros = λ j h.
            let x : (p + nbase) * 512 + j ≢ entry = λ y. ne (omega (arith, y, h, at.index)) in
            ground (arith, x);
        others = λ x h g. ground (arith, h, g);
        level_new = rw (update_self v.level (p + nbase) (v.level n - 1)) (omega (arith, at.inner));
        level_else = λ m h. update_ne v.level (p + nbase) m (v.level n - 1) h;
        parent_new = update_self v.parent (p + nbase) entry;
        parent_else = λ m h. update_ne v.parent (p + nbase) m entry h;
        from = omega arith;
        was_free = rw e free;
        now_free = λ c. rw e (ground (arith, got.now_free c));
        refs = λ c h.
            ap Page.ref
              (update_ne a.page p c (record (a.page p) { ref = 1 }) (λ x. h (omega (arith, x))))
            ∙ refs c;
        one_less = omega (arith, got.nr_free_left, got.represents.count, wf.area.count);
      }

  -- What `make_table` comes to: the entry is valid, or no page was free.
  pub data Made (w : View) (ok : Bool) : Type 0 where
    made : ok ≡ true → w.state.cell entry % 2 ≡ 1 → Made w ok
    no_memory : ok ≡ false → total v.blocks ≡ 0 → Made w ok

  make-page :
      (fuel p k : ℕ) (bs : Blocks)
      → v.blocks ≡ (p, k) ∷ bs
      → v.state.cell entry % 2 ≡ 0
      → total v.blocks < fuel
      → (w : View) × (make_table fuel true entry v.state ≡ returns (true, w.state))
        × Grows 1 v w
        × Made w true
  unfolding make_table alloc_pages new_view new_state
  make-page fuel p k bs e even f =
      let r : Represents v.state.area ((p, k) ∷ bs) = rw (← e) wf.area in
      let n' : length ((p, k) ∷ bs) ≤ total ((p, k) ∷ bs) =
        length-le-total 0 ((p, k) ∷ bs) r.ordered in
      let (a, runs, got, refs) =
        alloc_one fuel p k v.state.area bs r (omega (arith, f, n', ap total e)) in
      let got' : Allocated v.state.area v.blocks 1 p a = rw e got in
      let t = new-TableMade p a got' refs even in
      let g = made-Grows v (new_view n i p a got'.blocks v) n i (p + nbase) wf at t in
      let at' =
        kaddr-page v.state.npage wf.bound p (wf.free_below p (got'.were_free p (ground arith))) in
      (
        new_view n i p a got'.blocks v,
        rw (has_flag-even (v.state.cell entry) even, runs, at') refl,
        g,
        made refl t.now_odd,
      )

  -- With more rounds than free pages, and a free page unless running out may fail.
  pub make_table_lem :
      (fuel : ℕ)
      → total v.blocks < fuel
      → Roomy 1 v
      → (ok : Bool) × (w : View) × (make_table fuel true entry v.state ≡ returns (ok, w.state))
        × Grows 1 v w
        × Made w ok
  unfolding make_table alloc_pages
  make_table_lem fuel f room = elim (Bool-cases (v.state.cell entry % 2 == 1)) [
    | inl h ↦
        let odd = (==_iff (v.state.cell entry % 2) 1).0 h in
        (
          true,
          v,
          rw (has_flag-odd (v.state.cell entry) odd) refl,
          Grows-weaken 0 1 v v (omega arith) (Grows-refl v wf),
          made refl odd,
        )
    | inr h ↦
        let even : v.state.cell entry % 2 ≡ 0 = omega (arith, ne_of_== _ _ h) in
        elim (Blocks-cases v.blocks) [
          | inl e ↦
              let z : total v.blocks ≡ 0 = rw e refl in
              let r : Represents v.state.area [] = rw (← e) wf.area in
              let l : length v.blocks < fuel = rw e (omega (arith, f)) in
              let swap : v.state.swap_init_ok ≡ false = elim room [
                | inl s ↦ s
                | inr g ↦ absurd (omega (arith, g, z))
              ] in
              let runs = alloc_none fuel 1 v.state.area [] r (omega arith) (omega (arith, f)) tt in
              (
                false,
                v,
                rw (has_flag-even (v.state.cell entry) even, runs, swap) refl,
                Grows-weaken 0 1 v v (omega arith) (Grows-refl v wf),
                no_memory refl z,
              )
          | inr (p, k, bs, e) ↦
              let (w, runs, g, m) = make-page fuel p k bs e even f in (true, w, runs, g, m)
        ]
  ]
