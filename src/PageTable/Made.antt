-- ===== src/PageTable/Made.antt =====
-- kern/mm/pmm.c, get_pte: what a new, empty table does to well formed page tables.
use nkucore.Prelude.{
  ℕ, suc, ◌+◌, ◌-◌, ◌*◌, ◌/◌, ◌%◌, ◌≤◌, ◌<◌, ◌≡◌, ◌≢◌, refl, true, ◌&&◌, not, none, some, ◌==◌,
  arith, inl, inr, Bool-cases, ==_iff, ne_of_==,
}
use nkucore.DefaultPmm.Blocks.{total, Represents, is_free}
use nkucore.Paging.{nbase, pdx1, pdx0, ptx, page_ref}
use nkucore.PageTable.Wf.{View, Wf, InUse, Inner, UserAddress, target, follow, read, entry_of}

-- From `v` to `w` the free page `q` became the table of entry `i` of the table `n`.
pub record TableMade (v : View) (n i q : ℕ) (w : View) : Type 0 where
  pub npage : w.state.npage ≡ v.state.npage
  pub swap : w.state.swap_init_ok ≡ v.state.swap_init_ok
  pub area : Represents w.state.area w.blocks
  pub was_even : v.state.cell (n * 512 + i) % 2 ≡ 0
  pub now_odd : w.state.cell (n * 512 + i) % 2 ≡ 1
  pub points : w.state.cell (n * 512 + i) / 1024 ≡ q
  pub zeros : (j : ℕ) → j < 512 → w.state.cell (q * 512 + j) ≡ 0
  pub others : (x : ℕ) → x ≢ n * 512 + i → x / 512 ≢ q → w.state.cell x ≡ v.state.cell x
  pub level_new : suc (w.level q) ≡ v.level n
  pub level_else : (m : ℕ) → m ≢ q → w.level m ≡ v.level m
  pub parent_new : w.parent q ≡ n * 512 + i
  pub parent_else : (m : ℕ) → m ≢ q → w.parent m ≡ v.parent m
  pub from : nbase ≤ q
  pub was_free : is_free (q - nbase) v.blocks ≡ true
  pub now_free : (p : ℕ) → is_free p w.blocks ≡ (is_free p v.blocks && not (p == q - nbase))
  pub refs : (p : ℕ) → p ≢ q - nbase → page_ref p w.state ≡ page_ref p v.state
  pub one_less : total w.blocks + 1 ≡ total v.blocks

target-even : (x : ℕ) → x % 2 ≡ 0 → target x ≡ none
target-even x h = rw h refl

target-odd : (x : ℕ) → x % 2 ≡ 1 → target x ≡ some (x / 1024)
target-odd x h = rw h refl

parity : (x : ℕ) → x % 2 ≢ 1 → x % 2 ≡ 0
parity x h = omega (arith, h)

module _ (v w : View) (n i q : ℕ) (wf : Wf v) (at : Inner v n i) (made : TableMade v n i q w) where
  abbrev cell : ℕ → ℕ
  cell = v.state.cell

  abbrev cell' : ℕ → ℕ
  cell' = w.state.cell

  pub not_new : (m : ℕ) → InUse v m → m ≢ q
  not_new m u e = ground (arith, made.was_free, u.used, e)

  table-not_new : (m : ℕ) → v.level m ≤ 2 → m ≢ q
  table-not_new m l = not_new m (wf.tables m l)

  pub keeps :
      (m j : ℕ)
      → v.level m ≤ 2
      → j < 512
      → m * 512 + j ≢ n * 512 + i
      → cell' (m * 512 + j) ≡ cell (m * 512 + j)
  keeps m j l b h =
      let d : (m * 512 + j) / 512 ≡ m = omega arith in
      made.others (m * 512 + j) h (rw d (table-not_new m l))

  pub keeps-leaf : (t j : ℕ) → v.level t ≡ 0 → j < 512 → cell' (t * 512 + j) ≡ cell (t * 512 + j)
  keeps-leaf t j l b = keeps t j (omega (arith, l)) b (λ h.
      let e : t ≡ n = omega (arith, h, at.index, b) in
      let z : v.level n ≡ 0 = rw (← e) l in omega (arith, z, at.inner))

  -- Below a table of level 1.
  low_same :
      (d j k : ℕ)
      → v.level d ≡ 1
      → j < 512
      → k < 512
      → read (follow (some d) cell' j) cell' k ≡ read (follow (some d) cell j) cell k
  low_same d j k l b c = elim (Bool-cases (d * 512 + j == n * 512 + i)) [
    | inl h ↦
        let e : d * 512 + j ≡ n * 512 + i = (==_iff (d * 512 + j) (n * 512 + i)).0 h in
        rw
          (
            e,
            target-even (cell (n * 512 + i)) made.was_even,
            target-odd (cell' (n * 512 + i)) made.now_odd,
            made.points,
          )
          (made.zeros k c)
    | inr h ↦
        let s = keeps d j (omega (arith, l)) b (ne_of_== _ _ h) in
        elim (Bool-cases (cell (d * 512 + j) % 2 == 1)) [
          | inl o ↦
              let odd = (==_iff (cell (d * 512 + j) % 2) 1).0 o in
              let inner : Inner v d j = record {
                is_table = omega (arith, l);
                inner = omega (arith, l);
                index = b;
                user = λ x. absurd (omega (arith, x, l));
              } in
              let low : v.level (cell (d * 512 + j) / 1024) ≡ 0 =
                omega (arith, wf.levels d j inner odd, l) in
              rw (s, target-odd (cell (d * 512 + j)) odd)
                (keeps-leaf (cell (d * 512 + j) / 1024) k low c)
          | inr o ↦
              let even = parity (cell (d * 512 + j)) (ne_of_== _ _ o) in
              rw (s, target-even (cell (d * 512 + j)) even) refl
        ]
  ]

  pub made-entry_same :
      (root la : ℕ)
      → v.level root ≡ 2
      → UserAddress la
      → entry_of cell' root la ≡ entry_of cell root la
  made-entry_same root la l u =
      let x = root * 512 + pdx1 la in
      let b : pdx1 la < 512 = omega (arith, u) in
      let c : pdx0 la < 512 = omega arith in
      let d : ptx la < 512 = omega arith in
      elim (Bool-cases (x == n * 512 + i)) [
        | inl h ↦
            let e : x ≡ n * 512 + i = (==_iff x (n * 512 + i)).0 h in
            rw
              (
                e,
                target-even (cell (n * 512 + i)) made.was_even,
                target-odd (cell' (n * 512 + i)) made.now_odd,
                made.points,
                made.zeros (pdx0 la) c,
              )
              refl
        | inr h ↦
            let s = keeps root (pdx1 la) (omega (arith, l)) b (ne_of_== _ _ h) in
            elim (Bool-cases (cell x % 2 == 1)) [
              | inl o ↦
                  let odd = (==_iff (cell x % 2) 1).0 o in
                  let inner : Inner v root (pdx1 la) = record {
                    is_table = omega (arith, l);
                    inner = omega (arith, l);
                    index = b;
                    user = λ _. u;
                  } in
                  let low : v.level (cell x / 1024) ≡ 1 =
                    omega (arith, wf.levels root (pdx1 la) inner odd, l) in
                  rw (s, target-odd (cell x) odd)
                    (low_same (cell x / 1024) (pdx0 la) (ptx la) low c d)
              | inr o ↦
                  let even = parity (cell x) (ne_of_== _ _ o) in
                  rw (s, target-even (cell x) even) refl
            ]
      ]
