-- ===== src/PageFault/Slot.antt =====
-- kern/fs/swapfs.c, swapfs_read at the memory as cells: a page gets the contents of a slot.
use nkucore.Prelude.{
  ℕ, ◌+◌, ◌-◌, ◌*◌, ◌/◌, ◌%◌, ◌≤◌, ◌<◌, ◌≡◌, ◌≢◌, ◌∙◌, ap, refl, true, arith, inl, inr, ◌⊎◌, ◌^◌,
  Bool-cases, leb, ltb, ◌==◌, ◌&&◌, false, if◌then◌else◌, ==_iff, ne_of_==, fun_ext, lt→ltb,
  returns, pos,
}
use nkucore.Swap.{swap_offset}
use nkucore.CString.{memcpy}
use nkucore.CString.Blocks.{copied, memcpy-copied}
use nkucore.Paging.Entry.{kaddr-page}
use nkucore.Paging.{nbase}
use nkucore.PageTable.Wf.{View, Wf, InUse}
use nkucore.PageTable.Load.{load}
use nkucore.PageFault.{read_slot}

-- The cell where the slot of an entry begins.
abbrev pub slot_of : (ide e : ℕ) → ℕ
slot_of ide e = ide + e / 2 ^ 8 * 512

-- The cells of a slot, which lie in pages in use that are no tables, as those of the kernel's image.
abbrev pub content_of : (ide e : ℕ) → View → ℕ → ℕ
content_of ide e v i = v.state.cell (slot_of ide e + i)

pub record IsSlot (ide max_swap_offset e : ℕ) (v : View) : Type 0 where
  pub low : 0 < e / 2 ^ 8
  pub high : e / 2 ^ 8 < max_swap_offset
  pub used : (i : ℕ) → i < 512 → InUse v ((slot_of ide e + i) / 512)
  pub no_table : (i : ℕ) → i < 512 → 2 < v.level ((slot_of ide e + i) / 512)

-- A slot that shares no cell with the page: its first cell lies behind the page's, or it ends before.
before_or_behind :
    (src p : ℕ)
    → ((i : ℕ) → i < 512 → (src + i) / 512 ≢ p)
    → (p * 512 ≤ src) ⊎ (src + 512 ≤ p * 512)
before_or_behind src p h = elim (Bool-cases (leb (p * 512) src)) [
  | inl y ↦ inl (ground (arith, y))
  | inr n ↦ elim (Bool-cases (leb (src + 512) (p * 512))) [
    | inl y ↦ inr (ground (arith, y))
    | inr m ↦
        let l : src < p * 512 = ground (arith, n) in
        let k : p * 512 < src + 512 = ground (arith, m) in
        absurd (h (p * 512 - src) (omega (arith, l, k)) (omega (arith, l)))
  ]
]

load_cell :
    (src p a : ℕ) (m : ℕ → ℕ)
    → copied (p * 512) src 512 m a ≡ (if a / 512 == p then m (src + a % 512) else m a)
load_cell src p a m = elim (Bool-cases (a / 512 == p)) [
  | inl h ↦
      let e : a / 512 ≡ p = (==_iff (a / 512) p).0 h in
      let l : leb (p * 512) a ≡ true = ground (arith, e) in
      let u : ltb a (p * 512 + 512) ≡ true = ground (arith, e) in
      let o : a - p * 512 ≡ a % 512 = omega (arith, e) in rw (h, l, u, o) refl
  | inr h ↦
      let e : a / 512 ≢ p = ne_of_== _ _ h in
      let out : (leb (p * 512) a && ltb a (p * 512 + 512)) ≡ false = grind (arith, e) in
      rw (h, out) refl
]

-- Reading a slot loads the page with its cells.
pub read_slot-load :
    (ide max_swap_offset e page : ℕ) (y : View)
    → Wf y
    → page + nbase < y.state.npage
    → 0 < e / 2 ^ 8
    → e / 2 ^ 8 < max_swap_offset
    → ((i : ℕ) → i < 512 → (slot_of ide e + i) / 512 ≢ page + nbase)
    → read_slot ide max_swap_offset e page y.state
      ≡ returns (pos 0, load (content_of ide e y) page y.state)
unfolding read_slot swap_offset
read_slot-load ide max_swap_offset e page y wf below low high apart =
    let src = slot_of ide e in
    let moved =
      memcpy-copied ((page + nbase) * 512) src 512 y.state.cell
        (before_or_behind src (page + nbase) apart) in
    let cells : memcpy ((page + nbase) * 512) src 512 y.state.cell
        ≡ (load (content_of ide e y) page y.state).cell =
      moved ∙ fun_ext (λ a. load_cell src (page + nbase) a y.state.cell) in
    rw
      (
        lt→ltb 0 (e / 2 ^ 8) low,
        lt→ltb (e / 2 ^ 8) max_swap_offset high,
        kaddr-page y.state.npage wf.bound page below,
      )
      (ap (λ c. returns (pos 0, record y.state { cell = c })) cells)
