-- ===== src/PageTable/Wf.antt =====
-- The page tables of kern/mm/pmm.c as the valid bits of their entries make them, and what it means
-- that they are well formed. A table is named by the number of its physical page.
use nkucore.Prelude.{
  ℕ, suc, ◌+◌, ◌-◌, ◌*◌, ◌/◌, ◌%◌, ◌^◌, ◌≤◌, ◌<◌, ◌≡◌, ◌⊎◌, true, false, Option, none, some, ◌==◌,
  if◌then◌else◌, Bool-cases, inl, inr, ==_iff, ne_of_==, arith,
}
use nkucore.DefaultPmm.Blocks.{Blocks, total, Represents, is_free}
use nkucore.Paging.{Paging, nbase, pdx1, pdx0, ptx, page_ref}

-- The page that an entry points to, if its valid bit is set.
abbrev pub target : ℕ → Option ℕ
target pte = if pte % 2 == 1 then some (pte / 1024) else none

pub target-none : (x : ℕ) → target x ≡ none → x % 2 ≡ 0
target-none x h = elim (Bool-cases (x % 2 == 1)) [
  | inl y ↦ ground (arith, h, y)
  | inr y ↦ omega (arith, ne_of_== (x % 2) 1 y)
]

pub target-some : (x n : ℕ) → target x ≡ some n → (x % 2 ≡ 1) × (x / 1024 ≡ n)
target-some x n h = elim (Bool-cases (x % 2 == 1)) [
  | inl y ↦ ((==_iff (x % 2) 1).0 y, ground (arith, h, y))
  | inr y ↦ ground (arith, h, y)
]

abbrev pub follow : Option ℕ → (ℕ → ℕ) → ℕ → Option ℕ
follow none cell i = none
follow (some t) cell i = target (cell (t * 512 + i))

-- An entry of a table, 0 where there is no table.
abbrev pub read : Option ℕ → (ℕ → ℕ) → ℕ → ℕ
read none cell i = 0
read (some t) cell i = cell (t * 512 + i)

-- The lowest table for an address, its entry, and the page that the address is mapped to.
abbrev pub table : (ℕ → ℕ) → (root la : ℕ) → Option ℕ
table cell root la = follow (follow (some root) cell (pdx1 la)) cell (pdx0 la)

abbrev pub entry_of : (ℕ → ℕ) → (root la : ℕ) → ℕ
entry_of cell root la = read (table cell root la) cell (ptx la)

abbrev pub translate : (ℕ → ℕ) → (root la : ℕ) → Option ℕ
translate cell root la = target (entry_of cell root la)

-- The entry of the lowest table for an address.
abbrev pub slot : Option ℕ → ℕ → Option ℕ
slot none i = none
slot (some t) i = some (t * 512 + i)

abbrev pub leaf : (ℕ → ℕ) → (root la : ℕ) → Option ℕ
leaf cell root la = slot (table cell root la) (ptx la)

-- A state with the blocks of its free pages, the level of each page (2 for a page directory, 1 and
-- 0 for the tables below, 3 for any other page), and the entry that points to a table.
pub record View : Type 0 where
  pub state : Paging
  pub blocks : Blocks
  pub level : ℕ → ℕ
  pub parent : ℕ → ℕ

-- Page `n` is in memory and not free.
pub record InUse (v : View) (n : ℕ) : Type 0 where
  pub from : nbase ≤ n
  pub below : n < v.state.npage
  pub used : is_free (n - nbase) v.blocks ≡ false

-- Entry `i` of the directory or table `n` points to tables. The upper half of a directory maps the
-- kernel and is left out.
pub record Inner (v : View) (n i : ℕ) : Type 0 where
  pub is_table : v.level n ≤ 2
  pub inner : 0 < v.level n
  pub index : i < 512
  pub user : v.level n ≡ 2 → i < 256

-- The tables form a forest below the directories: an entry of a directory or table leads to a table
-- one level down whose one entry it is, and one of the lowest tables to a page that is no table.
pub record Wf (v : View) : Type 0 where
  pub area : Represents v.state.area v.blocks
  pub bound : v.state.npage ≤ 2 ^ 50
  pub free_below : (p : ℕ) → is_free p v.blocks ≡ true → p + nbase < v.state.npage
  pub tables : (n : ℕ) → v.level n ≤ 2 → InUse v n
  pub levels :
      (n i : ℕ)
      → Inner v n i
      → v.state.cell (n * 512 + i) % 2 ≡ 1
      → suc (v.level (v.state.cell (n * 512 + i) / 1024)) ≡ v.level n
  pub parents :
      (n i : ℕ)
      → Inner v n i
      → v.state.cell (n * 512 + i) % 2 ≡ 1
      → v.parent (v.state.cell (n * 512 + i) / 1024) ≡ n * 512 + i
  pub mapped :
      (n i : ℕ)
      → v.level n ≡ 0
      → i < 512
      → v.state.cell (n * 512 + i) % 2 ≡ 1
      → InUse v (v.state.cell (n * 512 + i) / 1024)
        × (2 < v.level (v.state.cell (n * 512 + i) / 1024))

-- `k` pages can be given out, or running out is an ordinary failure since swapping is off.
abbrev pub Roomy : ℕ → View → Type 0
Roomy k v = (v.state.swap_init_ok ≡ false) ⊎ (k ≤ total v.blocks)

-- An address of the lower half.
abbrev pub UserAddress : ℕ → Type 0
UserAddress la = pdx1 la < 256

-- The pages in use that are no tables keep their contents.
abbrev pub SameContents : View → View → Type 0
SameContents v w =
    (x : ℕ) → InUse v (x / 512) → 2 < v.level (x / 512) → w.state.cell x ≡ v.state.cell x

-- Tables may have been added from `v` to `w`, out of at most `k` free pages; no address has got or
-- lost its page, and the pages in use are as they were.
pub record Grows (k : ℕ) (v w : View) : Type 0 where
  pub wf : Wf w
  pub npage : w.state.npage ≡ v.state.npage
  pub swap : w.state.swap_init_ok ≡ v.state.swap_init_ok
  pub entry_same :
      (root la : ℕ)
      → v.level root ≡ 2
      → UserAddress la
      → entry_of w.state.cell root la ≡ entry_of v.state.cell root la
  pub entries_same :
      (n i : ℕ)
      → Inner v n i
      → v.state.cell (n * 512 + i) % 2 ≡ 1
      → w.state.cell (n * 512 + i) ≡ v.state.cell (n * 512 + i)
  pub used_same : (p : ℕ) → is_free p v.blocks ≡ false → is_free p w.blocks ≡ false
  pub level_same :
      (n : ℕ) → is_free (n - nbase) v.blocks ≡ false → nbase ≤ n → w.level n ≡ v.level n
  pub ref_same : (p : ℕ) → is_free p v.blocks ≡ false → page_ref p w.state ≡ page_ref p v.state
  pub contents : SameContents v w
  pub taken : total v.blocks ≤ total w.blocks + k
  pub left : total w.blocks ≤ total v.blocks
