-- ===== src/PageTable/Tests.antt =====
-- Inputs for the laws of the page tables: eight pages, of which 4 to 7 are free, page 0 a
-- directory, 1 and 2 the tables below it, and page 3, which has a third reference, mapped at the two
-- addresses from 0x800000 on.
use nkucore.Prelude.{
  ℕ, ◌+◌, ◌*◌, ◌≡◌, refl, true, false, [], ◌∷◌, some, arith, update, returns, if◌then◌else◌, ◌==◌,
}
use nkucore.DefaultPmm.{Area}
use nkucore.DefaultPmm.Blocks.{Blocks, Represents}
use nkucore.PageTable.{get_page, page_remove}
use nkucore.PageTable.Wf.{View, Wf}
use nkucore.PageTable.Walk.{get_page-translate}
use nkucore.PageTable.Remove.{Removed, page_remove-Removed}

abbrev area : Area
area = record {
  page =
      update
        (update (λ p. record { ref = 1; reserved = false; free_head = false; property = 0 }) 3
          (record { ref = 3; reserved = false; free_head = false; property = 0 }))
        4 (record { ref = 0; reserved = false; free_head = true; property = 4 });
  links = record {
    prev = update (update (λ p. p) 0 5) 5 0;
    next = update (update (λ p. p) 0 5) 5 0;
  };
  nr_free = 4;
}

abbrev blocks : Blocks
blocks = (4, 4) ∷ []

area-Represents : Represents area blocks
area-Represents = record {
  ring = record { chain = (refl, refl, (refl, refl)); apart = refl; distinct = (refl, tt) };
  heads = (refl, refl, tt);
  ordered = omega arith;
  count = refl;
  small = omega arith;
}

abbrev pub root : ℕ
root = 0x80000

abbrev cells : ℕ → ℕ
cells x =
    if x == 0x80000 * 512
    then 0x80001 * 1024 + 17
    else if x == 0x80001 * 512 + 4
    then 0x80002 * 1024 + 17
    else if x == 0x80002 * 512
    then 0x80003 * 1024 + 23
    else if x == 0x80002 * 512 + 1
    then 0x80003 * 1024 + 23
    else 0

abbrev levels : ℕ → ℕ
levels n = if n == 0x80000 then 2 else if n == 0x80001 then 1 else if n == 0x80002 then 0 else 3

abbrev parents : ℕ → ℕ
parents n = if n == 0x80001 then 0x80000 * 512 else 0x80001 * 512 + 4

abbrev pub view : View
view = record {
  state = record { area = area; cell = cells; npage = 0x80008; swap_init_ok = true };
  blocks = blocks;
  level = levels;
  parent = parents;
}

pub view-Wf : Wf view
view-Wf = record {
  area = area-Represents;
  bound = omega arith;
  free_below = λ p h. ground arith;
  tables = λ n l. record { from = ground arith; below = ground arith; used = ground arith };
  levels = λ n i inner odd. ground (arith, inner.is_table, inner.inner, inner.index, odd);
  parents = λ n i inner odd. ground (arith, inner.is_table, inner.inner, inner.index, odd);
  mapped = λ n i l h odd.
      (record { from = ground arith; below = ground arith; used = ground arith }, ground arith);
}

get_page-translate_example : get_page 9 (root * 512) 0x801234 view.state ≡ returns (some 3)
get_page-translate_example = get_page-translate 9 root 0x801234 view view-Wf refl (omega arith)

page_remove-Removed_example :
    (w : View) × (page_remove 9 (root * 512) 0x801000 view.state ≡ returns w.state)
    × Removed view w root 0x801000 3
page_remove-Removed_example =
    page_remove-Removed 9 view root 0x801000 3 view-Wf refl (omega arith) refl (omega arith)
      (omega arith)
