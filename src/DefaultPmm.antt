-- ===== src/DefaultPmm.antt =====
-- kern/mm/default_pmm.c: the first-fit manager of physical pages. A pointer into the array
-- `pages` is its index; node `0` of the links is `free_list` and node `p + 1` the `page_link` of
-- page `p`.
pub mod Blocks
pub mod Fit
pub mod Alloc
pub mod Insert
pub mod Join
pub mod Merge
pub mod Free
pub mod Tail
pub mod Twice
pub mod Memmap
mod Tests
use nkucore.Prelude.{
  ℕ, zero, suc, ◌+◌, ◌-◌, ◌%◌, ◌^◌, Bool, true, false, ◌&&◌, not, Option, none, some, ltb, leb,
  ◌==◌, if◌then◌else◌, update, Outcome, returns, out_of_fuel, ◌>>=◌, ◌>>◌, assert,
}
use nkucore.Ring.{
  Links, list_init, list_next, list_prev, list_add, list_add_before, list_del, list_empty,
}

-- `struct Page`, with its flag bits `PG_reserved` and `PG_property`.
pub record Page : Type 0 where
  pub ref : ℕ
  pub reserved : Bool
  pub free_head : Bool
  pub property : ℕ

-- `free_area`, with the pages that it manages.
pub record Area : Type 0 where
  pub page : ℕ → Page
  pub links : Links
  pub nr_free : ℕ

abbrev pub free_list : ℕ
free_list = 0

abbrev pub page_link : ℕ → ℕ
page_link p = suc p

abbrev pub le2page : ℕ → ℕ
le2page zero = 0
le2page (suc p) = p

-- `unsigned int`
abbrev pub uint : ℕ → ℕ
uint n = n % 2 ^ 32

unfoldable pub default_init : Area → Area
unfolding list_init
default_init a = record a { links = list_init free_list a.links; nr_free = 0 }

-- The loop of `default_init_memmap` over the pages of the block.
pub clear_reserved : ℕ → ℕ → (ℕ → Page) → Outcome (ℕ → Page)
clear_reserved zero p f = returns f
clear_reserved (suc n) p f = do
  assert (f p).reserved
  clear_reserved n (p + 1)
      (update f p (record { ref = 0; reserved = false; free_head = false; property = 0 }))

-- The loop of `default_free_pages` over the pages of the block.
pub clear_used : ℕ → ℕ → (ℕ → Page) → Outcome (ℕ → Page)
clear_used zero p f = returns f
clear_used (suc n) p f = do
  assert (not (f p).reserved && not (f p).free_head)
  clear_used n (p + 1) (update f p (record (f p) { ref = 0; reserved = false; free_head = false }))

-- `base->property = n; SetPageProperty(base);`
pub set_head : (base n : ℕ) → (ℕ → Page) → ℕ → Page
set_head base n f = update f base (record (f base) { property = uint n; free_head = true })

-- The walk that looks for the place of a block. As in the source the append after the last node
-- does not leave the loop.
pub insert_loop : ℕ → (le base : ℕ) → Links → Outcome Links
insert_loop zero le base l = out_of_fuel
insert_loop (suc k) le base l =
    let le' = list_next l le in
    let rest = insert_loop k le' base in
    if le' == free_list
    then returns l
    else if ltb base (le2page le')
    then returns (list_add_before le' (page_link base) l)
    else if list_next l le' == free_list
    then rest (list_add le' (page_link base) l)
    else rest l

pub insert_block : (fuel base : ℕ) → Links → Outcome Links
unfolding insert_loop
insert_block fuel base l =
    if list_empty l free_list
    then returns (list_add free_list (page_link base) l)
    else insert_loop fuel free_list base l

unfoldable pub default_init_memmap : (fuel base n : ℕ) → Area → Outcome Area
unfolding clear_reserved set_head insert_block
default_init_memmap fuel base n a = do
  assert (ltb 0 n)
  f ← clear_reserved n base a.page
  l ← insert_block fuel base a.links
  returns (record { page = set_head base n f; links = l; nr_free = uint (a.nr_free + n) })

-- The walk of `default_alloc_pages`: the first block that is large enough.
pub find_fit : ℕ → (le n : ℕ) → Area → Outcome (Option ℕ)
find_fit zero le n a = out_of_fuel
find_fit (suc k) le n a =
    let le' = list_next a.links le in
    let rest = find_fit k le' n a in
    if le' == free_list
    then returns none
    else if leb n (a.page (le2page le')).property
    then returns (some (le2page le'))
    else rest

pub clear_head : ℕ → (ℕ → Page) → ℕ → Page
clear_head p f = update f p (record (f p) { free_head = false })

-- What `default_alloc_pages` does with the block that it found.
pub take_from : (p n : ℕ) → Area → Area
unfolding clear_head
take_from p n a =
    let prev = list_prev a.links (page_link p) in
    let l = list_del (page_link p) a.links in
    let k = (a.page p).property in
    let rest = p + n in
    if ltb n k
    then record {
      page =
          clear_head p (
            update a.page rest
              (record (a.page rest) { property = uint (k - n); free_head = true }));
      links = list_add prev (page_link rest) l;
      nr_free = a.nr_free - n;
    }
    else record { page = clear_head p a.page; links = l; nr_free = a.nr_free - n }

unfoldable pub default_alloc_pages : (fuel n : ℕ) → Area → Outcome (Option ℕ × Area)
unfolding find_fit take_from
default_alloc_pages fuel n a = do
  assert (ltb 0 n)
  if ltb a.nr_free n then returns (none, a) else (do
    found ← find_fit fuel free_list n a
    elim found [ none ↦ returns (none, a) | some p ↦ returns (some p, take_from p n a) ])

-- `default_free_pages` joins the block to the one before it; the result is the new `base`.
pub merge_before : (base : ℕ) → Area → ℕ × Area
unfolding clear_head
merge_before base a =
    let le = list_prev a.links (page_link base) in
    let p = le2page le in
    if le == free_list
    then (base, a)
    else if p + (a.page p).property == base
    then (
      p,
      record a {
        page = clear_head base (
            update a.page p (record (a.page p) {
              property = uint ((a.page p).property + (a.page base).property);
            }));
        links = list_del (page_link base) a.links;
      },
    )
    else (base, a)

-- and then to the one after it.
pub merge_after : (base : ℕ) → Area → Area
unfolding clear_head
merge_after base a =
    let le = list_next a.links (page_link base) in
    let p = le2page le in
    if le == free_list
    then a
    else if base + (a.page base).property == p
    then record a {
      page = clear_head p (
          update a.page base (record (a.page base) {
            property = uint ((a.page base).property + (a.page p).property);
          }));
      links = list_del (page_link p) a.links;
    }
    else a

unfoldable pub default_free_pages : (fuel base n : ℕ) → Area → Outcome Area
unfolding clear_used set_head insert_block merge_before merge_after
default_free_pages fuel base n a = do
  assert (ltb 0 n)
  f ← clear_used n base a.page
  l ← insert_block fuel base a.links
  let a' : Area = record { page = set_head base n f; links = l; nr_free = uint (a.nr_free + n) }
  let joined : ℕ × Area = merge_before base a'
  returns (merge_after joined.0 joined.1)

unfoldable pub default_nr_free_pages : Area → ℕ
default_nr_free_pages a = a.nr_free
