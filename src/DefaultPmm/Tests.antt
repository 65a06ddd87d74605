-- ===== src/DefaultPmm/Tests.antt =====
-- Inputs for the laws of kern/mm/default_pmm.c: 16 pages, of which 2 to 4 and 8 to 11 are free.
use nkucore.Prelude.{
  ℕ, ◌≡◌, refl, true, false, [], ◌∷◌, Option, none, some, arith, update, Outcome, returns, panics,
  out_of_fuel,
}
use nkucore.Ring.{list_empty}
use nkucore.DefaultPmm.{
  Page, Area, default_init, default_init_memmap, default_alloc_pages, default_free_pages, page_link,
}
use nkucore.DefaultPmm.Blocks.{Blocks, Represents}
use nkucore.DefaultPmm.Alloc.{Allocated, alloc_first_fit, alloc_none}
use nkucore.DefaultPmm.Insert.{AllUsed}
use nkucore.DefaultPmm.Free.{Freed, free_before_block, free_into_empty}
use nkucore.DefaultPmm.Memmap.{ResetOnly, default_init_memmap-Represents}
use nkucore.DefaultPmm.Twice.{alloc_same_page_twice}

abbrev plain : Page
plain = record { ref = 0; reserved = false; free_head = false; property = 0 }

abbrev head : ℕ → Page
head k = record { ref = 0; reserved = false; free_head = true; property = k }

abbrev free_blocks : Blocks
free_blocks = (2, 3) ∷ (8, 4) ∷ []

abbrev area : Area
area = record {
  page = update (update (λ p. plain) 2 (head 3)) 8 (head 4);
  links = record {
    prev = update (update (update (λ p. p) 0 9) 9 3) 3 0;
    next = update (update (update (λ p. p) 0 3) 3 9) 9 0;
  };
  nr_free = 7;
}

area-Represents : Represents area free_blocks
area-Represents = record {
  ring = record {
    chain = (refl, refl, (refl, refl, (refl, refl)));
    apart = refl;
    distinct = (refl, (refl, tt));
  };
  heads = (refl, refl, (refl, refl, tt));
  ordered = omega arith;
  count = refl;
  small = omega arith;
}

alloc_first_fit_example :
    (b : Area) × (default_alloc_pages 5 4 area ≡ returns (some 8, b))
    × Allocated area free_blocks 4 8 b
alloc_first_fit_example =
    alloc_first_fit 5 4 8 area free_blocks area-Represents (omega arith) (omega arith) refl

alloc_none_run : default_alloc_pages 5 5 area ≡ returns (none, area)
alloc_none_run =
    alloc_none 5 5 area free_blocks area-Represents (omega arith) (omega arith) (omega arith)

used_5 : AllUsed 3 5 area.page
used_5 c w = ground arith

free_before_block_example :
    (b : Area) × (default_free_pages 5 5 3 area ≡ returns b) × Freed area free_blocks 5 3 b
free_before_block_example =
    free_before_block 5 5 3 8 4 area ((2, 3) ∷ []) [] area-Represents (omega arith) used_5
      (omega arith) (omega arith)

-- The same pages, none of them free.
abbrev full : Area
full = record { page = λ p. plain; links = record { prev = λ p. p; next = λ p. p }; nr_free = 0 }

full-Represents : Represents full []
full-Represents = record {
  ring = record { chain = (refl, refl); apart = refl; distinct = tt };
  heads = tt;
  ordered = tt;
  count = refl;
  small = omega arith;
}

used_full : AllUsed 4 6 full.page
used_full c w = (refl, refl)

free_into_empty_example :
    (b : Area) × (default_free_pages 5 6 4 full ≡ returns b) × Freed full [] 6 4 b
free_into_empty_example =
    free_into_empty 5 6 4 full full-Represents (omega arith) used_full (omega arith)

used_12 : AllUsed 6 13 area.page
used_12 c w = ground arith

alloc_same_page_twice_example :
    (b c d : Area) × (default_free_pages 9 13 6 area ≡ returns b)
    × (b.links.prev (page_link 13) ≡ page_link 13)
    × (default_alloc_pages 9 5 b ≡ returns (some 13, c))
    × (default_alloc_pages 9 5 c ≡ returns (some 13, d))
alloc_same_page_twice_example =
    alloc_same_page_twice 9 13 6 8 4 5 area ((2, 3) ∷ []) area-Represents (omega arith) used_12
      (omega arith) (omega arith) (omega arith) (omega arith) (omega arith) (omega arith)

-- At boot: the list is emptied and the reserved pages become one block.
abbrev boot : Area
boot = record full { page = λ p. record plain { reserved = true } }

abbrev booted : Outcome Area
booted = default_init_memmap 3 2 6 (default_init boot)

abbrev nr_free_of : Outcome Area → Option ℕ
nr_free_of (returns a) = some a.nr_free
nr_free_of panics = none
nr_free_of out_of_fuel = none

boot_free : nr_free_of booted ≡ some 6
unfolding default_init_memmap default_init list_empty
boot_free = refl

-- A page that is not reserved is refused.
boot_refused : default_init_memmap 3 2 6 full ≡ panics
unfolding default_init_memmap
boot_refused = refl

abbrev reserved_area : Area
reserved_area = record area { page = λ c. record plain { reserved = true } }

default_init_memmap-Represents_example :
    (b : Area) × (default_init_memmap 2 3 9 (default_init reserved_area) ≡ returns b)
    × Represents b ((3, 9) ∷ [])
    × (b.nr_free ≡ 9)
    × ResetOnly 9 3 reserved_area.page b.page
default_init_memmap-Represents_example =
    default_init_memmap-Represents 2 3 9 reserved_area (omega arith) (omega arith) (λ c w. refl)
