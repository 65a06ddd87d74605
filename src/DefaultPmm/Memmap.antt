-- ===== src/DefaultPmm/Memmap.antt =====
-- `default_init` and `default_init_memmap`: the free area at boot.
use nkucore.Prelude.{
  ℕ, zero, suc, ◌+◌, ◌^◌, ◌<◌, ◌≡◌, refl, ap, fun_ext, true, false, [], ◌∷◌, arith, update,
  if◌then◌else◌, returns, lt→ltb,
}
use native.Mathlib.Nat.{mod-eq_of_lt}
use nkucore.Ring.{list_init, list_add, list_empty}
use nkucore.Ring.Laws.{list_init-IsRing, list_add-IsRing}
use nkucore.DefaultPmm.{
  Page, Area, free_list, page_link, uint, set_head, insert_block, clear_reserved, default_init,
  default_init_memmap,
}
use nkucore.DefaultPmm.Blocks.{Heads, Represents, within}

abbrev blank : Page
blank = record { ref = 0; reserved = false; free_head = false; property = 0 }

abbrev reset : (n base : ℕ) → (ℕ → Page) → ℕ → Page
reset n base f c = if within base n c then blank else f c

-- Every page of the range is still reserved.
abbrev pub AllReserved : (n base : ℕ) → (ℕ → Page) → Type 0
AllReserved n base f = (c : ℕ) → within base n c ≡ true → (f c).reserved ≡ true

clear_reserved-reset :
    (n base : ℕ) (f : ℕ → Page)
    → AllReserved n base f
    → clear_reserved n base f ≡ returns (reset n base f)
unfolding clear_reserved
clear_reserved-reset zero base f u = ap returns (fun_ext λ c. ground arith)
clear_reserved-reset (suc n) base f u =
    rw
      (
        u base (ground arith),
        clear_reserved-reset n (base + 1) (update f base blank) (λ c w. ground (arith, u c)),
      )
      (ap returns (fun_ext λ c. ground arith))

set_head-Heads :
    (base n : ℕ) (f : ℕ → Page) → n < 2 ^ 32 → Heads (set_head base n f) ((base, n) ∷ [])
unfolding set_head
set_head-Heads base n f room = (ground arith, ground (arith, mod-eq_of_lt room), tt)

-- From `f` to `g` the pages of the range lost their reservation and their references, no other did.
abbrev pub ResetOnly : (n base : ℕ) → (f g : ℕ → Page) → Type 0
ResetOnly n base f g =
    (c : ℕ)
    → ((g c).reserved ≡ (if within base n c then false else (f c).reserved))
      × ((g c).ref ≡ (if within base n c then 0 else (f c).ref))

set_head-ResetOnly :
    (n base : ℕ) (f : ℕ → Page) → ResetOnly n base f (set_head base n (reset n base f))
unfolding set_head
set_head-ResetOnly n base f = λ c. (ground arith, ground arith)

-- After `default_init`, a range of reserved pages that `default_init_memmap` is given is the one
-- free block, and `nr_free` is its size; its pages, and no others, are no longer reserved and have
-- no references.
pub default_init_memmap-Represents :
    (fuel base n : ℕ) (a : Area)
    → 0 < n
    → n < 2 ^ 32
    → AllReserved n base a.page
    → (b : Area) × (default_init_memmap fuel base n (default_init a) ≡ returns b)
      × Represents b ((base, n) ∷ [])
      × (b.nr_free ≡ n)
      × ResetOnly n base a.page b.page
unfolding default_init_memmap default_init insert_block list_empty list_init set_head
default_init_memmap-Represents fuel base n a z room u =
    let r = list_init-IsRing a.links free_list in
    (
      record {
        page = set_head base n (reset n base a.page);
        links = list_add free_list (page_link base) (list_init free_list a.links);
        nr_free = uint (0 + n);
      },
      rw (lt→ltb 0 n z, clear_reserved-reset n base a.page u) refl,
      record {
        ring =
            list_add-IsRing (list_init free_list a.links) free_list (page_link base) [] [] r
              (omega arith) refl;
        heads = set_head-Heads base n (reset n base a.page) room;
        ordered = (omega arith, z, tt);
        count = omega arith;
        small = omega arith;
      },
      omega arith,
      set_head-ResetOnly n base a.page,
    )
