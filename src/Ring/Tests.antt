-- ===== src/Ring/Tests.antt =====
-- Inputs for the laws of libs/list.h: a ring of head 0 that holds the nodes 3 and 9.
use nkucore.Prelude.{◌≡◌, refl, false, [], ◌∷◌, arith, update}
use nkucore.Ring.{Links, list_init, list_add, list_add_before, list_del, list_empty}
use nkucore.Ring.Chain.{IsRing}
use nkucore.Ring.Laws.{list_empty_iff, list_add-IsRing, list_add_before-IsRing, list_del-IsRing}

abbrev two : Links
two = record {
  prev = update (update (update (λ p. p) 0 9) 9 3) 3 0;
  next = update (update (update (λ p. p) 0 3) 3 9) 9 0;
}

two-IsRing : IsRing two 0 (3 ∷ 9 ∷ [])
two-IsRing = record {
  chain = (refl, refl, (refl, refl, (refl, refl)));
  apart = refl;
  distinct = (refl, (refl, tt));
}

list_empty_iff_run : list_empty two 0 ≡ false
list_empty_iff_run = list_empty_iff two 0 (3 ∷ 9 ∷ []) two-IsRing

list_add-IsRing_run : IsRing (list_add 3 5 two) 0 (3 ∷ 5 ∷ 9 ∷ [])
list_add-IsRing_run = list_add-IsRing two 0 5 (3 ∷ []) (9 ∷ []) two-IsRing (omega arith) refl

list_add_before-IsRing_run : IsRing (list_add_before 0 5 two) 0 (3 ∷ 9 ∷ 5 ∷ [])
list_add_before-IsRing_run =
    list_add_before-IsRing two 0 5 (3 ∷ 9 ∷ []) [] two-IsRing (omega arith) refl

list_del-IsRing_example : IsRing (list_del 3 two) 0 (9 ∷ [])
list_del-IsRing_example = list_del-IsRing two 0 3 [] (9 ∷ []) two-IsRing

built : (list_add_before 0 9 (list_add 0 3 (list_init 0 two))).next 3 ≡ 9
unfolding list_add_before list_add list_init
built = refl
