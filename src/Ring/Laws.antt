-- ===== src/Ring/Laws.antt =====
-- What the operations of libs/list.h do to the sequence that a ring holds.
use nkucore.Prelude.{
  ℕ, ◌≡◌, ◌≢◌, refl, true, false, List, [], ◌∷◌, ◌++◌, Bool, arith, ◌∉◌, Distinct,
}
use nkucore.Ring.{
  Links, list_init, list_add_between, list_add, list_add_before, list_del, list_empty,
}
use nkucore.Ring.Chain.{Chain, IsRing, last_from, first_or}
use nkucore.Ring.Update.{Chain-next, Chain-prev, Chain-add, Chain-del}

abbrev pub is_nil : List ℕ → Bool
is_nil [] = true
is_nil (x ∷ xs) = false

pub not_has-insert : (a e : ℕ) (xs ys : List ℕ) → a ≢ e → a ∉ (xs ++ ys) → a ∉ (xs ++ e ∷ ys)
not_has-insert a e [] ys n h = ground arith
not_has-insert a e (x ∷ xs) ys n h = ground (arith, not_has-insert a e xs ys n)

pub not_has-remove : (a e : ℕ) (xs ys : List ℕ) → a ∉ (xs ++ e ∷ ys) → (a ∉ (xs ++ ys)) × (a ≢ e)
not_has-remove a e [] ys h = (ground arith, ground arith)
not_has-remove a e (x ∷ xs) ys h = ground (arith, not_has-remove a e xs ys)

pub Distinct-insert :
    (e : ℕ) (xs ys : List ℕ) → Distinct (xs ++ ys) → e ∉ (xs ++ ys) → Distinct (xs ++ e ∷ ys)
Distinct-insert e [] ys d n = (n, d)
Distinct-insert e (x ∷ xs) ys d n =
    (not_has-insert x e xs ys (ground arith) d.0, Distinct-insert e xs ys d.1 (ground arith))

pub Distinct-remove :
    (e : ℕ) (xs ys : List ℕ) → Distinct (xs ++ e ∷ ys) → Distinct (xs ++ ys) × (e ∉ (xs ++ ys))
Distinct-remove e [] ys d = (d.1, d.0)
Distinct-remove e (x ∷ xs) ys d =
    let r = Distinct-remove e xs ys d.1 in
    let n = not_has-remove x e xs ys d.0 in ((n.0, r.0), ground arith)

IsRing-add_between :
    (l : Links) (h e : ℕ) (xs ys : List ℕ)
    → IsRing l h (xs ++ ys)
    → e ≢ h
    → e ∉ (xs ++ ys)
    → IsRing (list_add_between e (last_from h xs) (first_or ys h) l) h (xs ++ e ∷ ys)
IsRing-add_between l h e xs ys r n m = record {
  chain = Chain-add l e h h xs ys r.chain n n m r.apart r.apart r.distinct;
  apart = not_has-insert h e xs ys (ground arith) r.apart;
  distinct = Distinct-insert e xs ys r.distinct m;
}

-- `list_init` makes a node the head of an empty ring, and `list_empty` tells an empty ring from
-- one that holds a node.
pub list_init-IsRing : (l : Links) (h : ℕ) → IsRing (list_init h l) h []
unfolding list_init
list_init-IsRing l h = record { chain = (ground arith, ground arith); apart = refl; distinct = tt }

pub list_empty_iff : (l : Links) (h : ℕ) (xs : List ℕ) → IsRing l h xs → list_empty l h ≡ is_nil xs
unfolding list_empty
list_empty_iff l h [] r = ground (arith, r.chain)
list_empty_iff l h (x ∷ xs) r = ground (arith, r.chain, r.apart)

-- In the ring of `h` that holds `xs ++ ys`, `list_add` after the last of `h ∷ xs` puts a node
-- that is not yet in the ring between `xs` and `ys`, and keeps the ring well formed.
pub list_add-IsRing :
    (l : Links) (h e : ℕ) (xs ys : List ℕ)
    → IsRing l h (xs ++ ys)
    → e ≢ h
    → e ∉ (xs ++ ys)
    → IsRing (list_add (last_from h xs) e l) h (xs ++ e ∷ ys)
unfolding list_add
list_add-IsRing l h e xs ys r n m =
    rw (Chain-next l h h xs ys r.chain) (IsRing-add_between l h e xs ys r n m)

-- In the ring of `h` that holds `xs ++ ys`, `list_add_before` the first of `ys` (the head, when
-- `ys` is empty) puts a node that is not yet in the ring between `xs` and `ys`.
pub list_add_before-IsRing :
    (l : Links) (h e : ℕ) (xs ys : List ℕ)
    → IsRing l h (xs ++ ys)
    → e ≢ h
    → e ∉ (xs ++ ys)
    → IsRing (list_add_before (first_or ys h) e l) h (xs ++ e ∷ ys)
unfolding list_add_before
list_add_before-IsRing l h e xs ys r n m =
    rw (Chain-prev l h h xs ys r.chain) (IsRing-add_between l h e xs ys r n m)

pub Chain-around :
    (l : Links) (a b e : ℕ) (xs ys : List ℕ)
    → Chain l a (xs ++ e ∷ ys) b
    → (l.prev e ≡ last_from a xs) × (l.next e ≡ first_or ys b)
Chain-around l a b e [] [] (p, q, r) = (q, r.0)
Chain-around l a b e [] (y ∷ ys) (p, q, r) = (q, r.0)
Chain-around l a b e (x ∷ xs) ys (p, q, r) = Chain-around l x b e xs ys r

-- `list_del` takes a node out of the ring that holds it, wherever it stands, and leaves the
-- others in their order.
pub list_del-IsRing :
    (l : Links) (h e : ℕ) (xs ys : List ℕ)
    → IsRing l h (xs ++ e ∷ ys)
    → IsRing (list_del e l) h (xs ++ ys)
unfolding list_del
list_del-IsRing l h e xs ys r =
    let (p, q) = Chain-around l h h e xs ys r.chain in
    rw (p, q)
      record {
        chain = Chain-del l e h h xs ys r.chain r.apart r.apart r.distinct;
        apart = (not_has-remove h e xs ys r.apart).0;
        distinct = (Distinct-remove e xs ys r.distinct).0;
      }
