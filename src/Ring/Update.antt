-- ===== src/Ring/Update.antt =====
-- `__list_add` and `__list_del` on a ring: where a node goes in, and how it comes out.
use nkucore.Prelude.{
  ℕ, ◌≡◌, ◌≢◌, List, [], ◌∷◌, ◌++◌, arith, ◌∉◌, Distinct, not_has-append_left, not_has-append_right,
}
use nkucore.Ring.{Links, list_add_between, list_del_between}
use nkucore.Ring.Chain.{Chain, Chain-frame, last_from, first_or, last_from-ne, first_or-ne}

pub Chain-next :
    (l : Links) (a b : ℕ) (xs ys : List ℕ)
    → Chain l a (xs ++ ys) b
    → l.next (last_from a xs) ≡ first_or ys b
Chain-next l a b [] [] (p, q) = p
Chain-next l a b [] (y ∷ ys) (p, q, r) = p
Chain-next l a b (x ∷ xs) ys (p, q, r) = Chain-next l x b xs ys r

pub Chain-prev :
    (l : Links) (a b : ℕ) (xs ys : List ℕ)
    → Chain l a (xs ++ ys) b
    → l.prev (first_or ys b) ≡ last_from a xs
Chain-prev l a b [] [] (p, q) = q
Chain-prev l a b [] (y ∷ ys) (p, q, r) = q
Chain-prev l a b (x ∷ xs) ys (p, q, r) = Chain-prev l x b xs ys r

-- `elm` goes in between the last of `a ∷ xs` and the first of `ys` followed by `b`.
pub Chain-add :
    (l : Links) (elm a b : ℕ) (xs ys : List ℕ)
    → Chain l a (xs ++ ys) b
    → elm ≢ a
    → elm ≢ b
    → elm ∉ (xs ++ ys)
    → a ∉ (xs ++ ys)
    → b ∉ (xs ++ ys)
    → Distinct (xs ++ ys)
    → Chain (list_add_between elm (last_from a xs) (first_or ys b) l) a (xs ++ elm ∷ ys) b
unfolding list_add_between
Chain-add l elm a b [] [] c ea eb en an bn d =
    (ground arith, ground arith, (ground arith, ground arith))
Chain-add l elm a b [] (y ∷ ys) (p, q, r) ea eb en an bn d = (
  ground arith,
  ground arith,
  (
    ground arith,
    ground arith,
    Chain-frame l (list_add_between elm a y l) y b ys r (ground arith) (ground arith)
        (λ c i. (ground arith, ground arith)),
  ),
)
Chain-add l elm a b (x ∷ xs) ys (p, q, r) ea eb en an bn d =
    let n = last_from-ne x a xs (ground arith) (ground (arith, not_has-append_left a xs ys)) in
    let m = first_or-ne b x ys (ground arith) (not_has-append_right x xs ys d.0) in
    (
      ground arith,
      ground arith,
      Chain-add l elm x b xs ys r (ground arith) eb (ground arith) d.0 (ground arith) d.1,
    )

-- `elm` comes out of the chain.
pub Chain-del :
    (l : Links) (elm a b : ℕ) (xs ys : List ℕ)
    → Chain l a (xs ++ elm ∷ ys) b
    → a ∉ (xs ++ elm ∷ ys)
    → b ∉ (xs ++ elm ∷ ys)
    → Distinct (xs ++ elm ∷ ys)
    → Chain (list_del_between (last_from a xs) (first_or ys b) l) a (xs ++ ys) b
unfolding list_del_between
Chain-del l elm a b [] [] (p, q, r) an bn d = (ground arith, ground arith)
Chain-del l elm a b [] (y ∷ ys) (p, q, (p', q', r)) an bn d = (
  ground arith,
  ground arith,
  Chain-frame l (list_del_between a y l) y b ys r (ground arith) (ground arith)
      (λ c i. (ground arith, ground arith)),
)
Chain-del l elm a b (x ∷ xs) ys (p, q, r) an bn d =
    let n =
      last_from-ne x a xs (ground arith) (ground (arith, not_has-append_left a xs (elm ∷ ys))) in
    let m =
      first_or-ne b x ys (ground arith)
        (ground (arith, not_has-append_right x xs (elm ∷ ys) d.0)) in
    (ground arith, ground arith, Chain-del l elm x b xs ys r d.0 (ground arith) d.1)
