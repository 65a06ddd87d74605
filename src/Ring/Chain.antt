-- ===== src/Ring/Chain.antt =====
-- The ring that the stores of libs/list.h hold, as the sequence of its nodes.
use nkucore.Prelude.{
  ℕ, refl, ◌++◌, not_has-append_right, ◌≡◌, ◌≢◌, ◌∙◌, true, List, [], ◌∷◌, arith, has, ◌∉◌,
  Distinct,
}
use nkucore.Ring.{Links}

-- From `a` the `next` pointers lead through `xs` to `b`, and the `prev` pointers lead back.
abbrev pub Chain : Links → ℕ → List ℕ → ℕ → Type 0
Chain l a [] b = (l.next a ≡ b) × (l.prev b ≡ a)
Chain l a (x ∷ xs) b = (l.next a ≡ x) × (l.prev x ≡ a) × Chain l x xs b

-- The ring of head `h` holds the distinct nodes `xs`, in the order of the `next` pointers.
pub record IsRing (l : Links) (h : ℕ) (xs : List ℕ) : Type 0 where
  pub chain : Chain l h xs h
  pub apart : h ∉ xs
  pub distinct : Distinct xs

-- The last of `a ∷ xs`, and the first of `xs` followed by `b`.
abbrev pub last_from : ℕ → List ℕ → ℕ
last_from a [] = a
last_from a (x ∷ xs) = last_from x xs

abbrev pub first_or : List ℕ → ℕ → ℕ
first_or [] b = b
first_or (x ∷ xs) b = x

pub last_from-ne : (a c : ℕ) (xs : List ℕ) → c ≢ a → c ∉ xs → c ≢ last_from a xs
last_from-ne a c [] n h = n
last_from-ne a c (x ∷ xs) n h = last_from-ne x c xs (ground arith) (ground arith)

pub first_or-ne : (b c : ℕ) (xs : List ℕ) → c ≢ b → c ∉ xs → c ≢ first_or xs b
first_or-ne b c [] n h = n
first_or-ne b c (x ∷ xs) n h = ground arith

-- A chain survives a change that spares the cells which it reads.
pub Chain-frame :
    (l m : Links) (a b : ℕ) (xs : List ℕ)
    → Chain l a xs b
    → m.next a ≡ l.next a
    → m.prev b ≡ l.prev b
    → ((c : ℕ) → has c xs ≡ true → (m.next c ≡ l.next c) × (m.prev c ≡ l.prev c))
    → Chain m a xs b
Chain-frame l m a b [] (p, q) n v same = (n ∙ p, v ∙ q)
Chain-frame l m a b (x ∷ xs) (p, q, r) n v same = (
  n ∙ p,
  (same x (ground arith)).1 ∙ q,
  Chain-frame l m x b xs r (same x (ground arith)).0 v (λ c i. same c (ground arith)),
)

-- A node of a chain cuts it in two.
pub Chain-split :
    (l : Links) (a b e : ℕ) (xs ys : List ℕ)
    → Chain l a (xs ++ e ∷ ys) b
    → Chain l a xs e × Chain l e ys b
Chain-split l a b e [] ys (p, q, r) = ((p, q), r)
Chain-split l a b e (x ∷ xs) ys (p, q, r) =
    let (u, v) = Chain-split l x b e xs ys r in ((p, q, u), v)

pub Chain-end : (l : Links) (a b : ℕ) (xs : List ℕ) → Chain l a xs b → l.next (last_from a xs) ≡ b
Chain-end l a b [] (p, q) = p
Chain-end l a b (x ∷ xs) (p, q, r) = Chain-end l x b xs r

pub Distinct-around : (e : ℕ) (xs ys : List ℕ) → Distinct (xs ++ e ∷ ys) → (e ∉ xs) × (e ∉ ys)
Distinct-around e [] ys d = (refl, d.0)
Distinct-around e (x ∷ xs) ys d =
    let q = Distinct-around e xs ys d.1 in
    let n = not_has-append_right x xs (e ∷ ys) d.0 in (ground arith, q.1)
