-- ===== src/Prelude/Store.antt =====
-- A store of cells: a function from addresses, and its update.
use Prim.Native.Nat.{ℕ}
use mathlib.Core.Path.{◌≡◌, refl}
use mathlib.Core.Logic.{◌≢◌, inl, inr}
use native.Mathlib.Omega.{arith}
use nkucore.Prelude.Tests.{Bool-cases, ◌==◌, if◌then◌else◌}

module _ {ℓ} {A : Type ℓ} where
  -- The store after a write of `v` at `p`.
  abbrev pub update : (ℕ → A) → ℕ → A → ℕ → A
  update f p v q = if q == p then v else f q

  pub update_self : (f : ℕ → A) (p : ℕ) (v : A) → update f p v p ≡ v
  update_self f p v = ground arith

  pub update_ne : (f : ℕ → A) (p q : ℕ) (v : A) → q ≢ p → update f p v q ≡ f q
  update_ne f p q v h = ground arith

-- A write that leaves a field `g` of the cell as it was leaves it so everywhere.
pub update-same {ℓ κ} :
    {A : Type ℓ} {B : Type κ} (g : A → B) (f : ℕ → A) (p : ℕ) (v : A)
    → g v ≡ g (f p)
    → (q : ℕ) → g (update f p v q) ≡ g (f q)
update-same g f p v e q = elim (Bool-cases (q == p)) [
  | inl h ↦ let i : q ≡ p = ground arith in rw (h, i) e
  | inr h ↦ rw h refl
]
