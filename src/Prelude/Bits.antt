-- ===== src/Prelude/Bits.antt =====
-- Binary digits of `|` and `&`.
use Prim.Native.Nat.{
  ℕ, zero, suc, ◌+◌, ◌*◌, ◌/◌, ◌%◌, ◌≤◌, bitwise, bit_or, bit_and, bit_or-bitwise, bit_and-bitwise,
  min, max, digits,
}
use mathlib.Core.Path.{◌≡◌, refl, ◌∙◌, ap, sym}
use mathlib.Core.Logic.{inl, inr}
use mathlib.Core.Bool.{true, false, not}
use native.Mathlib.Omega.{arith}
use nkucore.Prelude.Tests.{◌==◌, Bool-cases}
use nkucore.Prelude.Word.{has_flag}

-- A bitwise operation on the binary digits: `f` acts on two digits, `z` on what is left of the
-- second number where the first has ended, in agreement with `f`.
module _ (z : ℕ → ℕ) (f : ℕ → ℕ → ℕ) (ended : (b : ℕ) → z b ≡ z (b / 2) * 2 + f 0 (b % 2)) where
  -- Any two counts of digits serve, if both reach the end of the first number.
  enough : (a n m b : ℕ) → a ≤ n → a ≤ m → digits z f n a b ≡ digits z f m a b
  enough zero zero zero b p q = refl
  enough zero zero (suc m) b p q = refl
  enough zero (suc n) zero b p q = refl
  enough zero (suc n) (suc m) b p q = refl
  enough (suc a) zero m b p q = absurd (omega arith)
  enough (suc a) (suc n) zero b p q = absurd (omega arith)
  enough (suc a) (suc n) (suc m) b p q =
      ap (λ x. x * 2 + f (suc a % 2) (b % 2))
        (enough (suc a / 2) n m (b / 2) (omega arith) (omega arith))

  lowest : (a b : ℕ) → bitwise z f a b ≡ bitwise z f (a / 2) (b / 2) * 2 + f (a % 2) (b % 2)
  lowest zero b = ended b
  lowest (suc a) b =
      ap (λ x. x * 2 + f (suc a % 2) (b % 2))
        (enough (suc a / 2) a (suc a / 2) (b / 2) (omega arith) (omega arith))

  -- With no digits in the second number, the operation is any `g` that agrees with it on the lowest
  -- digit.
  on_zero :
      (g : ℕ → ℕ)
      → z 0 ≡ g 0
      → ((a : ℕ) → g a ≡ g (a / 2) * 2 + f (a % 2) 0)
      → (bound a : ℕ) → a ≤ bound
      → bitwise z f a 0 ≡ g a
  on_zero g e h zero zero l = e
  on_zero g e h zero (suc a) l = absurd (omega arith)
  on_zero g e h (suc n) a l = elim (Bool-cases (a == 0)) [
    | inl y ↦ let i : a ≡ 0 = ground arith in rw i e
    | inr y ↦
        lowest a 0
        ∙ ap (λ x. x * 2 + f (a % 2) 0) (on_zero g e h n (a / 2) (ground arith))
        ∙ sym (h a)
  ]

or_ended : (b : ℕ) → b ≡ b / 2 * 2 + max 0 (b % 2)
or_ended b = omega arith

and_ended : (b : ℕ) → 0 ≡ 0 * 2 + min 0 (b % 2)
and_ended b = omega arith

or_bitwise : (a b : ℕ) → bit_or a b ≡ bitwise (λ c. c) max a b
or_bitwise a b = λ i. bit_or-bitwise a b i

or_lowest : (a b : ℕ) → bit_or a b ≡ bit_or (a / 2) (b / 2) * 2 + max (a % 2) (b % 2)
or_lowest a b =
    or_bitwise a b
    ∙ lowest (λ c. c) max or_ended a b
    ∙ ap (λ x. x * 2 + max (a % 2) (b % 2)) (sym (or_bitwise (a / 2) (b / 2)))

pub bit_or-zero : (a : ℕ) → bit_or a 0 ≡ a
bit_or-zero a =
    or_bitwise a 0
    ∙ on_zero (λ c. c) max or_ended (λ c. c) refl (λ c. omega arith) a a (omega arith)

pub bit_and-one : (a : ℕ) → bit_and a 1 ≡ a % 2
bit_and-one a =
    let none =
      on_zero (λ c. zero) min and_ended (λ c. 0) refl (λ c. omega arith) (a / 2) (a / 2)
        (omega arith) in
    (λ i. bit_and-bitwise a 1 i) ∙ lowest (λ c. zero) min and_ended a 1 ∙ omega (arith, none)

pub bit_or_half : (a b : ℕ) → bit_or a b / 2 ≡ bit_or (a / 2) (b / 2)
bit_or_half a b = omega (arith, or_lowest a b)

pub bit_or_parity : (a b : ℕ) → bit_or a b % 2 ≡ max (a % 2) (b % 2)
bit_or_parity a b = omega (arith, or_lowest a b)

div_four : (a : ℕ) → a / 4 ≡ a / 2 / 2
div_four a = omega arith

bit_or_four : (a b : ℕ) → bit_or a b / 4 ≡ bit_or (a / 4) (b / 4)
bit_or_four a b =
    rw (div_four a, div_four b) (omega (arith, bit_or_half a b, bit_or_half (a / 2) (b / 2)))

div_32 : (a : ℕ) → a / 32 ≡ a / 4 / 4 / 2
div_32 a = omega arith

bit_or_32 : (a b : ℕ) → bit_or a b / 32 ≡ bit_or (a / 32) (b / 32)
bit_or_32 a b =
    rw (div_32 a, div_32 b)
      (omega
        (arith, bit_or_four a b, bit_or_four (a / 4) (b / 4), bit_or_half (a / 4 / 4) (b / 4 / 4)))

div_1024 : (a : ℕ) → a / 1024 ≡ a / 32 / 32
div_1024 a = omega arith

-- The digits above the lowest ten.
pub bit_or_high : (a b : ℕ) → bit_or a b / 1024 ≡ bit_or (a / 1024) (b / 1024)
bit_or_high a b =
    rw (div_1024 a, div_1024 b) (omega (arith, bit_or_32 a b, bit_or_32 (a / 32) (b / 32)))

pub bit_or_odd : (a : ℕ) → bit_or a 1 % 2 ≡ 1
bit_or_odd a = omega (arith, bit_or_parity a 1)

pub has_flag-one : (a : ℕ) → has_flag a 1 ≡ not (a % 2 == 0)
unfolding has_flag
has_flag-one a = rw (bit_and-one a) refl

pub has_flag-odd : (a : ℕ) → a % 2 ≡ 1 → has_flag a 1 ≡ true
has_flag-odd a h = rw (has_flag-one a, h) refl

pub has_flag-even : (a : ℕ) → a % 2 ≡ 0 → has_flag a 1 ≡ false
has_flag-even a h = rw (has_flag-one a, h) refl

pub has_flag-bit_or : (a : ℕ) → has_flag (bit_or a 1) 1 ≡ true
has_flag-bit_or a = has_flag-odd (bit_or a 1) (bit_or_odd a)
