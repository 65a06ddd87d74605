-- ===== src/Strtol/Digits.antt =====
-- libs/string.c, strtol: the loop over the digits.
use nkucore.Prelude.{
  ℕ, zero, suc, ◌+◌, ◌*◌, ◌^◌, ◌≤◌, ◌<◌, ◌≡◌, ◌∙◌, refl, ap, sym, false, none, some, List, [], ◌∷◌,
  ◌++◌, length, leb, arith, returns, word,
}
use native.Mathlib.Nat.{mod-eq_of_lt}
use nkucore.CString.{Memory}
use nkucore.Printfmt.{digit}
use nkucore.Printfmt.Digits.{undigit, value, Small, Printed}
use nkucore.Strtol.{digit_of, read_digits}

-- The memory holds these characters from `s` on.
abbrev pub Holds : Memory → ℕ → List ℕ → Type 0
Holds m s [] = Unit
Holds m s (c ∷ cs) = (m s ≡ c) × Holds m (s + 1) cs

pub Holds-append :
    (m : Memory) (s : ℕ) (xs ys : List ℕ)
    → Holds m s (xs ++ ys)
    → Holds m s xs × Holds m (s + length xs) ys
Holds-append m s [] ys h = let e : s + 0 ≡ s = omega arith in (tt, rw e h)
Holds-append m s (x ∷ xs) ys (c, h) =
    let r = Holds-append m (s + 1) xs ys h in
    let e : s + suc (length xs) ≡ s + 1 + length xs = omega arith in ((c, r.0), rw e r.1)

digit_of-digit : (d : ℕ) → d < 16 → digit_of (digit d) ≡ some d
unfolding digit_of digit
digit_of-digit d l = ground arith

-- A printed digit is read as the digit that it shows.
pub digit_of-Printed :
    (c : ℕ) → undigit c < 16 → digit (undigit c) ≡ c → digit_of c ≡ some (undigit c)
digit_of-Printed c l e = ap digit_of (sym e) ∙ digit_of-digit (undigit c) l

pub value-grows : (base acc : ℕ) (cs : List ℕ) → 1 ≤ base → acc ≤ value base acc cs
value-grows base acc [] h = omega arith
value-grows base acc (c ∷ cs) h =
    let r = value-grows base (acc * base + undigit c) cs h in grind (arith, r)

-- Printed digits whose value fits into a word, and behind them no digit: with more rounds than
-- digits the loop returns their value, and the address behind them.
pub read_digits-value :
    (fuel : ℕ) (m : Memory) (s base acc : ℕ) (ds : List ℕ)
    → 1 ≤ base
    → base ≤ 16
    → Holds m s ds
    → Small base ds
    → Printed ds
    → digit_of (m (s + length ds)) ≡ none
    → value base acc ds < 2 ^ 64
    → length ds < fuel
    → read_digits fuel m s base acc ≡ returns (value base acc ds, s + length ds)
unfolding read_digits
read_digits-value zero m s base acc ds l h hold small printed stop fits f =
    absurd (omega (arith, f))
read_digits-value (suc k) m s base acc [] l h hold small printed stop fits f =
    let e : s + 0 ≡ s = omega arith in
    let stop' : digit_of (m s) ≡ none = rw e at stop in rw (e, stop') refl
read_digits-value (suc k) m s base acc (c ∷ ds) l h (hc, hold) (sc, small) (pc, printed) stop fits
      f =
    let e : s + suc (length ds) ≡ s + 1 + length ds = omega arith in
    let d = digit_of-Printed c (omega (arith, sc, h)) pc in
    let g = value-grows base (acc * base + undigit c) ds l in
    let w : word (acc * base + undigit c) ≡ acc * base + undigit c =
      mod-eq_of_lt (omega (arith, g, fits)) in
    let b : leb base (undigit c) ≡ false = ground (arith, sc) in
    let ih =
      read_digits-value k m (s + 1) base (acc * base + undigit c) ds l h hold small printed
        (rw (← e) stop) fits (omega (arith, f)) in
    rw (hc, d, w, b, e) ih
