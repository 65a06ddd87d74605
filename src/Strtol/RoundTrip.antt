-- ===== src/Strtol/RoundTrip.antt =====
-- libs/string.c and libs/printfmt.c: strtol reads what printnum prints.
use nkucore.Prelude.{
  pos, lt→ltb, ℕ, zero, suc, ◌+◌, ◌-◌, ◌^◌, ◌≤◌, ◌<◌, ◌≡◌, ◌≢◌, ◌∙◌, refl, ap, sym, none, List, [],
  ◌∷◌, ◌++◌, length, length-append, ==_ne, arith, returns, panics, out_of_fuel, Outcome,
}
use nkucore.CString.{Memory}
use nkucore.Printfmt.{digit, pad, printnum}
use nkucore.Printfmt.Digits.{undigit, Small, Printed, IsNumeral, printnum-IsNumeral}
use nkucore.Strtol.{digit_of, skip_space, read_sign, read_prefix, strtol}
use nkucore.Strtol.Digits.{Holds, Holds-append, read_digits-value}

-- A printed digit is no blank, no sign, and no x.
Printed-plain :
    (c : ℕ)
    → undigit c < 16
    → digit (undigit c) ≡ c
    → (c ≢ 32) × (c ≢ 9) × (c ≢ 43) × (c ≢ 45) × (c ≢ 120)
unfolding digit
Printed-plain c l e = ground (arith, e, l)

skip_space-pad :
    (fuel n : ℕ) (m : Memory) (s : ℕ)
    → Holds m s (pad n 32)
    → m (s + n) ≢ 32
    → m (s + n) ≢ 9
    → n < fuel
    → skip_space fuel m s ≡ returns (s + n)
unfolding skip_space pad
skip_space-pad zero n m s h a b f = absurd (omega (arith, f))
skip_space-pad (suc k) zero m s h a b f =
    let e : s + 0 ≡ s = omega arith in
    let a' : m s ≢ 32 = rw e at a in
    let b' : m s ≢ 9 = rw e at b in rw (==_ne (m s) 32 a', ==_ne (m s) 9 b', e) refl
skip_space-pad (suc k) (suc n) m s h a b f =
    let e : s + suc n ≡ s + 1 + n = omega arith in
    rw (h.0, e) (skip_space-pad k n m (s + 1) h.1 (rw (← e) a) (rw (← e) b) (omega (arith, f)))

length-pad : (n c : ℕ) → length (pad n c) ≡ n
unfolding pad
length-pad zero c = refl
length-pad (suc n) c = ap suc (length-pad n c)

second_plain :
    (m : Memory) (s base : ℕ) (c : ℕ) (ds : List ℕ)
    → base ≤ 16
    → Holds m s (c ∷ ds)
    → Small base (c ∷ ds)
    → Printed (c ∷ ds)
    → m (s + length (c ∷ ds)) ≡ 0
    → m (s + 1) ≢ 120
second_plain m s base c [] h hold small printed z = λ e. omega (arith, (z), e)
second_plain m s base c (d ∷ ds) h hold small printed z =
    rw hold.1.0 ((Printed-plain d (omega (arith, small.1.0, h)) printed.1.0).4)

read_prefix-base :
    (m : Memory) (s base : ℕ) → 2 ≤ base → m (s + 1) ≢ 120 → read_prefix m s base ≡ (base, s)
unfolding read_prefix
read_prefix-base m s base l x = rw (==_ne (m (s + 1)) 120 x) (ground arith)

digit_of-nul : digit_of 0 ≡ none
unfolding digit_of
digit_of-nul = refl

abbrev got : List ℕ → Outcome (List ℕ) → List ℕ
got d (returns x) = x
got d panics = d
got d out_of_fuel = d

returned : {xs ys : List ℕ} → returns xs ≡ returns ys → xs ≡ ys
returned e = ap (got []) e

-- Blanks and then a numeral, with a NUL behind it.
strtol-numeral :
    (fuel : ℕ) (m : Memory) (s base num n : ℕ) (ds : List ℕ)
    → 2 ≤ base
    → base ≤ 16
    → num < 2 ^ 63
    → IsNumeral base num ds
    → Holds m s (pad n 32 ++ ds)
    → m (s + n + length ds) ≡ 0
    → n + length ds < fuel
    → strtol fuel m s base ≡ returns (pos num, s + n + length ds)
unfolding strtol read_sign
strtol-numeral fuel m s base num n [] l h fits i hold z f = absurd (omega (arith, i.some_digit))
strtol-numeral fuel m s base num n (c ∷ ds) l h fits i hold z f =
    let parts = Holds-append m s (pad n 32) (c ∷ ds) hold in
    let there : Holds m (s + n) (c ∷ ds) = rw (length-pad n 32) at parts.1 in
    let plain = Printed-plain c (omega (arith, i.small.0, h)) i.printed.0 in
    let first = there.0 in
    let blank =
      skip_space-pad fuel n m s parts.0 (rw first plain.0) (rw first plain.1) (omega (arith, f)) in
    let x = second_plain m (s + n) base c ds h there i.small i.printed z in
    let stop : digit_of (m (s + n + length (c ∷ ds))) ≡ none = rw z digit_of-nul in
    let digits =
      read_digits-value fuel m (s + n) base 0 (c ∷ ds) (omega (arith, l)) h there i.small i.printed
        stop (rw i.value_is (omega (arith, fits))) (omega (arith, f)) in
    rw
      (
        blank,
        first,
        ==_ne c 43 plain.2,
        ==_ne c 45 plain.3,
        read_prefix-base m (s + n) base l x,
        digits,
        i.value_is,
        lt→ltb num (2 ^ 63) fits,
      )
      refl

-- In a base from 2 to 16: where the memory holds what `printnum` prints for a number below 2^63,
-- padded with blanks, and a NUL behind it, `strtol` returns the number and the address of the NUL.
pub strtol-printnum :
    (rounds fuel : ℕ) (m : Memory) (s num base width : ℕ) (cs : List ℕ)
    → 2 ≤ base
    → base ≤ 16
    → num < fuel
    → num < 2 ^ 63
    → printnum fuel num base width 32 ≡ returns cs
    → Holds m s cs
    → m (s + length cs) ≡ 0
    → length cs < rounds
    → strtol rounds m s base ≡ returns (pos num, s + length cs)
strtol-printnum rounds fuel m s num base width cs l h f fits printed hold z r =
    let (ds, e, i) = printnum-IsNumeral fuel num base width 32 l h f in
    let n = width - length ds in
    let same : pad n 32 ++ ds ≡ cs = returned (sym e ∙ printed) in
    let size : length cs ≡ n + length ds =
      ap length (sym same)
      ∙ length-append (pad n 32) ds
      ∙ ap (λ k. k + length ds) (length-pad n 32) in
    let at : s + length cs ≡ s + n + length ds = omega (arith, size) in
    rw at (
      strtol-numeral rounds m s base num n ds l h fits i (rw same hold) (rw (← at) z)
        (omega (arith, size, r)))
