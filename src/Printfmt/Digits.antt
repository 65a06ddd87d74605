-- ===== src/Printfmt/Digits.antt =====
-- The digits that `printnum` prints, read back.
use nkucore.Prelude.{
  ℕ, zero, suc, ◌+◌, ◌-◌, ◌*◌, ◌/◌, ◌%◌, ◌≤◌, ◌<◌, ◌≡◌, ◌≢◌, refl, ap, ◌∙◌, inl, inr, false,
  Bool-cases, List, [], ◌∷◌, ◌++◌, length, length-append, All, ltb, if◌then◌else◌, arith, returns,
  out_of_fuel,
}
use native.Mathlib.Nat.{mod-lt, div-add-mod, mod-eq_of_lt, div-lt_self, div-one}
use nkucore.Printfmt.{digit, pad, printnum}

-- The digit that a character stands for.
abbrev pub undigit : ℕ → ℕ
undigit c = if ltb c 58 then c - 48 else c - 87

-- The value of digits in a base, the most significant first.
abbrev pub value : (base acc : ℕ) → List ℕ → ℕ
value base acc [] = acc
value base acc (c ∷ cs) = value base (acc * base + undigit c) cs

undigit-digit : (d : ℕ) → d < 16 → undigit (digit d) ≡ d
unfolding digit
undigit-digit d l = ground arith

value-append :
    (base acc d : ℕ) (cs : List ℕ)
    → value base acc (cs ++ d ∷ []) ≡ value base acc cs * base + undigit d
value-append base acc d [] = refl
value-append base acc d (c ∷ cs) = value-append base (acc * base + undigit c) d cs

append_assoc : (xs ys zs : List ℕ) → (xs ++ ys) ++ zs ≡ xs ++ (ys ++ zs)
append_assoc [] ys zs = refl
append_assoc (x ∷ xs) ys zs = ap (λ t. x ∷ t) (append_assoc xs ys zs)

abbrev pub Small : ℕ → List ℕ → Type 0
Small base ds = All (λ c. undigit c < base) ds

Small-append :
    (base : ℕ) (xs : List ℕ) (y : ℕ) → Small base xs → undigit y < base → Small base (xs ++ y ∷ [])
Small-append base [] y a p = (p, tt)
Small-append base (x ∷ xs) y (q, a) p = (q, Small-append base xs y a p)

-- Every character is the one that is printed for its digit.
abbrev pub Printed : List ℕ → Type 0
Printed ds = All (λ c. digit (undigit c) ≡ c) ds

Printed-append : (xs : List ℕ) (y : ℕ) → Printed xs → digit (undigit y) ≡ y → Printed (xs ++ y ∷ [])
Printed-append [] y a p = (p, tt)
Printed-append (x ∷ xs) y (q, a) p = (q, Printed-append xs y a p)

value_one : (base c : ℕ) → value base 0 (c ∷ []) ≡ undigit c
value_one base c = go base (undigit c)
  where
    go : (b u : ℕ) → 0 * b + u ≡ u
    go b u = grind arith

-- The first digit is not 0.
abbrev pub LeadsNonzero : List ℕ → Type 0
LeadsNonzero [] = ⊥
LeadsNonzero (c ∷ cs) = undigit c ≢ 0

LeadsNonzero-append : (xs : List ℕ) (y : ℕ) → LeadsNonzero xs → LeadsNonzero (xs ++ y ∷ [])
LeadsNonzero-append [] y h = absurd h
LeadsNonzero-append (x ∷ xs) y h = h

-- One digit of the base or more, with the number as their value, and no superfluous 0 in front.
pub record IsNumeral (base num : ℕ) (ds : List ℕ) : Type 0 where
  pub small : Small base ds
  pub printed : Printed ds
  pub value_is : value base 0 ds ≡ num
  pub some_digit : 1 ≤ length ds
  pub one_digit : num < base → length ds ≡ 1
  pub leads : 1 ≤ num → LeadsNonzero ds

-- In a base from 2 to 16 and with more rounds than the number, `printnum` prints the numeral of the
-- number in that base, without a superfluous 0 in front, padded in front to `width` characters where
-- it has fewer.
pub printnum-IsNumeral :
    (fuel num base width padc : ℕ)
    → 2 ≤ base
    → base ≤ 16
    → num < fuel
    → (ds : List ℕ) × (printnum fuel num base width padc
        ≡ returns (pad (width - length ds) padc ++ ds))
      × IsNumeral base num ds
unfolding printnum
printnum-IsNumeral zero num base width padc l h f = absurd (omega arith)
printnum-IsNumeral (suc fuel) num base width padc l h f =
    let m : num % base < base = mod-lt num (omega arith) in
    let u = undigit-digit (num % base) (omega (arith, m)) in
    elim (Bool-cases (ltb num base)) [
      | inl s ↦
          let q : num % base ≡ num = mod-eq_of_lt (ground arith) in
          (
            digit (num % base) ∷ [],
            rw s refl,
            record {
              small = (rw u m, tt);
              printed = (ap digit u, tt);
              value_is = value_one base (digit (num % base)) ∙ u ∙ q;
              some_digit = omega arith;
              one_digit = λ x. refl;
              leads = λ p x. omega (arith, x, u, q, p);
            },
          )
      | inr s ↦
          let d : num / base < num = div-lt_self (ground arith) (omega arith) in
          let (ds, e, i) =
            printnum-IsNumeral fuel (num / base) base (width - 1) padc l h (omega (arith, d, f)) in
          let n = length-append ds (digit (num % base) ∷ []) in
          let w : width - 1 - length ds ≡ width - length (ds ++ digit (num % base) ∷ []) =
            omega (arith, n) in
          (
            ds ++ digit (num % base) ∷ [],
            rw (s, e, w)
                (ap (λ t. returns t)
                  (append_assoc (pad (width - length (ds ++ digit (num % base) ∷ [])) padc) ds
                    (digit (num % base) ∷ []))),
            record {
              small = Small-append base ds (digit (num % base)) i.small (rw u m);
              printed = Printed-append ds (digit (num % base)) i.printed (ap digit u);
              value_is =
                  value-append base 0 (digit (num % base)) ds
                  ∙ rw (i.value_is, u) (combine num base);
              some_digit = omega (arith, n);
              one_digit = λ x. ground (arith, s, x);
              leads = λ p.
                  LeadsNonzero-append ds (digit (num % base)) (i.leads (quotient num base m s));
            },
          )
    ]
  where
    combine : (num base : ℕ) → num / base * base + num % base ≡ num
    combine num base = let q = div-add-mod num base in grind (arith, q)

    quotient : (num base : ℕ) → num % base < base → ltb num base ≡ false → 1 ≤ num / base
    quotient num base m s =
        let some_base : (num / base) ≢ 0 = λ z.
          let q : 0 * base + num % base ≡ num = rw z at (combine num base) in
          ground (arith, q, m, s) in
        omega (arith, some_base)

-- In base 1 no number of rounds is enough for a number from 1 on: the recursion does not end.
pub printnum_endless :
    (fuel num width padc : ℕ) → 1 ≤ num → printnum fuel num 1 width padc ≡ out_of_fuel
unfolding printnum
printnum_endless zero num width padc l = refl
printnum_endless (suc fuel) num width padc l =
    let s : ltb num 1 ≡ false = ground arith in
    rw (s, div-one num, printnum_endless fuel num (width - 1) padc l) refl
