-- ===== src/Printfmt/Tests.antt =====
-- Runs of `printnum`, and its theorem at 255 in base 16.
use nkucore.Prelude.{ℕ, ◌-◌, ◌≡◌, refl, List, [], ◌∷◌, ◌++◌, length, arith, returns, out_of_fuel}
use nkucore.Printfmt.{digit, pad, printnum}
use nkucore.Printfmt.Digits.{IsNumeral, printnum-IsNumeral, printnum_endless}

-- "  ff"
padded : printnum 9 255 16 4 32 ≡ returns (32 ∷ 32 ∷ 102 ∷ 102 ∷ [])
unfolding printnum pad digit
padded = refl

-- "0"
nought : printnum 9 0 10 0 32 ≡ returns (48 ∷ [])
unfolding printnum pad digit
nought = refl

printnum-IsNumeral_example :
    (ds : List ℕ) × (printnum 256 255 16 4 32 ≡ returns (pad (4 - length ds) 32 ++ ds))
    × IsNumeral 16 255 ds
printnum-IsNumeral_example =
    printnum-IsNumeral 256 255 16 4 32 (omega arith) (omega arith) (omega arith)

unary : printnum 100 3 1 0 32 ≡ out_of_fuel
unary = printnum_endless 100 3 0 32 (omega arith)
