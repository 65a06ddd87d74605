-- ===== src/Printfmt.antt =====
-- libs/printfmt.c: printing of numbers. What is handed to `putch` is the result, as a list of
-- character codes.
pub mod Digits
mod Tests
use nkucore.Prelude.{
  ℕ, zero, suc, ◌+◌, ◌-◌, ◌/◌, ◌%◌, List, [], ◌∷◌, ◌++◌, ltb, if◌then◌else◌, Outcome, returns,
  out_of_fuel, ◌>>=◌,
}

-- `"0123456789abcdef"[mod]`
unfoldable pub digit : ℕ → ℕ
digit d = if ltb d 10 then 48 + d else 87 + d

unfoldable pub pad : (count padc : ℕ) → List ℕ
pad zero padc = []
pad (suc n) padc = padc ∷ pad n padc

-- A `width` below 1 pads nothing, as 0 does.
unfoldable pub printnum : (fuel num base width padc : ℕ) → Outcome (List ℕ)
unfolding digit pad
printnum zero num base width padc = out_of_fuel
printnum (suc k) num base width padc =
    let rest = printnum k (num / base) base (width - 1) padc in
    if ltb num base
    then returns (pad (width - 1) padc ++ digit (num % base) ∷ [])
    else rest >>= λ s. returns (s ++ digit (num % base) ∷ [])
