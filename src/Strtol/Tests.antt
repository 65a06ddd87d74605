-- ===== src/Strtol/Tests.antt =====
-- strtol at "   ff", at " -0x1f", and at "010".
use nkucore.Prelude.{pos, negsuc, ℕ, ◌+◌, ◌≡◌, refl, List, [], ◌∷◌, arith, returns, update}
use nkucore.CString.{Memory}
use nkucore.Printfmt.{printnum, pad, digit}
use nkucore.Strtol.{strtol, skip_space, read_sign, read_prefix, read_digits, digit_of, ends}
use nkucore.Strtol.RoundTrip.{strtol-printnum}

abbrev write : Memory → ℕ → List ℕ → Memory
write m s [] = m
write m s (c ∷ cs) = write (update m s c) (s + 1) cs

abbrev blank_ff : Memory
blank_ff = write (λ a. 0) 100 (32 ∷ 32 ∷ 32 ∷ 102 ∷ 102 ∷ [])

printed_ff : printnum 256 255 16 5 32 ≡ returns (32 ∷ 32 ∷ 32 ∷ 102 ∷ 102 ∷ [])
unfolding printnum pad digit
printed_ff = refl

strtol-printnum_example : strtol 6 blank_ff 100 16 ≡ returns (pos 255, 105)
strtol-printnum_example =
    strtol-printnum 6 256 blank_ff 100 255 16 5 (32 ∷ 32 ∷ 32 ∷ 102 ∷ 102 ∷ []) (omega arith)
      (omega arith) (omega arith) (omega arith) printed_ff
      (refl, (refl, (refl, (refl, (refl, tt))))) refl (omega arith)

negative_run :
    strtol 9 (write (λ a. 0) 100 (32 ∷ 45 ∷ 48 ∷ 120 ∷ 49 ∷ 102 ∷ [])) 100 0
    ≡ returns (negsuc 30, 106)
unfolding strtol skip_space read_sign read_prefix read_digits digit_of ends
negative_run = refl

octal_run : strtol 9 (write (λ a. 0) 100 (48 ∷ 49 ∷ 48 ∷ [])) 100 0 ≡ returns (pos 8, 103)
unfolding strtol skip_space read_sign read_prefix read_digits digit_of ends
octal_run = refl
