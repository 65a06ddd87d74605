-- ===== src/Strtol.antt =====
-- libs/string.c: strtol. While the digits are read, the value is kept as a word of 64 bits, so a
-- `long` that overflows wraps around; a loop over the string runs on fuel.
pub mod Digits
pub mod RoundTrip
mod Tests
use nkucore.Prelude.{
  ℕ, zero, suc, ◌+◌, ◌-◌, ◌*◌, ◌^◌, Bool, true, false, ◌&&◌, ◌||◌, Option, none, some, ltb, leb,
  ◌==◌, if◌then◌else◌, Outcome, returns, out_of_fuel, ℤ, pos, negsuc, ◌>>=◌, ◌>>◌, word,
}
use nkucore.CString.{Memory}

-- The digit that a character stands for; none ends the number.
unfoldable pub digit_of : (c : ℕ) → Option ℕ
digit_of c =
    if leb 48 c && leb c 57
    then some (c - 48)
    else if leb 97 c && leb c 122
    then some (c - 97 + 10)
    else if leb 65 c && leb c 90
    then some (c - 65 + 10)
    else none

unfoldable pub skip_space : (fuel : ℕ) → Memory → (s : ℕ) → Outcome ℕ
skip_space zero m s = out_of_fuel
skip_space (suc k) m s =
    let rest = skip_space k m (s + 1) in if m s == 32 || m s == 9 then rest else returns s

-- Whether the number is negative, and where it goes on.
unfoldable pub read_sign : Memory → (s : ℕ) → Bool × ℕ
read_sign m s =
    if m s == 43 then (false, s + 1) else if m s == 45 then (true, s + 1) else (false, s)

-- The base, and where the digits start.
unfoldable pub read_prefix : Memory → (s base : ℕ) → ℕ × ℕ
read_prefix m s base =
    if (base == 0 || base == 16) && (m s == 48 && m (s + 1) == 120)
    then (16, s + 2)
    else if base == 0 && m s == 48
    then (8, s + 1)
    else if base == 0
    then (10, s)
    else (base, s)

-- The character is no digit of the base.
unfoldable pub ends : (base : ℕ) → Option ℕ → Bool
ends base none = true
ends base (some dig) = leb base dig

abbrev pub digit_or_zero : Option ℕ → ℕ
digit_or_zero none = 0
digit_or_zero (some dig) = dig

-- The value, and where the digits end.
unfoldable pub read_digits : (fuel : ℕ) → Memory → (s base val : ℕ) → Outcome (ℕ × ℕ)
unfolding ends
read_digits zero m s base val = out_of_fuel
read_digits (suc k) m s base val =
    let rest = read_digits k m (s + 1) base (word (val * base + digit_or_zero (digit_of (m s)))) in
    if ends base (digit_of (m s)) then returns (val, s) else rest

-- The `long` that a word of 64 bits stands for.
abbrev pub long_of : ℕ → ℤ
long_of w = if ltb w (2 ^ 63) then pos w else negsuc (2 ^ 64 - 1 - w)

-- The result, and what is stored through `endptr`.
unfoldable pub strtol : (fuel : ℕ) → Memory → (s base : ℕ) → Outcome (ℤ × ℕ)
strtol fuel m s base = do
  start ← skip_space fuel m s
  let sign : Bool × ℕ = read_sign m start
  let body : ℕ × ℕ = read_prefix m sign.1 base
  r ← read_digits fuel m body.1 body.0 0
  returns (long_of (if sign.0 then word (2 ^ 64 - r.0) else r.0), r.1)
