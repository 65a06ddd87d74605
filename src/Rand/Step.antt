-- ===== src/Rand/Step.antt =====
-- libs/rand.c: the range of rand, and that it can be run backwards.
use nkucore.Prelude.{ℕ, ◌+◌, ◌-◌, ◌*◌, ◌%◌, ◌^◌, ◌≤◌, ◌<◌, ◌≡◌, arith}
use nkucore.Rand.{rand_max, next_value, rand}

-- 0xDFE05BCB1365 is the inverse of the multiplier modulo 2^48.
abbrev pub step_back : (next : ℕ) → ℕ
step_back next = (next + 2 ^ 48 - 0xB) * 0xDFE05BCB1365 % 2 ^ 48

step_back-next_value : (x : ℕ) → x < 2 ^ 48 → step_back (next_value x) ≡ x
unfolding next_value
step_back-next_value x l = omega (arith, l)

-- From a state of 48 bits `rand` returns a number up to RAND_MAX and leaves a state of 48 bits, from
-- which `step_back` gets the old one back: no two states of 48 bits lead to the same.
pub rand-step_back :
    (next : ℕ)
    → next < 2 ^ 48
    → ((rand next).0 ≤ rand_max) × ((rand next).1 < 2 ^ 48) × (step_back (rand next).1 ≡ next)
unfolding rand next_value
rand-step_back next l = (omega arith, omega arith, step_back-next_value next l)
