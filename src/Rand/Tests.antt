-- ===== src/Rand/Tests.antt =====
-- The state that the program starts with, and the number that comes first.
use nkucore.Prelude.{◌≤◌, ◌<◌, ◌/◌, ◌^◌, ◌≡◌, refl, arith}
use nkucore.Rand.{rand, rand_max, srand, next_value}
use nkucore.Rand.Step.{step_back, rand-step_back}

rand-step_back_example :
    ((rand 1).0 ≤ rand_max) × ((rand 1).1 < 2 ^ 48) × (step_back (rand 1).1 ≡ 1)
rand-step_back_example = rand-step_back 1 (omega arith)

first_run : rand (srand 1) ≡ (0x5DEECE678 / 2 ^ 12, 0x5DEECE678)
unfolding rand srand next_value
first_run = refl
