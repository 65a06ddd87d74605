-- ===== src/Rand.antt =====
-- libs/rand.c. The static variable `next` is the state.
pub mod Step
mod Tests
use nkucore.Prelude.{ℕ, ◌+◌, ◌*◌, ◌/◌, ◌%◌, ◌^◌}

abbrev pub rand_max : ℕ
rand_max = 2147483647

-- The new value of `next`; a product of `unsigned long long` is cut to 64 bits, and the mask keeps
-- the low 48 bits.
unfoldable pub next_value : (next : ℕ) → ℕ
next_value next = (next * 0x5DEECE66D + 0xB) % 2 ^ 64 % 2 ^ 48

-- The result of `do_div`, which cuts the divisor to 32 bits, and `next`.
unfoldable pub rand : (next : ℕ) → ℕ × ℕ
unfolding next_value
rand next = (next_value next / 2 ^ 12 % ((rand_max + 1) % 2 ^ 32), next_value next)

-- `seed` is an `unsigned int`.
unfoldable pub srand : (seed : ℕ) → ℕ
srand seed = seed % 2 ^ 32
