-- ===== src/Prelude/Word.antt =====
-- Words of the machine, flag bits, and the rounding macros of libs/defs.h.
use Prim.Native.Nat.{ℕ, ◌+◌, ◌-◌, ◌%◌, ◌^◌, bit_and}
use mathlib.Core.Bool.{Bool, not}
use nkucore.Prelude.Tests.{◌==◌}

-- `size_t`, `uintptr_t`
abbrev pub word : ℕ → ℕ
word n = n % 2 ^ 64

abbrev pub page_size : ℕ
page_size = 4096

-- `a - a % n`, and that of `a + n - 1`, which wraps.
unfoldable pub round_down : (a n : ℕ) → ℕ
round_down a n = a - a % n

unfoldable pub round_up : (a n : ℕ) → ℕ
unfolding round_down
round_up a n = round_down (word (a + n - 1)) n

-- `flags & mask`, as a condition.
unfoldable pub has_flag : (flags mask : ℕ) → Bool
has_flag flags mask = not (bit_and flags mask == 0)
