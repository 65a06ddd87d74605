-- ===== src/CString/Blocks.antt =====
-- `memset`, `memcpy` and `memmove`: which bytes they change, and to what.
use nkucore.Prelude.{
  ℕ, zero, suc, ◌+◌, ◌-◌, ◌≤◌, ◌≡◌, ◌⊎◌, inl, inr, ◌∙◌, fun_ext, false, ◌&&◌, arith, ltb, leb,
  if◌then◌else◌, update, Bool-cases,
}
use nkucore.CString.{Memory, memset, copy_forward, copy_backward, memmove, memcpy}

-- The memory with the `n` bytes from `d` on replaced by those that stood from `s` on.
abbrev pub copied : (d s n : ℕ) → Memory → Memory
copied d s n m a = if leb d a && ltb a (d + n) then m (s + (a - d)) else m a

abbrev pub filled : (p c n : ℕ) → Memory → Memory
filled p c n m a = if leb p a && ltb a (p + n) then c else m a

-- `memset` sets the `n` bytes from `p` on to `c`, and no other.
pub memset-filled : (p c n : ℕ) (m : Memory) → memset p c n m ≡ filled p c n m
unfolding memset
memset-filled p c zero m = fun_ext λ a. ground arith
memset-filled p c (suc n) m = memset-filled (p + 1) c n (update m p c) ∙ fun_ext (λ a. ground arith)

-- The bytes that the first round of either loop leaves to the others.
pub after_first :
    (d s n a : ℕ) (m : Memory)
    → (d ≤ s) ⊎ (s + suc n ≤ d)
    → copied (d + 1) (s + 1) n (update m d (m s)) a ≡ copied d s (suc n) m a
after_first d s n a m h = ground arith

after_last :
    (d s n a : ℕ) (m : Memory)
    → s ≤ d
    → copied d s n (update m (d + n) (m (s + n))) a ≡ copied d s (suc n) m a
after_last d s n a m h = ground arith

forward-copied :
    (d s n : ℕ) (m : Memory) → (d ≤ s) ⊎ (s + n ≤ d) → copy_forward d s n m ≡ copied d s n m
unfolding copy_forward
forward-copied d s zero m h = fun_ext λ a. ground arith
forward-copied d s (suc n) m h =
    forward-copied (d + 1) (s + 1) n (update m d (m s)) (omega arith)
    ∙ fun_ext (λ a. after_first d s n a m h)

backward-copied :
    (d s n : ℕ) (m : Memory) → s ≤ d → copy_backward (d + n) (s + n) n m ≡ copied d s n m
unfolding copy_backward
backward-copied d s zero m h = fun_ext λ a. ground arith
backward-copied d s (suc n) m h =
    let e : d + suc n - 1 ≡ d + n = omega arith in
    let f : s + suc n - 1 ≡ s + n = omega arith in
    rw (e, f)
      (backward-copied d s n (update m (d + n) (m (s + n))) h
        ∙ fun_ext (λ a. after_last d s n a m h))

apart : (d s n : ℕ) → (ltb s d && ltb d (s + n)) ≡ false → (d ≤ s) ⊎ (s + n ≤ d)
apart d s n e = grind arith

-- `memmove` leaves in the `n` bytes from `dst` on what stood in the `n` bytes from `src` on before
-- the call, and changes no other byte, also where the two areas overlap.
pub memmove-copied : (dst src n : ℕ) (m : Memory) → memmove dst src n m ≡ copied dst src n m
unfolding memmove
memmove-copied dst src n m = elim (Bool-cases (ltb src dst && ltb dst (src + n))) [
  | inl y ↦ rw y (backward-copied dst src n m (ground arith))
  | inr x ↦ rw x (forward-copied dst src n m (apart dst src n x))
]

-- `memcpy` does the same where the areas do not overlap, or the target starts below the source.
pub memcpy-copied :
    (dst src n : ℕ) (m : Memory)
    → (dst ≤ src) ⊎ (src + n ≤ dst)
    → memcpy dst src n m ≡ copied dst src n m
unfolding memcpy
memcpy-copied dst src n m h = forward-copied dst src n m h
