-- ===== src/CString/Copy.antt =====
-- `strcpy` and `strncpy`: the memory that they leave.
use nkucore.Prelude.{
  ℕ, zero, suc, ◌+◌, ◌-◌, ◌≤◌, ◌<◌, ◌≡◌, ◌⊎◌, ◌∙◌, ap, fun_ext, true, false, ◌&&◌, arith, ltb, leb,
  ◌==◌, if◌then◌else◌, update, returns,
}
use nkucore.CString.{Memory, strcpy, strncpy}
use nkucore.CString.Scan.{IsString, IsString-head, IsString-tail, IsString-nil}
use nkucore.CString.Blocks.{copied, after_first}

IsString-update :
    (m : Memory) (d v s n : ℕ)
    → IsString m s n
    → (d < s) ⊎ (s + n < d)
    → IsString (update m d v) s n
IsString-update m d v s n h o = record {
  body = λ i l. ground (arith, h.body i l);
  end = ground (arith, h.end);
}

-- `strcpy` copies a string of `n` bytes with its NUL byte, and changes nothing else, with more than
-- `n` rounds, if the target starts no later than the source or behind its NUL byte.
pub strcpy-copied :
    (fuel n dst src : ℕ) (m : Memory)
    → IsString m src n
    → (dst ≤ src) ⊎ (src + n < dst)
    → n < fuel
    → strcpy fuel dst src m ≡ returns (copied dst src (n + 1) m)
unfolding strcpy
strcpy-copied zero n dst src m h o f = absurd (omega arith)
strcpy-copied (suc fuel) zero dst src m h o f =
    let e = IsString-nil m src h in rw e (ap returns (fun_ext λ a. ground arith))
strcpy-copied (suc fuel) (suc n) dst src m h o f =
    let e : (m src == 0) ≡ false = ground (arith, IsString-head m src n h) in
    let i = IsString-update m dst (m src) (src + 1) n (IsString-tail m src n h) (omega arith) in
    rw e (
      strcpy-copied fuel n (dst + 1) (src + 1) (update m dst (m src)) i (omega arith) (omega arith)
      ∙ ap returns (
          fun_ext λ a.
            let g : n + 1 ≡ suc n = omega arith in
            let g' : suc n + 1 ≡ suc (suc n) = omega arith in
            rw (g, g') (after_first dst src (suc n) a m (omega arith))))

-- The memory with the `len` bytes from `dst` on replaced by the first bytes of a string of `n`
-- bytes, and by NUL bytes behind these.
abbrev pub padded : (dst src n len : ℕ) → Memory → Memory
padded dst src n len m a =
    if leb dst a && ltb a (dst + len)
    then (if ltb (a - dst) n then m (src + (a - dst)) else 0)
    else m a

padded-first :
    (dst src n len a : ℕ) (m : Memory)
    → (dst + suc len ≤ src) ⊎ (src + suc n < dst)
    → padded (dst + 1) (src + 1) n len (update m dst (m src)) a
      ≡ padded dst src (suc n) (suc len) m a
padded-first dst src n len a m o = ground arith

padded-nul :
    (dst src len a : ℕ) (m : Memory)
    → m src ≡ 0
    → padded (dst + 1) src 0 len (update m dst (m src)) a ≡ padded dst src 0 (suc len) m a
padded-nul dst src len a m e = ground arith

-- `strncpy` writes exactly `len` bytes: the string's, as far as they go, then NUL bytes. Source and
-- target must not overlap.
pub strncpy-padded :
    (len n dst src : ℕ) (m : Memory)
    → IsString m src n
    → (dst + len ≤ src) ⊎ (src + n < dst)
    → strncpy dst src len m ≡ padded dst src n len m
unfolding strncpy
strncpy-padded zero n dst src m h o = fun_ext λ a. ground arith
strncpy-padded (suc len) zero dst src m h o =
    let e = IsString-nil m src h in
    let t : (m src == 0) ≡ true = ground arith in
    let i = IsString-update m dst (m src) src 0 h (omega arith) in
    rw t (
      strncpy-padded len zero (dst + 1) src (update m dst (m src)) i (omega arith)
      ∙ fun_ext (λ a. padded-nul dst src len a m e))
strncpy-padded (suc len) (suc n) dst src m h o =
    let t : (m src == 0) ≡ false = ground (arith, IsString-head m src n h) in
    let i = IsString-update m dst (m src) (src + 1) n (IsString-tail m src n h) (omega arith) in
    rw t (
      strncpy-padded len n (dst + 1) (src + 1) (update m dst (m src)) i (omega arith)
      ∙ fun_ext (λ a. padded-first dst src n len a m o))
