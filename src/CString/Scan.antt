-- ===== src/CString/Scan.antt =====
-- The functions that walk a string up to its NUL byte without writing.
use Prim.Native.Nat.{min}
use nkucore.Prelude.{
  ℕ, zero, suc, ◌+◌, ◌<◌, ◌≡◌, ◌≢◌, ◌⊎◌, arith, ltb, if◌then◌else◌, returns, pos, sub_ℕ,
}
use nkucore.CString.{Memory, strlen_loop, strlen, strnlen_loop, strnlen, strcmp, strncmp}

-- From `s` on stand `n` bytes that are not NUL, and a NUL byte.
pub record IsString (m : Memory) (s n : ℕ) : Type 0 where
  pub body : (i : ℕ) → i < n → m (s + i) ≢ 0
  pub end : m (s + n) ≡ 0

pub IsString-head : (m : Memory) (s n : ℕ) → IsString m s (suc n) → m s ≢ 0
IsString-head m s n h = let e : s + 0 ≡ s = omega arith in rw e at (h.body 0 (omega arith))

pub IsString-tail : (m : Memory) (s n : ℕ) → IsString m s (suc n) → IsString m (s + 1) n
IsString-tail m s n h = record {
  body =
      λ i l. let e : s + suc i ≡ s + 1 + i = omega arith in rw e at (h.body (suc i) (omega arith));
  end = let e : s + suc n ≡ s + 1 + n = omega arith in rw e at h.end;
}

pub IsString-nil : (m : Memory) (s : ℕ) → IsString m s 0 → m s ≡ 0
IsString-nil m s h = let e : s + 0 ≡ s = omega arith in rw e at h.end

strlen_loop-add :
    (fuel n s cnt : ℕ) (m : Memory)
    → IsString m s n
    → n < fuel
    → strlen_loop fuel m s cnt ≡ returns (cnt + n)
unfolding strlen_loop
strlen_loop-add zero n s cnt m h f = absurd (omega arith)
strlen_loop-add (suc fuel) zero s cnt m h f = ground (arith, IsString-nil m s h)
strlen_loop-add (suc fuel) (suc n) s cnt m h f = ground (
  arith,
  IsString-head m s n h,
  strlen_loop-add fuel n (s + 1) (cnt + 1) m (IsString-tail m s n h),
)

-- `strlen` of a string with `n` bytes before its NUL byte is `n`, with more than `n` rounds.
pub strlen_lem :
    (fuel n s : ℕ) (m : Memory) → IsString m s n → n < fuel → strlen fuel m s ≡ returns n
unfolding strlen
strlen_lem fuel n s m h f = ground (arith, strlen_loop-add fuel n s 0 m h f)

strnlen_loop-add :
    (n s len cnt : ℕ) (m : Memory) → IsString m s n → strnlen_loop len m s cnt ≡ cnt + min n len
unfolding strnlen_loop
strnlen_loop-add n s zero cnt m h = omega arith
strnlen_loop-add zero s (suc len) cnt m h = ground (arith, IsString-nil m s h)
strnlen_loop-add (suc n) s (suc len) cnt m h = ground (
  arith,
  IsString-head m s n h,
  strnlen_loop-add n (s + 1) len (cnt + 1) m (IsString-tail m s n h),
)

-- `strnlen` is the smaller of the string's length and the bound.
pub strnlen-min : (n s len : ℕ) (m : Memory) → IsString m s n → strnlen m s len ≡ min n len
unfolding strnlen
strnlen-min n s len m h = omega (arith, strnlen_loop-add n s len 0 m h)

-- The strings agree in `k` bytes that are not NUL, and then differ or end.
pub record FirstDiff (m : Memory) (s t k : ℕ) : Type 0 where
  pub agree : (i : ℕ) → i < k → (m (s + i) ≢ 0) × (m (s + i) ≡ m (t + i))
  pub stop : (m (s + k) ≡ 0) ⊎ (m (s + k) ≢ m (t + k))

FirstDiff-tail : (m : Memory) (s t k : ℕ) → FirstDiff m s t (suc k) → FirstDiff m (s + 1) (t + 1) k
FirstDiff-tail m s t k h = record {
  agree = λ i l.
      let e : s + suc i ≡ s + 1 + i = omega arith in
      let f : t + suc i ≡ t + 1 + i = omega arith in rw (e, f) at (h.agree (suc i) (omega arith));
  stop =
      let e : s + suc k ≡ s + 1 + k = omega arith in
      let f : t + suc k ≡ t + 1 + k = omega arith in rw (e, f) at h.stop;
}

FirstDiff-head : (m : Memory) (s t k : ℕ) → FirstDiff m s t (suc k) → (m s ≢ 0) × (m s ≡ m t)
FirstDiff-head m s t k h =
    let e : s + 0 ≡ s = omega arith in
    let f : t + 0 ≡ t = omega arith in rw (e, f) at (h.agree 0 (omega arith))

FirstDiff-nil : (m : Memory) (s t : ℕ) → FirstDiff m s t 0 → (m s ≡ 0) ⊎ (m s ≢ m t)
FirstDiff-nil m s t h =
    let e : s + 0 ≡ s = omega arith in let f : t + 0 ≡ t = omega arith in rw (e, f) at h.stop

-- `strcmp` returns the difference of the bytes at the first place where the strings differ or the
-- first string ends.
pub strcmp_lem :
    (fuel k s t : ℕ) (m : Memory)
    → FirstDiff m s t k
    → k < fuel
    → strcmp fuel m s t ≡ returns (sub_ℕ (m (s + k)) (m (t + k)))
unfolding strcmp
strcmp_lem zero k s t m h f = absurd (omega arith)
strcmp_lem (suc fuel) zero s t m h f =
    let e : s + 0 ≡ s = omega arith in
    let g : t + 0 ≡ t = omega arith in rw (e, g) (ground (arith, FirstDiff-nil m s t h))
strcmp_lem (suc fuel) (suc k) s t m h f =
    let e : s + suc k ≡ s + 1 + k = omega arith in
    let g : t + suc k ≡ t + 1 + k = omega arith in
    rw (e, g)
      (ground (
        arith,
        FirstDiff-head m s t k h,
        strcmp_lem fuel k (s + 1) (t + 1) m (FirstDiff-tail m s t k h),
      ))

-- `strncmp` does the same within the first `n` bytes, and returns 0 where all of these agree.
pub strncmp_lem :
    (n k s t : ℕ) (m : Memory)
    → FirstDiff m s t k
    → strncmp m s t n ≡ (if ltb k n then sub_ℕ (m (s + k)) (m (t + k)) else pos 0)
unfolding strncmp
strncmp_lem zero k s t m h = ground arith
strncmp_lem (suc n) zero s t m h =
    let e : s + 0 ≡ s = omega arith in
    let g : t + 0 ≡ t = omega arith in rw (e, g) (ground (arith, FirstDiff-nil m s t h))
strncmp_lem (suc n) (suc k) s t m h =
    let e : s + suc k ≡ s + 1 + k = omega arith in
    let g : t + suc k ≡ t + 1 + k = omega arith in
    rw (e, g)
      (ground (
        arith,
        FirstDiff-head m s t k h,
        strncmp_lem n k (s + 1) (t + 1) m (FirstDiff-tail m s t k h),
      ))
