-- ===== src/CString/Search.antt =====
-- `strchr`, `strfind` and `memcmp`: where they stop.
use nkucore.Prelude.{
  ℕ, zero, suc, ◌+◌, ◌<◌, ◌≡◌, ◌≢◌, ◌⊎◌, refl, arith, ◌==◌, if◌then◌else◌, none, some, returns, pos,
  sub_ℕ,
}
use nkucore.CString.{Memory, strchr, strfind, memcmp}

-- `k` bytes that are neither NUL nor `c`, and then one of these.
pub record StopsAt (m : Memory) (s c k : ℕ) : Type 0 where
  pub before : (i : ℕ) → i < k → (m (s + i) ≢ 0) × (m (s + i) ≢ c)
  pub stop : (m (s + k) ≡ 0) ⊎ (m (s + k) ≡ c)

StopsAt-tail : (m : Memory) (s c k : ℕ) → StopsAt m s c (suc k) → StopsAt m (s + 1) c k
StopsAt-tail m s c k h = record {
  before = λ i l.
      let e : s + suc i ≡ s + 1 + i = omega arith in rw e at (h.before (suc i) (omega arith));
  stop = let e : s + suc k ≡ s + 1 + k = omega arith in rw e at h.stop;
}

StopsAt-head : (m : Memory) (s c k : ℕ) → StopsAt m s c (suc k) → (m s ≢ 0) × (m s ≢ c)
StopsAt-head m s c k h = let e : s + 0 ≡ s = omega arith in rw e at (h.before 0 (omega arith))

StopsAt-nil : (m : Memory) (s c : ℕ) → StopsAt m s c 0 → (m s ≡ 0) ⊎ (m s ≡ c)
StopsAt-nil m s c h = let e : s + 0 ≡ s = omega arith in rw e at h.stop

strfind_lem :
    (fuel k s c : ℕ) (m : Memory)
    → StopsAt m s c k
    → k < fuel
    → strfind fuel m s c ≡ returns (s + k)
unfolding strfind
strfind_lem zero k s c m h f = absurd (omega arith)
strfind_lem (suc fuel) zero s c m h f =
    let e : s + 0 ≡ s = omega arith in rw e (ground (arith, StopsAt-nil m s c h))
strfind_lem (suc fuel) (suc k) s c m h f =
    let e : s + suc k ≡ s + 1 + k = omega arith in
    rw e (
      ground
        (arith, StopsAt-head m s c k h, strfind_lem fuel k (s + 1) c m (StopsAt-tail m s c k h)))

strchr_lem :
    (fuel k s c : ℕ) (m : Memory)
    → StopsAt m s c k
    → k < fuel
    → strchr fuel m s c ≡ returns (if m (s + k) == 0 then none else some (s + k))
unfolding strchr
strchr_lem zero k s c m h f = absurd (omega arith)
strchr_lem (suc fuel) zero s c m h f =
    let e : s + 0 ≡ s = omega arith in rw e (ground (arith, StopsAt-nil m s c h))
strchr_lem (suc fuel) (suc k) s c m h f =
    let e : s + suc k ≡ s + 1 + k = omega arith in
    rw e (
      ground
        (arith, StopsAt-head m s c k h, strchr_lem fuel k (s + 1) c m (StopsAt-tail m s c k h)))

-- Both searches stop at the first byte that is `c` or NUL: `strfind` returns its address, `strchr`
-- returns it unless the byte is NUL, and NULL then, so also where `c` itself is NUL.
pub strchr-strfind :
    (fuel k s c : ℕ) (m : Memory)
    → StopsAt m s c k
    → k < fuel
    → (strfind fuel m s c ≡ returns (s + k))
      × (strchr fuel m s c ≡ returns (if m (s + k) == 0 then none else some (s + k)))
strchr-strfind fuel k s c m h f = (strfind_lem fuel k s c m h f, strchr_lem fuel k s c m h f)

-- `memcmp` is 0 where the `n` bytes agree.
pub memcmp-same :
    (n s t : ℕ) (m : Memory) → ((i : ℕ) → i < n → m (s + i) ≡ m (t + i)) → memcmp m s t n ≡ pos 0
unfolding memcmp
memcmp-same zero s t m h = refl
memcmp-same (suc n) s t m h =
    let e : s + 0 ≡ s = omega arith in
    let f : t + 0 ≡ t = omega arith in
    let here : m s ≡ m t = rw (e, f) at (h 0 (omega arith)) in
    ground (
      arith,
      here,
      memcmp-same n (s + 1) (t + 1) m (λ i l.
          let e' : s + suc i ≡ s + 1 + i = omega arith in
          let f' : t + suc i ≡ t + 1 + i = omega arith in rw (e', f') at (h (suc i) (omega arith))),
    )

-- `memcmp` returns the difference of the bytes at the first place, below `n`, where they differ.
pub memcmp-first :
    (n k s t : ℕ) (m : Memory)
    → ((i : ℕ) → i < k → m (s + i) ≡ m (t + i))
    → m (s + k) ≢ m (t + k)
    → k < n
    → memcmp m s t n ≡ sub_ℕ (m (s + k)) (m (t + k))
unfolding memcmp
memcmp-first zero k s t m h d l = absurd (omega arith)
memcmp-first (suc n) zero s t m h d l =
    let e : s + 0 ≡ s = omega arith in
    let f : t + 0 ≡ t = omega arith in
    let d' : m s ≢ m t = rw (e, f) at d in rw (e, f) (ground arith)
memcmp-first (suc n) (suc k) s t m h d l =
    let e : s + 0 ≡ s = omega arith in
    let f : t + 0 ≡ t = omega arith in
    let here : m s ≡ m t = rw (e, f) at (h 0 (omega arith)) in
    let e' : s + suc k ≡ s + 1 + k = omega arith in
    let f' : t + suc k ≡ t + 1 + k = omega arith in
    rw (e', f')
      (ground (
        arith,
        here,
        memcmp-first n k (s + 1) (t + 1) m
            (λ i l'.
              let e'' : s + suc i ≡ s + 1 + i = omega arith in
              let f'' : t + suc i ≡ t + 1 + i = omega arith in
              rw (e'', f'') at (h (suc i) (omega arith)))
            (rw (e', f') at d) (omega arith),
      ))
