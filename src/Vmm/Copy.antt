-- ===== src/Vmm/Copy.antt =====
-- The copies between user and kernel memory that `user_mem_check` guards.
use nkucore.Prelude.{
  ℕ, suc, zero, ◌+◌, ◌≤◌, ◌<◌, ◌≡◌, ◌≢◌, ◌⊎◌, inl, inr, refl, sym, ap, ◌∙◌, Bool, true, false,
  Option, some, arith, if◌then◌else◌, Outcome, returns, panics, out_of_fuel, ◌>>=◌, word, update,
  update_ne, ◌^◌,
}
use native.Mathlib.Decide.{dec_lt}
use nkucore.CString.{Memory, memcpy, copy_forward}
use nkucore.Vmm.{Mm, search_list, user_access, user_mem_check, copy_to_user}
use nkucore.Vmm.Areas.{IsSpace}
use nkucore.Vmm.Access.{accepted, permits, user_mem_check-permits}

copy_forward-outside :
    (n d s c : ℕ) (m : Memory) → (c < d) ⊎ (d + n ≤ c) → copy_forward d s n m c ≡ m c
unfolding copy_forward
copy_forward-outside zero d s c m o = refl
copy_forward-outside (suc n) d s c m o =
    copy_forward-outside n (d + 1) (s + 1) c (update m d (m s)) (omega arith)
    ∙ update_ne m d c (m s) (ground arith)

memcpy-outside : (n d s c : ℕ) (m : Memory) → memcpy d s n m c ≢ m c → (d ≤ c) × (c < d + n)
unfolding memcpy
memcpy-outside n d s c m h = elim (dec_lt c d) [
  | yes a ↦ absurd (h (copy_forward-outside n d s c m (inl a)))
  | no a ↦ elim (dec_lt c (d + n)) [
    | yes b ↦ (omega arith, b)
    | no b ↦ absurd (h (copy_forward-outside n d s c m (inr (omega arith))))
  ]
]

abbrev left_memory : Memory → Outcome (Bool × Option Mm × Memory) → Memory
left_memory m (returns t) = t.2
left_memory m panics = m
left_memory m out_of_fuel = m

no_wrap :
    (dst len : ℕ)
    → dst < 2 ^ 64
    → len < 2 ^ 64
    → user_access dst (word (dst + len)) ≡ true
    → word (dst + len) ≡ dst + len
unfolding user_access
no_wrap dst len d l u = let t : dst < word (dst + len) = ground arith in omega arith

-- A byte that `copy_to_user` changes lies in an area of the address space that may be written.
pub copy_to_user-writable :
    (fuel : ℕ) (mm : Mm) (dst src len c : ℕ) (m m' : Memory) {ok : Bool} {o : Option Mm}
    → IsSpace mm
    → dst < 2 ^ 64
    → len < 2 ^ 64
    → copy_to_user fuel (some mm) dst src len m ≡ returns (ok, o, m')
    → m' c ≢ m c
    → permits true (search_list mm.mmap_list c) ≡ true
unfolding copy_to_user
copy_to_user-writable fuel mm dst src len c m m' {ok} {o} s d l e h =
    go (user_mem_check fuel (some mm) dst len true) refl e
  where
    go :
        (r : Outcome (Bool × Option Mm))
        → user_mem_check fuel (some mm) dst len true ≡ r
        → ◌>>=◌ {B = Bool × Option Mm × Memory} r
            (λ r. returns (if r.0 then (true, r.1, memcpy dst src len m) else (false, r.1, m)))
          ≡ returns (ok, o, m')
        → permits true (search_list mm.mmap_list c) ≡ true
    go (returns (true, x)) f e =
        let q : m' ≡ memcpy dst src len m = sym (ap (left_memory m) e) in
        let (a, b) = memcpy-outside len dst src c m (rw q at h) in
        let u = no_wrap dst len d l (accepted fuel mm dst len true f).0 in
        (user_mem_check-permits fuel mm dst len c true s f a (omega arith)).1
    go (returns (false, x)) f e =
        let q : m' ≡ m = sym (ap (left_memory m) e) in absurd (h (ap (λ (t : Memory). t c) q))
    go panics f e = ground arith
    go out_of_fuel f e = ground arith
