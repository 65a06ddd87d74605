-- ===== src/Process/Writes.antt =====
-- What the writes of `set_links` and `remove_links` do to the fields that link a family.
use nkucore.Prelude.{ℕ, ◌≡◌, ◌≢◌, refl, inl, inr, false, ◌==◌, if◌then◌else◌, Bool-cases, arith}
use nkucore.Process.{Proc, set_cptr, set_yptr, set_optr}

-- The fields of every process after a write.
module _ (f : ℕ → Proc) (p v q : ℕ) where
  pub set_cptr_lem :
      ((set_cptr f p v q).parent ≡ (f q).parent)
      × ((set_cptr f p v q).yptr ≡ (f q).yptr)
      × ((set_cptr f p v q).optr ≡ (f q).optr)
      × ((set_cptr f p v q).cptr ≡ (if q == p then v else (f q).cptr))
  unfolding set_cptr
  set_cptr_lem = elim (Bool-cases (q == p)) [
    | inl h ↦ let i : q ≡ p = ground arith in rw (h, i) (refl, refl, refl, refl)
    | inr h ↦ rw h (refl, refl, refl, refl)
  ]

  pub set_yptr_lem :
      ((set_yptr f p v q).parent ≡ (f q).parent)
      × ((set_yptr f p v q).cptr ≡ (f q).cptr)
      × ((set_yptr f p v q).optr ≡ (f q).optr)
      × ((set_yptr f p v q).yptr ≡ (if q == p then v else (f q).yptr))
  unfolding set_yptr
  set_yptr_lem = elim (Bool-cases (q == p)) [
    | inl h ↦ let i : q ≡ p = ground arith in rw (h, i) (refl, refl, refl, refl)
    | inr h ↦ rw h (refl, refl, refl, refl)
  ]

  pub set_optr_lem :
      ((set_optr f p v q).parent ≡ (f q).parent)
      × ((set_optr f p v q).cptr ≡ (f q).cptr)
      × ((set_optr f p v q).yptr ≡ (f q).yptr)
      × ((set_optr f p v q).optr ≡ (if q == p then v else (f q).optr))
  unfolding set_optr
  set_optr_lem = elim (Bool-cases (q == p)) [
    | inl h ↦ let i : q ≡ p = ground arith in rw (h, i) (refl, refl, refl, refl)
    | inr h ↦ rw h (refl, refl, refl, refl)
  ]

  -- A write that a NULL pointer skips.
  pub set_yptr_unless :
      q ≢ 0 → ((if p == 0 then f else set_yptr f p v) q).yptr ≡ (if q == p then v else (f q).yptr)
  set_yptr_unless n = elim (Bool-cases (p == 0)) [
    | inl h ↦ let i : (q == p) ≡ false = ground arith in rw (h, i) refl
    | inr h ↦ rw h set_yptr_lem.3
  ]

  pub set_yptr_spares :
      (((if p == 0 then f else set_yptr f p v) q).parent ≡ (f q).parent)
      × (((if p == 0 then f else set_yptr f p v) q).cptr ≡ (f q).cptr)
      × (((if p == 0 then f else set_yptr f p v) q).optr ≡ (f q).optr)
  set_yptr_spares = elim (Bool-cases (p == 0)) [
    | inl h ↦ rw h (refl, refl, refl)
    | inr h ↦ rw h (set_yptr_lem.0, set_yptr_lem.1, set_yptr_lem.2)
  ]
