-- ===== src/Process/Unlink.antt =====
-- `remove_links`: a child leaves its family.
use nkucore.Prelude.{
  update-same, ℕ, ◌≡◌, ◌≢◌, refl, sym, ◌∙◌, ap, inl, inr, false, ◌==◌, if◌then◌else◌, ==_refl,
  Bool-cases, List, [], ◌∷◌, ◌++◌, ◌∉◌, not_has-append_left, not_has-append_right, Distinct, arith,
}
use nkucore.Ring.Chain.{last_from, first_or, first_or-ne, last_from-ne}
use nkucore.Ring.Laws.{not_has-remove, Distinct-remove}
use nkucore.Process.{set_cptr, set_optr, Kernel, Proc, set_yptr, remove_links}
use nkucore.Process.Writes.{set_cptr_lem, set_optr_lem, set_yptr_unless, set_yptr_spares}
use nkucore.Process.Family.{Siblings, IsFamily, Siblings-frame, Siblings-nonzero, spliced_at}

-- The oldest of the younger siblings and the youngest of the older ones are linked with each other.
record Spliced (f g : ℕ → Proc) (younger older : ℕ) : Type 0 where
  parents : (q : ℕ) → (g q).parent ≡ (f q).parent
  younger_of : (q : ℕ) → q ≢ 0 → (g q).yptr ≡ (if q == older then younger else (f q).yptr)
  older_of : (q : ℕ) → q ≢ 0 → (g q).optr ≡ (if q == younger then older else (f q).optr)

Siblings-after :
    (f g : ℕ → Proc) (parent y p : ℕ) (ys : List ℕ)
    → Siblings f parent p ys
    → Spliced f g y (first_or ys 0)
    → Distinct ys
    → y ∉ ys
    → Siblings g parent y ys
Siblings-after f g parent y p [] s c d n = tt
Siblings-after f g parent y p (z ∷ zs) (m, a, v, o, s) c d n = (
  m,
  c.parents z ∙ a,
  c.younger_of z m ∙ rw (==_refl z) refl,
  c.older_of z m ∙ spliced_at z y z _ (ground arith) ∙ o,
  Siblings-frame f g parent z zs s (λ q i.
      let t = Siblings-nonzero f parent z q zs s i in
      (
        c.parents q,
        c.younger_of q t ∙ spliced_at q z y _ (ground arith),
        c.older_of q t ∙ spliced_at q y z _ (ground arith),
      )),
)

apart_around : (x p : ℕ) (xs ys : List ℕ) → x ∉ (xs ++ p ∷ ys) → (x ∉ xs) × (x ≢ p) × (x ∉ ys)
apart_around x p xs ys n =
    let r = not_has-append_right x xs (p ∷ ys) n in
    (not_has-append_left x xs (p ∷ ys) n, ground arith, ground arith)

head_apart : (x x' : ℕ) (xs : List ℕ) → x ∉ (x' ∷ xs) → (x ≢ x') × (x ∉ xs)
head_apart x x' xs n = (ground arith, ground arith)

Siblings-del :
    (f g : ℕ → Proc) (parent y p : ℕ) (xs ys : List ℕ)
    → Siblings f parent y (xs ++ p ∷ ys)
    → Spliced f g (last_from y xs) (first_or ys 0)
    → Distinct (xs ++ p ∷ ys)
    → y ∉ (xs ++ p ∷ ys)
    → Siblings g parent y (xs ++ ys)
Siblings-del f g parent y p [] ys (m, a, v, o, s) c d n =
    Siblings-after f g parent y p ys s c d.1 (ground arith)
Siblings-del f g parent y p (x ∷ []) ys (m, a, v, o, s) c d n = (
  m,
  c.parents x ∙ a,
  c.younger_of x m ∙ spliced_at x (first_or ys 0) x _ (first_or-ne 0 x ys m (ground arith)) ∙ v,
  c.older_of x m ∙ rw (==_refl x) refl,
  Siblings-del f g parent x p [] ys s c d.1 d.0,
)
Siblings-del f g parent y p (x ∷ x' ∷ xs) ys (m, a, v, o, s) c d n =
    let (nx, np, ny) = apart_around x p (x' ∷ xs) ys d.0 in
    let (h, t) = head_apart x x' xs nx in
    (
      m,
      c.parents x ∙ a,
      c.younger_of x m ∙ spliced_at x (first_or ys 0) _ _ (first_or-ne 0 x ys m ny) ∙ v,
      c.older_of x m ∙ spliced_at x (last_from x' xs) _ _ (last_from-ne x' x xs h t) ∙ o,
      Siblings-del f g parent x p (x' ∷ xs) ys s c d.1 d.0,
    )

module _ (k : Kernel) (p : ℕ) where
  remove_links-Spliced : Spliced k.proc (remove_links p k).proc (k.proc p).yptr (k.proc p).optr
  unfolding remove_links
  remove_links-Spliced =
      let o = (k.proc p).optr in
      let y = (k.proc p).yptr in
      let f1 = if o == 0 then k.proc else set_yptr k.proc o y in
      elim (Bool-cases (y == 0)) [
        | inl h ↦
            let i : y ≡ 0 = ground arith in
            rw h record {
              parents =
                  λ q. (set_cptr_lem f1 (k.proc p).parent o q).0 ∙ (set_yptr_spares k.proc o y q).0;
              younger_of =
                  λ q n. (set_cptr_lem f1 (k.proc p).parent o q).1 ∙ set_yptr_unless k.proc o y q n;
              older_of = λ q n.
                  (set_cptr_lem f1 (k.proc p).parent o q).2
                  ∙ (set_yptr_spares k.proc o y q).2
                  ∙ sym (spliced_at q y o _ (rw i n));
            }
        | inr h ↦ rw h record {
          parents = λ q. (set_optr_lem f1 y o q).0 ∙ (set_yptr_spares k.proc o y q).0;
          younger_of = λ q n. (set_optr_lem f1 y o q).2 ∙ set_yptr_unless k.proc o y q n;
          older_of = λ q n.
              (set_optr_lem f1 y o q).3
              ∙ ap (λ r. if q == y then o else r) (set_yptr_spares k.proc o y q).2;
        }
      ]

  remove_links-cptr :
      ((remove_links p k).proc (k.proc p).parent).cptr
      ≡ (if (k.proc p).yptr == 0 then (k.proc p).optr else (k.proc (k.proc p).parent).cptr)
  unfolding remove_links
  remove_links-cptr =
      let o = (k.proc p).optr in
      let y = (k.proc p).yptr in
      let r = (k.proc p).parent in
      let f1 = if o == 0 then k.proc else set_yptr k.proc o y in
      elim (Bool-cases (y == 0)) [
        | inl h ↦ rw h ((set_cptr_lem f1 r o r).3 ∙ rw (==_refl r) refl)
        | inr h ↦ rw h ((set_optr_lem f1 y o r).1 ∙ (set_yptr_spares k.proc o y r).1)
      ]

last_nonzero : (p q : ℕ) (xs : List ℕ) → p ≢ 0 → 0 ∉ xs → (last_from p xs == 0) ≡ false
last_nonzero p q [] n h = ground arith
last_nonzero p q (x ∷ xs) n h = last_nonzero x q xs (ground arith) (ground arith)

pub Siblings-at :
    (f : ℕ → Proc) (parent y p : ℕ) (xs ys : List ℕ)
    → Siblings f parent y (xs ++ p ∷ ys)
    → ((f p).parent ≡ parent) × ((f p).yptr ≡ last_from y xs) × ((f p).optr ≡ first_or ys 0)
Siblings-at f parent y p [] ys (m, a, v, o, s) = (a, v, o)
Siblings-at f parent y p (x ∷ xs) ys (m, a, v, o, s) = Siblings-at f parent x p xs ys s

first_after :
    (xs ys : List ℕ) (p o : ℕ) (f : ℕ → Proc) (parent : ℕ)
    → Siblings f parent 0 (xs ++ p ∷ ys)
    → o ≡ first_or (xs ++ p ∷ ys) 0
    → 0 ∉ xs
    → (if last_from 0 xs == 0 then first_or ys 0 else o) ≡ first_or (xs ++ ys) 0
first_after [] ys p o f parent s e n = refl
first_after (x ∷ xs) ys p o f parent s e n =
    rw (last_nonzero x 0 xs (ground arith) (ground arith)) e

nonzeros : (f : ℕ → Proc) (parent y : ℕ) (zs : List ℕ) → Siblings f parent y zs → 0 ∉ zs
nonzeros f parent y [] s = refl
nonzeros f parent y (z ∷ zs) (m, a, v, o, s) = ground (arith, nonzeros f parent z zs s)

-- `remove_links` takes a child out of its family, wherever it stands, and leaves the other children
-- linked in their order.
pub remove_links-IsFamily :
    (k : Kernel) (parent p : ℕ) (xs ys : List ℕ)
    → IsFamily k.proc parent (xs ++ p ∷ ys)
    → IsFamily (remove_links p k).proc parent (xs ++ ys)
remove_links-IsFamily k parent p xs ys r =
    let (a, v, o) = Siblings-at k.proc parent 0 p xs ys r.siblings in
    let c : Spliced k.proc (remove_links p k).proc (last_from 0 xs) (first_or ys 0) =
      rw (← v, ← o) (remove_links-Spliced k p) in
    let n = nonzeros k.proc parent 0 (xs ++ p ∷ ys) r.siblings in
    record {
      first =
          (rw (a, v, o) at (remove_links-cptr k p))
          ∙ first_after xs ys p _ k.proc parent r.siblings r.first
              (not_has-append_left 0 xs (p ∷ ys) n);
      siblings =
          Siblings-del k.proc (remove_links p k).proc parent 0 p xs ys r.siblings c r.distinct n;
      distinct = (Distinct-remove p xs ys r.distinct).0;
      apart = (not_has-remove parent p xs ys r.apart).0;
    }

-- The kernel stack of every process stays.
pub remove_links-kstack :
    (p : ℕ) (k : Kernel) (q : ℕ) → ((remove_links p k).proc q).kstack ≡ (k.proc q).kstack
unfolding remove_links set_cptr set_yptr set_optr
remove_links-kstack p k q =
    let o = (k.proc p).optr in
    let y = (k.proc p).yptr in
    let r = (k.proc p).parent in
    let f1 = if o == 0 then k.proc else set_yptr k.proc o y in
    let first : (f1 q).kstack ≡ (k.proc q).kstack = elim (Bool-cases (o == 0)) [
      | inl h ↦ rw h refl
      | inr h ↦ rw h (update-same (λ s. s.kstack) k.proc o _ refl q)
    ] in
    elim (Bool-cases (y == 0)) [
      | inl h ↦ rw h (update-same (λ s. s.kstack) f1 r _ refl q) ∙ first
      | inr h ↦ rw h (update-same (λ s. s.kstack) f1 y _ refl q) ∙ first
    ]
