-- ===== src/Process/Family.antt =====
-- The family links: a process's children from the youngest to the oldest, linked both ways.
use nkucore.Prelude.{
  ℕ, ◌≡◌, ◌≢◌, refl, ◌∙◌, ap, inl, inr, true, ◌==◌, if◌then◌else◌, ==_ne, ==_refl, Bool-cases, List,
  [], ◌∷◌, has, ◌∉◌, Distinct, arith,
}
use nkucore.Ring.Chain.{first_or, first_or-ne}
use nkucore.Process.{Kernel, Proc, set_yptr, set_optr, set_links}
use nkucore.Process.Writes.{
  set_cptr_lem, set_yptr_lem, set_optr_lem, set_yptr_unless, set_yptr_spares,
}

-- `y` is the next younger sibling of the first child of the list, 0 for the youngest.
abbrev pub Siblings : (ℕ → Proc) → (parent y : ℕ) → List ℕ → Type 0
Siblings f parent y [] = Unit
Siblings f parent y (c ∷ cs) =
    (c ≢ 0)
    × ((f c).parent ≡ parent)
    × ((f c).yptr ≡ y)
    × ((f c).optr ≡ first_or cs 0)
    × Siblings f parent c cs

-- The process `parent` has the children `cs`.
pub record IsFamily (f : ℕ → Proc) (parent : ℕ) (cs : List ℕ) : Type 0 where
  pub first : (f parent).cptr ≡ first_or cs 0
  pub siblings : Siblings f parent 0 cs
  pub distinct : Distinct cs
  pub apart : parent ∉ cs

-- A change that spares the links of the siblings.
pub Siblings-frame :
    (f g : ℕ → Proc) (parent y : ℕ) (cs : List ℕ)
    → Siblings f parent y cs
    → ((q : ℕ)
        → has q cs ≡ true
        → ((g q).parent ≡ (f q).parent) × ((g q).yptr ≡ (f q).yptr) × ((g q).optr ≡ (f q).optr))
    → Siblings g parent y cs
Siblings-frame f g parent y [] s h = tt
Siblings-frame f g parent y (c ∷ cs) (n, p, v, o, s) h =
    let (a, b, d) = h c (ground arith) in
    (n, a ∙ p, b ∙ v, d ∙ o, Siblings-frame f g parent c cs s (λ q i. h q (ground arith)))

pub Siblings-nonzero :
    (f : ℕ → Proc) (parent y q : ℕ) (cs : List ℕ) → Siblings f parent y cs → has q cs ≡ true → q ≢ 0
Siblings-nonzero f parent y q [] s h = ground arith
Siblings-nonzero f parent y q (c ∷ cs) (n, p, v, o, s) h = elim (Bool-cases (q == c)) [
  | inl e ↦ let i : q ≡ c = ground arith in rw i n
  | inr e ↦ Siblings-nonzero f parent c q cs s (ground arith)
]

pub spliced_at : {A : Type 0} (q r : ℕ) (a b : A) → q ≢ r → (if q == r then a else b) ≡ b
spliced_at q r a b n = rw (==_ne q r n) refl

-- A new youngest sibling in front.
pub Siblings-younger :
    (f g : ℕ → Proc) (parent y y' : ℕ) (cs : List ℕ)
    → Siblings f parent y cs
    → Distinct cs
    → ((q : ℕ)
        → has q cs ≡ true
        → ((g q).parent ≡ (f q).parent)
          × ((g q).yptr ≡ (if q == first_or cs 0 then y' else (f q).yptr))
          × ((g q).optr ≡ (f q).optr))
    → Siblings g parent y' cs
Siblings-younger f g parent y y' [] s d h = tt
Siblings-younger f g parent y y' (c ∷ cs) (n, p, v, o, s) d h =
    let (a, b, e) = h c (ground arith) in
    (
      n,
      a ∙ p,
      b ∙ rw (==_refl c) refl,
      e ∙ o,
      Siblings-frame f g parent c cs s (λ q i.
          let (a', b', e') = h q (ground arith) in
          (a', b' ∙ spliced_at q c y' _ (ground arith), e')),
    )

module _ (k : Kernel) (p : ℕ) where
  alone : ℕ → Proc
  alone = set_optr (set_yptr k.proc p 0) p (k.proc (k.proc p).parent).cptr

  alone_other :
      (q : ℕ)
      → q ≢ p
      → ((alone q).parent ≡ (k.proc q).parent)
        × ((alone q).yptr ≡ (k.proc q).yptr)
        × ((alone q).optr ≡ (k.proc q).optr)
  unfolding alone
  alone_other q n =
      let u = set_optr_lem (set_yptr k.proc p 0) p (k.proc (k.proc p).parent).cptr q in
      let w = set_yptr_lem k.proc p 0 q in
      (u.0 ∙ w.0, u.2 ∙ w.3 ∙ spliced_at q p 0 _ n, u.3 ∙ spliced_at q p _ _ n ∙ w.2)

  alone_self :
      ((alone p).parent ≡ (k.proc p).parent)
      × ((alone p).yptr ≡ 0)
      × ((alone p).optr ≡ (k.proc (k.proc p).parent).cptr)
  unfolding alone
  alone_self =
      let u = set_optr_lem (set_yptr k.proc p 0) p (k.proc (k.proc p).parent).cptr p in
      let w = set_yptr_lem k.proc p 0 p in
      (u.0 ∙ w.0, u.2 ∙ w.3 ∙ rw (==_refl p) refl, u.3 ∙ rw (==_refl p) refl)

  set_links-fields :
      (q : ℕ)
      → q ≢ 0
      → (((set_links p k).proc q).parent ≡ (alone q).parent)
        × (((set_links p k).proc q).yptr
            ≡ (if q == (k.proc (k.proc p).parent).cptr then p else (alone q).yptr))
        × (((set_links p k).proc q).optr ≡ (alone q).optr)
        × (((set_links p k).proc (k.proc p).parent).cptr ≡ p)
  unfolding set_links alone
  set_links-fields q n =
      let o = (k.proc (k.proc p).parent).cptr in
      let f2 = if o == 0 then alone else set_yptr alone o p in
      let u = set_cptr_lem f2 (k.proc p).parent p q in
      let w = set_yptr_spares alone o p q in
      (
        u.0 ∙ w.0,
        u.1 ∙ set_yptr_unless alone o p q n,
        u.2 ∙ w.2,
        (set_cptr_lem f2 (k.proc p).parent p (k.proc p).parent).3
            ∙ rw (==_refl (k.proc p).parent) refl,
      )

-- `set_links` makes a new process the youngest child of its parent, in front of the others, which
-- keep their order.
pub set_links-IsFamily :
    (k : Kernel) (parent p : ℕ) (cs : List ℕ)
    → IsFamily k.proc parent cs
    → (k.proc p).parent ≡ parent
    → p ≢ 0
    → p ≢ parent
    → p ∉ cs
    → IsFamily (set_links p k).proc parent (p ∷ cs)
set_links-IsFamily k parent p cs r e n m d =
    let fields = set_links-fields k p p n in
    let self = alone_self k p in
    let o : (k.proc (k.proc p).parent).cptr ≡ first_or cs 0 = rw e r.first in
    record {
      first = rw e at fields.3;
      siblings = (
        n,
        fields.0 ∙ self.0 ∙ e,
        fields.1 ∙ spliced_at p _ p _ (rw o (first_or-ne 0 p cs n d)) ∙ self.1,
        fields.2 ∙ self.2 ∙ o,
        Siblings-younger k.proc (set_links p k).proc parent 0 p cs r.siblings r.distinct (λ q i.
            let t = Siblings-nonzero k.proc parent 0 q cs r.siblings i in
            let g = set_links-fields k p q t in
            let b = alone_other k p q (ground arith) in
            (
              g.0 ∙ b.0,
              (rw o at g.1) ∙ ap (λ y. if q == first_or cs 0 then p else y) b.1,
              g.2 ∙ b.2,
            )),
      );
      distinct = (d, r.distinct);
      apart = ground (arith, r.apart);
    }
