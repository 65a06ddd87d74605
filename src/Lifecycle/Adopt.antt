-- ===== src/Lifecycle/Adopt.antt =====
-- The loop of `do_exit`: the children of a process that ends become children of `initproc`.
use nkucore.Prelude.{
  ℕ, ◌≡◌, ◌≢◌, refl, sym, ◌∙◌, ap, inl, inr, true, ◌==◌, if◌then◌else◌, ==_refl, Bool-cases, List,
  ◌∷◌, has, ◌∉◌, Distinct, arith,
}
use nkucore.Ring.Chain.{first_or, first_or-ne}
use nkucore.Process.{Proc, set_cptr, set_yptr, set_optr}
use nkucore.Process.Writes.{
  set_cptr_lem, set_yptr_lem, set_optr_lem, set_yptr_unless, set_yptr_spares,
}
use nkucore.Process.Family.{
  Siblings, IsFamily, Siblings-frame, Siblings-younger, Siblings-nonzero, spliced_at,
}
use nkucore.Lifecycle.{set_parent, adopt}

set_parent_lem :
    (f : ℕ → Proc) (p v q : ℕ)
    → ((set_parent f p v q).cptr ≡ (f q).cptr)
      × ((set_parent f p v q).yptr ≡ (f q).yptr)
      × ((set_parent f p v q).optr ≡ (f q).optr)
      × ((set_parent f p v q).parent ≡ (if q == p then v else (f q).parent))
unfolding set_parent
set_parent_lem f p v q = elim (Bool-cases (q == p)) [
  | inl h ↦ let i : q ≡ p = ground arith in rw (h, i) (refl, refl, refl, refl)
  | inr h ↦ rw h (refl, refl, refl, refl)
]

-- The links after `adopt`.
module _ (c current init : ℕ) (f : ℕ → Proc) (apart : init ≢ current) where
  oldest : ℕ
  oldest = (set_cptr f current (f c).optr init).cptr

  oldest_lem : oldest ≡ (f init).cptr
  unfolding oldest
  oldest_lem = (set_cptr_lem f current (f c).optr init).3 ∙ spliced_at init current _ _ apart

  cut : ℕ → Proc
  cut = set_optr (set_yptr (set_cptr f current (f c).optr) c 0) c oldest

  cut_lem :
      (q : ℕ)
      → ((cut q).parent ≡ (f q).parent)
        × ((cut q).yptr ≡ (if q == c then 0 else (f q).yptr))
        × ((cut q).optr ≡ (if q == c then oldest else (f q).optr))
        × ((cut q).cptr ≡ (if q == current then (f c).optr else (f q).cptr))
  unfolding cut
  cut_lem q =
      let a = set_cptr_lem f current (f c).optr q in
      let b = set_yptr_lem (set_cptr f current (f c).optr) c 0 q in
      let d = set_optr_lem (set_yptr (set_cptr f current (f c).optr) c 0) c oldest q in
      (
        d.0 ∙ b.0 ∙ a.0,
        d.2 ∙ b.3 ∙ ap (λ y. if q == c then 0 else y) a.1,
        d.3 ∙ ap (λ y. if q == c then oldest else y) (b.2 ∙ a.2),
        d.1 ∙ b.1 ∙ a.3,
      )

  adopt_lem :
      (q : ℕ)
      → q ≢ 0
      → ((adopt c current init f q).parent ≡ (if q == c then init else (f q).parent))
        × ((adopt c current init f q).yptr
            ≡ (if q == (f init).cptr then c else if q == c then 0 else (f q).yptr))
        × ((adopt c current init f q).optr ≡ (if q == c then (f init).cptr else (f q).optr))
        × ((adopt c current init f q).cptr
            ≡ (if q == init then c else if q == current then (f c).optr else (f q).cptr))
  unfolding adopt cut oldest
  adopt_lem q n =
      let f3 = if oldest == 0 then cut else set_yptr cut oldest c in
      let s = set_yptr_spares cut oldest c q in
      let u = set_parent_lem f3 c init q in
      let w = set_cptr_lem (set_parent f3 c init) init c q in
      let k = cut_lem q in
      (
        w.0 ∙ u.3 ∙ ap (λ y. if q == c then init else y) (s.0 ∙ k.0),
        w.1 ∙ u.1 ∙ set_yptr_unless cut oldest c q n ∙ rw (k.1, oldest_lem) refl,
        w.2 ∙ u.2 ∙ s.2 ∙ k.2 ∙ ap (λ y. if q == c then y else (f q).optr) oldest_lem,
        w.3 ∙ ap (λ y. if q == init then c else y) (u.0 ∙ s.1 ∙ k.3),
      )

-- The children that are left: the youngest may still point to the one that went before.
pub record Left (f : ℕ → Proc) (parent y : ℕ) (cs : List ℕ) : Type 0 where
  pub first : (f parent).cptr ≡ first_or cs 0
  pub siblings : Siblings f parent y cs
  pub distinct : Distinct cs
  pub apart : parent ∉ cs

-- No process is in both lists.
abbrev pub Disjoint : List ℕ → List ℕ → Type 0
Disjoint cs ds = (q : ℕ) → has q cs ≡ true → q ∉ ds

-- Of a process before and after a change: its family links are as they were.
abbrev pub Same : (f g : ℕ → Proc) → Type 0
Same f g =
    (q : ℕ)
    → ((g q).parent ≡ (f q).parent)
      × ((g q).yptr ≡ (f q).yptr)
      × ((g q).optr ≡ (f q).optr)
      × ((g q).cptr ≡ (f q).cptr)

pub Left-frame :
    (f g : ℕ → Proc) (parent y : ℕ) (cs : List ℕ)
    → Same f g
    → Left f parent y cs
    → Left g parent y cs
Left-frame f g parent y cs s r = record {
  first = (s parent).3 ∙ r.first;
  siblings = Siblings-frame f g parent y cs r.siblings (λ q i. let (a, b, c, d) = s q in (a, b, c));
  distinct = r.distinct;
  apart = r.apart;
}

pub IsFamily-frame :
    (f g : ℕ → Proc) (parent : ℕ) (cs : List ℕ)
    → Same f g
    → IsFamily f parent cs
    → IsFamily g parent cs
IsFamily-frame f g parent cs s r = record {
  first = (s parent).3 ∙ r.first;
  siblings = Siblings-frame f g parent 0 cs r.siblings (λ q i. let (a, b, c, d) = s q in (a, b, c));
  distinct = r.distinct;
  apart = r.apart;
}

module _ (c y current init : ℕ) (cs ds : List ℕ) (f : ℕ → Proc) (apart : init ≢ current)
    (nz : current ≢ 0) (iz : init ≢ 0) (mine : Left f current y (c ∷ cs))
    (theirs : IsFamily f init ds) (disjoint : Disjoint (c ∷ cs) ds) (out : init ∉ (c ∷ cs)) where
  pub adopt-Left : Left (adopt c current init f) current c cs
  adopt-Left =
      let (n, p, v, o, s) = mine.siblings in
      let l = adopt_lem c current init f apart in
      let i : current ≢ init = λ e. apart (sym e) in
      record {
        first = (l current nz).3 ∙ spliced_at current init c _ i ∙ rw (==_refl current) o;
        siblings = Siblings-frame f (adopt c current init f) current c cs s (λ q h.
            let t = Siblings-nonzero f current c q cs s h in
            let b : q ≢ c = ground (arith, mine.distinct) in
            let d : q ∉ ds = disjoint q (ground arith) in
            let e : q ≢ (f init).cptr = rw theirs.first (first_or-ne 0 q ds t d) in
            let g = l q t in
            (
              g.0 ∙ spliced_at q c init _ b,
              g.1 ∙ spliced_at q (f init).cptr c _ e ∙ spliced_at q c 0 _ b,
              g.2 ∙ spliced_at q c _ _ b,
            ));
        distinct = mine.distinct.1;
        apart = ground (arith, mine.apart);
      }

  pub adopt-IsFamily : IsFamily (adopt c current init f) init (c ∷ ds)
  adopt-IsFamily =
      let n = mine.siblings.0 in
      let l = adopt_lem c current init f apart in
      let d : c ∉ ds = disjoint c (ground arith) in
      let e : c ≢ (f init).cptr = rw theirs.first (first_or-ne 0 c ds n d) in
      record {
        first = (l init iz).3 ∙ rw (==_refl init) refl;
        siblings = (
          n,
          (l c n).0 ∙ rw (==_refl c) refl,
          (l c n).1 ∙ spliced_at c (f init).cptr c _ e ∙ rw (==_refl c) refl,
          (l c n).2 ∙ rw (==_refl c) theirs.first,
          Siblings-younger f (adopt c current init f) init 0 c ds theirs.siblings theirs.distinct
              (λ q h.
                let t = Siblings-nonzero f init 0 q ds theirs.siblings h in
                let b : q ≢ c = ground arith in
                let g = l q t in
                (
                  g.0 ∙ spliced_at q c init _ b,
                  g.1
                      ∙ ap (λ z. if q == (f init).cptr then c else z)
                          (spliced_at q c 0 (f q).yptr b)
                      ∙ ap (λ z. if q == z then c else (f q).yptr) theirs.first,
                  g.2 ∙ spliced_at q c _ _ b,
                )),
        );
        distinct = (d, theirs.distinct);
        apart = ground (arith, theirs.apart);
      }
