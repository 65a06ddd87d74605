-- ===== src/Lifecycle/Reparent.antt =====
-- The loop of `do_exit` that gives the children of the process to `initproc`.
use nkucore.Prelude.{
  ℕ, zero, suc, ◌<◌, ◌≡◌, ◌≢◌, refl, ◌∙◌, ap, inl, inr, false, ◌==◌, if◌then◌else◌, ==_ne,
  Bool-cases, List, [], ◌∷◌, length, ◌∉◌, update-same, arith, Outcome, returns, ◌>>=◌,
}
use nkucore.Process.{Kernel, Proc, is_zombie, set_cptr, set_yptr, set_optr}
use nkucore.Process.Family.{IsFamily}
use nkucore.Lifecycle.{adopt, wake_init, reparent, set_parent}
use nkucore.Lifecycle.Adopt.{Left, Left-frame, IsFamily-frame, Disjoint, adopt-Left, adopt-IsFamily}
use nkucore.Lifecycle.Wake.{Spared, Spared-trans, wake_init-Wakes}

-- The children one after the other in front of others.
abbrev pub rev_onto : List ℕ → List ℕ → List ℕ
rev_onto [] ds = ds
rev_onto (c ∷ cs) ds = rev_onto cs (c ∷ ds)

adopt-same :
    {B : Type 0} (g : Proc → B) (c current init : ℕ) (f : ℕ → Proc) (q : ℕ)
    → ((r : Proc) (v : ℕ)
        → (g (record r { cptr = v }) ≡ g r)
          × (g (record r { yptr = v }) ≡ g r)
          × (g (record r { optr = v }) ≡ g r)
          × (g (record r { parent = v }) ≡ g r))
    → g (adopt c current init f q) ≡ g (f q)
unfolding adopt set_parent set_cptr set_yptr set_optr
adopt-same g c current init f q h =
    let f1 = set_cptr f current (f c).optr in
    let oldest = (f1 init).cptr in
    let f2 = set_optr (set_yptr f1 c 0) c oldest in
    let f3 = if oldest == 0 then f2 else set_yptr f2 oldest c in
    update-same g (set_parent f3 c init) init _ (h (set_parent f3 c init init) c).0 q
    ∙ update-same g f3 c _ (h (f3 c) init).3 q
    ∙ step f2 oldest
    ∙ update-same g (set_yptr f1 c 0) c _ (h (set_yptr f1 c 0 c) oldest).2 q
    ∙ update-same g f1 c _ (h (f1 c) 0).1 q
    ∙ update-same g f current _ (h (f current) (f c).optr).0 q
  where
    step :
        (f2 : ℕ → Proc) (oldest : ℕ)
        → g ((if oldest == 0 then f2 else set_yptr f2 oldest c) q) ≡ g (f2 q)
    step f2 oldest = elim (Bool-cases (oldest == 0)) [
      | inl e ↦ rw e refl
      | inr e ↦ rw e (update-same g f2 oldest _ (h (f2 oldest) c).1 q)
    ]

-- The kernel after the link writes of a round.
abbrev given : (c current init : ℕ) → Kernel → Kernel
given c current init k = record k { proc = adopt c current init k.proc }

abbrev round : ℕ → Kernel → ℕ → ℕ → ℕ → Outcome Kernel
round n k c current init = wake_init c (given c current init k) >>= reparent n

reparent_stop : (n : ℕ) (k : Kernel) → (k.proc k.current).cptr ≡ 0 → reparent (suc n) k ≡ returns k
unfolding reparent
reparent_stop n k e = ap (λ d. if d == 0 then returns k else round n k d k.current k.initproc) e

reparent_step :
    (n c current init : ℕ) (k : Kernel)
    → k.current ≡ current
    → k.initproc ≡ init
    → (k.proc current).cptr ≡ c
    → c ≢ 0
    → reparent (suc n) k ≡ round n k c current init
unfolding reparent
reparent_step n c current init k kc ki e h =
    ap (λ d. if d == 0 then returns k else round n k d k.current k.initproc)
      (ap (λ p. (k.proc p).cptr) kc ∙ e)
    ∙ ap (λ b. if b then returns k else round n k c k.current k.initproc) (==_ne c 0 h)
    ∙ ap (λ p. round n k c p k.initproc) kc
    ∙ ap (round n k c current) ki

given-Spared :
    (c current init : ℕ) (k : Kernel)
    → is_zombie (k.proc init).state ≡ false
    → Spared init k (given c current init k)
given-Spared c current init k z = record {
  current = refl;
  initproc = refl;
  states =
      λ q n. adopt-same (λ r. r.state) c current init k.proc q (λ r v. (refl, refl, refl, refl));
  codes =
      λ q. adopt-same (λ r. r.exit_code) c current init k.proc q (λ r v. (refl, refl, refl, refl));
  alive =
      ap is_zombie
        (adopt-same (λ r. r.state) c current init k.proc init (λ r v. (refl, refl, refl, refl)))
      ∙ z;
}

pub reparent-IsFamily :
    (fuel y current init : ℕ) (cs ds : List ℕ) (k : Kernel)
    → k.current ≡ current
    → k.initproc ≡ init
    → init ≢ current
    → current ≢ 0
    → init ≢ 0
    → Left k.proc current y cs
    → IsFamily k.proc init ds
    → Disjoint cs ds
    → init ∉ cs
    → is_zombie (k.proc init).state ≡ false
    → length cs < fuel
    → (k' : Kernel) × (reparent fuel k ≡ returns k')
      × ((k'.proc current).cptr ≡ 0)
      × IsFamily k'.proc init (rev_onto cs ds)
      × Spared init k k'
reparent-IsFamily zero y current init cs ds k kc ki a n i l r d o z f = absurd (omega arith)
reparent-IsFamily (suc fuel) y current init [] ds k kc ki a n i l r d o z f = (
  k,
  reparent_stop fuel k (rw kc l.first),
  l.first,
  r,
  record { current = refl; initproc = refl; states = λ q n. refl; codes = λ q. refl; alive = z },
)
reparent-IsFamily (suc fuel) y current init (c ∷ cs) ds k kc ki a n i l r d o z f =
    let sp = given-Spared c current init k z in
    let (k2, e, w) = wake_init-Wakes c init (given c current init k) ki sp.alive in
    let l1 = adopt-Left c y current init cs ds k.proc a n i l r d o in
    let r1 = adopt-IsFamily c y current init cs ds k.proc a n i l r d o in
    let (k3, e3, p, g, u) =
      reparent-IsFamily fuel c current init cs (c ∷ ds) k2 (w.spared.current ∙ kc)
        (w.spared.initproc ∙ ki) a n i (Left-frame _ k2.proc current c cs w.same l1)
        (IsFamily-frame _ k2.proc init (c ∷ ds) w.same r1)
        (λ q h. ground (arith, d q, l.distinct, h)) (ground (arith, o)) w.spared.alive
        (omega (arith, f)) in
    (
      k3,
      reparent_step fuel c current init k kc ki l.first l.siblings.0
          ∙ ap (λ x. x >>= reparent fuel) e
          ∙ e3,
      p,
      g,
      Spared-trans init k k2 k3 (Spared-trans init k (given c current init k) k2 sp w.spared) u,
    )
