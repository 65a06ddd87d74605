-- ===== src/Lifecycle/Wake.antt =====
-- Waking in the loop of `do_exit` leaves the family links alone.
use nkucore.Prelude.{
  ℕ, ◌≡◌, ◌≢◌, refl, ◌∙◌, ap, inl, inr, false, ◌&&◌, ◌==◌, if◌then◌else◌, Bool-cases, update-same,
  update_self, update_ne, returns,
}
use nkucore.Process.{Kernel, runnable, is_zombie, is_runnable, set_proc, wt_child}
use nkucore.Sched.{wakeup_proc}
use nkucore.Lifecycle.{wake_init}
use nkucore.Lifecycle.Adopt.{Same}

-- What waking `p`, which is no zombie, spares: the pointers, the state of every other process, the
-- exit codes.
pub record Spared (p : ℕ) (k k' : Kernel) : Type 0 where
  pub current : k'.current ≡ k.current
  pub initproc : k'.initproc ≡ k.initproc
  pub states : (q : ℕ) → q ≢ p → (k'.proc q).state ≡ (k.proc q).state
  pub codes : (q : ℕ) → (k'.proc q).exit_code ≡ (k.proc q).exit_code
  pub alive : is_zombie (k'.proc p).state ≡ false

pub Spared-trans : (p : ℕ) (a b c : Kernel) → Spared p a b → Spared p b c → Spared p a c
Spared-trans p a b c u v = record {
  current = v.current ∙ u.current;
  initproc = v.initproc ∙ u.initproc;
  states = λ q n. v.states q n ∙ u.states q n;
  codes = λ q. v.codes q ∙ u.codes q;
  alive = v.alive;
}

pub record Wakes (p : ℕ) (k k' : Kernel) : Type 0 where
  pub same : Same k.proc k'.proc
  pub spared : Spared p k k'

Wakes-refl : (p : ℕ) (k : Kernel) → is_zombie (k.proc p).state ≡ false → Wakes p k k
Wakes-refl p k z = record {
  same = λ q. (refl, refl, refl, refl);
  spared = record {
    current = refl;
    initproc = refl;
    states = λ q n. refl;
    codes = λ q. refl;
    alive = z;
  };
}

pub wakeup_proc-Wakes :
    (p : ℕ) (k : Kernel)
    → is_zombie (k.proc p).state ≡ false
    → (k' : Kernel) × (wakeup_proc p k ≡ returns k') × Wakes p k k'
unfolding wakeup_proc
wakeup_proc-Wakes p k z = elim (Bool-cases (is_runnable (k.proc p).state)) [
  | inl r ↦ (k, rw (z, r) refl, Wakes-refl p k z)
  | inr r ↦ (
    set_proc p (record (k.proc p) { state = runnable; wait_state = 0 }) k,
    rw (z, r) refl,
    record {
      same = λ q. (
        update-same (λ r. r.parent) k.proc p _ refl q,
        update-same (λ r. r.yptr) k.proc p _ refl q,
        update-same (λ r. r.optr) k.proc p _ refl q,
        update-same (λ r. r.cptr) k.proc p _ refl q,
      );
      spared = record {
        current = refl;
        initproc = refl;
        states = λ q n. ap (λ r. r.state) (update_ne k.proc p q _ n);
        codes = update-same (λ r. r.exit_code) k.proc p _ refl;
        alive = ap (λ r. is_zombie r.state) (update_self k.proc p _);
      };
    },
  )
]

pub wake_init-Wakes :
    (c init : ℕ) (k : Kernel)
    → k.initproc ≡ init
    → is_zombie (k.proc init).state ≡ false
    → (k' : Kernel) × (wake_init c k ≡ returns k') × Wakes init k k'
unfolding wake_init
wake_init-Wakes c init k i z =
    elim (Bool-cases (is_zombie (k.proc c).state && ((k.proc k.initproc).wait_state == wt_child))) [
      | inl h ↦
          let (k', e, w) = wakeup_proc-Wakes init k z in
          (
            k',
            ap (λ b. if b then wakeup_proc k.initproc k else returns k) h
                ∙ ap (λ p. wakeup_proc p k) i
                ∙ e,
            w,
          )
      | inr h ↦ (k, rw h refl, Wakes-refl init k z)
    ]
