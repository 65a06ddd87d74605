-- ===== src/Lifecycle/Exit.antt =====
-- `do_exit`: the process becomes a zombie and `initproc` takes over its children.
use nkucore.Prelude.{
  ℕ, ◌<◌, ◌≡◌, ◌≢◌, refl, sym, ◌∙◌, ap, inl, inr, false, not, ◌==◌, if◌then◌else◌, ==_ne,
  Bool-cases, List, length, ◌∉◌, update-same, update_self, update_ne, arith, Outcome, returns,
  ◌>>=◌, assert, ◌>>◌, ℤ,
}
use nkucore.Process.{Kernel, zombie, is_zombie, set_proc, wt_child}
use nkucore.Process.Family.{IsFamily}
use nkucore.Sched.{wakeup_proc}
use nkucore.Lifecycle.{Machine, reparent, leave_mm, become_zombie, do_exit}
use nkucore.Lifecycle.Adopt.{Left, Same, IsFamily-frame, Disjoint}
use nkucore.Lifecycle.Wake.{Spared, wakeup_proc-Wakes}
use nkucore.Lifecycle.Reparent.{rev_onto, reparent-IsFamily}

-- What a write to one process that spares its family links and its exit spares.
leave_mm-Spared :
    (boot_cr3 : ℕ) (m : Machine)
    → Same m.kernel.proc (leave_mm boot_cr3 m).kernel.proc
      × ((leave_mm boot_cr3 m).kernel.current ≡ m.kernel.current)
      × ((leave_mm boot_cr3 m).kernel.initproc ≡ m.kernel.initproc)
      × ((q : ℕ) → ((leave_mm boot_cr3 m).kernel.proc q).state ≡ (m.kernel.proc q).state)
unfolding leave_mm
leave_mm-Spared boot_cr3 m =
    let f = m.kernel.proc in
    let c = m.kernel.current in
    elim (Bool-cases ((f c).mm == 0)) [
      | inl h ↦ rw h ((λ q. (refl, refl, refl, refl)), refl, refl, (λ q. refl))
      | inr h ↦ rw h (
        (λ q. (
          update-same (λ r. r.parent) f c _ refl q,
          update-same (λ r. r.yptr) f c _ refl q,
          update-same (λ r. r.optr) f c _ refl q,
          update-same (λ r. r.cptr) f c _ refl q,
        )),
        refl,
        refl,
        (λ q. update-same (λ r. r.state) f c _ refl q),
      )
    ]

-- The kernel with the current process a zombie.
abbrev ended : ℕ → ℤ → Kernel → Kernel
ended current code k =
    set_proc current (record (k.proc current) { state = zombie; exit_code = code }) k

ended-Same : (current : ℕ) (code : ℤ) (k : Kernel) → Same k.proc (ended current code k).proc
ended-Same current code k q = (
  update-same (λ r. r.parent) k.proc current _ refl q,
  update-same (λ r. r.yptr) k.proc current _ refl q,
  update-same (λ r. r.optr) k.proc current _ refl q,
  update-same (λ r. r.cptr) k.proc current _ refl q,
)

wake_parent :
    (p : ℕ) (k : Kernel)
    → is_zombie (k.proc p).state ≡ false
    → (k' : Kernel) × ((if (k.proc p).wait_state == wt_child then wakeup_proc p k else returns k)
        ≡ returns k')
      × Same k.proc k'.proc
      × Spared p k k'
wake_parent p k z =
    let (k', e, w) = wakeup_proc-Wakes p k z in
    elim (Bool-cases ((k.proc p).wait_state == wt_child)) [
      | inl h ↦ (k', ap (λ b. if b then wakeup_proc p k else returns k) h ∙ e, w.same, w.spared)
      | inr h ↦ (
        k,
        ap (λ b. if b then wakeup_proc p k else returns k) h,
        (λ q. (refl, refl, refl, refl)),
        record {
          current = refl;
          initproc = refl;
          states = λ q n. refl;
          codes = λ q. refl;
          alive = z;
        },
      )
    ]

alive_after :
    (p init : ℕ) (k k' : Kernel)
    → Spared p k k'
    → is_zombie (k.proc init).state ≡ false
    → is_zombie (k'.proc init).state ≡ false
alive_after p init k k' s z = elim (Bool-cases (init == p)) [
  | inl e ↦ let i : init ≡ p = ground arith in rw i s.alive
  | inr e ↦ ap is_zombie (s.states init (ground arith)) ∙ z
]

abbrev woken : ℕ → ℕ → Kernel → Outcome Kernel
woken fuel p k =
    (if (k.proc p).wait_state == wt_child then wakeup_proc p k else returns k) >>= reparent fuel

become_zombie-woken :
    (fuel current parent : ℕ) (code : ℤ) (k : Kernel)
    → k.current ≡ current
    → ((ended current code k).proc current).parent ≡ parent
    → become_zombie fuel code k ≡ woken fuel parent (ended current code k)
unfolding become_zombie
become_zombie-woken fuel current parent code k kc kp =
    ap (λ c. woken fuel ((ended c code k).proc c).parent (ended c code k)) kc
    ∙ ap (λ p. woken fuel p (ended current code k)) kp

become_zombie-IsFamily :
    (fuel current init parent : ℕ) (code : ℤ) (cs ds : List ℕ) (k : Kernel)
    → k.current ≡ current
    → k.initproc ≡ init
    → (k.proc current).parent ≡ parent
    → init ≢ current
    → parent ≢ current
    → current ≢ 0
    → init ≢ 0
    → IsFamily k.proc current cs
    → IsFamily k.proc init ds
    → Disjoint cs ds
    → init ∉ cs
    → is_zombie (k.proc init).state ≡ false
    → is_zombie (k.proc parent).state ≡ false
    → length cs < fuel
    → (k' : Kernel) × (become_zombie fuel code k ≡ returns k')
      × ((k'.proc current).state ≡ zombie)
      × ((k'.proc current).exit_code ≡ code)
      × ((k'.proc current).cptr ≡ 0)
      × IsFamily k'.proc init (rev_onto cs ds)
become_zombie-IsFamily fuel current init parent code cs ds k kc ki kp a pa n i l r d o z zp f =
    let s = ended-Same current code k in
    let same_state : (q : ℕ)
        → q ≢ current
        → ((ended current code k).proc q).state ≡ (k.proc q).state =
      λ q h. ap (λ r. r.state) (update_ne k.proc current q _ h) in
    let (k2, e, s2, w) =
      wake_parent parent (ended current code k) (ap is_zombie (same_state parent pa) ∙ zp) in
    let l2 =
      IsFamily-frame (ended current code k).proc k2.proc current cs s2
        (IsFamily-frame k.proc (ended current code k).proc current cs s l) in
    let r2 =
      IsFamily-frame (ended current code k).proc k2.proc init ds s2
        (IsFamily-frame k.proc (ended current code k).proc init ds s r) in
    let left : Left k2.proc current 0 cs = record {
      first = l2.first;
      siblings = l2.siblings;
      distinct = l2.distinct;
      apart = l2.apart;
    } in
    let alive =
      alive_after parent init (ended current code k) k2 w (ap is_zombie (same_state init a) ∙ z) in
    let (k3, e3, p, g, u) =
      reparent-IsFamily fuel 0 current init cs ds k2 (w.current ∙ kc) (w.initproc ∙ ki) a n i left
        r2 d o alive f in
    let self : (ended current code k).proc current
        ≡ record (k.proc current) { state = zombie; exit_code = code } =
      update_self k.proc current _ in
    (
      k3,
      become_zombie-woken fuel current parent code k kc ((s current).0 ∙ kp)
          ∙ ap (λ x. x >>= reparent fuel) e
          ∙ e3,
      u.states current (λ h. a (sym h))
          ∙ w.states current (λ h. pa (sym h))
          ∙ ap (λ r. r.state) self,
      u.codes current ∙ w.codes current ∙ ap (λ r. r.exit_code) self,
      p,
      g,
    )

abbrev with_kernel : Machine → Kernel → Machine
with_kernel m k = record m { kernel = k }

do_exit-become_zombie :
    (fuel boot_cr3 : ℕ) (code : ℤ) (m : Machine) (k : Kernel)
    → (m.kernel.current == m.kernel.idleproc) ≡ false
    → (m.kernel.current == m.kernel.initproc) ≡ false
    → become_zombie fuel code (leave_mm boot_cr3 m).kernel ≡ returns k
    → do_exit fuel boot_cr3 code m ≡ returns (with_kernel (leave_mm boot_cr3 m) k)
unfolding do_exit
do_exit-become_zombie fuel boot_cr3 code m k a b e =
    let l = leave_mm boot_cr3 m in
    ap
      (λ x.
        assert (not x)
        >> (assert (not (m.kernel.current == m.kernel.initproc))
            >> (become_zombie fuel code l.kernel >>= (λ k. returns (with_kernel l k)))))
      a
    ∙ ap
        (λ x.
          assert (not x) >> (become_zombie fuel code l.kernel >>= (λ k. returns (with_kernel l k))))
        b
    ∙ ap (λ x. x >>= (λ k. returns (with_kernel l k))) e

-- A process that ends, other than the idle and the init process, becomes a zombie with its exit
-- code and without children, and `initproc` gets these in reverse order in front of its own, if the parent
-- is no zombie and not the process itself and `initproc` is alive.
pub do_exit-IsFamily :
    (fuel boot_cr3 current init parent : ℕ) (code : ℤ) (cs ds : List ℕ) (m : Machine)
    → m.kernel.current ≡ current
    → m.kernel.initproc ≡ init
    → (m.kernel.proc current).parent ≡ parent
    → current ≢ m.kernel.idleproc
    → init ≢ current
    → parent ≢ current
    → current ≢ 0
    → init ≢ 0
    → IsFamily m.kernel.proc current cs
    → IsFamily m.kernel.proc init ds
    → Disjoint cs ds
    → init ∉ cs
    → is_zombie (m.kernel.proc init).state ≡ false
    → is_zombie (m.kernel.proc parent).state ≡ false
    → length cs < fuel
    → (m' : Machine) × (do_exit fuel boot_cr3 code m ≡ returns m')
      × ((m'.kernel.proc current).state ≡ zombie)
      × ((m'.kernel.proc current).exit_code ≡ code)
      × ((m'.kernel.proc current).cptr ≡ 0)
      × IsFamily m'.kernel.proc init (rev_onto cs ds)
do_exit-IsFamily fuel boot_cr3 current init parent code cs ds m kc ki kp ni a pa n i l r d o z zp
      f =
    let (s, c, j, t) = leave_mm-Spared boot_cr3 m in
    let k = (leave_mm boot_cr3 m).kernel in
    let (k', e, u, v, w, g) =
      become_zombie-IsFamily fuel current init parent code cs ds k (c ∙ kc) (j ∙ ki)
        ((s current).0 ∙ kp) a pa n i (IsFamily-frame m.kernel.proc k.proc current cs s l)
        (IsFamily-frame m.kernel.proc k.proc init ds s r) d o (ap is_zombie (t init) ∙ z)
        (ap is_zombie (t parent) ∙ zp) f in
    (
      with_kernel (leave_mm boot_cr3 m) k',
      do_exit-become_zombie fuel boot_cr3 code m k'
          (ap (λ x. x == m.kernel.idleproc) kc ∙ ==_ne current m.kernel.idleproc ni)
          (ap (λ x. x == m.kernel.initproc) kc
            ∙ ap (λ x. current == x) ki
            ∙ ==_ne current init (λ h. a (sym h)))
          e,
      u,
      v,
      w,
      g,
    )
