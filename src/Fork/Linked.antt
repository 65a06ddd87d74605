-- ===== src/Fork/Linked.antt =====
-- kern/process/proc.c, do_fork: what the critical section and the wakeup do to the process table.
use nkucore.Prelude.{
  ℕ, zero, suc, ◌<◌, ◌≡◌, ◌≢◌, ◌∙◌, refl, ap, List, [], ◌∷◌, arith, inl, inr, Bool-cases, ◌==◌,
  if◌then◌else◌, ◌∉◌, length, returns, update, update-same, update_self, update_ne, ==_ne, pos,
}
use nkucore.Ring.{list_next}
use nkucore.Ring.Chain.{Chain, IsRing}
use nkucore.Ring.Laws.{list_add-IsRing}
use nkucore.Process.{
  Proc, Kernel, uninit, runnable, proc_list, set_proc, set_links, hash_proc, uint_of, set_cptr,
  set_yptr, set_optr,
}
use nkucore.Process.Family.{IsFamily, set_links-IsFamily}
use nkucore.Lifecycle.Adopt.{Same, IsFamily-frame}
use nkucore.Fork.{list_pids}

-- The ids of the processes on the list.
abbrev pub pids_of : (ℕ → Proc) → List ℕ → List ℕ
pids_of f [] = []
pids_of f (q ∷ qs) = uint_of (f q).pid ∷ pids_of f qs

pub list_pids-Chain :
    (rounds le : ℕ) (k : Kernel) (xs : List ℕ)
    → Chain k.list_links le xs proc_list
    → proc_list ∉ xs
    → length xs < rounds
    → list_pids rounds le k ≡ returns (pids_of k.proc xs)
unfolding list_pids list_next
list_pids-Chain zero le k xs c a f = absurd (omega (arith, f))
list_pids-Chain (suc n) le k [] c a f = rw c.0 refl
list_pids-Chain (suc n) le k (x ∷ xs) c a f =
    rw (c.0, ==_ne x proc_list (ground (arith, a)))
      (rw (list_pids-Chain n x k xs c.2 (ground (arith, a)) (omega (arith, f))) refl)

-- `set_links` writes family links only.
set_links-same :
    {B : Type 0} (g : Proc → B) (p : ℕ) (k : Kernel)
    → ((r : Proc) (v : ℕ) → g (record r { cptr = v }) ≡ g r)
    → ((r : Proc) (v : ℕ) → g (record r { yptr = v }) ≡ g r)
    → ((r : Proc) (v : ℕ) → g (record r { optr = v }) ≡ g r)
    → (q : ℕ) → g ((set_links p k).proc q) ≡ g (k.proc q)
unfolding set_links set_cptr set_yptr set_optr
set_links-same g p k c y o q =
    let parent = (k.proc p).parent in
    let older = (k.proc parent).cptr in
    let f0 = set_yptr k.proc p 0 in
    let f1 = set_optr f0 p older in
    let e0 = update-same g k.proc p (record (k.proc p) { yptr = 0 }) (y (k.proc p) 0) in
    let e1 = update-same g f0 p (record (f0 p) { optr = older }) (o (f0 p) older) in
    let f2 = if older == 0 then f1 else set_yptr f1 older p in
    let e2 : (x : ℕ) → g (f2 x) ≡ g (f1 x) = λ x. elim (Bool-cases (older == 0)) [
      | inl h ↦ rw h refl
      | inr h ↦ rw h (update-same g f1 older (record (f1 older) { yptr = p }) (y (f1 older) p) x)
    ] in
    update-same g f2 parent (record (f2 parent) { cptr = p }) (c (f2 parent) p) q
    ∙ e2 q
    ∙ e1 q
    ∙ e0 q

written-Same :
    (f : ℕ → Proc) (p : ℕ) (r : Proc)
    → r.parent ≡ (f p).parent
    → r.yptr ≡ (f p).yptr
    → r.optr ≡ (f p).optr
    → r.cptr ≡ (f p).cptr
    → Same f (update f p r)
written-Same f p r a b c d = λ q. (
  update-same Proc.parent f p r a q,
  update-same Proc.yptr f p r b q,
  update-same Proc.optr f p r c q,
  update-same Proc.cptr f p r d q,
)

unfoldable pub with_pid : (p pid : ℕ) → Kernel → Kernel
with_pid p pid k = set_proc p (record (k.proc p) { pid = pos pid }) k

unfoldable pub woken : (p : ℕ) → Kernel → Kernel
woken p k = set_proc p (record (k.proc p) { state = runnable; wait_state = 0 }) k

-- The kernel after the critical section and the wakeup.
unfoldable pub entered : (p pid : ℕ) → Kernel → Kernel
unfolding with_pid woken hash_proc
entered p pid k = woken p (set_links p (hash_proc p (with_pid p pid k)))

module _ (p pid : ℕ) (k : Kernel) {B : Type 0} (g : Proc → B)
    (c : (r : Proc) (v : ℕ) → g (record r { cptr = v }) ≡ g r)
    (y : (r : Proc) (v : ℕ) → g (record r { yptr = v }) ≡ g r)
    (o : (r : Proc) (v : ℕ) → g (record r { optr = v }) ≡ g r) where
  linked_same :
      (q : ℕ)
      → g ((set_links p (hash_proc p (with_pid p pid k))).proc q) ≡ g ((with_pid p pid k).proc q)
  unfolding hash_proc
  linked_same = set_links-same g p (hash_proc p (with_pid p pid k)) c y o

  pub entered_other : (q : ℕ) → q ≢ p → g ((entered p pid k).proc q) ≡ g (k.proc q)
  unfolding entered
  entered_other q n =
      let k2 = set_links p (hash_proc p (with_pid p pid k)) in
      ap g (update_ne k2.proc p q (record (k2.proc p) { state = runnable; wait_state = 0 }) n)
      ∙ linked_same q
      ∙ ap g (update_ne k.proc p q (record (k.proc p) { pid = pos pid }) n)

  pub entered_every :
      g (record (k.proc p) { pid = pos pid }) ≡ g (k.proc p)
      → ((r : Proc) → g (record r { state = runnable; wait_state = 0 }) ≡ g r)
      → (q : ℕ) → g ((entered p pid k).proc q) ≡ g (k.proc q)
  unfolding entered
  entered_every a b q =
      let k2 = set_links p (hash_proc p (with_pid p pid k)) in
      update-same g k2.proc p (record (k2.proc p) { state = runnable; wait_state = 0 })
        (b (k2.proc p)) q
      ∙ linked_same q
      ∙ update-same g k.proc p (record (k.proc p) { pid = pos pid }) a q

pub entered-IsFamily :
    (p pid parent : ℕ) (k : Kernel) (cs : List ℕ)
    → IsFamily k.proc parent cs
    → (k.proc p).parent ≡ parent
    → p ≢ 0
    → p ≢ parent
    → p ∉ cs
    → IsFamily (entered p pid k).proc parent (p ∷ cs)
unfolding entered
entered-IsFamily p pid parent k cs fam e n m d =
    let s = written-Same k.proc p (record (k.proc p) { pid = pos pid }) refl refl refl refl in
    let k1 = with_pid p pid k in
    let k2 = set_links p (hash_proc p k1) in
    IsFamily-frame k2.proc (entered p pid k).proc parent (p ∷ cs)
      (written-Same k2.proc p (record (k2.proc p) { state = runnable; wait_state = 0 }) refl refl
        refl refl)
      (set_links-IsFamily (hash_proc p k1) parent p cs
        (IsFamily-frame k.proc k1.proc parent cs s fam) ((s p).0 ∙ e) n m d)

pub entered-state :
    (p pid : ℕ) (k : Kernel)
    → (k.proc p).state ≡ uninit
    → ((set_links p (hash_proc p (with_pid p pid k))).proc p).state ≡ uninit
unfolding with_pid
entered-state p pid k e =
    linked_same p pid k Proc.state (λ r v. refl) (λ r v. refl) (λ r v. refl) p
    ∙ update-same Proc.state k.proc p (record (k.proc p) { pid = pos pid }) refl p
    ∙ e

pub entered-pid : (p pid : ℕ) (k : Kernel) → ((entered p pid k).proc p).pid ≡ pos pid
unfolding entered
entered-pid p pid k =
    let k2 = set_links p (hash_proc p (with_pid p pid k)) in
    ap Proc.pid (update_self k2.proc p (record (k2.proc p) { state = runnable; wait_state = 0 }))
    ∙ linked_same p pid k Proc.pid (λ r v. refl) (λ r v. refl) (λ r v. refl) p
    ∙ ap Proc.pid (update_self k.proc p (record (k.proc p) { pid = pos pid }))

pub entered-IsRing :
    (p pid : ℕ) (k : Kernel) (xs : List ℕ)
    → IsRing k.list_links proc_list xs
    → p ≢ 0
    → p ∉ xs
    → IsRing (entered p pid k).list_links proc_list (p ∷ xs)
unfolding entered set_links
entered-IsRing p pid k xs ring n d = list_add-IsRing k.list_links proc_list p [] xs ring n d
