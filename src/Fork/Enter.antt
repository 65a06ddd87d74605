-- ===== src/Fork/Enter.antt =====
-- kern/process/proc.c, do_fork: the new process gets its id, its place in the lists and in the
-- family, and is woken.
use nkucore.Prelude.{
  ℕ, ◌+◌, ◌<◌, ◌≤◌, ◌≡◌, ◌≢◌, refl, ap, List, ◌∷◌, ◌∉◌, length, returns, update_self, pos,
}
use nkucore.Ring.Chain.{IsRing}
use nkucore.Pid.{max_pid}
use nkucore.Pid.Fresh.{IsCursor, get_pid-IsFresh}
use nkucore.Process.{Proc, uninit, runnable, proc_list, set_links, hash_proc}
use nkucore.Process.Family.{IsFamily}
use nkucore.Sched.{wakeup_proc}
use nkucore.Fork.{Forking, enter_proc, set_kernel}
use nkucore.Fork.Linked.{
  pids_of, list_pids-Chain, with_pid, entered, entered_other, entered_every, entered-IsFamily,
  entered-state, entered-pid, entered-IsRing,
}

-- Process `p` entered the kernel as the youngest child of `parent` and the first of the list.
pub record Entered (s : Forking) (p parent : ℕ) (cs xs : List ℕ) (pid : ℕ) (t : Forking)
    : Type 0 where
  pub fresh : pid ∉ pids_of s.machine.kernel.proc xs
  pub low : 1 ≤ pid
  pub high : pid < max_pid
  pub cursor : IsCursor (pid ∷ pids_of s.machine.kernel.proc xs) t.cursor
  pub own_pid : (t.machine.kernel.proc p).pid ≡ pos pid
  pub pids : (q : ℕ) → q ≢ p → (t.machine.kernel.proc q).pid ≡ (s.machine.kernel.proc q).pid
  pub wakes : (t.machine.kernel.proc p).state ≡ runnable
  pub states : (q : ℕ) → q ≢ p → (t.machine.kernel.proc q).state ≡ (s.machine.kernel.proc q).state
  pub family : IsFamily t.machine.kernel.proc parent (p ∷ cs)
  pub list : IsRing t.machine.kernel.list_links proc_list (p ∷ xs)
  pub frames : t.frame ≡ s.frame
  pub tfs : t.tf ≡ s.tf
  pub contexts : t.context ≡ s.context
  pub users : t.machine.mm_count ≡ s.machine.mm_count
  pub spaces : (q : ℕ) → (t.machine.kernel.proc q).mm ≡ (s.machine.kernel.proc q).mm
  pub stacks : (q : ℕ) → (t.machine.kernel.proc q).kstack ≡ (s.machine.kernel.proc q).kstack

-- With more rounds than processes on the list and more than 2 * MAX_PID for the search of an id.
pub enter_proc-Entered :
    (fuel rounds p parent : ℕ) (s : Forking) (cs xs : List ℕ)
    → IsRing s.machine.kernel.list_links proc_list xs
    → length xs < rounds
    → IsCursor (pids_of s.machine.kernel.proc xs) s.cursor
    → length (pids_of s.machine.kernel.proc xs) + 1 < max_pid
    → max_pid + max_pid < fuel
    → IsFamily s.machine.kernel.proc parent cs
    → (s.machine.kernel.proc p).parent ≡ parent
    → (s.machine.kernel.proc p).state ≡ uninit
    → p ≢ 0
    → p ≢ parent
    → p ∉ cs
    → p ∉ xs
    → (pid : ℕ) × (t : Forking) × (enter_proc fuel rounds p s ≡ returns (pos pid, t))
      × Entered s p parent cs xs pid t
unfolding enter_proc wakeup_proc entered
enter_proc-Entered fuel rounds p parent s cs xs ring f cur few g fam e st n m d out =
    let k = s.machine.kernel in
    let (c, runs, fresh) = get_pid-IsFresh fuel (pids_of k.proc xs) s.cursor cur few g in
    let pid = c.last_pid in
    (
      pid,
      set_kernel (entered p pid k) (record s { cursor = c }),
      rw (list_pids-Chain rounds proc_list k xs ring.chain ring.apart f, runs)
          (rw (entered-state p pid k st) refl),
      record {
        fresh = fresh.fresh;
        low = fresh.low;
        high = fresh.high;
        cursor = fresh.kept;
        own_pid = entered-pid p pid k;
        pids = entered_other p pid k Proc.pid (λ r v. refl) (λ r v. refl) (λ r v. refl);
        wakes = ap Proc.state (update_self (set_links p (hash_proc p (with_pid p pid k))).proc p _);
        states = entered_other p pid k Proc.state (λ r v. refl) (λ r v. refl) (λ r v. refl);
        family = entered-IsFamily p pid parent k cs fam e n m d;
        list = entered-IsRing p pid k xs ring n out;
        frames = refl;
        tfs = refl;
        contexts = refl;
        users = refl;
        spaces =
            entered_every p pid k Proc.mm (λ r v. refl) (λ r v. refl) (λ r v. refl) refl
              (λ r. refl);
        stacks =
            entered_every p pid k Proc.kstack (λ r v. refl) (λ r v. refl) (λ r v. refl) refl
              (λ r. refl);
      },
    )
