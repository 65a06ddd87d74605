-- ===== src/Fork/Forked.antt =====
-- kern/process/proc.c, do_fork: the child of a fork that succeeds.
use nkucore.Prelude.{
  ℕ, ◌+◌, ◌-◌, ◌≡◌, ◌≢◌, ◌∙◌, ◌<◌, ◌≤◌, refl, sym, ap, false, List, ◌∷◌, arith, ◌∉◌, update_self,
  ==_ne, pos, word, returns, length, if◌then◌else◌, leb, has_flag,
}
use nkucore.DefaultPmm.{uint}
use nkucore.Ring.Chain.{IsRing}
use nkucore.Pid.{max_process, max_pid}
use nkucore.Pid.Fresh.{IsCursor}
use nkucore.Process.{Proc, Kernel, runnable, proc_list, set_proc}
use nkucore.Process.Family.{IsFamily}
use nkucore.Fork.{
  Forking, Grants, kstack_size, frame_size, reg_sp, reg_a0, copy_mm, copy_thread, do_fork, new_proc,
  enter_proc, setup_kstack, fork_stack, set_kernel, clear_context, clone_vm,
}
use nkucore.Fork.Linked.{pids_of}
use nkucore.Fork.Enter.{Entered, enter_proc-Entered}
use nkucore.Fork.Child.{
  Only, Only-trans, Only-IsFamily, Only-pids, set_proc-Only, IsChild, Copies, new_proc-IsChild,
  setup_kstack-IsChild, copy_mm-IsChild,
}
use nkucore.Fork.Thread.{
  top, child_frame, thread-tf, thread-frame, thread-context, child-sp, child-registers,
}

-- Process `p` is a new child that starts at `forkret` with the registers of the frame at `tf`, but
-- with result 0 and its own stack pointer; its address space has one user more.
pub record Forked (s : Forking) (forkret clone_flags stack tf p at mm : ℕ) (cs xs : List ℕ)
    (pid : ℕ) (t : Forking) : Type 0 where
  pub fresh : pid ∉ pids_of s.machine.kernel.proc xs
  pub low : 1 ≤ pid
  pub high : pid < max_pid
  pub cursor : IsCursor (pid ∷ pids_of s.machine.kernel.proc xs) t.cursor
  pub own_pid : (t.machine.kernel.proc p).pid ≡ pos pid
  pub wakes : (t.machine.kernel.proc p).state ≡ runnable
  pub family : IsFamily t.machine.kernel.proc s.machine.kernel.current (p ∷ cs)
  pub list : IsRing t.machine.kernel.list_links proc_list (p ∷ xs)
  pub space : (t.machine.kernel.proc p).mm ≡ mm
  pub kstack : (t.machine.kernel.proc p).kstack ≡ at
  pub top : t.tf p ≡ word (at + kstack_size) - frame_size
  pub result : (t.frame (t.tf p)).gpr reg_a0 ≡ 0
  pub user_sp : stack ≢ 0 → (t.frame (t.tf p)).gpr reg_sp ≡ stack
  pub registers : (r : ℕ) → r ≢ reg_sp → r ≢ reg_a0 → (t.frame (t.tf p)).gpr r ≡ (s.frame tf).gpr r
  pub epc : (t.frame (t.tf p)).epc ≡ (s.frame tf).epc
  pub status : (t.frame (t.tf p)).status ≡ (s.frame tf).status
  pub starts : (t.context p).ra ≡ forkret
  pub starts_sp : (t.context p).sp ≡ t.tf p
  pub starts_s : (r : ℕ) → (t.context p).s r ≡ 0
  pub users :
      mm ≢ 0
      → t.machine.mm_count mm
        ≡ (if has_flag clone_flags clone_vm then uint (s.machine.mm_count mm + 1) else 1)
  pub users_else : (n : ℕ) → n ≢ mm → t.machine.mm_count n ≡ s.machine.mm_count n

module _ (boot_cr3 forkret clone_flags stack tf mm : ℕ) (g : Grants) (s : Forking) (n : g.proc ≢ 0)
    (m : g.proc ≢ s.machine.kernel.current)
    (how : Copies clone_flags (s.machine.kernel.proc s.machine.kernel.current).mm g mm) where
  abbrev kernel : Kernel
  kernel = s.machine.kernel

  abbrev prepared : Forking
  prepared =
      set_kernel
        (set_proc g.proc
          (record ((new_proc boot_cr3 g.proc kernel).proc g.proc) { kstack = g.kstack })
          (new_proc boot_cr3 g.proc kernel))
        (clear_context g.proc (set_kernel (new_proc boot_cr3 g.proc kernel) s))

  prepared-IsChild :
      IsChild g.proc kernel.current g.kstack 0 prepared.machine.kernel
      × Only g.proc kernel prepared.machine.kernel
  prepared-IsChild =
      let c = new_proc-IsChild boot_cr3 g.proc kernel n in
      let k1 = new_proc boot_cr3 g.proc kernel in
      (
        setup_kstack-IsChild g.proc kernel.current 0 g.kstack (set_kernel k1 s) c.0,
        Only-trans g.proc kernel k1 prepared.machine.kernel c.1 (set_proc-Only g.proc _ k1),
      )

  copied :
      ((copy_mm clone_flags g.proc g prepared).0 ≡ pos 0)
      × IsChild g.proc kernel.current g.kstack mm
          (copy_mm clone_flags g.proc g prepared).1.machine.kernel
      × Only g.proc prepared.machine.kernel (copy_mm clone_flags g.proc g prepared).1.machine.kernel
      × ((copy_mm clone_flags g.proc g prepared).1.frame ≡ s.frame)
      × ((copy_mm clone_flags g.proc g prepared).1.cursor ≡ s.cursor)
      × ((copy_mm clone_flags g.proc g prepared).1.context ≡ prepared.context)
      × ((n : ℕ)
          → n ≢ mm
          → (copy_mm clone_flags g.proc g prepared).1.machine.mm_count n ≡ s.machine.mm_count n)
      × (mm ≢ 0
          → (copy_mm clone_flags g.proc g prepared).1.machine.mm_count mm
            ≡ (if has_flag clone_flags clone_vm then uint (s.machine.mm_count mm + 1) else 1))
  copied =
      let c = prepared-IsChild in
      let e : (prepared.machine.kernel.proc prepared.machine.kernel.current).mm
          ≡ (kernel.proc kernel.current).mm =
        ap (λ q. (prepared.machine.kernel.proc q).mm) c.1.current
        ∙ ap Proc.mm (c.1.others kernel.current (λ x. m (sym x))) in
      copy_mm-IsChild clone_flags g.proc kernel.current g.kstack mm g prepared c.0 (rw e how)

  -- What `enter_proc` starts from.
  abbrev ready : Forking
  ready = copy_thread forkret g.proc stack tf (copy_mm clone_flags g.proc g prepared).1

  ready-Only : Only g.proc kernel ready.machine.kernel
  unfolding copy_thread
  ready-Only =
      Only-trans g.proc kernel prepared.machine.kernel ready.machine.kernel prepared-IsChild.1
        copied.2

  ready-IsChild : IsChild g.proc kernel.current g.kstack mm ready.machine.kernel
  unfolding copy_thread
  ready-IsChild = copied.1

  ready-cursor : ready.cursor ≡ s.cursor
  unfolding copy_thread
  ready-cursor = copied.4

  fork_stack-runs :
      (fuel rounds : ℕ)
      → fork_stack fuel rounds forkret clone_flags stack tf g prepared
        ≡ enter_proc fuel rounds g.proc ready
  unfolding fork_stack
  fork_stack-runs fuel rounds = rw copied.0 refl

  do_fork-runs :
      (fuel rounds : ℕ)
      → kernel.nr_process < max_process
      → g.kstack ≢ 0
      → do_fork fuel rounds boot_cr3 forkret clone_flags stack tf g s
        ≡ fork_stack fuel rounds forkret clone_flags stack tf g prepared
  unfolding do_fork setup_kstack
  do_fork-runs fuel rounds few k =
      let l : leb max_process kernel.nr_process ≡ false = ground arith in
      rw (l, ==_ne g.proc 0 n, ==_ne g.kstack 0 k) refl

  abbrev after_copy : Forking
  after_copy = (copy_mm clone_flags g.proc g prepared).1

  users-ready :
      mm ≢ 0
      → ready.machine.mm_count mm
        ≡ (if has_flag clone_flags clone_vm then uint (s.machine.mm_count mm + 1) else 1)
  unfolding copy_thread
  users-ready = copied.7

  users_else-ready : (n : ℕ) → n ≢ mm → ready.machine.mm_count n ≡ s.machine.mm_count n
  unfolding copy_thread
  users_else-ready = copied.6

  Entered-Forked :
      (cs xs : List ℕ) (pid : ℕ) (t : Forking)
      → g.proc ∉ xs
      → Entered ready g.proc kernel.current cs xs pid t
      → Forked s forkret clone_flags stack tf g.proc g.kstack mm cs xs pid t
  Entered-Forked cs xs pid t out e =
      let same = Only-pids g.proc kernel ready.machine.kernel xs ready-Only out in
      let c = child_frame forkret g.proc stack tf after_copy in
      let frame : t.frame (t.tf g.proc) ≡ c =
        rw (e.frames, e.tfs) (thread-frame forkret g.proc stack tf after_copy) in
      let context : t.context g.proc ≡ record (after_copy.context g.proc) {
        ra = forkret;
        sp = top forkret g.proc stack tf after_copy;
      } =
        ap (λ f. f g.proc) e.contexts ∙ thread-context forkret g.proc stack tf after_copy in
      let zero : after_copy.context g.proc ≡ record { ra = 0; sp = 0; s = λ r. 0 } =
        ap (λ f. f g.proc) copied.5 ∙ update_self s.context g.proc _ in
      let old : after_copy.frame tf ≡ s.frame tf = ap (λ f. f tf) copied.3 in
      record {
        fresh = rw (← same) e.fresh;
        low = e.low;
        high = e.high;
        cursor = rw (← same) e.cursor;
        own_pid = e.own_pid;
        wakes = e.wakes;
        family = e.family;
        list = e.list;
        space = e.spaces g.proc ∙ ready-IsChild.mm;
        kstack = e.stacks g.proc ∙ ready-IsChild.kstack;
        top =
            ap (λ f. f g.proc) e.tfs
            ∙ thread-tf forkret g.proc stack tf after_copy
            ∙ ap (λ n. word (n + kstack_size) - frame_size) copied.1.kstack;
        result = ap (λ f. f.gpr reg_a0) frame;
        user_sp = λ x. ap (λ f. f.gpr reg_sp) frame ∙ child-sp forkret g.proc stack tf after_copy x;
        registers = λ r x y.
            ap (λ f. f.gpr r) frame
            ∙ child-registers forkret g.proc stack tf after_copy r x y
            ∙ ap (λ f. f.gpr r) old;
        epc = ap (λ f. f.epc) frame ∙ ap (λ f. f.epc) old;
        status = ap (λ f. f.status) frame ∙ ap (λ f. f.status) old;
        starts = ap (λ c. c.ra) context;
        starts_sp =
            ap (λ c. c.sp) context
            ∙ sym (ap (λ f. f g.proc) e.tfs ∙ thread-tf forkret g.proc stack tf after_copy);
        starts_s = λ r. ap (λ c. c.s r) context ∙ ap (λ c. c.s r) zero;
        users = λ x. ap (λ f. f mm) e.users ∙ users-ready x;
        users_else = λ n x. ap (λ f. f n) e.users ∙ users_else-ready n x;
      }

-- The process at `g.proc` is linked nowhere yet, the list of processes and the children of the
-- current one are well linked, and there are fewer than MAX_PROCESS processes. With more rounds than
-- processes on the list and more than 2 * MAX_PID for the search of an id, `do_fork` returns a fresh
-- id: the new process has it, is runnable, the youngest child of the current one and first of the
-- list, with its own stack and the address space that `copy_mm` chose, which has one user more. Its
-- context starts at `forkret` with the stack pointer at its frame, and its frame has the registers,
-- the status and the program counter of the frame at `tf`, but result 0 and, unless it is 0, the
-- given stack pointer.
pub do_fork-Forked :
    (fuel rounds boot_cr3 forkret clone_flags stack tf mm : ℕ) (g : Grants) (s : Forking)
    (cs xs : List ℕ)
    → Copies clone_flags (s.machine.kernel.proc s.machine.kernel.current).mm g mm
    → IsRing s.machine.kernel.list_links proc_list xs
    → IsCursor (pids_of s.machine.kernel.proc xs) s.cursor
    → IsFamily s.machine.kernel.proc s.machine.kernel.current cs
    → s.machine.kernel.nr_process < max_process
    → length (pids_of s.machine.kernel.proc xs) + 1 < max_pid
    → length xs < rounds
    → max_pid + max_pid < fuel
    → g.proc ≢ 0
    → g.kstack ≢ 0
    → g.proc ≢ s.machine.kernel.current
    → g.proc ∉ cs
    → g.proc ∉ xs
    → (pid : ℕ) × (t : Forking) × (do_fork fuel rounds boot_cr3 forkret clone_flags stack tf g s
        ≡ returns (pos pid, t))
      × Forked s forkret clone_flags stack tf g.proc g.kstack mm cs xs pid t
do_fork-Forked fuel rounds boot_cr3 forkret clone_flags stack tf mm g s cs xs how ring cur fam few
      ids f gas n k m d out =
    let a = ready boot_cr3 forkret clone_flags stack tf mm g s n m how in
    let o = ready-Only boot_cr3 forkret clone_flags stack tf mm g s n m how in
    let c = ready-IsChild boot_cr3 forkret clone_flags stack tf mm g s n m how in
    let cu = ready-cursor boot_cr3 forkret clone_flags stack tf mm g s n m how in
    let same = Only-pids g.proc s.machine.kernel a.machine.kernel xs o out in
    let current = s.machine.kernel.current in
    let (pid, t, runs, e) =
      enter_proc-Entered fuel rounds g.proc current a cs xs (rw o.list_links ring) f
        (rw (same, cu) cur) (rw same ids) gas
        (Only-IsFamily g.proc current s.machine.kernel a.machine.kernel cs o m d fam) c.parent
        c.state n m d out in
    (
      pid,
      t,
      do_fork-runs boot_cr3 forkret clone_flags stack tf mm g s n m how fuel rounds few k
          ∙ fork_stack-runs boot_cr3 forkret clone_flags stack tf mm g s n m how fuel rounds
          ∙ runs,
      Entered-Forked boot_cr3 forkret clone_flags stack tf mm g s n m how cs xs pid t out e,
    )
