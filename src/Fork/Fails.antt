-- ===== src/Fork/Fails.antt =====
-- kern/process/proc.c, do_fork: what it does when memory runs out.
use nkucore.Prelude.{
  ℕ, ◌≡◌, ◌≢◌, ◌∙◌, ◌<◌, refl, sym, ap, false, List, [], ◌∷◌, ◌++◌, arith, ==_ne, returns, panics,
  leb, has_flag,
}
use nkucore.Pid.{max_process}
use nkucore.Vmm.{e_no_mem}
use nkucore.Process.{Proc, set_proc}
use nkucore.Lifecycle.{MemoryCall, exit_mmap, put_pgdir, mm_destroy, kfree}
use nkucore.Fork.{
  Forking, Grants, clone_vm, is_ok, copy_mm, fresh_mm, do_fork, fork_stack, new_proc, setup_kstack,
  free_kstack, set_kernel, clear_context, call,
}
use nkucore.Fork.Child.{Only, Only-trans, new_proc-IsChild, set_proc-Only}

-- Without memory for the stack, the cleanup of `do_fork` gives the stack back that was never there,
-- and the address 0 of it stops the kernel: `do_fork` panics where it should return -E_NO_MEM.
pub do_fork-no_stack :
    (fuel rounds boot_cr3 forkret clone_flags stack tf : ℕ) (g : Grants) (s : Forking)
    → s.machine.kernel.nr_process < max_process
    → g.proc ≢ 0
    → g.kstack ≡ 0
    → do_fork fuel rounds boot_cr3 forkret clone_flags stack tf g s ≡ panics
unfolding do_fork setup_kstack free_kstack
do_fork-no_stack fuel rounds boot_cr3 forkret clone_flags stack tf g s few n z =
    let l : leb max_process s.machine.kernel.nr_process ≡ false = ground arith in
    let c = (new_proc-IsChild boot_cr3 g.proc s.machine.kernel n).0 in
    rw (l, ==_ne g.proc 0 n, z) (rw c.kstack refl)

-- How `copy_mm` fails to copy an address space, and what it gives back.
pub data CopyFails (g : Grants) : List MemoryCall → Type 0 where
  no_space : g.mm ≡ 0 → CopyFails g []
  no_pgdir : g.mm ≢ 0 → g.pgdir ≡ 0 → CopyFails g (mm_destroy g.mm ∷ [])
  no_dup :
      g.mm ≢ 0
      → g.pgdir ≢ 0
      → is_ok g.dup ≡ false
      → CopyFails g (exit_mmap g.mm ∷ put_pgdir g.mm ∷ mm_destroy g.mm ∷ [])

append_nil : {A : Type 0} (xs : List A) → xs ++ [] ≡ xs
append_nil [] = refl
append_nil (x ∷ xs) = ap (λ t. x ∷ t) (append_nil xs)

copy_mm-fails :
    (clone_flags p : ℕ) (g : Grants) (s : Forking) (cs : List MemoryCall)
    → (s.machine.kernel.proc s.machine.kernel.current).mm ≢ 0
    → has_flag clone_flags clone_vm ≡ false
    → CopyFails g cs
    → (is_ok (copy_mm clone_flags p g s).0 ≡ false)
      × ((copy_mm clone_flags p g s).1.machine.kernel ≡ s.machine.kernel)
      × ((copy_mm clone_flags p g s).1.machine.calls ≡ s.machine.calls ++ cs)
unfolding copy_mm fresh_mm
copy_mm-fails clone_flags p g s cs n f (no_space e) =
    let old = (s.machine.kernel.proc s.machine.kernel.current).mm in
    rw (==_ne old 0 n, f, e) (refl, refl, sym (append_nil s.machine.calls))
copy_mm-fails clone_flags p g s cs n f (no_pgdir m e) =
    let old = (s.machine.kernel.proc s.machine.kernel.current).mm in
    rw (==_ne old 0 n, f, ==_ne g.mm 0 m, e) (refl, refl, refl)
copy_mm-fails clone_flags p g s cs n f (no_dup m d e) =
    let old = (s.machine.kernel.proc s.machine.kernel.current).mm in
    rw (==_ne old 0 n, f, ==_ne g.mm 0 m, ==_ne g.pgdir 0 d) (rw e (e, refl, refl))

-- If a copy of the address space is wanted and fails, `do_fork` returns -E_NO_MEM and changes no
-- process but the new one: it gives back what `copy_mm` had got and then the process structure, but
-- not the kernel stack.
pub do_fork-CopyFails :
    (fuel rounds boot_cr3 forkret clone_flags stack tf : ℕ) (g : Grants) (s : Forking)
    (cs : List MemoryCall)
    → s.machine.kernel.nr_process < max_process
    → g.proc ≢ 0
    → g.kstack ≢ 0
    → g.proc ≢ s.machine.kernel.current
    → (s.machine.kernel.proc s.machine.kernel.current).mm ≢ 0
    → has_flag clone_flags clone_vm ≡ false
    → CopyFails g cs
    → (t : Forking) × (do_fork fuel rounds boot_cr3 forkret clone_flags stack tf g s
        ≡ returns (e_no_mem, t))
      × Only g.proc s.machine.kernel t.machine.kernel
      × (t.machine.calls ≡ s.machine.calls ++ cs ++ kfree g.proc ∷ [])
unfolding do_fork setup_kstack fork_stack
do_fork-CopyFails fuel rounds boot_cr3 forkret clone_flags stack tf g s cs few n k m space f how =
    let l : leb max_process s.machine.kernel.nr_process ≡ false = ground arith in
    let k1 = new_proc boot_cr3 g.proc s.machine.kernel in
    let r : Proc = record (k1.proc g.proc) { kstack = g.kstack } in
    let k2 = set_proc g.proc r k1 in
    let s2 = set_kernel k2 (clear_context g.proc (set_kernel k1 s)) in
    let o =
      Only-trans g.proc s.machine.kernel k1 k2
        (new_proc-IsChild boot_cr3 g.proc s.machine.kernel n).1 (set_proc-Only g.proc r k1) in
    let e : (k2.proc k2.current).mm ≡ (s.machine.kernel.proc s.machine.kernel.current).mm =
      ap (λ q. (k2.proc q).mm) o.current
      ∙ ap Proc.mm (o.others s.machine.kernel.current (λ x. m (sym x))) in
    let c = copy_mm-fails clone_flags g.proc g s2 cs (rw e space) f how in
    (
      call (kfree g.proc ∷ []) (copy_mm clone_flags g.proc g s2).1,
      rw (l, ==_ne g.proc 0 n, ==_ne g.kstack 0 k, c.0) refl,
      rw c.1 o,
      ap (λ t. t ++ kfree g.proc ∷ []) c.2,
    )
