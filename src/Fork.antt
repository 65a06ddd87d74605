-- ===== src/Fork.antt =====
-- kern/process/proc.c: do_fork and what it calls: setup_kstack, copy_mm, copy_thread, and
-- kernel_thread on top. What the allocators grant is given with the call.
pub mod Linked
pub mod Enter
pub mod Child
pub mod Thread
pub mod Forked
pub mod Fails
mod Tests
use nkucore.Prelude.{
  ℕ, zero, suc, ◌+◌, ◌-◌, ◌^◌, Bool, true, false, ◌&&◌, ◌||◌, not, Option, none, some, List, [],
  ◌∷◌, ◌++◌, ltb, leb, ◌==◌, if◌then◌else◌, update, ℤ, pos, negsuc, Outcome, returns, panics,
  out_of_fuel, ◌>>=◌, ◌>>◌, assert, word, page_size, has_flag,
}
use Prim.Native.Nat.{bit_or, bit_and}
use nkucore.Ring.{list_next}
use nkucore.DefaultPmm.{uint}
use nkucore.Vmm.{e_no_mem, kern_base}
use nkucore.Pid.{Cursor, max_process, get_pid}
use nkucore.Process.{Proc, Kernel, proc_list, set_proc, alloc_proc, hash_proc, set_links, uint_of}
use nkucore.Sched.{wakeup_proc}
use nkucore.Lifecycle.{Machine, MemoryCall, exit_mmap, put_pgdir, mm_destroy, put_kstack, kfree}

-- `struct trapframe`; `gpr` is indexed by the number of the register, sp is 2, s0 8, s1 9, a0 10.
pub record Frame : Type 0 where
  pub gpr : ℕ → ℕ
  pub status : ℕ
  pub epc : ℕ
  pub tval : ℕ
  pub cause : ℕ

-- `struct context`; `s` holds s0 to s11.
pub record Context : Type 0 where
  pub ra : ℕ
  pub sp : ℕ
  pub s : ℕ → ℕ

-- The machine with the variables of `get_pid`, the frames in memory, and of each process the fields
-- `tf` and `context`; `pgdir_pa` is PADDR(mm->pgdir) of each address space.
pub record Forking : Type 0 where
  pub machine : Machine
  pub cursor : Cursor
  pub frame : ℕ → Frame
  pub tf : ℕ → ℕ
  pub context : ℕ → Context
  pub pgdir_pa : ℕ → ℕ

-- What the calls of do_fork are granted: the address of the process, of its kernel stack and of its
-- address space (0 is NULL), the physical address of the directory, and the result of `dup_mmap`.
pub record Grants : Type 0 where
  pub proc : ℕ
  pub kstack : ℕ
  pub mm : ℕ
  pub pgdir : ℕ
  pub dup : ℤ

abbrev pub kstack_size : ℕ
kstack_size = 8192

-- sizeof(struct trapframe)
abbrev pub frame_size : ℕ
frame_size = 288

abbrev pub clone_vm : ℕ
clone_vm = 0x100

abbrev pub reg_sp : ℕ
reg_sp = 2

abbrev pub reg_a0 : ℕ
reg_a0 = 10

-- E_NO_FREE_PROC of libs/error.h, negated.
abbrev pub e_no_free_proc : ℤ
e_no_free_proc = negsuc 4

abbrev pub set_kernel : Kernel → Forking → Forking
set_kernel k s = record s { machine = record s.machine { kernel = k } }

abbrev pub call : List MemoryCall → Forking → Forking
call cs s = record s { machine = record s.machine { calls = s.machine.calls ++ cs } }

unfoldable pub setup_kstack : (proc kstack : ℕ) → Forking → ℤ × Forking
setup_kstack proc kstack s =
    let k = s.machine.kernel in
    if kstack == 0
    then (e_no_mem, s)
    else (pos 0, set_kernel (set_proc proc (record (k.proc proc) { kstack = kstack }) k) s)

-- PADDR, by which `put_kstack` finds the page of the stack, panics below the kernel's addresses.
unfoldable pub free_kstack : (proc : ℕ) → Forking → Outcome Forking
free_kstack proc s = do
  let kstack : ℕ = (s.machine.kernel.proc proc).kstack
  assert (leb kern_base kstack)
  returns (call (put_kstack kstack ∷ []) s)

-- `copy_mm` from the label `good_mm`.
unfoldable pub share_mm : (mm proc : ℕ) → Forking → Forking
share_mm mm proc s =
    let k = s.machine.kernel in
    let count = uint (s.machine.mm_count mm + 1) in
    record s {
      machine = record s.machine {
        kernel = set_proc proc (record (k.proc proc) { mm = mm; cr3 = s.pgdir_pa mm }) k;
        mm_count = update s.machine.mm_count mm count;
      };
    }

abbrev pub is_ok : ℤ → Bool
is_ok (pos n) = n == 0
is_ok (negsuc n) = false

-- `mm_create` and `setup_pgdir` as far as they succeed.
unfoldable pub fresh_mm : (mm pgdir : ℕ) → Forking → Forking
fresh_mm mm pgdir s = record s {
  machine = record s.machine { mm_count = update s.machine.mm_count mm 0 };
  pgdir_pa = update s.pgdir_pa mm pgdir;
}

unfoldable pub copy_mm : (clone_flags proc : ℕ) → Grants → Forking → ℤ × Forking
unfolding share_mm fresh_mm
copy_mm clone_flags proc g s =
    let oldmm = (s.machine.kernel.proc s.machine.kernel.current).mm in
    let s1 = fresh_mm g.mm g.pgdir s in
    if oldmm == 0
    then (pos 0, s)
    else if has_flag clone_flags clone_vm
    then (pos 0, share_mm oldmm proc s)
    else if g.mm == 0
    then (e_no_mem, s)
    else if g.pgdir == 0
    then (e_no_mem, call (mm_destroy g.mm ∷ []) s)
    else if is_ok g.dup
    then (pos 0, share_mm g.mm proc s1)
    else (g.dup, call (exit_mmap g.mm ∷ put_pgdir g.mm ∷ mm_destroy g.mm ∷ []) s1)

abbrev pub set_gpr : (r v : ℕ) → Frame → Frame
set_gpr r v f = record f { gpr = update f.gpr r v }

unfoldable pub copy_thread : (forkret proc esp tf : ℕ) → Forking → Forking
copy_thread forkret proc esp tf s =
    let at = word ((s.machine.kernel.proc proc).kstack + kstack_size) - frame_size in
    let f = set_gpr reg_sp (if esp == 0 then at else esp) (set_gpr reg_a0 0 (s.frame tf)) in
    record s {
      tf = update s.tf proc at;
      frame = update s.frame at f;
      context = update s.context proc (record (s.context proc) { ra = forkret; sp = at });
    }

-- The ids that `get_pid` meets on its walk over `proc_list`.
unfoldable pub list_pids : (fuel le : ℕ) → Kernel → Outcome (List ℕ)
list_pids zero le k = out_of_fuel
list_pids (suc n) le k =
    let le' = list_next k.list_links le in
    let rest = list_pids n le' k in
    if le' == proc_list
    then returns []
    else rest >>= (λ ps. returns (uint_of (k.proc le').pid ∷ ps))

-- The critical section of `do_fork`, and the wakeup after it.
unfoldable pub enter_proc : (fuel rounds proc : ℕ) → Forking → Outcome (ℤ × Forking)
unfolding list_pids get_pid hash_proc set_links wakeup_proc
enter_proc fuel rounds proc s = do
  pids ← list_pids rounds proc_list s.machine.kernel
  c ← get_pid fuel pids s.cursor
  let k : Kernel = s.machine.kernel
  let k1 : Kernel = set_proc proc (record (k.proc proc) { pid = pos c.last_pid }) k
  k2 ← wakeup_proc proc (set_links proc (hash_proc proc k1))
  returns (pos c.last_pid, set_kernel k2 (record s { cursor = c }))

unfoldable pub new_proc : (boot_cr3 address : ℕ) → Kernel → Kernel
unfolding alloc_proc
new_proc boot_cr3 address k =
    let k1 = (alloc_proc address boot_cr3 k).1 in
    set_proc address (record (k1.proc address) { parent = k.current }) k1

-- What the memset of `alloc_proc` does to the fields that are kept here.
abbrev pub clear_context : (proc : ℕ) → Forking → Forking
clear_context proc s = record s {
  tf = update s.tf proc 0;
  context = update s.context proc (record { ra = 0; sp = 0; s = λ r. 0 });
}

-- From the call of `copy_mm` on.
unfoldable pub fork_stack :
    (fuel rounds forkret clone_flags stack tf : ℕ) → Grants → Forking → Outcome (ℤ × Forking)
fork_stack fuel rounds forkret clone_flags stack tf g s =
    let copied = copy_mm clone_flags g.proc g s in
    if is_ok copied.0
    then enter_proc fuel rounds g.proc (copy_thread forkret g.proc stack tf copied.1)
    else returns (e_no_mem, call (kfree g.proc ∷ []) copied.1)

unfoldable pub do_fork :
    (fuel rounds boot_cr3 forkret clone_flags stack tf : ℕ)
    → Grants
    → Forking
    → Outcome (ℤ × Forking)
do_fork fuel rounds boot_cr3 forkret clone_flags stack tf g s =
    let s1 = clear_context g.proc (set_kernel (new_proc boot_cr3 g.proc s.machine.kernel) s) in
    let stacked = setup_kstack g.proc g.kstack s1 in
    if leb max_process s.machine.kernel.nr_process && ltb s.machine.kernel.nr_process (2 ^ 31)
    then returns (e_no_free_proc, s)
    else if g.proc == 0
    then returns (e_no_mem, s)
    else if is_ok stacked.0
    then fork_stack fuel rounds forkret clone_flags stack tf g stacked.1
    else (do s2 ← free_kstack g.proc stacked.1; returns (e_no_mem, call (kfree g.proc ∷ []) s2))

-- The frame that `kernel_thread` hands to `do_fork`; `tf` is its place on the stack.
unfoldable pub thread_frame : (sstatus entry fn arg : ℕ) → Frame
thread_frame sstatus entry fn arg = record {
  gpr = update (update (λ r. 0) 8 fn) 9 arg;
  status = bit_and (bit_or sstatus 0x120) (2 ^ 64 - 1 - 2);
  epc = entry;
  tval = 0;
  cause = 0;
}

unfoldable pub kernel_thread :
    (fuel rounds boot_cr3 forkret sstatus entry fn arg clone_flags tf : ℕ)
    → Grants
    → Forking
    → Outcome (ℤ × Forking)
kernel_thread fuel rounds boot_cr3 forkret sstatus entry fn arg clone_flags tf g s =
    do_fork fuel rounds boot_cr3 forkret (bit_or clone_flags clone_vm) 0 tf g
      (record s { frame = update s.frame tf (thread_frame sstatus entry fn arg) })
