-- ===== src/Lifecycle.antt =====
-- kern/process/proc.c: how a process ends and how its parent waits for it: do_exit and do_wait.
-- The calls that release memory are recorded in the order in which they are made.
pub mod Adopt
pub mod Wait
pub mod Wake
pub mod Reparent
pub mod Exit
mod Tests
use nkucore.Prelude.{
  ℕ, zero, suc, ◌+◌, ◌-◌, ◌%◌, ◌^◌, Bool, true, false, ◌&&◌, ◌||◌, not, Option, none, some, ◌==◌,
  if◌then◌else◌, update, ℤ, pos, negsuc, List, [], ◌∷◌, ◌++◌, Outcome, returns, panics, out_of_fuel,
  ◌>>=◌, ◌>>◌, assert, has_flag,
}
use nkucore.Vmm.{e_inval}
use nkucore.Process.{
  Proc, ProcState, zombie, sleeping, Kernel, is_zombie, set_proc, set_cptr, set_yptr, set_optr,
  find_proc, unhash_proc, remove_links, pf_exiting, wt_child,
}
use nkucore.Sched.{wakeup_proc, schedule}

pub data MemoryCall : Type 0 where
  exit_mmap : (mm : ℕ) → MemoryCall
  put_pgdir : (mm : ℕ) → MemoryCall
  mm_destroy : (mm : ℕ) → MemoryCall
  put_kstack : (kstack : ℕ) → MemoryCall
  kfree : (proc : ℕ) → MemoryCall

-- The kernel, `mm_count` of every address space as a 32-bit word, and the calls made.
pub record Machine : Type 0 where
  pub kernel : Kernel
  pub mm_count : ℕ → ℕ
  pub calls : List MemoryCall

unfoldable pub set_parent : (ℕ → Proc) → (p v : ℕ) → ℕ → Proc
set_parent f p v = update f p (record (f p) { parent = v })

-- The link writes of one round of the loop of `do_exit`, which gives `proc`, the youngest child of
-- `current`, to `initproc`.
unfoldable pub adopt : (proc current initproc : ℕ) → (ℕ → Proc) → ℕ → Proc
unfolding set_parent set_cptr set_yptr set_optr
adopt proc current initproc f =
    let f1 = set_cptr f current (f proc).optr in
    let oldest = (f1 initproc).cptr in
    let f2 = set_optr (set_yptr f1 proc 0) proc oldest in
    let f3 = if oldest == 0 then f2 else set_yptr f2 oldest proc in
    set_cptr (set_parent f3 proc initproc) initproc proc

-- `initproc` is woken for a zombie if it waits for a child.
unfoldable pub wake_init : (proc : ℕ) → Kernel → Outcome Kernel
unfolding wakeup_proc
wake_init proc k =
    if is_zombie (k.proc proc).state && ((k.proc k.initproc).wait_state == wt_child)
    then wakeup_proc k.initproc k
    else returns k

unfoldable pub reparent : (fuel : ℕ) → Kernel → Outcome Kernel
unfolding adopt wake_init
reparent zero k = out_of_fuel
reparent (suc n) k =
    let proc = (k.proc k.current).cptr in
    let k1 : Kernel = record k { proc = adopt proc k.current k.initproc k.proc } in
    let rest = wake_init proc k1 >>= reparent n in if proc == 0 then returns k else rest

-- `do_exit` gives up the address space, and releases it with its last user.
unfoldable pub leave_mm : (boot_cr3 : ℕ) → Machine → Machine
leave_mm boot_cr3 m =
    let k = m.kernel in
    let mm = (k.proc k.current).mm in
    let count = (m.mm_count mm + (2 ^ 32 - 1)) % 2 ^ 32 in
    if mm == 0 then m else record {
      kernel =
          set_proc k.current (record (k.proc k.current) { mm = 0 }) (record k { satp = boot_cr3 });
      mm_count = update m.mm_count mm count;
      calls =
          if count == 0
          then m.calls ++ exit_mmap mm ∷ put_pgdir mm ∷ mm_destroy mm ∷ []
          else m.calls;
    }

-- `do_exit` from `current->state = PROC_ZOMBIE` on.
unfoldable pub become_zombie : (fuel : ℕ) → (error_code : ℤ) → Kernel → Outcome Kernel
unfolding reparent wakeup_proc
become_zombie fuel error_code k = do
  let k1 : Kernel =
      set_proc k.current (record (k.proc k.current) { state = zombie; exit_code = error_code }) k
  let parent : ℕ = (k1.proc k1.current).parent
  k2 ← (if (k1.proc parent).wait_state == wt_child then wakeup_proc parent k1 else returns k1)
  reparent fuel k2

-- `do_exit` up to its call of `schedule`, which does not return.
unfoldable pub do_exit : (fuel boot_cr3 : ℕ) → (error_code : ℤ) → Machine → Outcome Machine
unfolding leave_mm become_zombie
do_exit fuel boot_cr3 error_code m = do
  assert (not (m.kernel.current == m.kernel.idleproc))
  assert (not (m.kernel.current == m.kernel.initproc))
  k ← become_zombie fuel error_code (leave_mm boot_cr3 m).kernel
  returns (record (leave_mm boot_cr3 m) { kernel = k })

-- The search of `do_wait` along `optr` for a child that is a zombie: whether there is a child, and
-- the zombie, 0 if there is none.
unfoldable pub search_children : (fuel proc : ℕ) → (haskid : Bool) → Kernel → Outcome (Bool × ℕ)
search_children zero proc haskid k = out_of_fuel
search_children (suc n) proc haskid k =
    let rest = search_children n (k.proc proc).optr true k in
    if proc == 0
    then returns (haskid, 0)
    else if is_zombie (k.proc proc).state
    then returns (true, proc)
    else rest

-- The search for one id.
unfoldable pub search_pid : (fuel : ℕ) → (pid : ℤ) → Kernel → Outcome (Bool × ℕ)
unfolding find_proc
search_pid fuel pid k = do
  p ← find_proc fuel pid k
  returns (
      if not (p == 0) && ((k.proc p).parent == k.current)
      then (true, (if is_zombie (k.proc p).state then p else 0))
      else (false, 0))

abbrev pub is_zero : ℤ → Bool
is_zero (pos n) = n == 0
is_zero (negsuc n) = false

-- From the label `found`; the exit code is stored through `code_store`.
unfoldable pub reap : (proc : ℕ) → Machine → Outcome (ℤ × Machine)
unfolding unhash_proc remove_links
reap proc m = do
  assert (not (proc == m.kernel.idleproc || (proc == m.kernel.initproc)))
  let k : Kernel = remove_links proc (unhash_proc proc m.kernel)
  returns (
    (m.kernel.proc proc).exit_code,
    record m { kernel = k; calls = m.calls ++ put_kstack (k.proc proc).kstack ∷ kfree proc ∷ [] },
  )

pub data Waited : Type 0 where
  reaped : (exit_code : ℤ) → Waited
  fails : (error : ℤ) → Waited
  sleeps : Waited

-- E_BAD_PROC of libs/error.h, negated.
abbrev pub e_bad_proc : ℤ
e_bad_proc = negsuc 1

-- What `do_wait` does after the search: it reaps the zombie, sleeps, or fails.
unfoldable pub wait_found : (haskid : Bool) → (proc : ℕ) → Machine → Outcome (Waited × Machine)
unfolding reap
wait_found haskid p m =
    if not (p == 0)
    then (reap p m >>= λ r. returns (reaped r.0, r.1))
    else if haskid
    then returns (
      sleeps,
      record m {
        kernel =
            set_proc m.kernel.current
              (record (m.kernel.proc m.kernel.current) { state = sleeping; wait_state = wt_child })
              m.kernel;
      },
    )
    else returns (fails e_bad_proc, m)

-- `do_wait` from the label `repeat` to its return or to its call of `schedule`. `writable` tells
-- whether there is no `code_store`, or `user_mem_check` accepts it.
unfoldable pub do_wait :
    (fuel : ℕ) → (writable : Bool) → (pid : ℤ) → Machine → Outcome (Waited × Machine)
unfolding search_children search_pid wait_found
do_wait fuel false pid m = returns (fails e_inval, m)
do_wait fuel true pid m = do
  let k : Kernel = m.kernel
  found ←
      (if is_zero pid
        then search_children fuel (k.proc k.current).cptr false k
        else search_pid fuel pid k)
  wait_found found.0 found.1 m
