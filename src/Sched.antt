-- ===== src/Sched.antt =====
-- kern/schedule/sched.c, and the functions of kern/process/proc.c that only mark a process:
-- proc_run, do_yield, do_kill.
pub mod Pick
pub mod Turn
pub mod Kill
mod Tests
use nkucore.Prelude.{
  ℕ, zero, suc, ◌+◌, Bool, true, false, ◌&&◌, ◌||◌, not, ◌==◌, if◌then◌else◌, ℤ, pos, negsuc,
  Outcome, returns, panics, out_of_fuel, ◌>>=◌, ◌>>◌, assert, has_flag,
}
use Prim.Native.Nat.{bit_or}
use nkucore.Ring.{list_next}
use nkucore.Vmm.{e_inval}
use nkucore.Process.{
  Proc, Kernel, runnable, is_zombie, is_runnable, set_proc, proc_list, find_proc, pf_exiting,
  wt_interrupted,
}

-- A runnable process only draws a warning.
unfoldable pub wakeup_proc : (proc : ℕ) → Kernel → Outcome Kernel
wakeup_proc proc k = do
  assert (not (is_zombie (k.proc proc).state))
  returns (
      if is_runnable (k.proc proc).state
      then k
      else set_proc proc (record (k.proc proc) { state = runnable; wait_state = 0 }) k)

-- The walk of `schedule`: the process it stops at, 0 where it met none.
unfoldable pub pick : (fuel last le next : ℕ) → Kernel → Outcome ℕ
pick zero last le next k = out_of_fuel
pick (suc n) last le next k =
    let le' = list_next k.list_links le in
    let next' = if le' == proc_list then next else le' in
    let rest = pick n last le' next' k in
    if not (le' == proc_list) && is_runnable (k.proc le').state
    then returns next'
    else if le' == last
    then returns next'
    else rest

-- Up to `switch_to`.
unfoldable pub proc_run : (proc : ℕ) → Kernel → Kernel
proc_run proc k =
    if proc == k.current then k else record k { current = proc; satp = (k.proc proc).cr3 }

unfoldable pub schedule : (fuel : ℕ) → Kernel → Outcome Kernel
unfolding pick proc_run
schedule fuel k = do
  let k1 : Kernel = set_proc k.current (record (k.proc k.current) { need_resched = false }) k
  let last : ℕ = if k.current == k.idleproc then proc_list else k.current
  found ← pick fuel last last 0 k1
  let next : ℕ = if found == 0 || not (is_runnable (k1.proc found).state) then k.idleproc else found
  returns
      (proc_run next (set_proc next (record (k1.proc next) { runs = (k1.proc next).runs + 1 }) k1))

unfoldable pub do_yield : Kernel → ℤ × Kernel
do_yield k = (pos 0, set_proc k.current (record (k.proc k.current) { need_resched = true }) k)

-- E_KILLED of libs/error.h, negated.
abbrev pub e_killed : ℤ
e_killed = negsuc 8

-- `do_kill` of the process that was found.
unfoldable pub mark_killed : (proc : ℕ) → Kernel → Outcome (ℤ × Kernel)
unfolding wakeup_proc
mark_killed p k =
    if p == 0
    then returns (e_inval, k)
    else if has_flag (k.proc p).flags pf_exiting
    then returns (e_killed, k)
    else (do
      let k1 : Kernel =
          set_proc p (record (k.proc p) { flags = bit_or (k.proc p).flags pf_exiting }) k
      k2 ← (if has_flag (k.proc p).wait_state wt_interrupted then wakeup_proc p k1 else returns k1)
      returns (pos 0, k2))

unfoldable pub do_kill : (fuel : ℕ) → (pid : ℤ) → Kernel → Outcome (ℤ × Kernel)
unfolding find_proc mark_killed
do_kill fuel pid k = do p ← find_proc fuel pid k; mark_killed p k
