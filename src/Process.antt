-- ===== src/Process.antt =====
-- kern/process/proc.c, kern/process/proc.h and libs/hash.c: the processes, their family links and
-- the lists that hold them. A pointer to a `proc_struct` is an address, 0 is NULL.
pub mod Find
pub mod Writes
pub mod Family
pub mod Unlink
pub mod Tests
use nkucore.Prelude.{
  ℕ, zero, suc, ◌+◌, ◌-◌, ◌*◌, ◌/◌, ◌%◌, ◌^◌, Bool, true, false, ◌&&◌, Option, none, some, ltb,
  ◌==◌, if◌then◌else◌, update, ℤ, pos, negsuc, Outcome, returns, panics, out_of_fuel, ◌>>=◌, ◌>>◌,
  assert, has_flag,
}
use nkucore.Pid.{max_pid}
use nkucore.Ring.{Links, list_init, list_next, list_add, list_del}

pub data ProcState : Type 0 where
  uninit : ProcState
  sleeping : ProcState
  runnable : ProcState
  zombie : ProcState

abbrev pub is_zombie : ProcState → Bool
is_zombie uninit = false
is_zombie sleeping = false
is_zombie runnable = false
is_zombie zombie = true

abbrev pub is_runnable : ProcState → Bool
is_runnable uninit = false
is_runnable sleeping = false
is_runnable runnable = true
is_runnable zombie = false

-- `struct proc_struct` without its registers and its name.
pub record Proc : Type 0 where
  pub state : ProcState
  pub pid : ℤ
  pub runs : ℕ
  pub kstack : ℕ
  pub need_resched : Bool
  pub parent : ℕ
  pub mm : ℕ
  pub cr3 : ℕ
  pub flags : ℕ
  pub exit_code : ℤ
  pub wait_state : ℕ
  pub cptr : ℕ
  pub yptr : ℕ
  pub optr : ℕ

abbrev pub pf_exiting : ℕ
pf_exiting = 0x1

abbrev pub wt_interrupted : ℕ
wt_interrupted = 0x80000000

abbrev pub wt_child : ℕ
wt_child = 0x80000001

-- The file's variables: the processes, `proc_list` and `hash_list` with the links of both, and the
-- pointers; `satp` is the register that `lcr3` sets.
pub record Kernel : Type 0 where
  pub proc : ℕ → Proc
  pub list_links : Links
  pub hash_links : Links
  pub nr_process : ℕ
  pub current : ℕ
  pub idleproc : ℕ
  pub initproc : ℕ
  pub satp : ℕ

-- Node 0 of the list links is `proc_list`, node `p` the `list_link` of process `p`.
abbrev pub proc_list : ℕ
proc_list = 0

abbrev pub hash_list_size : ℕ
hash_list_size = 1024

-- The nodes below 1024 of the hash links are the heads, node `p + 1024` the `hash_link` of `p`.
abbrev pub hash_link : ℕ → ℕ
hash_link p = p + hash_list_size

abbrev pub hash2proc : ℕ → ℕ
hash2proc le = le - hash_list_size

-- The product is cut to 32 bits, and its upper bits are taken.
unfoldable pub hash32 : (val bits : ℕ) → ℕ
hash32 val bits = ((val * 0x9e370001) % 2 ^ 32) / 2 ^ (32 - bits)

unfoldable pub pid_hashfn : ℕ → ℕ
unfolding hash32
pid_hashfn pid = hash32 pid 10

abbrev pub set_proc : ℕ → Proc → Kernel → Kernel
set_proc p r k = record k { proc = update k.proc p r }

-- `kmalloc` returns the address or 0; the fields that `memset` clears are 0.
unfoldable pub alloc_proc : (address boot_cr3 : ℕ) → Kernel → ℕ × Kernel
alloc_proc zero boot_cr3 k = (0, k)
alloc_proc (suc a) boot_cr3 k = (
  suc a,
  set_proc (suc a)
      (record {
        state = uninit;
        pid = negsuc 0;
        runs = 0;
        kstack = 0;
        need_resched = false;
        parent = 0;
        mm = 0;
        cr3 = boot_cr3;
        flags = 0;
        exit_code = pos 0;
        wait_state = 0;
        cptr = 0;
        yptr = 0;
        optr = 0;
      })
      k,
)

-- The writes of the family links.
unfoldable pub set_cptr : (ℕ → Proc) → (p v : ℕ) → ℕ → Proc
set_cptr f p v = update f p (record (f p) { cptr = v })

unfoldable pub set_yptr : (ℕ → Proc) → (p v : ℕ) → ℕ → Proc
set_yptr f p v = update f p (record (f p) { yptr = v })

unfoldable pub set_optr : (ℕ → Proc) → (p v : ℕ) → ℕ → Proc
set_optr f p v = update f p (record (f p) { optr = v })

-- `list_add(&proc_list, ..)`, then the sibling links: the new child is the youngest.
unfoldable pub set_links : (proc : ℕ) → Kernel → Kernel
unfolding set_cptr set_yptr set_optr
set_links proc k =
    let parent = (k.proc proc).parent in
    let older = (k.proc parent).cptr in
    let f1 = set_optr (set_yptr k.proc proc 0) proc older in
    let f2 = if older == 0 then f1 else set_yptr f1 older proc in
    record k {
      proc = set_cptr f2 parent proc;
      list_links = list_add proc_list proc k.list_links;
      nr_process = (k.nr_process + 1) % 2 ^ 32;
    }

unfoldable pub remove_links : (proc : ℕ) → Kernel → Kernel
unfolding set_cptr set_yptr set_optr
remove_links proc k =
    let older = (k.proc proc).optr in
    let younger = (k.proc proc).yptr in
    let parent = (k.proc proc).parent in
    let f1 = if older == 0 then k.proc else set_yptr k.proc older younger in
    record k {
      proc = if younger == 0 then set_cptr f1 parent older else set_optr f1 younger older;
      list_links = list_del proc k.list_links;
      nr_process = (k.nr_process + (2 ^ 32 - 1)) % 2 ^ 32;
    }

-- A pid as an argument of type `uint32_t`.
abbrev pub uint_of : ℤ → ℕ
uint_of (pos n) = n
uint_of (negsuc n) = 2 ^ 32 - 1 - n

abbrev pub same_pid : ℤ → ℕ → Bool
same_pid (pos a) b = a == b
same_pid (negsuc a) b = false

unfoldable pub hash_proc : (proc : ℕ) → Kernel → Kernel
hash_proc proc k = record k {
  hash_links = list_add (pid_hashfn (uint_of (k.proc proc).pid)) (hash_link proc) k.hash_links;
}

unfoldable pub unhash_proc : (proc : ℕ) → Kernel → Kernel
unhash_proc proc k = record k { hash_links = list_del (hash_link proc) k.hash_links }

-- The walk of `find_proc` over one hash list; 0 where no process has the id.
unfoldable pub search_hash : (fuel list le pid : ℕ) → Kernel → Outcome ℕ
search_hash zero list le pid k = out_of_fuel
search_hash (suc n) list le pid k =
    let le' = list_next k.hash_links le in
    let rest = search_hash n list le' pid k in
    if le' == list
    then returns 0
    else if same_pid (k.proc (hash2proc le')).pid pid
    then returns (hash2proc le')
    else rest

unfoldable pub find_proc : (fuel : ℕ) → (pid : ℤ) → Kernel → Outcome ℕ
unfolding search_hash
find_proc fuel (negsuc n) k = returns 0
find_proc fuel (pos pid) k =
    if ltb 0 pid && ltb pid max_pid
    then search_hash fuel (pid_hashfn pid) (pid_hashfn pid) pid k
    else returns 0
