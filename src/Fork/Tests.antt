-- ===== src/Fork/Tests.antt =====
-- The family of Process.Tests forks: process 5, with an address space, gets a child.
use nkucore.Prelude.{
  has_flag, ℕ, ◌≡◌, refl, [], ◌∷◌, ◌++◌, pos, arith, update, returns, panics, inl,
}
use nkucore.Ring.Chain.{IsRing}
use nkucore.Pid.Fresh.{IsCursor}
use nkucore.Vmm.{e_no_mem}
use nkucore.Process.{Kernel, proc_list}
use nkucore.Process.Family.{IsFamily}
use nkucore.Process.Tests.{sample}
use nkucore.Lifecycle.{kfree, mm_destroy}
use nkucore.Fork.{Forking, Grants, do_fork}
use nkucore.Fork.Linked.{pids_of}
use nkucore.Fork.Child.{Only, copies}
use nkucore.Fork.Forked.{Forked, do_fork-Forked}
use nkucore.Fork.Fails.{no_pgdir, do_fork-no_stack, do_fork-CopyFails}

abbrev kernel : Kernel
kernel = record sample {
  proc = update sample.proc 5 (record (sample.proc 5) { mm = 0x77 });
  current = 5;
}

abbrev start : Forking
start = record {
  machine = record { kernel = kernel; mm_count = λ m. 1; calls = [] };
  cursor = record { next_safe = 8192; last_pid = 3 };
  frame = λ a. record { gpr = λ r. r; status = 0; epc = 0x800020; tval = 0; cause = 8 };
  tf = λ p. 0;
  context = λ p. record { ra = 0; sp = 0; s = λ r. 0 };
  pgdir_pa = λ m. 0x80500000;
}

abbrev grants : Grants
grants = record {
  proc = 9;
  kstack = 0xFFFFFFFFC0300000;
  mm = 0x78;
  pgdir = 0x80600000;
  dup = pos 0;
}

kernel-IsFamily : IsFamily kernel.proc 5 (7 ∷ 6 ∷ [])
kernel-IsFamily = record {
  first = refl;
  siblings = (omega arith, refl, refl, refl, (omega arith, refl, refl, refl, tt));
  distinct = (refl, (refl, tt));
  apart = refl;
}

kernel-IsRing : IsRing kernel.list_links proc_list (7 ∷ 6 ∷ 5 ∷ [])
kernel-IsRing = record {
  chain = (refl, refl, (refl, refl, (refl, refl, (refl, refl))));
  apart = refl;
  distinct = (refl, (refl, (refl, tt)));
}

start-IsCursor : IsCursor (pids_of kernel.proc (7 ∷ 6 ∷ 5 ∷ [])) start.cursor
start-IsCursor = record {
  skips = (inl (omega arith), (inl (omega arith), (inl (omega arith), tt)));
  bound = omega arith;
}

do_fork-Forked_example :
    (pid : ℕ) × (t : Forking) × (do_fork 20000 4 0x80 0xC0 0 0x7FFFF000 0xA0 grants start
      ≡ returns (pos pid, t))
    × Forked start 0xC0 0 0x7FFFF000 0xA0 9 0xFFFFFFFFC0300000 0x78
        (7 ∷ 6 ∷ [])
        (7 ∷ 6 ∷ 5 ∷ [])
        pid
        t
unfolding has_flag
do_fork-Forked_example =
    do_fork-Forked 20000 4 0x80 0xC0 0 0x7FFFF000 0xA0 0x78 grants start (7 ∷ 6 ∷ [])
      (7 ∷ 6 ∷ 5 ∷ []) (copies (omega arith) refl (omega arith) (omega arith) refl) kernel-IsRing
      start-IsCursor kernel-IsFamily (omega arith) (omega arith) (omega arith) (omega arith)
      (omega arith) (omega arith) (omega arith) refl refl

do_fork-no_stack_example :
    do_fork 20000 4 0x80 0xC0 0 0x7FFFF000 0xA0 (record grants { kstack = 0 }) start ≡ panics
do_fork-no_stack_example =
    do_fork-no_stack 20000 4 0x80 0xC0 0 0x7FFFF000 0xA0 (record grants { kstack = 0 }) start
      (omega arith) (omega arith) refl

do_fork-CopyFails_example :
    (t : Forking) × (do_fork 20000 4 0x80 0xC0 0 0x7FFFF000 0xA0 (record grants { pgdir = 0 }) start
      ≡ returns (e_no_mem, t))
    × Only 9 kernel t.machine.kernel
    × (t.machine.calls ≡ [] ++ (mm_destroy 0x78 ∷ []) ++ kfree 9 ∷ [])
unfolding has_flag
do_fork-CopyFails_example =
    do_fork-CopyFails 20000 4 0x80 0xC0 0 0x7FFFF000 0xA0 (record grants { pgdir = 0 }) start
      (mm_destroy 0x78 ∷ []) (omega arith) (omega arith) (omega arith) (omega arith) (omega arith)
      refl (no_pgdir (omega arith) refl)
