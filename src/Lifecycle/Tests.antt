-- ===== src/Lifecycle/Tests.antt =====
-- The theorems on do_exit and do_wait at a kernel in which process 6 has a child and ends, and its
-- parent 5, the init process, waits for it.
use nkucore.Prelude.{ℕ, ◌≡◌, refl, true, [], ◌∷◌, arith, update, pos, returns}
use nkucore.Process.{Proc, ProcState, runnable, sleeping, zombie, wt_child}
use nkucore.Process.Tests.{process, sample}
use nkucore.Process.Family.{IsFamily}
use nkucore.Lifecycle.{put_kstack, kfree, Machine, do_exit, do_wait, reaped, sleeps}
use nkucore.Lifecycle.Adopt.{Disjoint}
use nkucore.Lifecycle.Exit.{do_exit-IsFamily}
use nkucore.Lifecycle.Wait.{do_wait-NoZombie, do_wait-IsFamily}

abbrev family_of : ProcState → ℕ → Proc
family_of s =
    update
      (update
        (update (update (λ p. process runnable 0 0 0 0 0) 5 (process sleeping 1 4 7 0 0)) 6
          (process s 2 5 8 7 0))
        7 (process runnable 3 5 0 0 6))
      8 (process zombie 4 6 0 0 0)

-- The kernel with process 6 in the given state.
abbrev machine : ProcState → (current : ℕ) → Machine
machine s current = record {
  kernel = record sample { proc = family_of s; current = current };
  mm_count = λ mm. 1;
  calls = [];
}

init_IsFamily : (s : ProcState) → IsFamily (family_of s) 5 (7 ∷ 6 ∷ [])
init_IsFamily s = record {
  first = refl;
  siblings = (omega arith, refl, refl, refl, (omega arith, refl, refl, refl, tt));
  distinct = (refl, (refl, tt));
  apart = refl;
}

child_IsFamily : IsFamily (family_of runnable) 6 (8 ∷ [])
child_IsFamily = record {
  first = refl;
  siblings = (omega arith, refl, refl, refl, tt);
  distinct = (refl, tt);
  apart = refl;
}

children_Disjoint : Disjoint (8 ∷ []) (7 ∷ 6 ∷ [])
children_Disjoint q h = ground arith

do_exit-IsFamily_example :
    (m' : Machine) × (do_exit 2 0x80 (pos 7) (machine runnable 6) ≡ returns m')
    × ((m'.kernel.proc 6).state ≡ zombie)
    × ((m'.kernel.proc 6).exit_code ≡ pos 7)
    × ((m'.kernel.proc 6).cptr ≡ 0)
    × IsFamily m'.kernel.proc 5 (8 ∷ 7 ∷ 6 ∷ [])
do_exit-IsFamily_example =
    do_exit-IsFamily 2 0x80 6 5 5 (pos 7) (8 ∷ []) (7 ∷ 6 ∷ []) (machine runnable 6) refl refl refl
      (omega arith) (omega arith) (omega arith) (omega arith) (omega arith) child_IsFamily
      (init_IsFamily runnable) children_Disjoint refl refl refl (omega arith)

do_wait-NoZombie_run :
    (m' : Machine) × (do_wait 3 true (pos 0) (machine runnable 5) ≡ returns (sleeps, m'))
    × ((m'.kernel.proc 5).state ≡ sleeping)
    × ((m'.kernel.proc 5).wait_state ≡ wt_child)
do_wait-NoZombie_run =
    do_wait-NoZombie 3 (7 ∷ 6 ∷ []) (machine runnable 5) (init_IsFamily runnable) (refl, (refl, tt))
      (omega arith)

do_wait-IsFamily_example :
    (m' : Machine) × (do_wait 3 true (pos 0) (machine zombie 5) ≡ returns (reaped (pos 0), m'))
    × IsFamily m'.kernel.proc 5 (7 ∷ [])
    × (m'.calls ≡ put_kstack 0x1000 ∷ kfree 6 ∷ [])
do_wait-IsFamily_example =
    do_wait-IsFamily 3 6 (7 ∷ []) [] (machine zombie 5) (init_IsFamily zombie) (refl, tt) refl
      (omega arith) (omega arith) (omega arith)
