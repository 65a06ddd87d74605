-- ===== src/Sched/Tests.antt =====
-- The theorems on the scheduler at a kernel of three processes, the middle one running.
use nkucore.Prelude.{
  has_flag, ℕ, ◌+◌, ◌≡◌, refl, false, [], ◌∷◌, arith, pos, returns, if◌then◌else◌, ◌==◌,
}
use nkucore.Ring.Chain.{IsRing}
use nkucore.Process.{Kernel, proc_list}
use nkucore.Process.Find.{find_proc_lem}
use nkucore.Process.Tests.{sample, two-Bucket}
use nkucore.Sched.{schedule, do_kill, e_killed}
use nkucore.Sched.Turn.{listed, schedule-Turns}
use nkucore.Sched.Kill.{Killed, do_kill-Killed}

sample_order : IsRing sample.list_links proc_list (7 ∷ 6 ∷ 5 ∷ [])
sample_order = record {
  chain = (refl, refl, (refl, refl, (refl, refl, (refl, refl))));
  apart = refl;
  distinct = (refl, (refl, (refl, tt)));
}

schedule-Turns_example :
    (k' : Kernel) × (schedule 9 sample ≡ returns k')
    × (k'.current ≡ 7)
    × ((p : ℕ) → (k'.proc p).state ≡ (sample.proc p).state)
    × ((p : ℕ)
        → (k'.proc p).runs ≡ (if p == 7 then (sample.proc p).runs + 1 else (sample.proc p).runs))
    × ((k'.proc 6).need_resched ≡ false)
    × (k'.list_links ≡ sample.list_links)
schedule-Turns_example =
    schedule-Turns sample (5 ∷ 7 ∷ 6 ∷ []) 9 (listed (7 ∷ []) (5 ∷ []) (omega arith) sample_order)
      (omega arith)

do_kill-Killed_example :
    (k' : Kernel) × (do_kill 3 (pos 2) sample ≡ returns (pos 0, k'))
    × Killed 6 sample k'
    × (do_kill 3 (pos 2) k' ≡ returns (e_killed, k'))
unfolding has_flag
do_kill-Killed_example =
    do_kill-Killed 3 (pos 2) 6 sample (find_proc_lem 3 2 sample (6 ∷ []) two-Bucket (omega arith))
      (omega arith) refl refl
