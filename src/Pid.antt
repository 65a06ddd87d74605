-- ===== src/Pid.antt =====
-- kern/process/proc.c: `get_pid`, the choice of a process id that no process has. The walk over
-- `proc_list` reads the ids of its processes, in the order of the list.
pub mod Fresh
mod Tests
use nkucore.Prelude.{
  ℕ, zero, suc, ◌+◌, List, [], ◌∷◌, ltb, leb, ◌==◌, ◌&&◌, if◌then◌else◌, Outcome, returns,
  out_of_fuel,
}

abbrev pub max_process : ℕ
max_process = 4096

-- `MAX_PROCESS * 2`
abbrev pub max_pid : ℕ
max_pid = 8192

-- The static variables of `get_pid`.
pub record Cursor : Type 0 where
  pub next_safe : ℕ
  pub last_pid : ℕ

pub data Walk : Type 0 where
  done : Cursor → Walk
  repeats : (last_pid : ℕ) → Walk

-- The walk over the list, up to its end or to `goto repeat`.
unfoldable pub walk : List ℕ → Cursor → Walk
walk [] c = done c
walk (pid ∷ pids) c =
    if pid == c.last_pid
    then if leb c.next_safe (c.last_pid + 1)
      then repeats (if leb max_pid (c.last_pid + 1) then 1 else c.last_pid + 1)
      else walk pids (record c { last_pid = c.last_pid + 1 })
    else if ltb c.last_pid pid && ltb pid c.next_safe
    then walk pids (record c { next_safe = pid })
    else walk pids c

-- From the label `repeat`, with `next_safe` at MAX_PID.
unfoldable pub search_from : (fuel : ℕ) → List ℕ → (last_pid : ℕ) → Outcome Cursor
unfolding walk
search_from zero pids last_pid = out_of_fuel
search_from (suc k) pids last_pid =
    elim (walk pids (record { next_safe = max_pid; last_pid = last_pid })) [
      | done c ↦ returns c
      | repeats last_pid' ↦ search_from k pids last_pid'
    ]

-- The new id is `last_pid` of the result.
unfoldable pub get_pid : (fuel : ℕ) → List ℕ → Cursor → Outcome Cursor
unfolding search_from
get_pid fuel pids c =
    if leb max_pid (c.last_pid + 1)
    then search_from fuel pids 1
    else if leb c.next_safe (c.last_pid + 1)
    then search_from fuel pids (c.last_pid + 1)
    else returns (record c { last_pid = c.last_pid + 1 })
