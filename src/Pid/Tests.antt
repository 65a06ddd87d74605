-- ===== src/Pid/Tests.antt =====
-- Runs of `get_pid`, and its theorem at a list of three processes.
use nkucore.Prelude.{ℕ, ◌≡◌, refl, inl, List, [], ◌∷◌, arith, returns}
use nkucore.Pid.{max_pid, Cursor, walk, search_from, get_pid}
use nkucore.Pid.Fresh.{IsCursor, IsFresh, get_pid-IsFresh}

-- The static variables at boot.
abbrev boot : Cursor
boot = record { next_safe = max_pid; last_pid = max_pid }

abbrev three : List ℕ
three = 3 ∷ 2 ∷ 1 ∷ []

boot-IsCursor : IsCursor three boot
boot-IsCursor = record {
  skips = (inl (omega arith), (inl (omega arith), (inl (omega arith), tt)));
  bound = omega arith;
}

first_pid : get_pid 9 [] boot ≡ returns (record { next_safe = max_pid; last_pid = 1 })
unfolding get_pid search_from walk
first_pid = refl

fourth_pid : get_pid 9 (5 ∷ three) boot ≡ returns (record { next_safe = 5; last_pid = 4 })
unfolding get_pid search_from walk
fourth_pid = refl

last_pid_wraps :
    get_pid 9 (7 ∷ 1 ∷ []) (record { next_safe = 8192; last_pid = 8191 })
    ≡ returns (record { next_safe = 7; last_pid = 2 })
unfolding get_pid search_from walk
last_pid_wraps = refl

get_pid-IsFresh_example : (d : Cursor) × (get_pid 16385 three boot ≡ returns d) × IsFresh three d
get_pid-IsFresh_example = get_pid-IsFresh 16385 three boot boot-IsCursor (omega arith) (omega arith)
