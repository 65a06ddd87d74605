-- ===== src/Kmonitor/Tests.antt =====
-- A line of the monitor, " ab" and a tab and "c", with two commands whose names are "c" and "ab".
use nkucore.Prelude.{
  ℕ, ◌+◌, ◌≡◌, refl, List, [], ◌∷◌, some, arith, returns, panics, out_of_fuel, update, Outcome,
  Option,
}
use nkucore.CString.{Memory, strcmp}
use nkucore.Kmonitor.{parse, skip_white, skip_word, is_white, runcmd, find_command}
use nkucore.Kmonitor.Words.{Line}
use nkucore.Kmonitor.Parse.{Parsed, parse-Parsed, arguments}

abbrev put : Memory → ℕ → List ℕ → Memory
put m s [] = m
put m s (c ∷ cs) = put (update m s c) (s + 1) cs

abbrev line : List ℕ
line = 32 ∷ 97 ∷ 98 ∷ 9 ∷ 99 ∷ []

abbrev memory : Memory
memory = put (put (put (λ a. 0) 100 line) 200 (99 ∷ [])) 210 (97 ∷ 98 ∷ [])

line-Line : Line memory 100 line
line-Line = (
  (refl, (refl, (refl, (refl, (refl, (refl, tt)))))),
  (omega arith, (omega arith, (omega arith, (omega arith, (omega arith, tt))))),
)

parse-Parsed_example :
    (argv : List ℕ) × (m' : Memory) × (parse 6 6 memory 100 ≡ returns (argv, m'))
    × Parsed memory 100 line argv m'
parse-Parsed_example = parse-Parsed 6 6 memory 100 line line-Line (omega arith) (omega arith)

arguments_run : arguments [] line ≡ (97 ∷ 98 ∷ []) ∷ (99 ∷ []) ∷ []
unfolding is_white
arguments_run = refl

abbrev called : Outcome (Option (ℕ × List ℕ) × Memory) → Outcome (Option (ℕ × List ℕ))
called (returns r) = returns r.0
called panics = panics
called out_of_fuel = out_of_fuel

runcmd_run : called (runcmd 9 memory (200 ∷ 210 ∷ []) 100) ≡ returns (some (1, 104 ∷ []))
unfolding runcmd parse skip_white skip_word is_white find_command strcmp
runcmd_run = refl
