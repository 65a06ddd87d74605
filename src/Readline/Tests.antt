-- ===== src/Readline/Tests.antt =====
-- A line that is typed as "ax", a backspace, "b" and a newline; and one that getchar breaks off.
use nkucore.Prelude.{ℕ, ◌≡◌, refl, Option, none, some, List, [], ◌∷◌, ℤ, pos, negsuc, returns}
use nkucore.CString.{Memory}
use nkucore.Readline.{readline, readline_loop}
use nkucore.Readline.Loop.{Read, readline-Read}

abbrev typed : List ℤ
typed = pos 97 ∷ pos 120 ∷ pos 8 ∷ pos 98 ∷ pos 10 ∷ []

abbrev memory : Memory
memory a = 7

readline-Read_example :
    (got : Option ℕ) × (m' : Memory) × (readline memory 100 typed ≡ returns (got, m'))
    × Read memory 100 (some (97 ∷ 98 ∷ 0 ∷ [])) got m'
readline-Read_example = readline-Read memory 100 typed (some (97 ∷ 98 ∷ 0 ∷ [])) refl

failed_run : readline memory 100 (pos 8 ∷ negsuc 0 ∷ []) ≡ returns (none, memory)
unfolding readline readline_loop
failed_run = refl
