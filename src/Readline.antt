-- ===== src/Readline.antt =====
-- kern/libs/readline.c. The characters that getchar returns are a list; what is printed is left out.
pub mod Edit
pub mod Loop
mod Tests
use nkucore.Prelude.{
  ℕ, ◌+◌, ◌-◌, ◌%◌, Bool, ◌&&◌, ◌||◌, Option, none, some, List, [], ◌∷◌, ltb, leb, ◌==◌,
  if◌then◌else◌, update, Outcome, returns, out_of_fuel, ℤ, pos, negsuc,
}
use nkucore.CString.{Memory}

abbrev pub bufsize : ℕ
bufsize = 1024

-- The loop, with `i` characters in the buffer at `buf`: what is returned, NULL being `none`, and the
-- memory. At the end of the list it waits for more. A `char` keeps 8 bits.
unfoldable pub readline_loop : Memory → (buf i : ℕ) → List ℤ → Outcome (Option ℕ × Memory)
readline_loop m buf i [] = out_of_fuel
readline_loop m buf i (negsuc n ∷ cs) = returns (none, m)
readline_loop m buf i (pos c ∷ cs) =
    let typed = readline_loop (update m (buf + i) (c % 256)) buf (i + 1) cs in
    let erased = readline_loop m buf (i - 1) cs in
    let ignored = readline_loop m buf i cs in
    if leb 32 c && ltb i (bufsize - 1)
    then typed
    else if c == 8 && ltb 0 i
    then erased
    else if c == 10 || c == 13
    then returns (some buf, update m (buf + i) 0)
    else ignored

unfoldable pub readline : Memory → (buf : ℕ) → List ℤ → Outcome (Option ℕ × Memory)
unfolding readline_loop
readline m buf cs = readline_loop m buf 0 cs
