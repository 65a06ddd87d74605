-- ===== src/Kmonitor.antt =====
-- kern/debug/kmonitor.c: parse and runcmd of the command line.
pub mod Words
pub mod Parse
mod Tests
use nkucore.Prelude.{
  ℕ, zero, suc, ◌+◌, ◌-◌, Bool, true, false, ◌&&◌, ◌||◌, not, Option, none, some, List, [], ◌∷◌,
  length, ◌==◌, if◌then◌else◌, update, Outcome, returns, out_of_fuel, ◌>>=◌, ℤ, pos,
}
use nkucore.CString.{Memory, strcmp}

-- `strchr(WHITESPACE, c)` of a byte that is not NUL: " \t\n\r".
unfoldable pub is_white : (c : ℕ) → Bool
is_white c = c == 32 || c == 9 || c == 10 || c == 13

-- The loop that clears white space: where it stops, and the memory.
unfoldable pub skip_white : (fuel : ℕ) → Memory → (buf : ℕ) → Outcome (ℕ × Memory)
unfolding is_white
skip_white zero m buf = out_of_fuel
skip_white (suc k) m buf =
    let rest = skip_white k (update m buf 0) (buf + 1) in
    if not (m buf == 0) && is_white (m buf) then rest else returns (buf, m)

-- The loop over an argument.
unfoldable pub skip_word : (fuel : ℕ) → Memory → (buf : ℕ) → Outcome ℕ
unfolding is_white
skip_word zero m buf = out_of_fuel
skip_word (suc k) m buf =
    let rest = skip_word k m (buf + 1) in
    if not (m buf == 0) && not (is_white (m buf)) then rest else returns buf

-- What is written to `argv`, from `argv[0]` on, and the memory of the buffer; `argc` is the number
-- of pointers. Nothing stops at MAXARGS: the message about it is only printed.
unfoldable pub parse : (rounds fuel : ℕ) → Memory → (buf : ℕ) → Outcome (List ℕ × Memory)
unfolding skip_white skip_word
parse zero fuel m buf = out_of_fuel
parse (suc k) fuel m buf = do
  white ← skip_white fuel m buf
  if white.1 white.0 == 0
      then returns ([], white.1)
      else skip_word fuel white.1 white.0
        >>= (λ end. parse k fuel white.1 end >>= (λ rest. returns (white.0 ∷ rest.0, rest.1)))

-- The first command of the table whose name is the one at `arg`; a name is an address.
unfoldable pub find_command :
    (fuel : ℕ) → Memory → (names : List ℕ) → (arg i : ℕ) → Outcome (Option ℕ)
unfolding strcmp
find_command fuel m [] arg i = returns none
find_command fuel m (name ∷ names) arg i = do
  r ← strcmp fuel m name arg
  elim r [ pos zero ↦ returns (some i) | _ ↦ find_command fuel m names arg (i + 1) ]

-- The command that is called and its arguments; none where there is no argument or no such command,
-- and 0 is returned.
unfoldable pub runcmd :
    (fuel : ℕ) → Memory → (names : List ℕ) → (buf : ℕ) → Outcome (Option (ℕ × List ℕ) × Memory)
unfolding parse find_command
runcmd fuel m names buf = do
  parsed ← parse fuel fuel m buf
  elim parsed.0 [
    | [] ↦ returns (none, parsed.1)
    | arg ∷ args ↦ find_command fuel parsed.1 names arg 0 >>= (λ found. elim found [
      | none ↦ returns (none, parsed.1)
      | some i ↦ returns (some (i, args), parsed.1)
    ])
  ]
