-- ===== src/Readline/Edit.antt =====
-- kern/libs/readline.c: the buffer and its index are a line that is edited at its end.
use nkucore.Prelude.{
  ℕ, suc, ◌+◌, ◌-◌, ◌%◌, ◌≤◌, ◌≡◌, ◌∙◌, refl, ◌||◌, Option, none, some, List, [], ◌∷◌, length, ltb,
  leb, ◌==◌, if◌then◌else◌, arith, update, update_ne, Outcome, returns, out_of_fuel, ℤ, pos, negsuc,
}
use nkucore.CString.{Memory}
use nkucore.Readline.{bufsize}
use nkucore.Strtol.Digits.{Holds}

-- The line that stands before `rest`, its last character first.
abbrev pub reverse_onto : List ℕ → List ℕ → List ℕ
reverse_onto [] rest = rest
reverse_onto (c ∷ line) rest = reverse_onto line (c ∷ rest)

abbrev pub erase : List ℕ → List ℕ
erase [] = []
erase (c ∷ line) = line

-- What a character does to a line that is not full: it ends it, erases its last character, joins
-- it, or does nothing. A full line takes no more characters.
pub data Edit : Type 0 where
  join : Edit
  back : Edit
  enter : Edit
  skip : Edit

abbrev pub edit_of : (c : ℕ) → Edit
edit_of c =
    if leb 32 c then join else if c == 8 then back else if c == 10 || c == 13 then enter else skip

abbrev pub room : List ℕ → ℕ → List ℕ
room line c = if ltb (length line) (bufsize - 1) then (c % 256) ∷ line else line

abbrev pub choose :
    Edit → (joined erased same : Outcome (Option (List ℕ))) → List ℕ → Outcome (Option (List ℕ))
choose join joined erased same line = joined
choose back joined erased same line = erased
choose enter joined erased same line = returns (some line)
choose skip joined erased same line = same

-- The line, with a NUL behind it, that the characters make of `line`; none if getchar fails.
abbrev pub edited : (line : List ℕ) → List ℤ → Outcome (Option (List ℕ))
edited line [] = out_of_fuel
edited line (negsuc n ∷ cs) = returns none
edited line (pos c ∷ cs) =
    choose (edit_of c) (edited (room line c) cs) (edited (erase line) cs) (edited line cs)
      (reverse_onto line (0 ∷ []))

abbrev pub Stack : Memory → ℕ → List ℕ → Type 0
Stack m buf [] = Unit
Stack m buf (c ∷ line) = (m (buf + length line) ≡ c) × Stack m buf line

pub Stack-erase :
    (m : Memory) (buf : ℕ) (line : List ℕ) → Stack m buf line → Stack m buf (erase line)
Stack-erase m buf [] h = h
Stack-erase m buf (c ∷ line) h = h.1

pub length-erase : (line : List ℕ) → length (erase line) ≡ length line - 1
length-erase [] = refl
length-erase (c ∷ line) = omega arith

-- A write behind the line.
pub Stack-update :
    (m : Memory) (buf a c : ℕ) (line : List ℕ)
    → buf + length line ≤ a
    → Stack m buf line
    → Stack (update m a c) buf line
Stack-update m buf a c [] l h = tt
Stack-update m buf a c (d ∷ line) l h = (
  update_ne m a (buf + length line) c (λ e. omega (arith, e, l)) ∙ h.0,
  Stack-update m buf a c line (omega (arith, l)) h.1,
)

pub Stack-Holds :
    (m : Memory) (buf : ℕ) (line rest : List ℕ)
    → Stack m buf line
    → Holds m (buf + length line) rest
    → Holds m buf (reverse_onto line rest)
Stack-Holds m buf [] rest h r = let e : buf + 0 ≡ buf = omega arith in rw e at r
Stack-Holds m buf (c ∷ line) rest h r =
    let e : buf + suc (length line) ≡ buf + length line + 1 = omega arith in
    Stack-Holds m buf line (c ∷ rest) h.1 (h.0, rw e at r)
