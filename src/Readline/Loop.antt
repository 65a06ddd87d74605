-- ===== src/Readline/Loop.antt =====
-- kern/libs/readline.c: the loop does to the buffer what the characters do to the line.
use nkucore.Prelude.{
  ℕ, suc, ◌+◌, ◌-◌, ◌%◌, ◌≤◌, ◌<◌, ◌≡◌, ◌∙◌, ◌⊎◌, ap, refl, sym, true, false, ◌||◌, Option, none,
  some, List, [], ◌∷◌, length, ltb, leb, ◌==◌, Bool-cases, inl, inr, ==_iff, panics, arith, update,
  update_self, update_ne, Outcome, returns, out_of_fuel, ℤ, pos, negsuc,
}
use nkucore.CString.{Memory}
use nkucore.Readline.{bufsize, readline_loop, readline}
use nkucore.Readline.Edit.{
  Edit, join, back, enter, skip, reverse_onto, erase, edit_of, room, choose, edited, Stack,
  Stack-erase, length-erase, Stack-update, Stack-Holds,
}
use nkucore.Strtol.Digits.{Holds}

abbrev pub returned : (buf : ℕ) → Option (List ℕ) → Option ℕ
returned buf none = none
returned buf (some l) = some buf

abbrev pub Content : Memory → (buf : ℕ) → Option (List ℕ) → Type 0
Content m buf none = Unit
Content m buf (some l) = Holds m buf l

-- What `readline` has done: it returns NULL, or the buffer with the line in it; nothing outside of
-- the buffer is written.
pub record Read (m : Memory) (buf : ℕ) (line : Option (List ℕ)) (got : Option ℕ) (m' : Memory)
    : Type 0 where
  pub result : got ≡ returned buf line
  pub content : Content m' buf line
  pub outside : (a : ℕ) → (a < buf) ⊎ (buf + bufsize ≤ a) → m' a ≡ m a

Read-update :
    (m : Memory) (buf a c : ℕ) (r : Option (List ℕ)) (got : Option ℕ) (m' : Memory)
    → buf ≤ a
    → a < buf + bufsize
    → Read (update m a c) buf r got m'
    → Read m buf r got m'
Read-update m buf a c r got m' l h d = record {
  result = d.result;
  content = d.content;
  outside = λ b o.
      d.outside b o
      ∙ update_ne m a b c
          (λ e. elim o [ inl x ↦ omega (arith, x, e, l) | inr x ↦ omega (arith, x, e, h) ]);
}

abbrev value : Option (List ℕ) → Outcome (Option (List ℕ)) → Option (List ℕ)
value r (returns x) = x
value r panics = r
value r out_of_fuel = r

same_result : {x y : Option (List ℕ)} → (e : returns x ≡ returns y) → x ≡ y
same_result {x} e = ap (value x) e

edited_as :
    (line : List ℕ) (c : ℕ) (cs : List ℤ) (x : Edit) {o : Outcome (Option (List ℕ))}
    → edit_of c ≡ x
    → edited line (pos c ∷ cs) ≡ o
    → choose x
        (edited (room line c) cs)
        (edited (erase line) cs)
        (edited line cs)
        (reverse_onto line (0 ∷ []))
      ≡ o
edited_as line c cs x is e =
    sym (
      ap
        (λ k.
          choose k (edited (room line c) cs) (edited (erase line) cs) (edited line cs)
            (reverse_onto line (0 ∷ [])))
        is)
    ∙ e

module _ (buf : ℕ) (r : Option (List ℕ)) where
  abbrev Goal : Memory → List ℕ → List ℤ → Type 0
  Goal m line cs =
      (got : Option ℕ) × (m' : Memory) × (readline_loop m buf (length line) cs ≡ returns (got, m'))
      × Read m buf r got m'

  -- A backspace, which does nothing to an empty line.
  erase_step :
      (m : Memory) (i c : ℕ) (cs : List ℤ) {o : Outcome (Option ℕ × Memory)}
      → (c == 8) ≡ true
      → readline_loop m buf (i - 1) cs ≡ o
      → readline_loop m buf i (pos c ∷ cs) ≡ o
  unfolding readline_loop
  erase_step m i c cs b h =
      let is : c ≡ 8 = (==_iff c 8).0 b in
      elim (Bool-cases (ltb 0 i)) [
        | inl q ↦ rw (is, q) h
        | inr q ↦ let z : i - 1 ≡ i = ground (arith, q) in let stay = rw z at h in rw (is, q) stay
      ]

  -- The line is done.
  enter-Read :
      (m : Memory) (line : List ℕ)
      → Stack m buf line
      → length line < bufsize
      → returns (some (reverse_onto line (0 ∷ []))) ≡ returns r
      → Read m buf r (some buf) (update m (buf + length line) 0)
  enter-Read m line h l e =
      let at = buf + length line in
      let m' = update m at 0 in
      rw (← same_result e) (record {
        result = refl;
        content =
            Stack-Holds m' buf line (0 ∷ []) (Stack-update m buf at 0 line (omega arith) h)
              (update_self m at 0, tt);
        outside = λ b o.
            update_ne m at b 0
              (λ x. elim o [ inl y ↦ omega (arith, x, y) | inr y ↦ omega (arith, x, y, l) ]);
      })

  readline_loop-Read :
      (m : Memory) (line : List ℕ) (cs : List ℤ)
      → Stack m buf line
      → length line < bufsize
      → edited line cs ≡ returns r
      → Goal m line cs
  unfolding readline_loop
  readline_loop-Read m line [] h l e = ground (arith, e)
  readline_loop-Read m line (negsuc n ∷ cs) h l e = (
    none,
    m,
    refl,
    rw (← same_result e) (record { result = refl; content = tt; outside = λ a o. refl }),
  )
  readline_loop-Read m line (pos c ∷ cs) h l e = elim (Bool-cases (leb 32 c)) [
    | inl p ↦ elim (Bool-cases (ltb (length line) (bufsize - 1))) [
      | inl q ↦
          let m1 = update m (buf + length line) (c % 256) in
          let (got, m', runs, d) =
            readline_loop-Read m1 (c % 256 ∷ line) cs
              (
                update_self m (buf + length line) (c % 256),
                Stack-update m buf (buf + length line) (c % 256) line (omega arith) h,
              )
              (ground (arith, q)) (rw q at (edited_as line c cs join (rw p refl) e)) in
          let n : length line + 1 ≡ suc (length line) = omega arith in
          (
            got,
            m',
            rw (p, q, n) runs,
            Read-update m buf (buf + length line) (c % 256) r got m' (omega arith)
                (omega (arith, l)) d,
          )
      | inr q ↦
          let (got, m', runs, d) =
            readline_loop-Read m line cs h l (rw q at (edited_as line c cs join (rw p refl) e)) in
          let b : (c == 8) ≡ false = ground (arith, p) in
          let b' : (c == 10) ≡ false = ground (arith, p) in
          let b'' : (c == 13) ≡ false = ground (arith, p) in
          (got, m', rw (p, q, b, b', b'') runs, d)
    ]
    | inr p ↦ elim (Bool-cases (c == 8)) [
      | inl b ↦
          let (got, m', runs, d) =
            readline_loop-Read m (erase line) cs (Stack-erase m buf line h)
              (rw (length-erase line) (omega (arith, l)))
              (edited_as line c cs back (rw (p, b) refl) e) in
          let runs' : readline_loop m buf (length line - 1) cs ≡ returns (got, m') =
            rw (length-erase line) at runs in
          (got, m', erase_step m (length line) c cs b runs', d)
      | inr b ↦ elim (Bool-cases (c == 10 || c == 13)) [
        | inl n ↦ (
          some buf,
          update m (buf + length line) 0,
          rw (p, b, n) refl,
          enter-Read m line h l (edited_as line c cs enter (rw (p, b, n) refl) e),
        )
        | inr n ↦
            let (got, m', runs, d) =
              readline_loop-Read m line cs h l (edited_as line c cs skip (rw (p, b, n) refl) e) in
            (got, m', rw (p, b, n) runs, d)
      ]
    ]
  ]

-- Where the characters edit an empty line to a string, `readline` returns the buffer with it;
-- where getchar fails before a line ends, it returns NULL. In both cases it writes nothing outside
-- of the BUFSIZE bytes of the buffer.
pub readline-Read :
    (m : Memory) (buf : ℕ) (cs : List ℤ) (r : Option (List ℕ))
    → edited [] cs ≡ returns r
    → (got : Option ℕ) × (m' : Memory) × (readline m buf cs ≡ returns (got, m'))
      × Read m buf r got m'
unfolding readline
readline-Read m buf cs r e = readline_loop-Read buf r m [] cs tt (omega arith) e
