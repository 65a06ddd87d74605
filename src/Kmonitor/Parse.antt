-- ===== src/Kmonitor/Parse.antt =====
-- kern/debug/kmonitor.c, parse: the pointers in argv are the arguments of the line.
use nkucore.Prelude.{
  ℕ, zero, suc, ◌+◌, ◌<◌, ◌≡◌, ◌∙◌, ap, refl, false, List, [], ◌∷◌, ◌++◌, length, ==_ne,
  if◌then◌else◌, arith, inl, inr, Bool-cases, returns, ◌⊎◌,
}
use nkucore.CString.{Memory}
use nkucore.Kmonitor.{is_white, parse}
use nkucore.Kmonitor.Words.{
  drop_white, take_word, drop_word, Line, Ends, Holds-same, Skipped, skip_white-Skipped, Passed,
  skip_word-Passed,
}
use nkucore.Strtol.Digits.{Holds}

abbrev pub close : List ℕ → List (List ℕ)
close [] = []
close (c ∷ cs) = (c ∷ cs) ∷ []

-- The arguments of a line behind the part `current` of an argument, one character after the other.
abbrev pub arguments : (current : List ℕ) → List ℕ → List (List ℕ)
arguments current [] = close current
arguments current (c ∷ cs) =
    if is_white c then close current ++ arguments [] cs else arguments (current ++ c ∷ []) cs

-- Each pointer leads to the string of the argument, with a NUL behind it.
abbrev pub Pointers : Memory → List ℕ → List (List ℕ) → Type 0
Pointers m [] [] = Unit
Pointers m [] (w ∷ ws) = ⊥
Pointers m (p ∷ ps) [] = ⊥
Pointers m (p ∷ ps) (w ∷ ws) = Holds m p (w ++ 0 ∷ []) × Pointers m ps ws

cases : (cs : List ℕ) → (cs ≡ []) ⊎ ((c : ℕ) × (ds : List ℕ) × (cs ≡ c ∷ ds))
cases [] = inl refl
cases (c ∷ ds) = inr (c, ds, refl)

arguments-drop_white : (cs : List ℕ) → arguments [] cs ≡ arguments [] (drop_white cs)
arguments-drop_white [] = refl
arguments-drop_white (c ∷ cs) = elim (Bool-cases (is_white c)) [
  | inl white ↦ rw white (arguments-drop_white cs)
  | inr black ↦ rw (black, black) refl
]

append_nil : (xs : List ℕ) → xs ++ [] ≡ xs
append_nil [] = refl
append_nil (x ∷ xs) = ap (λ ys. x ∷ ys) (append_nil xs)

append_one : (xs : List ℕ) (c : ℕ) (ys : List ℕ) → (xs ++ c ∷ []) ++ ys ≡ xs ++ c ∷ ys
append_one [] c ys = refl
append_one (x ∷ xs) c ys = ap (λ zs. x ∷ zs) (append_one xs c ys)

arguments-take_word :
    (d : ℕ) (w cs : List ℕ)
    → arguments (d ∷ w) cs ≡ (d ∷ w ++ take_word cs) ∷ arguments [] (drop_word cs)
arguments-take_word d w [] = rw (append_nil w) refl
arguments-take_word d w (c ∷ cs) = elim (Bool-cases (is_white c)) [
  | inl white ↦ rw (white, white, append_nil w) refl
  | inr black ↦
      rw black (rw (append_one w c (take_word cs)) at (arguments-take_word d (w ++ c ∷ []) cs))
]

drop_white-black : (cs : List ℕ) (c : ℕ) (ds : List ℕ) → drop_white cs ≡ c ∷ ds → is_white c ≡ false
drop_white-black [] c ds e = ground (arith, e)
drop_white-black (b ∷ cs) c ds e = elim (Bool-cases (is_white b)) [
  | inl white ↦ drop_white-black cs c ds (rw white at e)
  | inr black ↦ let f : b ∷ cs ≡ c ∷ ds = rw black at e in ground (arith, f, black)
]

Holds-end :
    (m : Memory) (s : ℕ) (w : List ℕ) → Holds m s w → m (s + length w) ≡ 0 → Holds m s (w ++ 0 ∷ [])
Holds-end m s [] h z = let e : s + 0 ≡ s = omega arith in (rw e at z, tt)
Holds-end m s (c ∷ w) h z =
    let e : s + suc (length w) ≡ s + 1 + length w = omega arith in
    (h.0, Holds-end m (s + 1) w h.1 (rw e at z))

pub record Parsed (m : Memory) (s : ℕ) (cs argv : List ℕ) (m' : Memory) : Type 0 where
  pub pointers : Pointers m' argv (arguments [] cs)
  pub before : (a : ℕ) → a < s → m' a ≡ m a
  pub cleared : Ends cs → m' s ≡ 0

-- One argument in front, which begins with `c`.
one-Parsed :
    (m m1 m2 : Memory) (s t e c : ℕ) (cs ds argv : List ℕ)
    → drop_white cs ≡ c ∷ ds
    → Skipped m s cs t m1
    → Passed m1 t (c ∷ ds) e
    → Parsed m1 e (drop_word (c ∷ ds)) argv m2
    → Parsed m s cs (t ∷ argv) m2
one-Parsed m m1 m2 s t e c cs ds argv eq sk p r =
    let black = drop_white-black cs c ds eq in
    let at : e ≡ t + suc (length (take_word ds)) = rw black at p.at in
    let word : Holds m1 t (c ∷ take_word ds) = rw black at p.word in
    let word' =
      Holds-same m1 m2 t (c ∷ take_word ds) (λ i l. r.before (t + i) (omega (arith, at, l))) word in
    let all : arguments [] cs ≡ (c ∷ take_word ds) ∷ arguments [] (drop_word (c ∷ ds)) =
      arguments-drop_white cs ∙ ap (arguments []) eq ∙ rw black (arguments-take_word c [] ds) in
    record {
      pointers =
          rw all
            (Holds-end m2 t (c ∷ take_word ds) word' (rw (← at) (r.cleared p.ends)), r.pointers);
      before = λ a l. r.before a (omega (arith, l, at, sk.from)) ∙ sk.before a l;
      cleared = λ h. r.before s (omega (arith, at, sk.from)) ∙ sk.cleared h;
    }

-- A line with a NUL behind it, with more rounds than characters: `parse` returns pointers to its
-- arguments, in order, each with a NUL behind it, and writes nothing in front of the line.
pub parse-Parsed :
    (rounds fuel : ℕ) (m : Memory) (s : ℕ) (cs : List ℕ)
    → Line m s cs
    → length cs < rounds
    → length cs < fuel
    → (argv : List ℕ) × (m' : Memory) × (parse rounds fuel m s ≡ returns (argv, m'))
      × Parsed m s cs argv m'
unfolding parse
parse-Parsed zero fuel m s cs line r f = absurd (omega (arith, r))
parse-Parsed (suc k) fuel m s cs line r f =
    let (t, m1, runs, sk) = skip_white-Skipped fuel m s cs line f in
    elim (cases (drop_white cs)) [
      | inl eq ↦
          let at_end : Line m1 t [] = rw eq at sk.line in
          (
            [],
            m1,
            rw (runs, at_end.0.0) refl,
            record {
              pointers = rw (arguments-drop_white cs, eq) tt;
              before = sk.before;
              cleared = sk.cleared;
            },
          )
      | inr (c, ds, eq) ↦
          let here : Line m1 t (c ∷ ds) = rw eq at sk.line in
          let size : t + suc (length ds) ≡ s + length cs = rw eq at sk.size in
          let (e, runs2, p) =
            skip_word-Passed fuel m1 t (c ∷ ds) here (omega (arith, size, sk.from, f)) in
          let black = drop_white-black cs c ds eq in
          let at : e ≡ t + suc (length (take_word ds)) = rw black at p.at in
          let (argv, m2, runs3, q) =
            parse-Parsed k fuel m1 e (drop_word (c ∷ ds)) p.line
              (omega (arith, p.size, at, size, sk.from, r))
              (omega (arith, p.size, at, size, sk.from, f)) in
          (
            t ∷ argv,
            m2,
            rw (runs, here.0.0, ==_ne c 0 here.1.0, runs2, runs3) refl,
            one-Parsed m m1 m2 s t e c cs ds argv eq sk p q,
          )
    ]
