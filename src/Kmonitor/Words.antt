-- ===== src/Kmonitor/Words.antt =====
-- kern/debug/kmonitor.c, parse: the arguments of a line, and the two inner loops.
use nkucore.Prelude.{
  ℕ, zero, suc, ◌+◌, ◌≤◌, ◌<◌, ◌≡◌, ◌≢◌, ◌∙◌, refl, true, List, [], ◌∷◌, ◌++◌, length, ==_ne,
  if◌then◌else◌, arith, inl, inr, Bool-cases, update, update_self, update_ne, returns,
}
use nkucore.CString.{Memory}
use nkucore.Kmonitor.{is_white, skip_white, skip_word}
use nkucore.Strtol.Digits.{Holds}

abbrev pub drop_white : List ℕ → List ℕ
drop_white [] = []
drop_white (c ∷ cs) = if is_white c then drop_white cs else c ∷ cs

abbrev pub take_word : List ℕ → List ℕ
take_word [] = []
take_word (c ∷ cs) = if is_white c then [] else c ∷ take_word cs

abbrev pub drop_word : List ℕ → List ℕ
drop_word [] = []
drop_word (c ∷ cs) = if is_white c then c ∷ cs else drop_word cs

-- No NUL.
abbrev pub Text : List ℕ → Type 0
Text [] = Unit
Text (c ∷ cs) = (c ≢ 0) × Text cs

-- A line from `s` on.
abbrev pub Line : Memory → ℕ → List ℕ → Type 0
Line m s cs = Holds m s (cs ++ 0 ∷ []) × Text cs

-- The line is at its end or at white space.
abbrev pub Ends : List ℕ → Type 0
Ends [] = Unit
Ends (c ∷ cs) = is_white c ≡ true

pub Holds-same :
    (m m' : Memory) (s : ℕ) (cs : List ℕ)
    → ((i : ℕ) → i < length cs → m' (s + i) ≡ m (s + i))
    → Holds m s cs
    → Holds m' s cs
Holds-same m m' s [] same h = tt
Holds-same m m' s (c ∷ cs) same h =
    let z : s + 0 ≡ s = omega arith in
    let here : m' s ≡ m s = rw z at (same 0 (omega arith)) in
    (
      here ∙ h.0,
      Holds-same m m' (s + 1) cs
          (λ i l.
            let e : s + suc i ≡ s + 1 + i = omega arith in
            rw e at (same (suc i) (omega (arith, l))))
          h.1,
    )

-- The white space in front of a line is cleared.
pub record Skipped (m : Memory) (s : ℕ) (cs : List ℕ) (t : ℕ) (m' : Memory) : Type 0 where
  pub from : s ≤ t
  pub size : t + length (drop_white cs) ≡ s + length cs
  pub line : Line m' t (drop_white cs)
  pub before : (a : ℕ) → a < s → m' a ≡ m a
  pub cleared : Ends cs → m' s ≡ 0

pub skip_white-Skipped :
    (fuel : ℕ) (m : Memory) (s : ℕ) (cs : List ℕ)
    → Line m s cs
    → length cs < fuel
    → (t : ℕ) × (m' : Memory) × (skip_white fuel m s ≡ returns (t, m')) × Skipped m s cs t m'
unfolding skip_white
skip_white-Skipped zero m s cs line f = absurd (omega (arith, f))
skip_white-Skipped (suc k) m s [] (h, t) f = (
  s,
  m,
  rw h.0 refl,
  record {
    from = omega arith;
    size = refl;
    line = (h, t);
    before = λ a l. refl;
    cleared = λ e. h.0;
  },
)
skip_white-Skipped (suc k) m s (c ∷ cs) (h, t) f = elim (Bool-cases (is_white c)) [
  | inl white ↦
      let m1 = update m s 0 in
      let h1 =
        Holds-same m m1 (s + 1) (cs ++ 0 ∷ [])
          (λ i l. update_ne m s (s + 1 + i) 0 (λ e. omega (arith, e))) h.1 in
      let (t', m', runs, r) = skip_white-Skipped k m1 (s + 1) cs (h1, t.1) (omega (arith, f)) in
      (
        t',
        m',
        rw (h.0, ==_ne c 0 t.0, white) runs,
        record {
          from = omega (arith, r.from);
          size = rw white (omega (arith, r.size));
          line = rw white r.line;
          before =
              λ a l. r.before a (omega (arith, l)) ∙ update_ne m s a 0 (λ e. omega (arith, e, l));
          cleared = λ e. r.before s (omega arith) ∙ update_self m s 0;
        },
      )
  | inr black ↦ (
    s,
    m,
    rw (h.0, ==_ne c 0 t.0, black) refl,
    record {
      from = omega arith;
      size = rw black refl;
      line = rw black (h, t);
      before = λ a l. refl;
      cleared = λ e. ground (arith, e, black);
    },
  )
]

-- The loop over an argument stops behind it.
pub record Passed (m : Memory) (s : ℕ) (cs : List ℕ) (t : ℕ) : Type 0 where
  pub at : t ≡ s + length (take_word cs)
  pub size : t + length (drop_word cs) ≡ s + length cs
  pub word : Holds m s (take_word cs)
  pub line : Line m t (drop_word cs)
  pub ends : Ends (drop_word cs)

pub skip_word-Passed :
    (fuel : ℕ) (m : Memory) (s : ℕ) (cs : List ℕ)
    → Line m s cs
    → length cs < fuel
    → (t : ℕ) × (skip_word fuel m s ≡ returns t) × Passed m s cs t
unfolding skip_word
skip_word-Passed zero m s cs line f = absurd (omega (arith, f))
skip_word-Passed (suc k) m s [] (h, t) f =
    (s, rw h.0 refl, record { at = omega arith; size = refl; word = tt; line = (h, t); ends = tt })
skip_word-Passed (suc k) m s (c ∷ cs) (h, t) f = elim (Bool-cases (is_white c)) [
  | inl white ↦ (
    s,
    rw (h.0, ==_ne c 0 t.0, white) refl,
    record {
      at = rw white (omega arith);
      size = rw white refl;
      word = rw white tt;
      line = rw white (h, t);
      ends = rw white white;
    },
  )
  | inr black ↦
      let (t', runs, r) = skip_word-Passed k m (s + 1) cs (h.1, t.1) (omega (arith, f)) in
      (
        t',
        rw (h.0, ==_ne c 0 t.0, black) runs,
        record {
          at = rw black (omega (arith, r.at));
          size = rw black (omega (arith, r.size));
          word = rw black (h.0, r.word);
          line = rw black r.line;
          ends = rw black r.ends;
        },
      )
]
