-- ===== src/Pid/Fresh.antt =====
-- `get_pid` finds an id that no process has, as long as there is one.
use nkucore.Prelude.{
  ◌-◌, if◌then◌else◌, ℕ, zero, suc, ◌+◌, ◌≤◌, ◌<◌, ◌≡◌, ◌≢◌, refl, ◌⊎◌, inl, inr, List, [], ◌∷◌,
  true, ltb, leb, ◌==◌, ◌&&◌, Bool-cases, has, ◌∉◌, length, arith, returns,
}
use nkucore.Pid.{max_pid, Cursor, Walk, done, repeats, walk, search_from, get_pid}

-- No id of the list lies in `last_pid + 1 .. next_safe - 1`: these need no walk.
abbrev pub Skips : List ℕ → ℕ → ℕ → Type 0
Skips [] lo hi = Unit
Skips (p ∷ ps) lo hi = ((p < lo) ⊎ (hi ≤ p)) × Skips ps lo hi

-- What the static variables promise between two calls.
pub record IsCursor (pids : List ℕ) (c : Cursor) : Type 0 where
  pub skips : Skips pids (c.last_pid + 1) c.next_safe
  pub bound : c.next_safe ≤ max_pid

Skips-narrow :
    (ps : List ℕ) (lo hi lo' hi' : ℕ) → Skips ps lo hi → lo ≤ lo' → hi' ≤ hi → Skips ps lo' hi'
Skips-narrow [] lo hi lo' hi' s l h = tt
Skips-narrow (p ∷ ps) lo hi lo' hi' (inl q, s) l h =
    (inl (omega arith), Skips-narrow ps lo hi lo' hi' s l h)
Skips-narrow (p ∷ ps) lo hi lo' hi' (inr q, s) l h =
    (inr (omega arith), Skips-narrow ps lo hi lo' hi' s l h)

Skips-∉ : (ps : List ℕ) (lo hi : ℕ) → Skips ps lo hi → lo < hi → lo ∉ ps
Skips-∉ [] lo hi s l = refl
Skips-∉ (p ∷ ps) lo hi (q, s) l = ground (arith, Skips-∉ ps lo hi s l)

-- How many rounds from `repeat` can follow `last`, with `free` an id that no process has.
abbrev cost : (free last : ℕ) → ℕ
cost free last = if leb last free then free - last else (max_pid - last) + free

-- What the walk over `qs` from `c` comes to.
abbrev Comes : List ℕ → Cursor → ℕ → Walk → Type 0
Comes qs c free (done d) =
    Skips qs d.last_pid d.next_safe
    × (d.last_pid < d.next_safe)
    × (d.next_safe ≤ c.next_safe)
    × (c.last_pid ≤ d.last_pid)
Comes qs c free (repeats l) = (1 ≤ l) × (l < max_pid) × (cost free l < cost free c.last_pid)

Comes-cons :
    (p free : ℕ) (qs : List ℕ) (c d : Cursor) (w : Walk)
    → Comes qs d free w
    → (p < d.last_pid) ⊎ (d.next_safe ≤ p)
    → c.last_pid ≤ d.last_pid
    → d.next_safe ≤ c.next_safe
    → cost free d.last_pid ≤ cost free c.last_pid
    → Comes (p ∷ qs) c free w
Comes-cons p free qs c d (done e) (s, a, b, g) (inl q) l h k =
    ((inl (omega arith), s), a, omega arith, omega arith)
Comes-cons p free qs c d (done e) (s, a, b, g) (inr q) l h k =
    ((inr (omega arith), s), a, omega arith, omega arith)
Comes-cons p free qs c d (repeats e) (a, b, g) q l h k = (a, b, omega arith)

cost-suc : (free last : ℕ) → last < max_pid → last ≢ free → cost free (last + 1) < cost free last
cost-suc free last l n = ground arith

cost-one :
    (free last : ℕ)
    → last < max_pid
    → max_pid ≤ last + 1
    → 1 ≤ free
    → free < max_pid
    → last ≢ free
    → cost free 1 < cost free last
cost-one free last l m f g n = ground arith

Comes-repeats :
    (p free : ℕ) (qs : List ℕ) (c : Cursor)
    → 1 ≤ free
    → free < max_pid
    → free ∉ (p ∷ qs)
    → c.last_pid < max_pid
    → p ≡ c.last_pid
    → Comes (p ∷ qs) c free (repeats (if leb max_pid (c.last_pid + 1) then 1 else c.last_pid + 1))
Comes-repeats p free qs c f g n l e =
    let d : c.last_pid ≢ free = ground arith in
    elim (Bool-cases (leb max_pid (c.last_pid + 1))) [
      | inl t ↦ rw t (omega arith, omega arith, cost-one free c.last_pid l (ground arith) f g d)
      | inr t ↦ rw t (omega arith, ground arith, cost-suc free c.last_pid l d)
    ]

walk-Comes :
    (qs : List ℕ) (c : Cursor) (free : ℕ)
    → 1 ≤ free
    → free < max_pid
    → free ∉ qs
    → c.last_pid < c.next_safe
    → c.next_safe ≤ max_pid
    → Comes qs c free (walk qs c)
unfolding walk
walk-Comes [] c free f g n l m = (tt, l, omega arith, omega arith)
walk-Comes (p ∷ qs) c free f g n l m = elim (Bool-cases (p == c.last_pid)) [
  | inl e ↦ elim (Bool-cases (leb c.next_safe (c.last_pid + 1))) [
    | inl s ↦ rw (e, s) (Comes-repeats p free qs c f g n (omega arith) (ground arith))
    | inr s ↦
        rw (e, s)
          (Comes-cons p free qs c (record c { last_pid = c.last_pid + 1 }) _
            (walk-Comes qs (record c { last_pid = c.last_pid + 1 }) free f g (ground arith)
              (ground arith) m)
            (inl (ground arith)) (omega arith) (omega arith)
            (ground (arith, cost-suc free c.last_pid)))
  ]
  | inr e ↦ elim (Bool-cases (ltb c.last_pid p && ltb p c.next_safe)) [
    | inl s ↦
        rw (e, s)
          (Comes-cons p free qs c (record c { next_safe = p }) _
            (walk-Comes qs (record c { next_safe = p }) free f g (ground arith) (ground arith)
              (ground arith))
            (inr (omega arith)) (omega arith) (ground arith) (omega arith))
    | inr s ↦
        rw (e, s)
          (Comes-cons p free qs c c _ (walk-Comes qs c free f g (ground arith) l m) (ground arith)
            (omega arith) (omega arith) (omega arith))
  ]
]

-- What `get_pid` leaves behind: the new id is in range and fresh, and the static variables keep
-- their promise for the list with it.
pub record IsFresh (pids : List ℕ) (c : Cursor) : Type 0 where
  pub low : 1 ≤ c.last_pid
  pub high : c.last_pid < max_pid
  pub fresh : c.last_pid ∉ pids
  pub kept : IsCursor (c.last_pid ∷ pids) c

IsFresh-Skips :
    (pids : List ℕ) (c : Cursor)
    → 1 ≤ c.last_pid
    → c.last_pid < c.next_safe
    → c.next_safe ≤ max_pid
    → Skips pids c.last_pid c.next_safe
    → IsFresh pids c
IsFresh-Skips pids c a b m s = record {
  low = a;
  high = omega arith;
  fresh = Skips-∉ pids c.last_pid c.next_safe s b;
  kept = record {
    skips = (
      inl (omega arith),
      Skips-narrow pids c.last_pid c.next_safe (c.last_pid + 1) c.next_safe s (omega arith)
          (omega arith),
    );
    bound = m;
  };
}

abbrev from : ℕ → Cursor
from last = record { next_safe = max_pid; last_pid = last }

search_from-IsFresh :
    (fuel : ℕ) (pids : List ℕ) (last free : ℕ)
    → 1 ≤ free
    → free < max_pid
    → free ∉ pids
    → 1 ≤ last
    → last < max_pid
    → cost free last < fuel
    → (c : Cursor) × (search_from fuel pids last ≡ returns c) × IsFresh pids c
unfolding search_from
search_from-IsFresh zero pids last free f g n a l k = absurd (omega arith)
search_from-IsFresh (suc fuel) pids last free f g n a l k =
    go (walk pids (from last)) (walk-Comes pids (from last) free f g n l (omega arith))
      (λ l' b h q. search_from-IsFresh fuel pids l' free f g n b h q)
  where
    go :
        (w : Walk)
        → Comes pids (from last) free w
        → ((l' : ℕ)
            → 1 ≤ l'
            → l' < max_pid
            → cost free l' < fuel
            → (c : Cursor) × (search_from fuel pids l' ≡ returns c) × IsFresh pids c)
        → (c : Cursor) × ((elim w [ done c ↦ returns c | repeats l' ↦ search_from fuel pids l' ])
            ≡ returns c)
          × IsFresh pids c
    go (done c) (s, b, h, q) ih = (c, refl, IsFresh-Skips pids c (omega arith) b h s)
    go (repeats l') (b, h, q) ih = ih l' b h (omega arith)

-- An id that no process has exists while there are fewer than MAX_PID - 1 processes.
remove_all : ℕ → List ℕ → List ℕ
remove_all a [] = []
remove_all a (x ∷ xs) = if a == x then remove_all a xs else x ∷ remove_all a xs

length-remove_all :
    (a : ℕ) (xs : List ℕ)
    → (length (remove_all a xs) ≤ length xs)
      × (has a xs ≡ true → length (remove_all a xs) < length xs)
unfolding remove_all
length-remove_all a [] = (omega arith, λ h. ground arith)
length-remove_all a (x ∷ xs) =
    let (l, s) = length-remove_all a xs in
    elim (Bool-cases (a == x)) [
      | inl e ↦ rw e (omega arith, λ h. omega arith)
      | inr e ↦ rw e (omega arith, λ h. let q = s h in omega arith)
    ]

has-remove_all : (a b : ℕ) (xs : List ℕ) → b ≢ a → b ∉ remove_all a xs → b ∉ xs
unfolding remove_all
has-remove_all a b [] n h = refl
has-remove_all a b (x ∷ xs) n h = ground (arith, has-remove_all a b xs n)

free_id : (n : ℕ) (xs : List ℕ) → length xs < n → (f : ℕ) × (f < n) × (f ∉ xs)
free_id zero xs l = absurd (omega arith)
free_id (suc n) xs l = elim (Bool-cases (has n xs)) [
  | inl h ↦
      let q = (length-remove_all n xs).1 h in
      let (f, a, b) = free_id n (remove_all n xs) (omega arith) in
      (f, omega arith, has-remove_all n f xs (omega arith) b)
  | inr h ↦ (n, omega arith, h)
]

-- With fewer than MAX_PID - 1 processes and more than 2 * MAX_PID rounds, `get_pid` returns an id
-- between 1 and MAX_PID - 1 that no process of the list has, and the static variables keep their
-- promise when a process with that id joins the list: the ids up to `next_safe` need no walk.
pub get_pid-IsFresh :
    (fuel : ℕ) (pids : List ℕ) (c : Cursor)
    → IsCursor pids c
    → length pids + 1 < max_pid
    → max_pid + max_pid < fuel
    → (d : Cursor) × (get_pid fuel pids c ≡ returns d) × IsFresh pids d
unfolding get_pid
get_pid-IsFresh fuel pids c i l k =
    let (free, g, n) = free_id max_pid (0 ∷ pids) (omega arith) in
    let f : 1 ≤ free = ground arith in
    let n' : free ∉ pids = ground arith in
    elim (Bool-cases (leb max_pid (c.last_pid + 1))) [
      | inl a ↦
          rw a
            (search_from-IsFresh fuel pids 1 free f g n' (omega arith) (omega arith) (ground arith))
      | inr a ↦ elim (Bool-cases (leb c.next_safe (c.last_pid + 1))) [
        | inl b ↦
            rw (a, b)
              (search_from-IsFresh fuel pids (c.last_pid + 1) free f g n' (omega arith)
                (ground arith) (ground arith))
        | inr b ↦
            rw (a, b)
              (
                record c { last_pid = c.last_pid + 1 },
                refl,
                IsFresh-Skips pids (record c { last_pid = c.last_pid + 1 }) (omega arith)
                    (ground arith) i.bound i.skips,
              )
      ]
    ]
