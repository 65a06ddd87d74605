-- ===== src/Sched/Turn.antt =====
-- What `schedule` does to the kernel: whose turn it is, and what changes.
use nkucore.Prelude.{
  ℕ, suc, ◌+◌, ◌-◌, ◌<◌, ◌≡◌, ◌≢◌, refl, ◌∙◌, ap, inl, inr, true, false, ◌||◌, not, ◌==◌,
  if◌then◌else◌, Option, some, none, Bool-cases, Option-cases, List, [], ◌∷◌, ◌++◌, length,
  length-append, ◌∉◌, update-same, update_self, not_has-append_left, not_has-append_right, arith,
  returns,
}
use nkucore.Ring.Chain.{IsRing, last_from}
use nkucore.Process.{Kernel, Proc, is_runnable, set_proc, proc_list}
use nkucore.Sched.{pick, proc_run, schedule}
use nkucore.Sched.Pick.{
  first_runnable, first_runnable-append, rounds, rounds_lem, met, pick_idle, pick_current,
}

-- The processes in the order of their turns: those behind the current one in the list, round to
-- itself, which comes last; all of the list if the idle process runs, which is in no list.
pub data Turns (k : Kernel) : List ℕ → Type 0 where
  idles : (zs : List ℕ) → k.current ≡ k.idleproc → IsRing k.list_links proc_list zs → Turns k zs
  listed :
      (xs ys : List ℕ)
      → k.current ≢ k.idleproc
      → IsRing k.list_links proc_list (xs ++ k.current ∷ ys)
      → Turns k (ys ++ xs ++ k.current ∷ [])

-- The first runnable process, or the idle one.
abbrev pub choice : Option ℕ → ℕ → ℕ
choice none idle = idle
choice (some p) idle = p

abbrev chosen : (ℕ → Proc) → (idle found : ℕ) → ℕ
chosen f idle found = if found == 0 || not (is_runnable (f found).state) then idle else found

first_runnable-runs :
    (f : ℕ → Proc) (zs : List ℕ) (p : ℕ)
    → 0 ∉ zs
    → first_runnable f zs ≡ some p
    → ((p == 0) ≡ false) × (is_runnable (f p).state ≡ true)
first_runnable-runs f [] p n e = ground arith
first_runnable-runs f (z ∷ zs) p n e = elim (Bool-cases (is_runnable (f z).state)) [
  | inl r ↦ let q : z ≡ p = ground arith in rw (← q) (ground arith, r)
  | inr r ↦ first_runnable-runs f zs p (ground arith) (ground arith)
]

chosen_found :
    (f : ℕ → Proc) (idle p : ℕ)
    → (p == 0) ≡ false
    → is_runnable (f p).state ≡ true
    → chosen f idle p ≡ p
chosen_found f idle p a b = rw (a, b) refl

chosen-none :
    (f : ℕ → Proc) (idle a : ℕ) (zs : List ℕ)
    → first_runnable f zs ≡ none
    → chosen f idle a ≡ idle
    → chosen f idle (last_from a zs) ≡ idle
chosen-none f idle a [] e h = h
chosen-none f idle a (z ∷ zs) e h = elim (Bool-cases (is_runnable (f z).state)) [
  | inl r ↦ ground arith
  | inr r ↦
      chosen-none f idle z zs (ground arith)
        (elim (Bool-cases (z == 0)) [ inl q ↦ rw q refl | inr q ↦ rw (q, r) refl ])
]

chosen-met :
    (f : ℕ → Proc) (idle p : ℕ) (zs : List ℕ)
    → 0 ∉ zs
    → (first_runnable f zs ≡ none → chosen f idle p ≡ choice none idle)
    → chosen f idle (met (first_runnable f zs) p) ≡ choice (first_runnable f zs) idle
unfolding met
chosen-met f idle p zs n h = elim (Option-cases (first_runnable f zs)) [
  | inl e ↦ rw e (h e)
  | inr (q, e) ↦ let (a, b) = first_runnable-runs f zs q n e in rw e (chosen_found f idle q a b)
]

chosen_current :
    (f : ℕ → Proc) (idle c : ℕ) (ys xs : List ℕ)
    → 0 ∉ (ys ++ xs)
    → (c == 0) ≡ false
    → chosen f idle (met (first_runnable f (ys ++ xs)) c)
      ≡ choice (first_runnable f (ys ++ xs ++ c ∷ [])) idle
unfolding met
chosen_current f idle c ys xs n h = elim (Option-cases (first_runnable f (ys ++ xs))) [
  | inl e ↦ elim (Bool-cases (is_runnable (f c).state)) [
    | inl r ↦ rw (first_runnable-append f (ys ++ xs) (c ∷ []), e, h, r) refl
    | inr r ↦ rw (first_runnable-append f (ys ++ xs) (c ∷ []), e, h, r) refl
  ]
  | inr (q, e) ↦
      let (a, b) = first_runnable-runs f (ys ++ xs) q n e in
      rw (first_runnable-append f (ys ++ xs) (c ∷ []), e) (chosen_found f idle q a b)
]

abbrev last : Kernel → ℕ
last k = if k.current == k.idleproc then proc_list else k.current

not_has-swap : (a : ℕ) (xs ys : List ℕ) → a ∉ xs → a ∉ ys → a ∉ (ys ++ xs)
not_has-swap a xs [] p q = p
not_has-swap a xs (y ∷ ys) p q = ground (arith, not_has-swap a xs ys)

rounds_for :
    (ys xs : List ℕ) (fuel c : ℕ)
    → length (ys ++ xs ++ c ∷ []) < fuel
    → fuel ≡ rounds ys (suc (rounds xs (suc (fuel - length xs - length ys - 2))))
rounds_for ys xs fuel c l =
    let m = fuel - length xs - length ys - 2 in
    let a = length-append (ys ++ xs) (c ∷ []) in
    let b = length-append ys xs in
    omega (arith, rounds_lem ys (suc (rounds xs (suc m))), rounds_lem xs (suc m))

pick-chosen :
    (k : Kernel) (cs : List ℕ) (fuel : ℕ)
    → Turns k cs
    → length cs < fuel
    → (found : ℕ) × (pick fuel (last k) (last k) 0 k ≡ returns found)
      × (chosen k.proc k.idleproc found ≡ choice (first_runnable k.proc cs) k.idleproc)
pick-chosen k _ fuel (idles zs i r) l =
    let f : fuel ≡ rounds zs (suc (fuel - length zs - 1)) =
      omega (arith, rounds_lem zs (suc (fuel - length zs - 1))) in
    let b : (k.current == k.idleproc) ≡ true = ground arith in
    (
      met (first_runnable k.proc zs) (last_from 0 zs),
      rw (b, f) (pick_idle k (fuel - length zs - 1) zs r),
      chosen-met k.proc k.idleproc (last_from 0 zs) zs r.apart
          (λ e. chosen-none k.proc k.idleproc 0 zs e refl),
    )
pick-chosen k _ fuel (listed xs ys i r) l =
    let b : (k.current == k.idleproc) ≡ false = ground arith in
    let m = fuel - length xs - length ys - 2 in
    let f : fuel ≡ rounds ys (suc (rounds xs (suc m))) = rounds_for ys xs fuel k.current l in
    let z : proc_list ∉ (k.current ∷ ys) =
      not_has-append_right proc_list xs (k.current ∷ ys) r.apart in
    (
      met (first_runnable k.proc (ys ++ xs)) k.current,
      rw (b, f) (pick_current k m k.current xs ys r),
      chosen_current k.proc k.idleproc k.current ys xs
          (not_has-swap 0 xs ys (not_has-append_left proc_list xs (k.current ∷ ys) r.apart)
            (ground arith))
          (ground arith),
    )

-- Clearing `need_resched` changes no process's state.
abbrev resched : Kernel → Kernel
resched k = set_proc k.current (record (k.proc k.current) { need_resched = false }) k

Turns-resched : (k : Kernel) (cs : List ℕ) → Turns k cs → Turns (resched k) cs
Turns-resched k _ (idles zs i r) = idles zs i r
Turns-resched k _ (listed xs ys i r) = listed xs ys i r

state-resched : (k : Kernel) (p : ℕ) → ((resched k).proc p).state ≡ (k.proc p).state
state-resched k p = elim (Bool-cases (p == k.current)) [
  | inl e ↦ let q : p ≡ k.current = ground arith in rw (e, q) refl
  | inr e ↦ rw e refl
]

first_runnable-resched :
    (k : Kernel) (zs : List ℕ) → first_runnable (resched k).proc zs ≡ first_runnable k.proc zs
first_runnable-resched k [] = refl
first_runnable-resched k (z ∷ zs) = rw (state-resched k z, first_runnable-resched k zs) refl

proc_run-same :
    (p q : ℕ) (k : Kernel)
    → ((proc_run p k).proc q ≡ k.proc q)
      × ((proc_run p k).current ≡ p)
      × ((proc_run p k).list_links ≡ k.list_links)
unfolding proc_run
proc_run-same p q k = elim (Bool-cases (p == k.current)) [
  | inl e ↦ let h : k.current ≡ p = ground arith in rw e (refl, h, refl)
  | inr e ↦ rw e (refl, refl, refl)
]

abbrev counted : ℕ → Kernel → Kernel
counted n k = set_proc n (record (k.proc n) { runs = (k.proc n).runs + 1 }) k

counted_runs :
    (n p : ℕ) (k : Kernel)
    → ((counted n k).proc p).runs ≡ (if p == n then (k.proc p).runs + 1 else (k.proc p).runs)
counted_runs n p k = elim (Bool-cases (p == n)) [
  | inl h ↦ let i : p ≡ n = ground arith in rw (h, i) refl
  | inr h ↦ rw h refl
]

-- With more rounds than there are turns, `schedule` makes the first runnable process in the order
-- of turns the current one, or the idle process where none is runnable; it counts a run for that
-- process only, leaves every state and the list as they are, and clears `need_resched` of the
-- process that ran.
pub schedule-Turns :
    (k : Kernel) (cs : List ℕ) (fuel : ℕ)
    → Turns k cs
    → length cs < fuel
    → (k' : Kernel) × (schedule fuel k ≡ returns k')
      × (k'.current ≡ choice (first_runnable k.proc cs) k.idleproc)
      × ((p : ℕ) → (k'.proc p).state ≡ (k.proc p).state)
      × ((p : ℕ)
          → (k'.proc p).runs ≡ (
              if p == choice (first_runnable k.proc cs) k.idleproc
              then (k.proc p).runs + 1
              else (k.proc p).runs))
      × ((k'.proc k.current).need_resched ≡ false)
      × (k'.list_links ≡ k.list_links)
unfolding schedule
schedule-Turns k cs fuel t l =
    let (found, e, c) = pick-chosen (resched k) cs fuel (Turns-resched k cs t) l in
    let c' : chosen (resched k).proc k.idleproc found
        ≡ choice (first_runnable k.proc cs) k.idleproc =
      c ∙ ap (λ o. choice o k.idleproc) (first_runnable-resched k cs) in
    let n = choice (first_runnable k.proc cs) k.idleproc in
    (
      proc_run n (counted n (resched k)),
      rw (e, c') refl,
      (proc_run-same n 0 (counted n (resched k))).1,
      λ p.
          ap (λ r. r.state) (proc_run-same n p (counted n (resched k))).0
          ∙ update-same (λ r. r.state) (resched k).proc n _ refl p
          ∙ state-resched k p,
      λ p.
          ap (λ r. r.runs) (proc_run-same n p (counted n (resched k))).0
          ∙ counted_runs n p (resched k)
          ∙ rw
              (update-same (λ r. r.runs) k.proc k.current
                (record (k.proc k.current) { need_resched = false }) refl p)
              refl,
      ap (λ r. r.need_resched) (proc_run-same n k.current (counted n (resched k))).0
          ∙ update-same (λ r. r.need_resched) (resched k).proc n _ refl k.current
          ∙ ap (λ r. r.need_resched) (update_self k.proc k.current _),
      (proc_run-same n 0 (counted n (resched k))).2,
    )
