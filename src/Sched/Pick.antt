-- ===== src/Sched/Pick.antt =====
-- `schedule` chooses in round-robin order: the first runnable process behind the current one in
-- the ring of `proc_list`.
use nkucore.Prelude.{
  ℕ, suc, ◌+◌, ◌≡◌, ◌≢◌, refl, ◌∙◌, inl, inr, false, ◌==◌, if◌then◌else◌, Option, some, none,
  Bool-cases, Option-cases, List, [], ◌∷◌, ◌++◌, length, ◌∉◌, not_has-append_left,
  not_has-append_right, arith, Outcome, returns, ==_refl,
}
use nkucore.Ring.{list_next}
use nkucore.Ring.Chain.{Chain, IsRing, last_from, Chain-split, Chain-end, Distinct-around}
use nkucore.Process.{Kernel, Proc, is_runnable, proc_list}
use nkucore.Sched.{pick}

-- The first runnable process of a sequence.
abbrev pub first_runnable : (ℕ → Proc) → List ℕ → Option ℕ
first_runnable f [] = none
first_runnable f (p ∷ ps) = if is_runnable (f p).state then some p else first_runnable f ps

-- The rounds for a sequence, and `m` more.
unfoldable pub rounds : List ℕ → ℕ → ℕ
rounds [] m = m
rounds (z ∷ zs) m = suc (rounds zs m)

pub rounds_lem : (zs : List ℕ) (m : ℕ) → rounds zs m ≡ length zs + m
unfolding rounds
rounds_lem [] m = omega arith
rounds_lem (z ∷ zs) m = omega (arith, rounds_lem zs m)

-- The walk stops at the first runnable process of a sequence, or passes it.
stop_or : Option ℕ → Outcome ℕ → Outcome ℕ
stop_or none rest = rest
stop_or (some p) rest = returns p

pick-passes :
    (k : Kernel) (last a b next m : ℕ) (zs : List ℕ)
    → Chain k.list_links a zs b
    → last ∉ zs
    → proc_list ∉ zs
    → pick (rounds zs m) last a next k
      ≡ stop_or (first_runnable k.proc zs) (pick m last (last_from a zs) (last_from next zs) k)
unfolding pick list_next rounds stop_or
pick-passes k last a b next m [] c n h = refl
pick-passes k last a b next m (z ∷ zs) (e, p, c) n h =
    let nz : (z == proc_list) ≡ false = ground arith in
    let nl : (z == last) ≡ false = ground arith in
    let nl' : last ∉ zs = ground arith in
    let h' : proc_list ∉ zs = ground arith in
    elim (Bool-cases (is_runnable (k.proc z).state)) [
      | inl r ↦ rw (e, nz, r) refl
      | inr r ↦ rw (e, nz, r, nl) (pick-passes k last z b z m zs c nl' h')
    ]

-- What the walk returns for the sequence of processes it meets: the first runnable one, or the last.
unfoldable pub met : Option ℕ → ℕ → ℕ
met none p = p
met (some p) q = p

-- From the idle process: the whole list.
pub pick_idle :
    (k : Kernel) (m : ℕ) (zs : List ℕ)
    → IsRing k.list_links proc_list zs
    → pick (rounds zs (suc m)) proc_list proc_list 0 k
      ≡ returns (met (first_runnable k.proc zs) (last_from 0 zs))
unfolding pick list_next stop_or met
pick_idle k m zs r =
    pick-passes k proc_list proc_list proc_list 0 (suc m) zs r.chain r.apart r.apart
    ∙ elim (Option-cases (first_runnable k.proc zs)) [
      | inl e ↦ rw (e, Chain-end k.list_links proc_list proc_list zs r.chain) refl
      | inr (p, e) ↦ rw e refl
    ]

pub first_runnable-append :
    (f : ℕ → Proc) (xs ys : List ℕ)
    → first_runnable f (xs ++ ys)
      ≡ (elim (first_runnable f xs) [ none ↦ first_runnable f ys | some p ↦ some p ])
first_runnable-append f [] ys = refl
first_runnable-append f (x ∷ xs) ys = elim (Bool-cases (is_runnable (f x).state)) [
  | inl r ↦ rw r refl
  | inr r ↦ rw r (first_runnable-append f xs ys)
]

last_nonzero : (p q : ℕ) (xs : List ℕ) → p ≢ 0 → 0 ∉ xs → (last_from p xs == 0) ≡ false
last_nonzero p q [] n h = ground arith
last_nonzero p q (x ∷ xs) n h = last_nonzero x q xs (ground arith) (ground arith)

-- The last step, onto the current process itself.
pick_last :
    (k : Kernel) (m cur le next : ℕ)
    → k.list_links.next le ≡ cur
    → (cur == proc_list) ≡ false
    → pick (suc m) cur le next k ≡ returns cur
unfolding pick list_next
pick_last k m cur le next e n = elim (Bool-cases (is_runnable (k.proc cur).state)) [
  | inl r ↦ rw (e, n, r) refl
  | inr r ↦ rw (e, n, r, ==_refl cur) refl
]

-- The step over the head of the list.
pick_over :
    (k : Kernel) (m cur le next : ℕ)
    → k.list_links.next le ≡ proc_list
    → (proc_list == cur) ≡ false
    → pick (suc m) cur le next k ≡ pick m cur proc_list next k
unfolding pick list_next
pick_over k m cur le next e n = rw (e, n) refl

-- From a process of the list.
pub pick_current :
    (k : Kernel) (m cur : ℕ) (xs ys : List ℕ)
    → IsRing k.list_links proc_list (xs ++ cur ∷ ys)
    → pick (rounds ys (suc (rounds xs (suc m)))) cur cur 0 k
      ≡ returns (met (first_runnable k.proc (ys ++ xs)) cur)
unfolding stop_or met
pick_current k m cur xs ys r =
    let (a, b) = Chain-split k.list_links proc_list proc_list cur xs ys r.chain in
    let (nx, ny) = Distinct-around cur xs ys r.distinct in
    let hx : proc_list ∉ xs = not_has-append_left proc_list xs (cur ∷ ys) r.apart in
    let hy = not_has-append_right proc_list xs (cur ∷ ys) r.apart in
    let hy' : proc_list ∉ ys = ground arith in
    let nc : (proc_list == cur) ≡ false = ground arith in
    let nc' : (cur == proc_list) ≡ false = ground arith in
    let first = pick-passes k cur cur proc_list 0 (suc (rounds xs (suc m))) ys b ny hy' in
    let second = pick-passes k cur proc_list cur (last_from 0 ys) (suc m) xs a nx hx in
    first ∙ elim (Option-cases (first_runnable k.proc ys)) [
      | inl e ↦
          rw (e, first_runnable-append k.proc ys xs, e)
            (pick_over k (rounds xs (suc m)) cur (last_from cur ys) (last_from 0 ys)
                (Chain-end k.list_links cur proc_list ys b) nc
              ∙ second
              ∙ elim (Option-cases (first_runnable k.proc xs)) [
                | inl e' ↦ rw e' (
                    pick_last k m cur (last_from proc_list xs) (last_from (last_from 0 ys) xs)
                      (Chain-end k.list_links proc_list cur xs a) nc')
                | inr (p, e') ↦ rw e' refl
              ])
      | inr (p, e) ↦ rw (e, first_runnable-append k.proc ys xs, e) refl
    ]
