-- ===== src/Lifecycle/Wait.antt =====
-- `do_wait` for any child: it reaps the youngest zombie, sleeps, or fails.
use nkucore.Prelude.{
  ℕ, zero, suc, ◌<◌, ◌≡◌, ◌≢◌, refl, ◌∙◌, ap, inl, inr, Bool, true, false, if◌then◌else◌, ==_ne,
  Bool-cases, List, [], ◌∷◌, ◌++◌, length, All, arith, update_self, Outcome, returns, ◌>>=◌, pos,
}
use nkucore.Ring.Chain.{first_or}
use nkucore.Process.{Kernel, Proc, is_zombie, sleeping, wt_child, unhash_proc, remove_links}
use nkucore.Process.Family.{Siblings, IsFamily}
use nkucore.Process.Unlink.{remove_links-IsFamily, remove_links-kstack}
use nkucore.Lifecycle.{
  Machine, put_kstack, kfree, search_children, reap, wait_found, do_wait, reaped, fails, sleeps,
  e_bad_proc,
}

-- The youngest zombie of a list, 0 if there is none.
abbrev first_zombie : (ℕ → Proc) → List ℕ → ℕ
first_zombie f [] = 0
first_zombie f (c ∷ cs) = if is_zombie (f c).state then c else first_zombie f cs

abbrev any_child : List ℕ → Bool → Bool
any_child [] b = b
any_child (c ∷ cs) b = true

abbrev pub NoZombie : (ℕ → Proc) → List ℕ → Type 0
NoZombie f cs = All (λ c. is_zombie (f c).state ≡ false) cs

search_children_lem :
    (fuel parent y : ℕ) (b : Bool) (k : Kernel) (cs : List ℕ)
    → Siblings k.proc parent y cs
    → length cs < fuel
    → search_children fuel (first_or cs 0) b k ≡ returns (any_child cs b, first_zombie k.proc cs)
unfolding search_children
search_children_lem zero parent y b k cs s f = absurd (omega arith)
search_children_lem (suc fuel) parent y b k [] s f = refl
search_children_lem (suc fuel) parent y b k (c ∷ cs) (n, p, v, o, s) f =
    let ih = search_children_lem fuel parent c true k cs s (omega arith) in
    elim (Bool-cases (is_zombie (k.proc c).state)) [
      | inl z ↦ rw (==_ne c 0 n, z) refl
      | inr z ↦ rw (==_ne c 0 n, z, o, ih) (rest cs)
    ]
  where
    rest :
        (cs : List ℕ)
        → ◌≡◌ {A = Outcome (Bool × ℕ)}
            (returns (any_child cs true, first_zombie k.proc cs))
            (returns (true, first_zombie k.proc cs))
    rest [] = refl
    rest (d ∷ ds) = refl

first_zombie-NoZombie : (f : ℕ → Proc) (cs : List ℕ) → NoZombie f cs → first_zombie f cs ≡ 0
first_zombie-NoZombie f [] n = refl
first_zombie-NoZombie f (c ∷ cs) (z, n) = rw z (first_zombie-NoZombie f cs n)

first_zombie-append :
    (f : ℕ → Proc) (xs ys : List ℕ) (p : ℕ)
    → NoZombie f xs
    → is_zombie (f p).state ≡ true
    → first_zombie f (xs ++ p ∷ ys) ≡ p
first_zombie-append f [] ys p n z = rw z refl
first_zombie-append f (x ∷ xs) ys p (a, n) z = rw a (first_zombie-append f xs ys p n z)

do_wait-wait_found :
    (fuel : ℕ) (cs : List ℕ) (m : Machine)
    → IsFamily m.kernel.proc m.kernel.current cs
    → length cs < fuel
    → do_wait fuel true (pos 0) m
      ≡ wait_found (any_child cs false) (first_zombie m.kernel.proc cs) m
unfolding do_wait
do_wait-wait_found fuel cs m r f =
    ap (λ c. search_children fuel c false m.kernel >>= (λ s. wait_found s.0 s.1 m)) r.first
    ∙ ap (λ x. x >>= (λ s. wait_found s.0 s.1 m))
        (search_children_lem fuel m.kernel.current 0 false m.kernel cs r.siblings f)

-- With no zombie among its children, a process that waits sleeps in wait for a child, or is told
-- with -E_BAD_PROC that it has none, its state and what it waits for as before.
pub do_wait-NoZombie :
    (fuel : ℕ) (cs : List ℕ) (m : Machine)
    → IsFamily m.kernel.proc m.kernel.current cs
    → NoZombie m.kernel.proc cs
    → length cs < fuel
    → (m' : Machine) × (do_wait fuel true (pos 0) m
        ≡ returns ((if any_child cs false then sleeps else fails e_bad_proc), m'))
      × ((m'.kernel.proc m.kernel.current).state
          ≡ (if any_child cs false then sleeping else (m.kernel.proc m.kernel.current).state))
      × ((m'.kernel.proc m.kernel.current).wait_state
          ≡ (if any_child cs false then wt_child else (m.kernel.proc m.kernel.current).wait_state))
unfolding wait_found
do_wait-NoZombie fuel [] m r n f = (m, do_wait-wait_found fuel [] m r f, refl, refl)
do_wait-NoZombie fuel (c ∷ cs) m r n f =
    let self =
      update_self m.kernel.proc m.kernel.current
        (record (m.kernel.proc m.kernel.current) { state = sleeping; wait_state = wt_child }) in
    (
      _,
      do_wait-wait_found fuel (c ∷ cs) m r f
          ∙ ap (λ p. wait_found true p m) (first_zombie-NoZombie m.kernel.proc (c ∷ cs) n),
      ap (λ q. q.state) self,
      ap (λ q. q.wait_state) self,
    )

-- The machine after a reap.
abbrev buried : ℕ → Machine → Machine
buried p m = record m {
  kernel = remove_links p (unhash_proc p m.kernel);
  calls =
      m.calls
      ++ put_kstack ((remove_links p (unhash_proc p m.kernel)).proc p).kstack ∷ kfree p ∷ [];
}

reap-IsFamily :
    (p : ℕ) (xs ys : List ℕ) (m : Machine)
    → IsFamily m.kernel.proc m.kernel.current (xs ++ p ∷ ys)
    → p ≢ m.kernel.idleproc
    → p ≢ m.kernel.initproc
    → (m' : Machine) × (reap p m ≡ returns ((m.kernel.proc p).exit_code, m'))
      × IsFamily m'.kernel.proc m.kernel.current (xs ++ ys)
      × (m'.calls ≡ m.calls ++ put_kstack (m.kernel.proc p).kstack ∷ kfree p ∷ [])
unfolding reap unhash_proc
reap-IsFamily p xs ys m r a b = (
  buried p m,
  rw (==_ne p m.kernel.idleproc a, ==_ne p m.kernel.initproc b) refl,
  remove_links-IsFamily (unhash_proc p m.kernel) m.kernel.current p xs ys r,
  ap (λ s. m.calls ++ put_kstack s ∷ kfree p ∷ [])
      (remove_links-kstack p (unhash_proc p m.kernel) p),
)

nonzero :
    (f : ℕ → Proc) (parent y p : ℕ) (xs ys : List ℕ) → Siblings f parent y (xs ++ p ∷ ys) → p ≢ 0
nonzero f parent y p [] ys s = s.0
nonzero f parent y p (x ∷ xs) ys (m, a, v, o, s) = nonzero f parent x p xs ys s

-- The youngest zombie among the children, neither the idle nor the init process, is reaped: its
-- exit code is what the wait hands out, the other children stay linked in their order, and its
-- kernel stack and then its structure are freed.
pub do_wait-IsFamily :
    (fuel p : ℕ) (xs ys : List ℕ) (m : Machine)
    → IsFamily m.kernel.proc m.kernel.current (xs ++ p ∷ ys)
    → NoZombie m.kernel.proc xs
    → is_zombie (m.kernel.proc p).state ≡ true
    → p ≢ m.kernel.idleproc
    → p ≢ m.kernel.initproc
    → length (xs ++ p ∷ ys) < fuel
    → (m' : Machine) × (do_wait fuel true (pos 0) m
        ≡ returns (reaped (m.kernel.proc p).exit_code, m'))
      × IsFamily m'.kernel.proc m.kernel.current (xs ++ ys)
      × (m'.calls ≡ m.calls ++ put_kstack (m.kernel.proc p).kstack ∷ kfree p ∷ [])
unfolding wait_found
do_wait-IsFamily fuel p xs ys m r n z a b f =
    let (m', e, g, c) = reap-IsFamily p xs ys m r a b in
    let h = nonzero m.kernel.proc m.kernel.current 0 p xs ys r.siblings in
    (
      m',
      do_wait-wait_found fuel (xs ++ p ∷ ys) m r f
          ∙ ap (λ q. wait_found (any_child (xs ++ p ∷ ys) false) q m)
              (first_zombie-append m.kernel.proc xs ys p n z)
          ∙ rw (==_ne p 0 h, e) refl,
      g,
      c,
    )
