-- ===== src/Sched/Kill.antt =====
-- `do_kill`: what a kill that succeeds leaves behind.
use Prim.Native.Nat.{bit_or}
use nkucore.Prelude.{
  ℕ, zero, suc, ◌≡◌, refl, ◌∙◌, ap, inl, inr, true, false, if◌then◌else◌, Bool-cases, ℤ, pos,
  negsuc, arith, update-same, update_self, has_flag, has_flag-bit_or, returns, ==_ne, ◌≢◌,
}
use nkucore.Ring.{list_next}
use nkucore.Process.{
  ProcState, uninit, sleeping, runnable, zombie, Kernel, is_zombie, is_runnable, set_proc,
  find_proc, search_hash, hash2proc, pid_hashfn, pf_exiting, wt_interrupted,
}
use nkucore.Sched.{wakeup_proc, mark_killed, do_kill, e_killed}

-- The search reads the ids and the links only.
module _ (k k' : Kernel) (ids : (q : ℕ) → (k'.proc q).pid ≡ (k.proc q).pid)
    (links : k'.hash_links ≡ k.hash_links) where
  search_hash-same :
      (fuel list le pid : ℕ) → search_hash fuel list le pid k' ≡ search_hash fuel list le pid k
  unfolding search_hash list_next
  search_hash-same zero list le pid = refl
  search_hash-same (suc n) list le pid =
      rw
        (
          search_hash-same n list (k'.hash_links.next le) pid,
          ids (hash2proc (k'.hash_links.next le)),
          links,
        )
        refl

  find_proc-same : (fuel : ℕ) (pid : ℤ) → find_proc fuel pid k' ≡ find_proc fuel pid k
  unfolding find_proc
  find_proc-same fuel (negsuc n) = refl
  find_proc-same fuel (pos n) = rw (search_hash-same fuel (pid_hashfn n) (pid_hashfn n) n) refl

abbrev marked : ℕ → Kernel → Kernel
marked p k = set_proc p (record (k.proc p) { flags = bit_or (k.proc p).flags pf_exiting }) k

-- A woken process keeps its id and its flags, and is runnable.
record Woken (p : ℕ) (k k' : Kernel) : Type 0 where
  ids : (q : ℕ) → (k'.proc q).pid ≡ (k.proc q).pid
  links : k'.hash_links ≡ k.hash_links
  flags : (k'.proc p).flags ≡ (k.proc p).flags
  state : (k'.proc p).state ≡ runnable

runnable-is : (s : ProcState) → is_runnable s ≡ true → s ≡ runnable
runnable-is uninit e = ground arith
runnable-is sleeping e = ground arith
runnable-is runnable e = refl
runnable-is zombie e = ground arith

wakeup_proc-Woken :
    (p : ℕ) (k : Kernel)
    → is_zombie (k.proc p).state ≡ false
    → (k' : Kernel) × (wakeup_proc p k ≡ returns k') × Woken p k k'
unfolding wakeup_proc
wakeup_proc-Woken p k z = elim (Bool-cases (is_runnable (k.proc p).state)) [
  | inl r ↦ (
    k,
    rw (z, r) refl,
    record { ids = λ q. refl; links = refl; flags = refl; state = runnable-is (k.proc p).state r },
  )
  | inr r ↦ (
    set_proc p (record (k.proc p) { state = runnable; wait_state = 0 }) k,
    rw (z, r) refl,
    record {
      ids = update-same (λ r. r.pid) k.proc p _ refl;
      links = refl;
      flags = ap (λ r. r.flags) (update_self k.proc p _);
      state = ap (λ r. r.state) (update_self k.proc p _);
    },
  )
]

-- What is left of a killed process: its mark, and that it runs again if its sleep could be broken.
pub record Killed (p : ℕ) (k k' : Kernel) : Type 0 where
  pub mark : has_flag (k'.proc p).flags pf_exiting ≡ true
  pub state :
      (k'.proc p).state
      ≡ (if has_flag (k.proc p).wait_state wt_interrupted then runnable else (k.proc p).state)
  pub ids : (q : ℕ) → (k'.proc q).pid ≡ (k.proc q).pid
  pub links : k'.hash_links ≡ k.hash_links

mark_killed-Killed :
    (p : ℕ) (k : Kernel)
    → p ≢ 0
    → has_flag (k.proc p).flags pf_exiting ≡ false
    → is_zombie (k.proc p).state ≡ false
    → (k' : Kernel) × (mark_killed p k ≡ returns (pos 0, k')) × Killed p k k'
unfolding mark_killed
mark_killed-Killed p k n f z =
    let m : (marked p k).proc p ≡ record (k.proc p) { flags = bit_or (k.proc p).flags pf_exiting } =
      update_self k.proc p _ in
    let (k2, e, w) = wakeup_proc-Woken p (marked p k) (rw m z) in
    elim (Bool-cases (has_flag (k.proc p).wait_state wt_interrupted)) [
      | inl i ↦ (
        k2,
        rw (==_ne p 0 n, f, i, e) refl,
        record {
          mark = rw (w.flags, m) (has_flag-bit_or (k.proc p).flags);
          state = rw i w.state;
          ids = λ q. w.ids q ∙ update-same (λ r. r.pid) k.proc p _ refl q;
          links = w.links;
        },
      )
      | inr i ↦ (
        marked p k,
        rw (==_ne p 0 n, f, i) refl,
        record {
          mark = rw m (has_flag-bit_or (k.proc p).flags);
          state = rw (m, i) refl;
          ids = update-same (λ r. r.pid) k.proc p _ refl;
          links = refl;
        },
      )
    ]

-- A kill of a process that `find_proc` finds, that is no zombie and not marked yet, returns 0,
-- marks the process and makes it runnable if its sleep can be interrupted; a second kill returns
-- -E_KILLED and changes nothing.
pub do_kill-Killed :
    (fuel : ℕ) (pid : ℤ) (p : ℕ) (k : Kernel)
    → find_proc fuel pid k ≡ returns p
    → p ≢ 0
    → has_flag (k.proc p).flags pf_exiting ≡ false
    → is_zombie (k.proc p).state ≡ false
    → (k' : Kernel) × (do_kill fuel pid k ≡ returns (pos 0, k'))
      × Killed p k k'
      × (do_kill fuel pid k' ≡ returns (e_killed, k'))
unfolding do_kill mark_killed
do_kill-Killed fuel pid p k e n f z =
    let (k', d, h) = mark_killed-Killed p k n f z in
    (
      k',
      rw (e, d) refl,
      h,
      rw (find_proc-same k k' h.ids h.links fuel pid, e, ==_ne p 0 n, h.mark) refl,
    )
