-- ===== src/Process/Tests.antt =====
-- A kernel of three processes, and the theorems on the hash lists and the family at it.
use nkucore.Prelude.{ℕ, ◌≡◌, refl, true, [], ◌∷◌, pos, arith, update, returns}
use nkucore.Ring.{Links}
use nkucore.Process.{
  Proc, ProcState, runnable, sleeping, Kernel, hash_link, pid_hashfn, hash32, find_proc, hash_proc,
  unhash_proc, set_links, remove_links,
}
use nkucore.Process.Find.{Bucket, find_proc_lem, find_proc-hash_proc, find_proc-unhash_proc}
use nkucore.Process.Family.{IsFamily, set_links-IsFamily}
use nkucore.Process.Unlink.{remove_links-IsFamily}

abbrev pub process : (state : ProcState) → (pid parent cptr yptr optr : ℕ) → Proc
process s pid parent cptr yptr optr = record {
  state = s;
  pid = pos pid;
  runs = 0;
  kstack = 0x1000;
  need_resched = true;
  parent = parent;
  mm = 0;
  cr3 = 0x80;
  flags = 0;
  exit_code = pos 0;
  wait_state = 0;
  cptr = cptr;
  yptr = yptr;
  optr = optr;
}

-- Process 5 has the children 7 and 6; process 8 is new, a child of 5 that is linked nowhere yet.
abbrev procs : ℕ → Proc
procs =
    update
      (update
        (update (update (λ p. process runnable 0 0 0 0 0) 5 (process sleeping 1 4 7 0 0)) 6
          (process runnable 2 5 0 7 0))
        7 (process runnable 3 5 0 0 6))
      8 (process runnable 2 5 0 0 0)

abbrev pid_two : ℕ
pid_two = 241

-- The hash list of id 2 holds process 6, all other lists are empty.
abbrev buckets : Links
buckets = record {
  prev = update (update (λ p. p) pid_two (hash_link 6)) (hash_link 6) pid_two;
  next = update (update (λ p. p) pid_two (hash_link 6)) (hash_link 6) pid_two;
}

abbrev order : Links
order = record {
  prev = update (update (update (update (λ p. p) 0 5) 5 6) 6 7) 7 0;
  next = update (update (update (update (λ p. p) 0 7) 7 6) 6 5) 5 0;
}

abbrev pub sample : Kernel
sample = record {
  proc = procs;
  list_links = order;
  hash_links = buckets;
  nr_process = 4;
  current = 6;
  idleproc = 4;
  initproc = 5;
  satp = 0x80;
}

two-pid_hashfn : pid_hashfn 2 ≡ pid_two
unfolding pid_hashfn hash32
two-pid_hashfn = refl

pub two-Bucket : Bucket buckets (pid_hashfn 2) (6 ∷ [])
two-Bucket =
    rw two-pid_hashfn
      record { chain = (refl, refl, (refl, refl)); apart = refl; distinct = (refl, tt) }

find_proc_lem_run : find_proc 3 (pos 2) sample ≡ returns 6
find_proc_lem_run = find_proc_lem 3 2 sample (6 ∷ []) two-Bucket (omega arith)

find_proc-hash_proc_example :
    (find_proc 4 (pos 2) (hash_proc 8 sample) ≡ returns 8)
    × Bucket (hash_proc 8 sample).hash_links (pid_hashfn 2) (8 ∷ 6 ∷ [])
find_proc-hash_proc_example =
    find_proc-hash_proc 4 8 2 sample (6 ∷ []) refl (omega arith) (omega arith) two-Bucket refl
      (omega arith)

find_proc-unhash_proc_example :
    (find_proc 3 (pos 2) (unhash_proc 6 sample) ≡ returns 0)
    × Bucket (unhash_proc 6 sample).hash_links (pid_hashfn 2) []
find_proc-unhash_proc_example = find_proc-unhash_proc 3 6 2 sample [] [] two-Bucket tt (omega arith)

family : IsFamily procs 5 (7 ∷ 6 ∷ [])
family = record {
  first = refl;
  siblings = (omega arith, refl, refl, refl, (omega arith, refl, refl, refl, tt));
  distinct = (refl, (refl, tt));
  apart = refl;
}

set_links-IsFamily_example : IsFamily (set_links 8 sample).proc 5 (8 ∷ 7 ∷ 6 ∷ [])
set_links-IsFamily_example =
    set_links-IsFamily sample 5 8 (7 ∷ 6 ∷ []) family refl (omega arith) (omega arith) refl

remove_links-IsFamily_example : IsFamily (remove_links 7 sample).proc 5 (6 ∷ [])
remove_links-IsFamily_example = remove_links-IsFamily sample 5 7 [] (6 ∷ []) family
