-- ===== src/Process/Find.antt =====
-- `find_proc` and the hash lists: what a search finds, and what joining and leaving a list change.
use nkucore.Prelude.{
  ℕ, zero, suc, ◌+◌, ◌-◌, ◌<◌, ◌≡◌, ◌≢◌, refl, sym, ◌∙◌, inl, inr, true, false, ◌&&◌, ltb, lt→ltb,
  ◌==◌, if◌then◌else◌, Bool-cases, List, [], ◌∷◌, ◌++◌, map, length, length-append, All, ◌∉◌, pos,
  negsuc, ℤ, arith, returns, ==_refl,
}
use nkucore.Pid.{max_pid}
use nkucore.Ring.{Links, list_next}
use nkucore.Ring.Chain.{Chain, IsRing}
use nkucore.Ring.Laws.{list_add-IsRing, list_del-IsRing}
use nkucore.Process.{
  hash32, Kernel, Proc, hash_link, hash_list_size, same_pid, pid_hashfn, search_hash, find_proc,
  hash_proc, unhash_proc,
}

-- The first process of a list that has the id, 0 if none has.
abbrev pub first_with : (ℕ → Proc) → ℕ → List ℕ → ℕ
first_with f pid [] = 0
first_with f pid (p ∷ ps) = if same_pid (f p).pid pid then p else first_with f pid ps

-- The hash list of head `b` holds the processes `ps`.
abbrev pub Bucket : Links → ℕ → List ℕ → Type 0
Bucket l b ps = IsRing l b (map hash_link ps)

search_hash-first_with :
    (fuel list a pid : ℕ) (k : Kernel) (ps : List ℕ)
    → Chain k.hash_links a (map hash_link ps) list
    → list ∉ map hash_link ps
    → length ps < fuel
    → search_hash fuel list a pid k ≡ returns (first_with k.proc pid ps)
unfolding search_hash list_next
search_hash-first_with zero list a pid k ps c n l = absurd (omega arith)
search_hash-first_with (suc fuel) list a pid k [] (e, q) n l = rw (e, ==_refl list) refl
search_hash-first_with (suc fuel) list a pid k (p ∷ ps) (e, q, c) n l =
    let np : (p + hash_list_size == list) ≡ false = ground arith in
    let back : (p + hash_list_size) - hash_list_size ≡ p = omega arith in
    let n' : list ∉ map hash_link ps = ground arith in
    let ih = search_hash-first_with fuel list (hash_link p) pid k ps c n' (omega arith) in
    rw (e, np, back, ih)
      (elim (Bool-cases (same_pid (k.proc p).pid pid)) [ inl h ↦ rw h refl | inr h ↦ rw h refl ])

-- With more rounds than the hash list of the id has processes, `find_proc` returns the first
-- process of that list with the id, or NULL; an id out of range has no process.
pub find_proc_lem :
    (fuel pid : ℕ) (k : Kernel) (ps : List ℕ)
    → Bucket k.hash_links (pid_hashfn pid) ps
    → length ps < fuel
    → find_proc fuel (pos pid) k
      ≡ returns (if ltb 0 pid && ltb pid max_pid then first_with k.proc pid ps else 0)
unfolding find_proc
find_proc_lem fuel pid k ps r l = elim (Bool-cases (ltb 0 pid && ltb pid max_pid)) [
  | inl h ↦
      rw h
        (search_hash-first_with fuel (pid_hashfn pid) (pid_hashfn pid) pid k ps r.chain r.apart l)
  | inr h ↦ rw h refl
]

in_range : (pid : ℕ) → 0 < pid → pid < max_pid → (ltb 0 pid && ltb pid max_pid) ≡ true
in_range pid a b = rw (lt→ltb 0 pid a, lt→ltb pid max_pid b) refl

pid_hashfn-small : (pid : ℕ) → pid_hashfn pid < hash_list_size
unfolding pid_hashfn hash32
pid_hashfn-small pid = omega arith

-- A process that `hash_proc` puts in the list of its id is the one `find_proc` finds, before any
-- other with the id, and the list has it in front.
pub find_proc-hash_proc :
    (fuel p pid : ℕ) (k : Kernel) (ps : List ℕ)
    → (k.proc p).pid ≡ pos pid
    → 0 < pid
    → pid < max_pid
    → Bucket k.hash_links (pid_hashfn pid) ps
    → hash_link p ∉ map hash_link ps
    → length ps + 1 < fuel
    → (find_proc fuel (pos pid) (hash_proc p k) ≡ returns p)
      × Bucket (hash_proc p k).hash_links (pid_hashfn pid) (p ∷ ps)
unfolding hash_proc
find_proc-hash_proc fuel p pid k ps e a b r n l =
    let s = pid_hashfn-small pid in
    let ne : hash_link p ≢ pid_hashfn pid = ground arith in
    let r' : Bucket (hash_proc p k).hash_links (pid_hashfn pid) (p ∷ ps) =
      rw e (
        list_add-IsRing k.hash_links (pid_hashfn pid) (hash_link p) [] (map hash_link ps) r ne n) in
    let f = find_proc_lem fuel pid (hash_proc p k) (p ∷ ps) r' (omega arith) in
    (f ∙ rw (in_range pid a b, e, ==_refl pid) refl, r')

map-append : (xs ys : List ℕ) → map hash_link (xs ++ ys) ≡ map hash_link xs ++ map hash_link ys
map-append [] ys = refl
map-append (x ∷ xs) ys = rw (map-append xs ys) refl

same_pid-pos : (z : ℤ) (pid : ℕ) → same_pid z pid ≡ true → z ≡ pos pid
same_pid-pos (pos a) pid e = let q : a ≡ pid = ground arith in rw q refl
same_pid-pos (negsuc a) pid e = ground arith

first_with-lone :
    (f : ℕ → Proc) (p pid : ℕ) (qs : List ℕ)
    → All (λ q. (f q).pid ≢ (f p).pid) qs
    → same_pid (f p).pid pid ≡ true
    → first_with f pid qs ≡ 0
first_with-lone f p pid [] a e = refl
first_with-lone f p pid (q ∷ qs) (n, a) e = elim (Bool-cases (same_pid (f q).pid pid)) [
  | inl h ↦ absurd (n (same_pid-pos (f q).pid pid h ∙ sym (same_pid-pos (f p).pid pid e)))
  | inr h ↦ rw h (first_with-lone f p pid qs a e)
]

first_with-skip :
    (f : ℕ → Proc) (p pid : ℕ) (xs ys : List ℕ)
    → same_pid (f p).pid pid ≡ false
    → first_with f pid (xs ++ p ∷ ys) ≡ first_with f pid (xs ++ ys)
first_with-skip f p pid [] ys e = rw e refl
first_with-skip f p pid (x ∷ xs) ys e = rw (first_with-skip f p pid xs ys e) refl

-- Where no other process of its hash list has the id of `p`, `unhash_proc` takes `p` out of the
-- list: `find_proc` of its id then finds none, and of any other id of the list what it found
-- before.
pub find_proc-unhash_proc :
    (fuel p pid : ℕ) (k : Kernel) (xs ys : List ℕ)
    → Bucket k.hash_links (pid_hashfn pid) (xs ++ p ∷ ys)
    → All (λ q. (k.proc q).pid ≢ (k.proc p).pid) (xs ++ ys)
    → length (xs ++ p ∷ ys) < fuel
    → (find_proc fuel (pos pid) (unhash_proc p k)
        ≡ (if same_pid (k.proc p).pid pid then returns 0 else find_proc fuel (pos pid) k))
      × Bucket (unhash_proc p k).hash_links (pid_hashfn pid) (xs ++ ys)
unfolding unhash_proc
find_proc-unhash_proc fuel p pid k xs ys r a l =
    let r1 : IsRing k.hash_links (pid_hashfn pid)
        (map hash_link xs ++ hash_link p ∷ map hash_link ys) =
      rw (← map-append xs (p ∷ ys)) r in
    let r2 : Bucket (unhash_proc p k).hash_links (pid_hashfn pid) (xs ++ ys) =
      rw (map-append xs ys) (
        list_del-IsRing k.hash_links (pid_hashfn pid) (hash_link p) (map hash_link xs)
          (map hash_link ys) r1) in
    let m = length-append xs ys in
    let m' = length-append xs (p ∷ ys) in
    let before = find_proc_lem fuel pid k (xs ++ p ∷ ys) r l in
    let after = find_proc_lem fuel pid (unhash_proc p k) (xs ++ ys) r2 (omega (arith, l, m, m')) in
    (
      after ∙ elim (Bool-cases (same_pid (k.proc p).pid pid)) [
        | inl h ↦
            rw (h, first_with-lone k.proc p pid (xs ++ ys) a h)
              (elim (Bool-cases (ltb 0 pid && ltb pid max_pid)) [
                | inl c ↦ rw c refl
                | inr c ↦ rw c refl
              ])
        | inr h ↦ rw (h, ← first_with-skip k.proc p pid xs ys h) (sym before)
      ],
      r2,
    )
