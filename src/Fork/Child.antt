-- ===== src/Fork/Child.antt =====
-- kern/process/proc.c, do_fork: what happens to the new process before it is entered.
use nkucore.Prelude.{
  ℕ, zero, suc, ◌≡◌, ◌≢◌, ◌∙◌, refl, sym, ap, true, false, List, [], ◌∷◌, arith, ◌∉◌, update_self,
  update_ne, ==_ne, pos, has_flag, ◌+◌, if◌then◌else◌, update,
}
use nkucore.DefaultPmm.{uint}
use nkucore.Process.{Proc, Kernel, uninit, set_proc, alloc_proc}
use nkucore.Process.Family.{IsFamily, Siblings-frame}
use nkucore.Fork.{Forking, Grants, new_proc, copy_mm, share_mm, fresh_mm, clone_vm}
use nkucore.Fork.Linked.{pids_of}

-- From `k` to `l` only process `p` changed.
pub record Only (p : ℕ) (k l : Kernel) : Type 0 where
  pub others : (q : ℕ) → q ≢ p → l.proc q ≡ k.proc q
  pub list_links : l.list_links ≡ k.list_links
  pub hash_links : l.hash_links ≡ k.hash_links
  pub nr_process : l.nr_process ≡ k.nr_process
  pub current : l.current ≡ k.current

pub Only-trans : (p : ℕ) (k l m : Kernel) → Only p k l → Only p l m → Only p k m
Only-trans p k l m a b = record {
  others = λ q n. b.others q n ∙ a.others q n;
  list_links = b.list_links ∙ a.list_links;
  hash_links = b.hash_links ∙ a.hash_links;
  nr_process = b.nr_process ∙ a.nr_process;
  current = b.current ∙ a.current;
}

pub Only-refl : (p : ℕ) (k : Kernel) → Only p k k
Only-refl p k = record {
  others = λ q n. refl;
  list_links = refl;
  hash_links = refl;
  nr_process = refl;
  current = refl;
}

pub set_proc-Only : (p : ℕ) (r : Proc) (k : Kernel) → Only p k (set_proc p r k)
set_proc-Only p r k = record {
  others = λ q n. update_ne k.proc p q r n;
  list_links = refl;
  hash_links = refl;
  nr_process = refl;
  current = refl;
}

pub Only-IsFamily :
    (p parent : ℕ) (k l : Kernel) (cs : List ℕ)
    → Only p k l
    → p ≢ parent
    → p ∉ cs
    → IsFamily k.proc parent cs
    → IsFamily l.proc parent cs
Only-IsFamily p parent k l cs o n d fam = record {
  first = ap Proc.cptr (o.others parent (λ e. n (sym e))) ∙ fam.first;
  siblings = Siblings-frame k.proc l.proc parent 0 cs fam.siblings (λ q i.
      let e = o.others q (λ x. ground (arith, d, i, x)) in
      (ap Proc.parent e, ap Proc.yptr e, ap Proc.optr e));
  distinct = fam.distinct;
  apart = fam.apart;
}

pub Only-pids :
    (p : ℕ) (k l : Kernel) (xs : List ℕ)
    → Only p k l
    → p ∉ xs
    → pids_of l.proc xs ≡ pids_of k.proc xs
Only-pids p k l [] o d = refl
Only-pids p k l (x ∷ xs) o d =
    let e = o.others x (λ y. ground (arith, d, y)) in
    rw (e, Only-pids p k l xs o (ground (arith, d))) refl

-- The fields of the new process that matter: not yet a process, a child, with its stack.
pub record IsChild (p of at space : ℕ) (k : Kernel) : Type 0 where
  pub state : (k.proc p).state ≡ uninit
  pub parent : (k.proc p).parent ≡ of
  pub kstack : (k.proc p).kstack ≡ at
  pub mm : (k.proc p).mm ≡ space

pub new_proc-IsChild :
    (boot_cr3 p : ℕ) (k : Kernel)
    → p ≢ 0
    → IsChild p k.current 0 0 (new_proc boot_cr3 p k) × Only p k (new_proc boot_cr3 p k)
unfolding new_proc
new_proc-IsChild b zero k n = absurd (n refl)
new_proc-IsChild b (suc a) k n =
    let k1 = (alloc_proc (suc a) b k).1 in
    let r : Proc = record (k1.proc (suc a)) { parent = k.current } in
    let self = update_self k1.proc (suc a) r in
    let first = update_self k.proc (suc a) in
    (
      record {
        state = ap Proc.state self ∙ ap Proc.state (first _);
        parent = ap Proc.parent self;
        kstack = ap Proc.kstack self ∙ ap Proc.kstack (first _);
        mm = ap Proc.mm self ∙ ap Proc.mm (first _);
      },
      Only-trans (suc a) k k1 (set_proc (suc a) r k1) (set_proc-Only (suc a) _ k)
          (set_proc-Only (suc a) r k1),
    )

pub setup_kstack-IsChild :
    (p parent mm kstack : ℕ) (s : Forking)
    → IsChild p parent 0 mm s.machine.kernel
    → IsChild p parent kstack mm
        (set_proc p (record (s.machine.kernel.proc p) { kstack = kstack }) s.machine.kernel)
setup_kstack-IsChild p parent mm kstack s c =
    let k = s.machine.kernel in
    let self = update_self k.proc p (record (k.proc p) { kstack = kstack }) in
    record {
      state = ap Proc.state self ∙ c.state;
      parent = ap Proc.parent self ∙ c.parent;
      kstack = ap Proc.kstack self;
      mm = ap Proc.mm self ∙ c.mm;
    }

-- When `copy_mm` succeeds: the parent has no address space, shares it, or its copy is granted.
pub data Copies (clone_flags oldmm : ℕ) (g : Grants) : ℕ → Type 0 where
  no_mm : oldmm ≡ 0 → Copies clone_flags oldmm g 0
  shares : oldmm ≢ 0 → has_flag clone_flags clone_vm ≡ true → Copies clone_flags oldmm g oldmm
  copies :
      oldmm ≢ 0
      → has_flag clone_flags clone_vm ≡ false
      → g.mm ≢ 0
      → g.pgdir ≢ 0
      → g.dup ≡ pos 0
      → Copies clone_flags oldmm g g.mm

share_mm-IsChild :
    (mm p parent kstack : ℕ) (s : Forking)
    → IsChild p parent kstack 0 s.machine.kernel
    → IsChild p parent kstack mm (share_mm mm p s).machine.kernel
      × Only p s.machine.kernel (share_mm mm p s).machine.kernel
unfolding share_mm
share_mm-IsChild mm p parent kstack s c =
    let k = s.machine.kernel in
    let r : Proc = record (k.proc p) { mm = mm; cr3 = s.pgdir_pa mm } in
    let self = update_self k.proc p r in
    (
      record {
        state = ap Proc.state self ∙ c.state;
        parent = ap Proc.parent self ∙ c.parent;
        kstack = ap Proc.kstack self ∙ c.kstack;
        mm = ap Proc.mm self;
      },
      set_proc-Only p r k,
    )

pub copy_mm-IsChild :
    (clone_flags p parent kstack mm : ℕ) (g : Grants) (s : Forking)
    → IsChild p parent kstack 0 s.machine.kernel
    → Copies clone_flags (s.machine.kernel.proc s.machine.kernel.current).mm g mm
    → ((copy_mm clone_flags p g s).0 ≡ pos 0)
      × IsChild p parent kstack mm (copy_mm clone_flags p g s).1.machine.kernel
      × Only p s.machine.kernel (copy_mm clone_flags p g s).1.machine.kernel
      × ((copy_mm clone_flags p g s).1.frame ≡ s.frame)
      × ((copy_mm clone_flags p g s).1.cursor ≡ s.cursor)
      × ((copy_mm clone_flags p g s).1.context ≡ s.context)
      × ((n : ℕ) → n ≢ mm → (copy_mm clone_flags p g s).1.machine.mm_count n ≡ s.machine.mm_count n)
      × (mm ≢ 0
          → (copy_mm clone_flags p g s).1.machine.mm_count mm
            ≡ (if has_flag clone_flags clone_vm then uint (s.machine.mm_count mm + 1) else 1))
unfolding copy_mm fresh_mm share_mm
copy_mm-IsChild clone_flags p parent kstack mm g s c (no_mm e) =
    rw e
      (refl, c, Only-refl p s.machine.kernel, refl, refl, refl, λ n d. refl, λ z. absurd (z refl))
copy_mm-IsChild clone_flags p parent kstack mm g s c (shares n f) =
    let old = (s.machine.kernel.proc s.machine.kernel.current).mm in
    let h = share_mm-IsChild old p parent kstack s c in
    rw (==_ne old 0 n, f)
      (
        refl,
        h.0,
        h.1,
        refl,
        refl,
        refl,
        λ q d. update_ne s.machine.mm_count old q _ d,
        λ z. update_self s.machine.mm_count old _,
      )
copy_mm-IsChild clone_flags p parent kstack mm g s c (copies n f m d u) =
    let old = (s.machine.kernel.proc s.machine.kernel.current).mm in
    let h = share_mm-IsChild g.mm p parent kstack (fresh_mm g.mm g.pgdir s) c in
    rw (==_ne old 0 n, f, ==_ne g.mm 0 m, ==_ne g.pgdir 0 d, u)
      (
        refl,
        h.0,
        h.1,
        refl,
        refl,
        refl,
        λ q e.
            update_ne (update s.machine.mm_count g.mm 0) g.mm q
              (uint (update s.machine.mm_count g.mm 0 g.mm + 1)) e
            ∙ update_ne s.machine.mm_count g.mm q 0 e,
        λ z.
            update_self (update s.machine.mm_count g.mm 0) g.mm _
            ∙ ap (λ q. uint (q + 1)) (update_self s.machine.mm_count g.mm 0),
      )
