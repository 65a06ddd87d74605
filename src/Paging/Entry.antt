-- ===== src/Paging/Entry.antt =====
-- kern/mm/pmm.h and kern/mm/mmu.h: what an entry made by pte_create leads to.
use nkucore.Prelude.{
  ℕ, ◌+◌, ◌-◌, ◌*◌, ◌/◌, ◌%◌, ◌^◌, ◌≤◌, ◌<◌, ◌≡◌, refl, arith, returns, lt→ltb, bit_or_high,
  bit_or_parity, bit_or-zero, bit_or_half, ◌∙◌, word,
}
use Prim.Native.Nat.{bit_or}
use nkucore.Paging.{
  pte_create, pte_addr, pte_v, widen_int, kaddr, ppn, pa2page, nbase, page2pa, page2ppn,
}

pub widen_int-small : (n : ℕ) → n < 1024 → widen_int n ≡ n
widen_int-small n h = ground arith

pub pte_create-high : (n type : ℕ) → n < 2 ^ 50 → type < 1024 → pte_create n type / 1024 ≡ n
unfolding pte_create
pte_create-high n type h t =
    let w = widen_int-small type t in
    let e : word (n * 2 ^ 10) / 1024 ≡ n = omega arith in
    let z : type / 1024 ≡ 0 = omega arith in
    rw
      (
        w,
        bit_or_high (bit_or (word (n * 2 ^ 10)) pte_v) type,
        bit_or_high (word (n * 2 ^ 10)) pte_v,
        e,
        z,
      )
      (rw (bit_or-zero n) (bit_or-zero n))

pub pte_create-odd : (n type : ℕ) → pte_create n type % 2 ≡ 1
unfolding pte_create
pte_create-odd n type = omega (
  arith,
  bit_or_parity (bit_or (word (n * 2 ^ 10)) pte_v) (widen_int type),
  bit_or_parity (word (n * 2 ^ 10)) pte_v,
)

pub bit_or-small : (a b : ℕ) → a < 1024 → b < 1024 → bit_or a b < 1024
bit_or-small a b h g =
    let x : a / 1024 ≡ 0 = omega arith in
    let y : b / 1024 ≡ 0 = omega arith in
    let z : bit_or a b / 1024 ≡ 0 = rw (bit_or_high a b, x, y) (bit_or-zero 0) in omega (arith, z)

-- The bits R, W, X and U of an entry, as a number: 1, 2, 4 and 8.
abbrev pub rwxu : ℕ → ℕ
rwxu pte = (pte / 2) % 16

bit_or-rwxu : (a b : ℕ) → rwxu a ≡ 0 → rwxu (bit_or a b) ≡ rwxu b
bit_or-rwxu a b z =
    let h1 = bit_or_half a b in
    let h2 = bit_or_half (a / 2) (b / 2) in
    let h3 = bit_or_half (a / 2 / 2) (b / 2 / 2) in
    let h4 = bit_or_half (a / 2 / 2 / 2) (b / 2 / 2 / 2) in
    let p1 = bit_or_parity (a / 2) (b / 2) in
    let p2 = bit_or_parity (a / 2 / 2) (b / 2 / 2) in
    let p3 = bit_or_parity (a / 2 / 2 / 2) (b / 2 / 2 / 2) in
    let p4 = bit_or_parity (a / 2 / 2 / 2 / 2) (b / 2 / 2 / 2 / 2) in
    let q1 : bit_or (a / 2) (b / 2) % 2 ≡ b / 2 % 2 = omega (arith, p1, z) in
    let q2 : bit_or (a / 2 / 2) (b / 2 / 2) % 2 ≡ b / 2 / 2 % 2 = omega (arith, p2, z) in
    let q3 : bit_or (a / 2 / 2 / 2) (b / 2 / 2 / 2) % 2 ≡ b / 2 / 2 / 2 % 2 =
      omega (arith, p3, z) in
    let q4 : bit_or (a / 2 / 2 / 2 / 2) (b / 2 / 2 / 2 / 2) % 2 ≡ b / 2 / 2 / 2 / 2 % 2 =
      omega (arith, p4, z) in
    omega (arith, h1, h2, h3, h4, q1, q2, q3, q4)

-- The permissions of an entry for a page are those that it is made with.
pub pte_create-rwxu :
    (n perm : ℕ) → perm < 1024 → rwxu (pte_create n (bit_or pte_v perm)) ≡ rwxu perm
unfolding pte_create
pte_create-rwxu n perm h =
    let t = bit_or pte_v perm in
    let z : rwxu (word (n * 2 ^ 10)) ≡ 0 = omega arith in
    let one : rwxu pte_v ≡ 0 = omega arith in
    rw (widen_int-small t (bit_or-small pte_v perm (omega arith) h)) (
      bit_or-rwxu (bit_or (word (n * 2 ^ 10)) pte_v) t
        (bit_or-rwxu (word (n * 2 ^ 10)) pte_v z ∙ one)
      ∙ bit_or-rwxu pte_v perm one)

module _ (npage : ℕ) (m : npage ≤ 2 ^ 50) where
  pub kaddr-returns : (n : ℕ) → n < npage → kaddr npage (n * 4096) ≡ returns (n * 512)
  unfolding kaddr
  kaddr-returns n h =
      let a : ppn (n * 4096) ≡ n = omega arith in
      let b : n * 4096 / 8 ≡ n * 512 = omega arith in rw (a, lt→ltb n npage h, b) refl

  pub pte_addr-page : (pte : ℕ) → pte / 1024 < npage → pte_addr pte ≡ (pte / 1024) * 4096
  pte_addr-page pte h = omega arith

  pub kaddr-entry :
      (pte : ℕ) → pte / 1024 < npage → kaddr npage (pte_addr pte) ≡ returns (pte / 1024 * 512)
  kaddr-entry pte h = rw (pte_addr-page pte h) (kaddr-returns (pte / 1024) h)

  pub pa2page-entry :
      (pte : ℕ)
      → nbase ≤ pte / 1024
      → pte / 1024 < npage
      → pa2page npage (pte_addr pte) ≡ returns (pte / 1024 - nbase)
  unfolding pa2page
  pa2page-entry pte l h =
      let n = pte / 1024 in
      let a : ppn (n * 4096) ≡ n = omega arith in
      let b : word (n + (2 ^ 64 - nbase)) ≡ n - nbase = omega (arith, l, h, m) in
      rw (pte_addr-page pte h, a, lt→ltb n npage h, b) refl

  pub page2ppn-sum : (page : ℕ) → page + nbase < npage → page2ppn page ≡ page + nbase
  page2ppn-sum page h = omega arith

  pub kaddr-page :
      (page : ℕ)
      → page + nbase < npage
      → kaddr npage (page2pa page) ≡ returns ((page + nbase) * 512)
  kaddr-page page h =
      let a : page2pa page ≡ (page + nbase) * 4096 = omega arith in
      rw a (kaddr-returns (page + nbase) h)
