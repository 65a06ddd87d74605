-- ===== src/Swap/Device.antt =====
-- A page that was swapped out comes back as it was.
use nkucore.Prelude.{
  ℕ, ◌+◌, ◌*◌, ◌/◌, ◌^◌, ◌≤◌, ◌<◌, ◌≡◌, ◌≢◌, ◌⊎◌, inl, inr, refl, ap, ◌∙◌, arith, ltb, true, lt→ltb,
  pos, page_size, returns, ◌>>=◌,
}
use native.Mathlib.Decide.{dec_lt}
use nkucore.CString.{Memory, memcpy}
use nkucore.CString.Blocks.{copied, memcpy-copied}
use nkucore.Swap.{
  sector, swap_offset, swapfs_read, swapfs_write, swap_entry, ide_read_secs, ide_write_secs,
  page_nsect,
}

-- The slot of a page on the device.
abbrev pub slot : (ide vaddr : ℕ) → ℕ
slot ide vaddr = ide + (vaddr / page_size + 1) * page_size

-- A page of memory that shares no byte with the device, which has seven slots.
abbrev pub Outside : (ide kva : ℕ) → Type 0
Outside ide kva = (kva + page_size ≤ ide) ⊎ (ide + 7 * page_size ≤ kva)

swap_offset-entry :
    (v : ℕ) → v / page_size + 1 < 7 → swap_offset 7 (swap_entry v) ≡ returns (v / page_size + 1)
unfolding swap_offset swap_entry
swap_offset-entry v l =
    let e : ((v / page_size + 1) * 2 ^ 8) / 2 ^ 8 ≡ v / page_size + 1 = omega arith in
    let a : ltb 0 (v / page_size + 1) ≡ true = lt→ltb 0 (v / page_size + 1) (omega arith) in
    let b : ltb (v / page_size + 1) 7 ≡ true = lt→ltb (v / page_size + 1) 7 l in rw (e, a, b) refl

slot_lem :
    (ide v : ℕ) → v / page_size + 1 < 7 → sector ide ((v / page_size + 1) * page_nsect) ≡ slot ide v
slot_lem ide v l = go (v / page_size + 1) l
  where
    go : (n : ℕ) → n < 7 → sector ide (n * page_nsect) ≡ ide + n * page_size
    go n l = ground (arith, l)

apart :
    (ide v kva : ℕ)
    → v / page_size + 1 < 7
    → Outside ide kva
    → (kva + page_size ≤ slot ide v) ⊎ (slot ide v + page_size ≤ kva)
apart ide v kva l (inl h) = inl (omega arith)
apart ide v kva l (inr h) = inr (omega arith)

write-copied :
    (ide v kva : ℕ) (m : Memory)
    → v / page_size + 1 < 7
    → Outside ide kva
    → swapfs_write ide 7 (swap_entry v) kva m ≡ returns (pos 0, copied (slot ide v) kva page_size m)
unfolding swapfs_write ide_write_secs
write-copied ide v kva m l o =
    ap (λ r. r >>= (λ offset. returns (ide_write_secs ide (offset * page_nsect) kva page_nsect m)))
      (swap_offset-entry v l)
    ∙ ap (λ a. returns (pos 0, memcpy a kva page_size m)) (slot_lem ide v l)
    ∙ ap (λ n. returns (pos 0, n))
        (memcpy-copied (slot ide v) kva page_size m (before (apart ide v kva l o)))
  where
    before :
        (kva + page_size ≤ slot ide v) ⊎ (slot ide v + page_size ≤ kva)
        → (slot ide v ≤ kva) ⊎ (kva + page_size ≤ slot ide v)
    before (inl h) = inr h
    before (inr h) = inl (omega arith)

read-copied :
    (ide v kva : ℕ) (m : Memory)
    → v / page_size + 1 < 7
    → Outside ide kva
    → swapfs_read ide 7 (swap_entry v) kva m ≡ returns (pos 0, copied kva (slot ide v) page_size m)
unfolding swapfs_read ide_read_secs
read-copied ide v kva m l o =
    ap (λ r. r >>= (λ offset. returns (ide_read_secs ide (offset * page_nsect) kva page_nsect m)))
      (swap_offset-entry v l)
    ∙ ap (λ a. returns (pos 0, memcpy kva a page_size m)) (slot_lem ide v l)
    ∙ ap (λ n. returns (pos 0, n))
        (memcpy-copied kva (slot ide v) page_size m (after (apart ide v kva l o)))
  where
    after :
        (kva + page_size ≤ slot ide v) ⊎ (slot ide v + page_size ≤ kva)
        → (kva ≤ slot ide v) ⊎ (slot ide v + page_size ≤ kva)
    after (inl h) = inl (omega arith)
    after (inr h) = inr h

copied-at : (d s i : ℕ) (m : Memory) → i < page_size → copied d s page_size m (d + i) ≡ m (s + i)
copied-at d s i m l = ground arith

copied-past :
    (d s c : ℕ) (m : Memory) → (c < d) ⊎ (d + page_size ≤ c) → copied d s page_size m c ≡ m c
copied-past d s c m (inl h) = ground arith
copied-past d s c m (inr h) = ground arith

slots_apart :
    (ide n k i : ℕ)
    → n ≢ k
    → i < page_size
    → (ide + (n + 1) * page_size + i < ide + (k + 1) * page_size)
      ⊎ (ide + (k + 1) * page_size + page_size ≤ ide + (n + 1) * page_size + i)
slots_apart ide n k i h l = elim (dec_lt n k) [
  | yes p ↦ inl (omega arith)
  | no q ↦ inr (omega arith)
]

-- Two of the six pages at the lowest addresses are swapped out one after the other, from memory
-- outside the device, and the first is swapped in again: each call returns 0, and every byte of
-- the page is as it was.
pub swapfs_read-swapfs_write :
    (ide v w a b c i : ℕ) (m : Memory)
    → v / page_size + 1 < 7
    → w / page_size + 1 < 7
    → v / page_size ≢ w / page_size
    → Outside ide a
    → Outside ide b
    → Outside ide c
    → i < page_size
    → (m1 : Memory) × (swapfs_write ide 7 (swap_entry v) a m ≡ returns (pos 0, m1))
      × ((m2 : Memory) × (swapfs_write ide 7 (swap_entry w) b m1 ≡ returns (pos 0, m2))
          × ((m3 : Memory) × (swapfs_read ide 7 (swap_entry v) c m2 ≡ returns (pos 0, m3))
              × (m3 (c + i) ≡ m (a + i))))
swapfs_read-swapfs_write ide v w a b c i m l k n oa ob oc h =
    let m1 = copied (slot ide v) a page_size m in
    let m2 = copied (slot ide w) b page_size m1 in
    let past : (slot ide v + i < slot ide w) ⊎ (slot ide w + page_size ≤ slot ide v + i) =
      slots_apart ide (v / page_size) (w / page_size) i n h in
    (
      m1,
      write-copied ide v a m l oa,
      (
        m2,
        write-copied ide w b m1 k ob,
        (
          copied c (slot ide v) page_size m2,
          read-copied ide v c m2 l oc,
          copied-at c (slot ide v) i m2 h
              ∙ copied-past (slot ide w) b (slot ide v + i) m1 past
              ∙ copied-at (slot ide v) a i m h,
        ),
      ),
    )
