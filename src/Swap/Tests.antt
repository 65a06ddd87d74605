-- ===== src/Swap/Tests.antt =====
-- The theorems on the queue and the device at concrete pages.
use nkucore.Prelude.{◌≡◌, refl, inl, inr, [], ◌∷◌, arith, update, pos, returns, panics, ◌>>=◌}
use nkucore.CString.{Memory}
use nkucore.Ring.{Links}
use nkucore.Swap.{
  fifo_map_swappable, fifo_swap_out_victim, swapfs_init, ide_device_valid, ide_device_size,
  check_max_swap_offset, swap_offset, swapfs_read, swapfs_write, swap_entry,
}
use nkucore.Swap.Fifo.{Queue, fifo-Queue}
use nkucore.Swap.Device.{swapfs_read-swapfs_write}

-- Pages 4 and 9 in the queue.
abbrev two_pages : Links
two_pages = record {
  prev = update (update (update (λ p. p) 0 10) 10 5) 5 0;
  next = update (update (update (λ p. p) 0 5) 5 10) 10 0;
}

two_pages-Queue : Queue two_pages (4 ∷ 9 ∷ [])
unfolding Queue
two_pages-Queue = record {
  chain = (refl, refl, (refl, refl, (refl, refl)));
  apart = refl;
  distinct = (refl, (refl, tt));
}

fifo-Queue_example :
    (l' : Links) × (fifo_swap_out_victim 0 (fifo_map_swappable 2 two_pages).1 ≡ returns (4, l'))
    × Queue l' (9 ∷ 2 ∷ [])
fifo-Queue_example = fifo-Queue two_pages 2 4 (4 ∷ 9 ∷ []) (9 ∷ 2 ∷ []) two_pages-Queue refl refl

-- The device has room for the offsets below 7, which `swap_init` accepts.
device_size : (swapfs_init >>= check_max_swap_offset) ≡ returns tt
unfolding swapfs_init ide_device_valid ide_device_size check_max_swap_offset
device_size = refl

-- A page of a user program lies beyond the device.
user_page : swap_offset 7 (swap_entry 0x800000) ≡ panics
unfolding swap_offset swap_entry
user_page = refl

swapfs_read-swapfs_write_example :
    (m1 : Memory) × (swapfs_write 0x10000 7 (swap_entry 0x1000) 0x4000 (λ a. a)
      ≡ returns (pos 0, m1))
    × ((m2 : Memory) × (swapfs_write 0x10000 7 (swap_entry 0x3000) 0x5000 m1 ≡ returns (pos 0, m2))
        × ((m3 : Memory) × (swapfs_read 0x10000 7 (swap_entry 0x1000) 0x20000 m2
              ≡ returns (pos 0, m3))
            × (m3 0x20123 ≡ 0x4123)))
swapfs_read-swapfs_write_example =
    swapfs_read-swapfs_write 0x10000 0x1000 0x3000 0x4000 0x5000 0x20000 0x123 (λ a. a)
      (omega arith) (omega arith) (omega arith) (inl (omega arith)) (inl (omega arith))
      (inr (omega arith)) (omega arith)
