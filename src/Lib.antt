-- ===== src/Lib.antt =====
-- Verification library of the kernel: its C code under kern/ and libs/, translated function by
-- function into definitions that run, and theorems about these.
--
-- The program is a teaching kernel for RISC-V. It manages physical pages with a first-fit list
-- (kern/mm/default_pmm.c), address spaces as lists of areas (kern/mm/vmm.c), swaps pages to a
-- device in memory (kern/mm/swap_fifo.c, kern/fs/swapfs.c, kern/driver/ide.c), and runs processes
-- round-robin (kern/process/proc.c, kern/schedule/sched.c). All of these keep their objects in the
-- intrusive doubly linked lists of libs/list.h.
--
-- Which file models what:
--
-- Prelude: no code; lists, stores of cells with their update, outcomes, words, bits. A kernel
-- function has an `Outcome`: it returns, it stops in panic or a failed assert (`panics`), or its
-- loop got too few rounds (`out_of_fuel`).
--
-- Ring: libs/list.h. `Links` holds the `prev` and `next` pointers of all nodes; list_add,
-- list_add_before, list_del and the others keep their names. `IsRing l h xs` says that the ring of
-- head `h` holds the nodes `xs`, linked both ways.
--
-- DefaultPmm: kern/mm/default_pmm.c over these pointers. `Area` is `free_area` with the array of
-- pages; default_init_memmap, default_alloc_pages and default_free_pages are written as the code
-- is, down to the walk that inserts a block. Its children compare the operations with the set of
-- free pages; Tail and Twice follow a block that is freed behind the last one.
--
-- Paging: kern/mm/mmu.h, kern/mm/pmm.h and the front of kern/mm/pmm.c. `Paging` is the free area
-- with the pages, and memory as cells of eight bytes; a pointer to an entry is the number of its
-- cell. PADDR, KADDR, the conversions between pages, addresses and entries, and the reference
-- counts keep their names.
--
-- PageTable: get_pte, get_page, page_insert, page_remove and pgdir_alloc_page of kern/mm/pmm.c. A
-- `View` adds to the state the blocks of its free pages and the level of each table; `Wf` says
-- that the tables form a forest below the directories. `translate` follows the valid bits through
-- the three levels, written without get_pte; it does not look at R, W and X, which the theorems
-- state of the entry. The upper half of a directory, which maps the kernel, is left out of `Wf`.
--
-- PageRange: unmap_range, exit_range and copy_range of kern/mm/pmm.c.
--
-- CString: libs/string.c over a memory of bytes. Strtol: its strtol; a `long` that overflows wraps
-- around.
--
-- Printfmt: printnum of libs/printfmt.c; the characters that it hands to `putch` are a list.
--
-- Vmm: kern/mm/vmm.c. The list `mmap_list` is the sequence of its areas, since Ring shows that a
-- ring is one; a pointer to an area is the area. find_vma, insert_vma_struct, mm_map,
-- user_mem_check, copy_from_user, copy_to_user, dup_mmap (`dup_areas`) and exit_mmap. Whether
-- kmalloc finds room and copy_range succeeds is given with each call.
--
-- Swap: the queue of kern/mm/swap_fifo.c over Ring, and the device: `ide` is the address of the
-- array of kern/driver/ide.c in the memory of CString, so reading and writing a page is its
-- memcpy.
--
-- Pid: get_pid of kern/process/proc.c over the ids of `proc_list`; `Cursor` holds its two static
-- variables.
--
-- Process: the process table of kern/process/proc.c: `Kernel` holds the processes, the links of
-- `proc_list` and of the hash lists, and the global pointers. set_links, remove_links, hash_proc,
-- unhash_proc, find_proc. `IsFamily` says that a process has the given children, linked both ways
-- from the youngest to the oldest. libs/hash.c is here too.
--
-- Sched: kern/schedule/sched.c, proc_run up to switch_to, do_yield, do_kill.
--
-- Lifecycle: do_exit up to its call of schedule, and one round of do_wait, from the label repeat
-- to the return or the call of schedule. `Machine` adds the counts of address spaces and the list
-- of calls that release memory.
--
-- Fork: do_fork, copy_mm, copy_thread, setup_kstack and kernel_thread of kern/process/proc.c.
-- `Forking` adds the trap frames in memory, the contexts, and the variables of get_pid to
-- `Machine`; `Grants` holds what kmalloc, alloc_pages and dup_mmap give to the call.
--
-- PageFault: do_pgfault of kern/mm/vmm.c, and swap_out and swap_in of kern/mm/swap.c, over
-- PageTable, the queue of Swap and the areas of Vmm. read_slot and write_slot are swapfs_read and
-- swapfs_write (kern/fs/swapfs.c) where memory is cells; the array of kern/driver/ide.c begins at
-- the cell `ide`. A NULL that the code reads from is a panic, the counters pgfault_num and
-- swap_out_num are left out.
--
-- Kmonitor: parse and the search of runcmd in kern/debug/kmonitor.c; the pointers in argv are a
-- list, and the table of commands is the list of the addresses of its names.
--
-- Readline: kern/libs/readline.c. The characters that getchar returns are a list of integers, at
-- whose end the loop waits; what it echoes is left out.
--
-- Rand: libs/rand.c.
--
-- Loops whose end is not plain from their arguments take a number of rounds. The theorems say how
-- many are enough: more than the length of the list for a walk over it, more than the bytes of a
-- range for user_mem_check, more than the bytes of a string for the string functions, more than
-- the number itself for printnum, more rounds than free pages for alloc_pages, as many as pages
-- for unmap_range, 513 for the inner loop of exit_range, since a directory has 512 entries, and
-- more than 2 * MAX_PID for get_pid, which may start over once for each id in use and wraps around
-- once.
--
-- Addresses and lengths are natural numbers; sums that the C code cuts to a word are cut here too.
-- A `size_t` or `uintptr_t` argument of a theorem is below 2^64 where that matters, and the
-- theorem says so. Interrupts are off in the critical sections of the code, so each function is
-- one step.
--
-- check_mm_struct is null, as it is outside of the self tests, so alloc_pages without a free page
-- panics once swapping is on.
--
-- Not modelled: load_icode and do_execve, which stand on the page tables, page_init and
-- boot_map_segment, the heap (kern/mm/kmalloc.c), the format loop of printing, the commands of the
-- monitor, traps, system calls and drivers, assembly, and the self tests that the kernel runs at
-- its start.
pub mod Prelude
pub mod Ring
pub mod DefaultPmm
pub mod CString
pub mod Printfmt
pub mod Strtol
pub mod Vmm
pub mod Swap
pub mod PageRange
pub mod PageFault
pub mod Kmonitor
pub mod Readline
pub mod Rand
pub mod PageTable
pub mod Paging
pub mod Pid
pub mod Process
pub mod Sched
pub mod Lifecycle
pub mod Fork
