-- ===== src/PageFault/SwapIn.antt =====
-- kern/mm/vmm.c, do_pgfault: a page that was swapped out comes back.
use nkucore.Paging.{Paging}
use nkucore.PageTable.Wf.{Wf}
