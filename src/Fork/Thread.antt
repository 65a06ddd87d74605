-- ===== src/Fork/Thread.antt =====
-- kern/process/proc.c, copy_thread: the frame and the context of the child.
use nkucore.Prelude.{
  ℕ, ◌+◌, ◌-◌, ◌≡◌, ◌≢◌, ◌∙◌, refl, ap, ◌==◌, update, update_self, ==_ne, word, if◌then◌else◌,
}
use nkucore.Fork.{Forking, Frame, kstack_size, frame_size, reg_sp, reg_a0, copy_thread, set_gpr}

-- The frame that `copy_thread` makes.
module _ (forkret p stack tf : ℕ) (s : Forking) where
  abbrev pub top : ℕ
  top = word ((s.machine.kernel.proc p).kstack + kstack_size) - frame_size

  abbrev pub child_frame : Frame
  child_frame = set_gpr reg_sp (if stack == 0 then top else stack) (set_gpr reg_a0 0 (s.frame tf))

  pub thread-tf : (copy_thread forkret p stack tf s).tf p ≡ top
  unfolding copy_thread
  thread-tf = update_self s.tf p top

  pub thread-frame :
      (copy_thread forkret p stack tf s).frame ((copy_thread forkret p stack tf s).tf p)
      ≡ child_frame
  unfolding copy_thread
  thread-frame =
      ap (update s.frame top child_frame) (update_self s.tf p top)
      ∙ update_self s.frame top child_frame

  pub thread-context :
      (copy_thread forkret p stack tf s).context p ≡ record (s.context p) { ra = forkret; sp = top }
  unfolding copy_thread
  thread-context = update_self s.context p _

  pub child-a0 : child_frame.gpr reg_a0 ≡ 0
  child-a0 = refl

  pub child-sp : stack ≢ 0 → child_frame.gpr reg_sp ≡ stack
  child-sp n = rw (==_ne stack 0 n) refl

  pub child-registers : (r : ℕ) → r ≢ reg_sp → r ≢ reg_a0 → child_frame.gpr r ≡ (s.frame tf).gpr r
  child-registers r a b = rw (==_ne r reg_sp a, ==_ne r reg_a0 b) refl
