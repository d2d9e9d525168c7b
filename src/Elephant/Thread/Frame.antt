-- ===== src/Elephant/Thread/Frame.antt =====
-- What thread_create leaves on the stack of the new thread.
use project_base_learning.Base.{ℕ, ◌+◌, ◌^◌, ◌<◌, ◌≤◌, ◌≡◌, ◌∙◌, ap, ◌⊎◌, arith, Mem}
use project_base_learning.Elephant.Memory.{get32, put32}
use project_base_learning.Elephant.Memory.Words.{get32-put32, get32-put32_outside}
use project_base_learning.Elephant.Thread.{
  thread_create, drop_words, sizeof_intr_stack, sizeof_thread_stack,
}

-- The frame that the new thread starts from, at `top`.
pub record IsFrame (kernel_thread pthread function top : ℕ) (m m' : Mem) : Type 0 where
  pub stack : get32 m' pthread ≡ top
  pub eip : get32 m' (top + 16) ≡ kernel_thread
  pub code : get32 m' (top + 24) ≡ function
  pub argument : get32 m' (top + 28) ≡ get32 m (top + 28)

module _ (kernel_thread pthread function func_arg top : ℕ) (m : Mem)
    (fits_entry : kernel_thread < 2 ^ 32) (fits_function : function < 2 ^ 32)
    (room : get32 m pthread ≡ top + 432) (fits : top + 432 < 2 ^ 32)
    (apart : (pthread + 3 < top) ⊎ (top + 432 ≤ pthread)) where
  abbrev m1 : Mem
  m1 = drop_words pthread sizeof_intr_stack m

  abbrev m2 : Mem
  m2 = drop_words pthread sizeof_thread_stack m1

  stack1 : get32 m1 pthread ≡ top + 128
  stack1 = get32-put32 pthread _ m (omega arith) ∙ omega arith

  stack2 : get32 m2 pthread ≡ top
  stack2 = get32-put32 pthread _ m1 (omega arith) ∙ omega (arith, stack1)

  abbrev frame : Mem
  frame = put32 (top + 24) function (put32 (top + 16) kernel_thread m2)

  created : thread_create kernel_thread pthread function func_arg m ≡ frame
  created =
      unfold thread_create in
      ap (λ t. put32 (t + 24) function (put32 (t + 16) kernel_thread m2)) stack2

  -- With room below the stack pointer, and the control block outside of that room, `thread_create`
  -- moves the stack pointer down by 432 bytes, four times the two frames, and stores the entry
  -- point and the function; the word for the argument keeps what stood there.
  pub thread_create-IsFrame :
      IsFrame kernel_thread pthread function top m
        (thread_create kernel_thread pthread function func_arg m)
  thread_create-IsFrame = rw created (record {
    stack =
        get32-put32_outside (top + 24) function pthread _ (omega arith)
        ∙ get32-put32_outside (top + 16) kernel_thread pthread m2 (omega arith)
        ∙ stack2;
    eip =
        get32-put32_outside (top + 24) function (top + 16) _ (omega arith)
        ∙ get32-put32 (top + 16) kernel_thread m2 fits_entry;
    code = get32-put32 (top + 24) function _ fits_function;
    argument =
        get32-put32_outside (top + 24) function (top + 28) _ (omega arith)
        ∙ get32-put32_outside (top + 16) kernel_thread (top + 28) m2 (omega arith)
        ∙ get32-put32_outside pthread _ (top + 28) m1 (omega arith)
        ∙ get32-put32_outside pthread _ (top + 28) m (omega arith);
  })
