-- ===== src/Elephant/Thread/Tests.antt =====
-- A thread whose control block stands at 5000, with its stack pointer at 1432.
use project_base_learning.Base.{inr, arith, Mem}
use project_base_learning.Elephant.Memory.{put32}
use project_base_learning.Elephant.Thread.{thread_create}
use project_base_learning.Elephant.Thread.Frame.{IsFrame, thread_create-IsFrame}
use project_base_learning.Elephant.Memory.Words.{get32-put32}

abbrev block : Mem
block = put32 5000 1432 (λ a. 7)

thread_create-IsFrame_example :
    IsFrame 0xc000_2000 5000 0xc000_3000 1000 block
      (thread_create 0xc000_2000 5000 0xc000_3000 99 block)
thread_create-IsFrame_example =
    thread_create-IsFrame 0xc000_2000 5000 0xc000_3000 99 1000 block (omega arith) (omega arith)
      (get32-put32 5000 1432 (λ a. 7) (omega arith)) (omega arith) (inr (omega arith))
