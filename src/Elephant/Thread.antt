-- ===== src/Elephant/Thread.antt =====
-- os-elephant/thread/thread.c and thread.h, on a flat memory. The process control block begins with
-- `self_kstack`; a `struct intr_stack` has 19 words, a `struct thread_stack` 8, `eip` the fifth of
-- them, `function` the seventh and `func_arg` the eighth.
pub mod Frame
mod Tests
use project_base_learning.Base.{ℕ, ◌+◌, ◌*◌, ◌-◌, ◌%◌, ◌^◌, sub32, u32, Cmd, Mem}
use project_base_learning.Elephant.Memory.{get32, put32}

abbrev pub sizeof_intr_stack : ℕ
sizeof_intr_stack = 19 * 4

abbrev pub sizeof_thread_stack : ℕ
sizeof_thread_stack = 8 * 4

-- A call through a pointer is a parameter: what the function at an address does with its argument.
pub kernel_thread :
    (call : (function func_arg : ℕ) → Cmd Mem (Unit {0}))
    → (function func_arg : ℕ) → Cmd Mem (Unit {0})
kernel_thread call function func_arg = call function func_arg

-- `pthread->self_kstack -= n` steps by words, since the pointer is a `uint32_t*`.
abbrev pub drop_words : ℕ → ℕ → Mem → Mem
drop_words pthread n m = put32 pthread (sub32 (get32 m pthread) (n * 4)) m

-- Its first argument is the address of `kernel_thread`.
pub thread_create : (kernel_thread_address pthread function func_arg : ℕ) → Mem → Mem
thread_create kernel_thread_address pthread function func_arg m =
    let m1 = drop_words pthread sizeof_intr_stack m in
    let m2 = drop_words pthread sizeof_thread_stack m1 in
    let kthread_stack = get32 m2 pthread in
    let m3 = put32 (kthread_stack + 16) kernel_thread_address m2 in
    put32 (kthread_stack + 24) function m3
