-- ===== src/Lib.antt =====
-- A formal model of the programs of project_base_learning: the os-elephant kernel, the tptfs stackable
-- filesystem and the toyos kernel.
--
-- os-elephant is a 32-bit kernel for i386.
-- - Elephant/Str: os-elephant/lib/string.c. memset, memcpy, memcmp, strcpy, strlen, strcmp, strchr,
--   strrchr, strcat and strchrs on a flat memory of bytes. `char` is signed, as gcc has it on i386.
-- - Elephant/Bitmap: os-elephant/lib/kernel/bitmap.c. bitmap_init, bitmap_scan_test, bitmap_scan with its
--   three loops (full_bytes_loop, used_bits_loop, run_loop) and bitmap_set.
-- - Elephant/Memory: os-elephant/kernel/memory.c. mem_pool_init (pool_layout is its arithmetic), mem_init,
--   pde_ptr, pte_ptr, vaddr_get, palloc, page_table_add, malloc_page and get_kernel_pages. The global
--   structs kernel_pool, user_pool and kernel_vaddr are the record Globals.
-- - Elephant/Interrupt: os-elephant/kernel/interrupt.c. The descriptor table, the handlers, the writes to
--   the 8259A, and the interrupt flag.
-- - Elephant/Timer: os-elephant/device/timer.c, and in Reload what the 8253 does with the bytes
--   written to it. Elephant/Thread: os-elephant/thread/thread.c.
-- - Elephant/Start: os-elephant/kernel/init.c, main.c and debug.c. init_all and main on the machine and the
--   memory together (System), up to the idle loop, and panic_spin up to its loop.
--
-- tptfs is a FreeBSD filesystem that stacks on another one: each of its vnodes is an alias of a lower vnode.
-- - Tptfs: tptfs/tpt.h. The vnodes, nodes and mounts are the record Store, with pointers as numbers. The
--   FreeBSD kernel is a parameter, a function from a call and a store to its answer and the store after
--   the call, in which other threads may have run. A run keeps the list of its calls, and Tptfs/Tally
--   counts those that take or release references, holds and locks. Fields that are flags are Booleans.
--   The kernel is one without DIAGNOSTIC and INVARIANTS, so that KASSERT and the like do nothing.
-- - Tptfs/NodeCache: tptfs/tpt_subr.c. tpt_hashget, tpt_hashins, tpt_hashrem and tpt_nodeget, which is cut
--   into nodeget_found, nodeget_upgrade, nodeget_create, nodeget_fill, nodeget_queue, nodeget_enter,
--   nodeget_pgread and nodeget_insert, each the end of the function from one point on. NodeCache/Map has
--   the abstract map that the lists of the hash stand for.
-- - Tptfs/Bypass, Access, Names, Lock and Reclaim: tptfs/tpt_vnops.c. The descriptor of an operation, which
--   FreeBSD generates, is part of its arguments (Args). Removal puts tpt_remove and tpt_inactive together.
-- - Tptfs/Vfsops: tptfs/tpt_vfsops.c. Reclaim has its tptfs_reclaim_lowervp and tptfs_unlink_lowervp.
--   Passed has the operations that go on to the mount below; there FreeBSD's macro of the operation is an
--   argument. Where that mount is one of tptfs, vfs_statfs_of and the like stand for the macro: they call
--   the function of the table tpt_vfsops, with fuel for the depth of the calls. What VFS_STATFS puts into
--   the buffer before that call is a parameter (`prepare`).
-- - Tptfs/Table: the tables tpt_vnodeops and tpt_vfsops, an operation as a value and the function that runs
--   for it.
-- - Tptfs/Invariant: the operations of the tables as a step relation on the states of the layer, with steps
--   of the kernel and of other threads in between, and what is reachable by it from tptfs_init.
--
-- toyos is a kernel for RISC-V in C++.
-- - Toyos: toyos/Kernel/Arch/riscv/sbi.cpp and sbi.h. The firmware behind `ecall` is a parameter.
-- - Toyos/Printk: toyos/Library/libc/printk.cpp and toyos/Kernel/Arch/riscv/KernelMain.cpp. vsprintf and
--   strlen are parameters, since they are copied from SimpleKernel.
--
-- memory.c calls bitmap.c, which calls string.c; all of them change one memory, a function from addresses
-- to bytes. A function that reads or writes it is a command: a function from the memory to a result and a
-- memory, or to `panic`, where an ASSERT of os-elephant/kernel/debug.h fails and panic_spin stops the
-- kernel for good, or to `out_of_fuel`. Addresses are natural numbers; C leaves pointer arithmetic past
-- the end of memory undefined. Values of `uint8_t`, `uint16_t` and `uint32_t` wrap by `% 2 ^ w`.
-- The memory translation of the processor is not modelled: a page table is the window at 0xffc00000 where
-- the kernel sees it, and memory is flat. So the page table that the loader names in both directory entries
-- 0 and 768 stands in two windows, which the processor would show as the same words, and a window page
-- without a directory entry reads as memory, where the processor would raise a page fault.
--
-- Fuel: string loops take one unit for each byte that they read, and the theorems hold for every fuel
-- above the length of the string; bitmap_scan gives its first loop one unit more than the bitmap has bytes
-- and its second loop nine, and the theorems say that they return. The two loops of tptfs_unmount wait for
-- other threads and have fuel as an argument: without force one round is enough, and with force one round
-- more than the mount has vnodes.
--
-- Not modelled: the assembly files and what they print, the machine's instructions but for sti, cli, lidt,
-- out and ecall, and the boot loader, whose page tables are a hypothesis on the memory (IsLoaded); of tptfs
-- the dispatch on the table tpt_vnodeops, which FreeBSD generates, and what tptfs_mount prints; of toyos
-- the C library of SimpleKernel (vsprintf.cpp, string.cpp), riscvreg.h, which is FreeBSD's, boot.S and the
-- files that CMake generates.
pub mod Base
pub mod Elephant
pub mod Toyos
pub mod Tptfs
