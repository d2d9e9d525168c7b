-- ===== src/Elephant/Start/Boot.antt =====
-- What main does between the loader and its idle loop.
use Prim.Native.String.{String}
use project_base_learning.Base.{
  ℕ, zero, suc, ap, List, [], ◌∷◌, ◌+◌, ◌*◌, ◌/◌, ◌%◌, ◌^◌, ◌<◌, ◌≤◌, ◌≡◌, arith, ◌∙◌, Mem, ok, ltb,
  if◌then◌else◌,
}
use project_base_learning.Elephant.Bitmap.View.{bit_at, IsFree}
use project_base_learning.Elephant.Memory.{
  Globals, mem_init, get_kernel_pages, malloc_page, pf_kernel, k_heap_start,
}
use project_base_learning.Elephant.Memory.Layout.{IsLaidOut, free_pages}
use project_base_learning.Elephant.Memory.Initial.{
  IsLoaded, IsInitial, mem_init-IsInitial, IsPlaced-initial, IsRange-initial,
}
use project_base_learning.Elephant.Memory.Pages.{
  IsAllocated, range_address, malloc_page-IsAllocated, get_kernel_pages-malloc_page,
}
use project_base_learning.Elephant.Memory.Pages.Count.{free_count, free_count-IsFree}
use project_base_learning.Elephant.Memory.Pages.Ready.{IsReady, bits_of}
use project_base_learning.Elephant.Interrupt.{
  Machine, outb, idt_init, idt_desc_cnt, intr_off, intr_get_status,
}
use project_base_learning.Elephant.Interrupt.Table.{IsInitialised, idt_init-IsInitialised}
use project_base_learning.Elephant.Interrupt.Status.{intr_disable-off}
use project_base_learning.Elephant.Timer.{timer_init}
use project_base_learning.Elephant.Start.{System, out_all, init_all, main, panic_spin}

-- The kernel as `main` leaves it for its idle loop.
pub record IsStarted (entries : ℕ → ℕ) (idt_address all_mem : ℕ) (g : Globals) (s s' : System)
    : Type 0 where
  pub layout : IsLaidOut all_mem g
  pub table : IsInitialised entries idt_address s.machine s'.machine
  pub ready : IsReady g.kernel_pool s'.memory
  pub addresses :
      (j : ℕ)
      → j < g.kernel_vaddr.vaddr_bitmap.btmp_bytes_len * 8
      → bit_at g.kernel_vaddr.vaddr_bitmap s'.memory j ≡ (if ltb j 3 then 1 else 0)
  pub pages :
      free_count g.kernel_pool.pool_bitmap s'.memory (bits_of g.kernel_pool) + 3
      ≡ bits_of g.kernel_pool
  pub user_free : IsFree g.user_pool.pool_bitmap s'.memory 0 (bits_of g.user_pool)

-- Writes to ports leave the table as it is.
IsInitialised-ports :
    (writes : List (ℕ × ℕ)) (entries : ℕ → ℕ) (idt_address : ℕ) (s s' : Machine)
    → IsInitialised entries idt_address s s'
    → IsInitialised entries idt_address s (out_all writes s')
IsInitialised-ports [] entries idt_address s s' table = table
IsInitialised-ports ((port, value) ∷ rest) entries idt_address s s' table =
    IsInitialised-ports rest entries idt_address s (outb port value s') (record {
      targets = table.targets;
      gates = table.gates;
      handlers = table.handlers;
      beyond = table.beyond;
      limit = table.limit;
      base = table.base;
      eflags = table.eflags;
    })

-- The first allocation after mem_init: three pages of a pool of eight or more, all of them free.
module _ (all_mem : ℕ) (g : Globals) (m m1 : Mem) (initial : IsInitial all_mem g m m1)
    (some_pages : 16 ≤ free_pages all_mem % 2 ^ 16) where
  abbrev layout : IsLaidOut all_mem g
  layout = initial.layout

  all_free : free_count g.kernel_pool.pool_bitmap m1 (bits_of g.kernel_pool) ≡ bits_of g.kernel_pool
  all_free =
      free_count-IsFree g.kernel_pool.pool_bitmap m1 (bits_of g.kernel_pool) initial.kernel_free

  three_free : IsFree g.kernel_vaddr.vaddr_bitmap m1 0 3
  three_free i lo hi =
      initial.addresses_free i lo (omega (arith, layout.same_length, layout.kernel_pages))

  first_pages :
      (m2 : Mem) × (get_kernel_pages g 3 m1 ≡ ok k_heap_start m2) × IsAllocated g 0 3 m1 m2
  first_pages =
      let (start, m2, runs, allocated) =
        malloc_page-IsAllocated g 3 m1 (IsPlaced-initial all_mem g layout)
          (IsRange-initial all_mem g layout) initial.ready (omega arith) (omega arith)
          (omega (arith, all_free, layout.kernel_pages)) 0
          (omega (arith, layout.same_length, layout.kernel_pages)) three_free in
      at_start start m2 runs allocated
    where
      at_start :
          (start : ℕ) (m2 : Mem)
          → malloc_page g pf_kernel 3 m1 ≡ ok (range_address g start) m2
          → IsAllocated g start 3 m1 m2
          → (m2 : Mem) × (get_kernel_pages g 3 m1 ≡ ok k_heap_start m2) × IsAllocated g 0 3 m1 m2
      at_start zero m2 runs allocated = (
        m2,
        get_kernel_pages-malloc_page g 3 m1
            ∙ runs
            ∙ ap (λ a. ok a m2) (omega (arith, layout.heap_start)),
        allocated,
      )
      at_start (suc start) m2 runs allocated = absurd (allocated.first 0 (omega arith) three_free)

  user_kept :
      (m2 : Mem)
      → IsAllocated g 0 3 m1 m2
      → IsFree g.user_pool.pool_bitmap m2 0 (bits_of g.user_pool)
  user_kept m2 allocated i lo hi = ground (
    arith,
    initial.user_free i,
    allocated.others (g.user_pool.pool_bitmap.bits + i / 8),
    layout.user_behind,
    layout.vaddr_behind,
    layout.bits_end,
  )

main_runs :
    (entries : ℕ → ℕ) (idt_address : ℕ) (s : System) (g : Globals) (m1 m2 : Mem)
    → mem_init s.memory ≡ ok g m1
    → get_kernel_pages g 3 m1 ≡ ok k_heap_start m2
    → main entries idt_address s
      ≡ ok
          (g, k_heap_start)
          (record {
            machine = out_all timer_init (idt_init entries idt_address s.machine);
            memory = m2;
          })
unfolding main init_all
main_runs entries idt_address s g m1 m2 initialises allocates = rw (initialises, allocates)

-- From the state that the loader leaves, with at least sixteen free pages (as the code counts them,
-- modulo 65536), `main` reaches its idle loop: it does not halt, prints the start of the kernel's
-- heap as the address of its three pages, and leaves the interrupt table initialised, the pools
-- laid out, exactly the first three addresses of the heap reserved, all but three pages of the
-- kernel pool and every page of the user pool free, and the kernel pool ready for more.
pub main-IsStarted :
    (entries : ℕ → ℕ) (idt_address all_mem : ℕ) (s : System)
    → ((v : ℕ) → v < idt_desc_cnt → entries v < 2 ^ 32)
    → idt_address < 2 ^ 32
    → IsLoaded all_mem s.memory
    → 16 ≤ free_pages all_mem % 2 ^ 16
    → (g : Globals) × (s' : System) × (main entries idt_address s ≡ ok (g, k_heap_start) s')
      × IsStarted entries idt_address all_mem g s s'
main-IsStarted entries idt_address all_mem s fits address loaded some_pages =
    let (g, m1, initialises, initial) = mem_init-IsInitial all_mem s.memory loaded in
    let (m2, allocates, allocated) = first_pages all_mem g s.memory m1 initial some_pages in
    let table = idt_init-IsInitialised entries idt_address s.machine fits address in
    let machine = out_all timer_init (idt_init entries idt_address s.machine) in
    (
      g,
      record { machine = machine; memory = m2 },
      main_runs entries idt_address s g m1 m2 initialises allocates,
      record {
        layout = initial.layout;
        table = IsInitialised-ports timer_init entries idt_address s.machine _ table;
        ready = allocated.ready;
        addresses = λ j lt. ground (arith, allocated.reserved j, initial.addresses_free j);
        pages = allocated.taken ∙ all_free all_mem g s.memory m1 initial some_pages;
        user_free = user_kept all_mem g s.memory m1 initial some_pages m2 allocated;
      },
    )

-- `panic_spin` spins with interrupts off.
pub panic_spin-off :
    (filename : String) (line : ℕ) (function condition : String) (s : Machine)
    → s.eflags < 2 ^ 32
    → intr_get_status (panic_spin filename line function condition s).0 ≡ intr_off
unfolding panic_spin
panic_spin-off filename line function condition s fits = intr_disable-off s fits
