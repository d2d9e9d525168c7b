-- ===== src/Elephant/Start.antt =====
-- os-elephant/kernel/init.c, main.c and debug.c: the start of the kernel, on the machine and the
-- memory together. What the functions print is left out, but for what panic_spin prints.
pub mod Boot
mod Tests
use Prim.Native.String.{String}
use project_base_learning.Base.{
  ℕ, List, [], ◌∷◌, Run, Cmd, pure, panic, ok, out_of_fuel, ◌>>=◌, ◌>>◌, modify, Mem,
}
use project_base_learning.Elephant.Memory.{Globals, mem_init, get_kernel_pages}
use project_base_learning.Elephant.Interrupt.{
  Machine, Output, text, hex, outb, idt_init, intr_disable,
}
use project_base_learning.Elephant.Timer.{timer_init}

pub record System : Type 0 where
  pub machine : Machine
  pub memory : Mem

-- A function that changes the machine alone, and a command on the memory alone.
abbrev pub on_machine : (Machine → Machine) → Cmd System (Unit {0})
on_machine f = modify λ s. record s { machine = f s.machine }

abbrev pub with_memory : {A : Type 0} → System → Run Mem A → Run System A
with_memory s (ok a m) = ok a (record s { memory = m })
with_memory s panic = panic
with_memory s out_of_fuel = out_of_fuel

abbrev pub on_memory : {A : Type 0} → Cmd Mem A → Cmd System A
on_memory c s = with_memory s (c s.memory)

-- The writes to ports in order.
abbrev pub out_all : List (ℕ × ℕ) → Machine → Machine
out_all [] s = s
out_all ((port, value) ∷ rest) s = out_all rest (outb port value s)

-- The entry points of kernel.S and the address of the descriptor table are those of `idt_init`.
pub init_all : (entries : ℕ → ℕ) (idt_address : ℕ) → Cmd System Globals
init_all entries idt_address = do
  on_machine (idt_init entries idt_address)
  on_machine (out_all timer_init)
  on_memory mem_init

-- Until `while (1)`, where it stays: the pools and the address that it prints.
pub main : (entries : ℕ → ℕ) (idt_address : ℕ) → Cmd System (Globals × ℕ)
main entries idt_address = do
  g ← init_all entries idt_address
  addr ← on_memory (get_kernel_pages g 3)
  pure (g, addr)

-- Until `while (1)`: the machine in which it stays, and what it prints.
pub panic_spin :
    (filename : String) (line : ℕ) (function condition : String) → Machine → Machine × List Output
panic_spin filename line function condition s = (
  (intr_disable s).0,
  text "\n\n\n!!!!! error !!!!!\n"
      ∷ text "filename:"
      ∷ text filename
      ∷ text "\n"
      ∷ text "line:0x"
      ∷ hex line
      ∷ text "\n"
      ∷ text "function:"
      ∷ text function
      ∷ text "\n"
      ∷ text "condition:"
      ∷ text condition
      ∷ text "\n"
      ∷ [],
)
