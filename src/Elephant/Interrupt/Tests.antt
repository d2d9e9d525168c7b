-- ===== src/Elephant/Interrupt/Tests.antt =====
-- A machine with an empty table, and with interrupts enabled.
use project_base_learning.Base.{ℕ, ◌+◌, ◌*◌, ◌%◌, ◌≡◌, refl, arith, []}
use project_base_learning.Elephant.Interrupt.{
  Machine, GateDesc, unset, intr_off, intr_on, idt_init, general_intr_handler,
}
use project_base_learning.Elephant.Interrupt.Nested.{nothing, section, run, run-restores}
use project_base_learning.Elephant.Interrupt.Table.{IsInitialised, idt_init-IsInitialised}

abbrev empty_gate : GateDesc
empty_gate = record {
  func_offset_low_word = 0;
  selector = 0;
  dcount = 0;
  attribute = 0;
  func_offset_high_word = 0;
}

abbrev machine : Machine
machine = record {
  idt = λ v. empty_gate;
  intr_name = λ v. "";
  idt_table = λ v. unset;
  eflags = 0x202;
  idtr = 0;
  ports = [];
}

abbrev entries : ℕ → ℕ
entries v = 0xc000_1500 + v % 256 * 16

spurious : general_intr_handler 0x27 ≡ []
unfolding general_intr_handler
spurious = refl

idt_init-IsInitialised_example :
    IsInitialised entries 0xc000_5000 machine (idt_init entries 0xc000_5000 machine)
idt_init-IsInitialised_example =
    idt_init-IsInitialised entries 0xc000_5000 machine (λ v lt. omega arith) (omega arith)

run-restores_example :
    run
      (section intr_off (section intr_on nothing nothing) (section intr_off nothing nothing))
      machine
    ≡ machine
run-restores_example =
    run-restores
      (section intr_off (section intr_on nothing nothing) (section intr_off nothing nothing))
      machine (omega arith)
