-- ===== src/Elephant/Interrupt/Table.antt =====
-- The interrupt descriptor table and the handlers after idt_init.
use project_base_learning.Base.{
  update, ℕ, zero, suc, ◌+◌, ◌-◌, ◌*◌, ◌/◌, ◌%◌, ◌^◌, ◌<◌, ◌≤◌, ◌≡◌, refl, arith, leb, ltb, ◌&&◌,
  if◌then◌else◌, u32,
}
use project_base_learning.Base.Bits.{bit_and_high, bit_and_low, bit_or_fields}
use project_base_learning.Elephant.Interrupt.{
  Machine, GateDesc, general, idt_desc_cnt, idt_desc_attr_dpl0, make_idt_desc, idt_desc_loop,
  idt_desc_init, exception_loop, register_default, exception_init, pic_init, idt_init,
}

-- The address to which the processor goes through a gate.
abbrev pub gate_target : GateDesc → ℕ
gate_target d = d.func_offset_low_word + d.func_offset_high_word * 2 ^ 16

-- The two halves that `make_idt_desc` stores are words, and together the address of the function.
pub make_idt_desc-gate_target :
    (attr function : ℕ)
    → function < 2 ^ 32
    → (gate_target (make_idt_desc attr function) ≡ function)
      × ((make_idt_desc attr function).func_offset_low_word < 2 ^ 16)
      × ((make_idt_desc attr function).func_offset_high_word < 2 ^ 16)
unfolding make_idt_desc
make_idt_desc-gate_target attr function fits = ground (
  arith,
  bit_and_low 16 (function / 2 ^ 16) (function % 2 ^ 16),
  bit_and_high 16 (function / 2 ^ 16) (function % 2 ^ 16) 0xffff,
  bit_and_low 16 0 (function / 2 ^ 16),
)

idt_desc_loop_lem :
    (entries : ℕ → ℕ) (left i : ℕ) (idt : ℕ → GateDesc) (j : ℕ)
    → idt_desc_loop entries left i idt j ≡ (
        if leb i j && ltb j (i + left) then make_idt_desc idt_desc_attr_dpl0 (entries j) else idt j)
unfolding idt_desc_loop
idt_desc_loop_lem entries zero i idt j = ground arith
idt_desc_loop_lem entries (suc left) i idt j = ground (
  arith,
  idt_desc_loop_lem entries left (i + 1)
      (update idt i (make_idt_desc idt_desc_attr_dpl0 (entries i))) j,
)

exception_loop_handlers :
    (left i : ℕ) (s : Machine) (j : ℕ)
    → (exception_loop left i s).idt_table j
      ≡ (if leb i j && ltb j (i + left) then general else s.idt_table j)
unfolding exception_loop
exception_loop_handlers zero i s j = ground arith
exception_loop_handlers (suc left) i s j =
    ground (arith, exception_loop_handlers left (i + 1) (register_default i s) j)

exception_loop_rest :
    (left i : ℕ) (s : Machine)
    → ((exception_loop left i s).idt ≡ s.idt)
      × ((exception_loop left i s).eflags ≡ s.eflags)
      × ((exception_loop left i s).ports ≡ s.ports)
unfolding exception_loop
exception_loop_rest zero i s = (refl, refl, refl)
exception_loop_rest (suc left) i s = exception_loop_rest left (i + 1) (register_default i s)

-- The table after `idt_init`.
pub record IsInitialised (entries : ℕ → ℕ) (idt_address : ℕ) (s s' : Machine) : Type 0 where
  pub targets : (v : ℕ) → v < idt_desc_cnt → gate_target (s'.idt v) ≡ entries v
  pub gates :
      (v : ℕ)
      → v < idt_desc_cnt
      → ((s'.idt v).selector ≡ 8) × ((s'.idt v).attribute ≡ 0x8e) × ((s'.idt v).dcount ≡ 0)
  pub handlers : (v : ℕ) → v < idt_desc_cnt → s'.idt_table v ≡ general
  pub beyond : (v : ℕ) → idt_desc_cnt ≤ v → (s'.idt v ≡ s.idt v) × (s'.idt_table v ≡ s.idt_table v)
  pub limit : s'.idtr % 2 ^ 16 ≡ idt_desc_cnt * 8 - 1
  pub base : s'.idtr / 2 ^ 16 ≡ idt_address
  pub eflags : s'.eflags ≡ s.eflags

-- `idt_init` points each of the 33 gates at its entry of kernel.S, present and for ring 0, gives
-- every vector the general handler, leaves the rest of both tables and eflags as they were, and
-- loads the table's length and address.
pub idt_init-IsInitialised :
    (entries : ℕ → ℕ) (idt_address : ℕ) (s : Machine)
    → ((v : ℕ) → v < idt_desc_cnt → entries v < 2 ^ 32)
    → idt_address < 2 ^ 32
    → IsInitialised entries idt_address s (idt_init entries idt_address s)
unfolding idt_init pic_init exception_init idt_desc_init
idt_init-IsInitialised entries idt_address s fits address = record {
  targets = λ v lt.
      rw (filled v lt) (make_idt_desc-gate_target idt_desc_attr_dpl0 (entries v) (fits v lt)).0;
  gates = λ v lt. rw (filled v lt) (unfold make_idt_desc in (refl, refl, refl));
  handlers =
      λ v lt. ground (arith, exception_loop_handlers idt_desc_cnt 0 (idt_desc_init entries s) v);
  beyond = λ v le. (
    ground (
      arith,
      (exception_loop_rest idt_desc_cnt 0 (idt_desc_init entries s)).0,
      idt_desc_loop_lem entries idt_desc_cnt 0 s.idt v,
    ),
    ground (arith, exception_loop_handlers idt_desc_cnt 0 (idt_desc_init entries s) v),
  );
  limit = omega (arith, bit_or_fields 16 263 (u32 idt_address) (omega arith));
  base = omega (arith, bit_or_fields 16 263 (u32 idt_address) (omega arith));
  eflags = (exception_loop_rest idt_desc_cnt 0 (idt_desc_init entries s)).1;
}
  where
    filled :
        (v : ℕ)
        → v < idt_desc_cnt
        → (idt_init entries idt_address s).idt v ≡ make_idt_desc idt_desc_attr_dpl0 (entries v)
    filled v lt = ground (
      arith,
      (exception_loop_rest idt_desc_cnt 0 (idt_desc_init entries s)).0,
      idt_desc_loop_lem entries idt_desc_cnt 0 s.idt v,
    )
