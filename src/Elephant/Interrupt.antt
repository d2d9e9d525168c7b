-- ===== src/Elephant/Interrupt.antt =====
-- os-elephant/kernel/interrupt.c and interrupt.h: the descriptor table, the handlers, the 8259A and
-- the interrupt flag. The entry points of kernel.S are a parameter. What the code writes to ports
-- and prints is kept as a list.
pub mod Status
pub mod Nested
pub mod Table
mod Tests
use Prim.Native.String.{String}
use project_base_learning.Base.{
  ℕ, zero, suc, ◌+◌, ◌-◌, ◌*◌, ◌/◌, ◌%◌, ◌^◌, Bool, true, false, not, ◌&&◌, ◌||◌, ltb, ◌==◌,
  if◌then◌else◌, update, List, [], ◌∷◌, ◌++◌, u8, u16, u32, bit_and, bit_or,
}

abbrev pub idt_desc_cnt : ℕ
idt_desc_cnt = 0x21

abbrev pub eflags_if : ℕ
eflags_if = 0x200

-- kernel/global.h: `SELECTOR_K_CODE` and `IDT_DESC_ATTR_DPL0`.
abbrev pub selector_k_code : ℕ
selector_k_code = 1 * 2 ^ 3 + 0 * 2 ^ 2 + 0

abbrev pub idt_desc_attr_dpl0 : ℕ
idt_desc_attr_dpl0 = 1 * 2 ^ 7 + 0 * 2 ^ 5 + 0xe

pub record GateDesc : Type 0 where
  pub func_offset_low_word : ℕ
  pub selector : ℕ
  pub dcount : ℕ
  pub attribute : ℕ
  pub func_offset_high_word : ℕ

pub data IntrStatus : Type 0 where
  intr_off intr_on : IntrStatus

pub data Output : Type 0 where
  text : String → Output
  hex : ℕ → Output
  char : ℕ → Output

-- A handler registered in `idt_table`: `none` is what an array holds before it is filled.
pub data Handler : Type 0 where
  unset general : Handler

-- The globals of the file and the parts of the machine that it drives: eflags, the register that
-- `lidt` loads and the writes to ports, first to last.
pub record Machine : Type 0 where
  pub idt : ℕ → GateDesc
  pub intr_name : ℕ → String
  pub idt_table : ℕ → Handler
  pub eflags : ℕ
  pub idtr : ℕ
  pub ports : List (ℕ × ℕ)

-- lib/kernel/io.h
abbrev pub outb : ℕ → ℕ → Machine → Machine
outb port value s = record s { ports = s.ports ++ (port, value) ∷ [] }

unfoldable pub pic_init : Machine → Machine
pic_init s =
    let s = outb 0x20 0x11 s in
    let s = outb 0x21 0x20 s in
    let s = outb 0x21 0x04 s in
    let s = outb 0x21 0x01 s in
    let s = outb 0xa0 0x11 s in
    let s = outb 0xa1 0x28 s in
    let s = outb 0xa1 0x02 s in
    let s = outb 0xa1 0x01 s in let s = outb 0x21 0xfe s in outb 0xa1 0xff s

pub make_idt_desc : ℕ → ℕ → GateDesc
make_idt_desc attr function = record {
  func_offset_low_word = bit_and function 0x0000_ffff;
  selector = selector_k_code;
  dcount = 0;
  attribute = attr;
  func_offset_high_word = bit_and function 0xffff_0000 / 2 ^ 16;
}

-- `for (i = 0; i < IDT_DESC_CNT; i++)`, with `left` rounds to go.
pub idt_desc_loop : (ℕ → ℕ) → ℕ → ℕ → (ℕ → GateDesc) → ℕ → GateDesc
idt_desc_loop entries zero i idt = idt
idt_desc_loop entries (suc left) i idt =
    idt_desc_loop entries left (i + 1) (update idt i (make_idt_desc idt_desc_attr_dpl0 (entries i)))

pub idt_desc_init : (ℕ → ℕ) → Machine → Machine
idt_desc_init entries s = record s { idt = idt_desc_loop entries idt_desc_cnt 0 s.idt }

-- What it prints: nothing for the spurious interrupts IRQ7 and IRQ15.
unfoldable pub general_intr_handler : ℕ → List Output
general_intr_handler vec_nr =
    if vec_nr == 0x27 || vec_nr == 0x2f
    then []
    else text "int vector: 0x" ∷ hex vec_nr ∷ char 10 ∷ []

abbrev pub register_default : ℕ → Machine → Machine
register_default i s = record s {
  idt_table = update s.idt_table i general;
  intr_name = update s.intr_name i "unknown";
}

pub exception_loop : ℕ → ℕ → Machine → Machine
exception_loop zero i s = s
exception_loop (suc left) i s = exception_loop left (i + 1) (register_default i s)

pub name_exceptions : (ℕ → String) → ℕ → String
name_exceptions f =
    let f = update f 0 "#DE Divide Error" in
    let f = update f 1 "#DB Debug Exception" in
    let f = update f 2 "NMI Interrupt" in
    let f = update f 3 "#BP Breakpoint Exception" in
    let f = update f 4 "#OF Overflow Exception" in
    let f = update f 5 "#BR BOUND Range Exceeded Exception" in
    let f = update f 6 "#UD Invalid Opcode Exception" in
    let f = update f 7 "#NM Device Not Available Exception" in
    let f = update f 8 "#DF Double Fault Exception" in
    let f = update f 9 "Coprocessor Segment Overrun" in
    let f = update f 10 "#TS Invalid TSS Exception" in
    let f = update f 11 "#NP Segment Not Present" in
    let f = update f 12 "#SS Stack Fault Exception" in
    let f = update f 13 "#GP General Protection Exception" in
    let f = update f 14 "#PF Page-Fault Exception" in
    let f = update f 16 "#MF x87 FPU Floating-Point Error" in
    let f = update f 17 "#AC Alignment Check Exception" in
    let f = update f 18 "#MC Machine-Check Exception" in
    update f 19 "#XF SIMD Floating-Point Exception"

pub exception_init : Machine → Machine
exception_init s =
    let s' = exception_loop idt_desc_cnt 0 s in
    record s' { intr_name = name_exceptions s'.intr_name }

-- `sti` and `cli`.
abbrev pub sti : Machine → Machine
sti s = record s { eflags = bit_or s.eflags eflags_if }

abbrev pub cli : Machine → Machine
cli s = record s { eflags = bit_and s.eflags (2 ^ 32 - 1 - eflags_if) }

pub intr_get_status : Machine → IntrStatus
intr_get_status s = if bit_and eflags_if s.eflags == 0 then intr_off else intr_on

pub intr_enable : Machine → Machine × IntrStatus
intr_enable s = elim (intr_get_status s) [ intr_on ↦ (s, intr_on) | intr_off ↦ (sti s, intr_off) ]

pub intr_disable : Machine → Machine × IntrStatus
intr_disable s = elim (intr_get_status s) [ intr_on ↦ (cli s, intr_on) | intr_off ↦ (s, intr_off) ]

-- `status & INTR_ON ? intr_enable() : intr_disable()`, with `INTR_ON` 1 and `INTR_OFF` 0.
pub intr_set_status : IntrStatus → Machine → Machine × IntrStatus
intr_set_status intr_on s = intr_enable s
intr_set_status intr_off s = intr_disable s

-- `lidt` of `(sizeof(idt) - 1) | (uint64_t)(uint32_t)idt << 16`, with 8 bytes to a descriptor.
pub idt_init : (entries : ℕ → ℕ) (idt_address : ℕ) → Machine → Machine
idt_init entries idt_address s =
    let s' = pic_init (exception_init (idt_desc_init entries s)) in
    record s' { idtr = bit_or (idt_desc_cnt * 8 - 1) (u32 idt_address * 2 ^ 16) }
