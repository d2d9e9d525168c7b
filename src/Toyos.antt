-- ===== src/Toyos.antt =====
-- toyos/Kernel/Arch/riscv/sbi.cpp and sbi.h: the calls of the kernel to the SBI firmware. The
-- firmware is a parameter, a function from the registers of `ecall` and its own state to a0 and a1
-- and its state after the call.
pub mod Printk
mod Tests
use project_base_learning.Base.{ℕ, ◌+◌, ◌-◌, ◌*◌, ◌%◌, ◌^◌, ltb, if◌then◌else◌, u32}

-- The seven registers that `ecall` reads, as `int` values: `uintptr_t` is `int` in this file.
pub record Registers : Type 0 where
  pub a0 : ℕ
  pub a1 : ℕ
  pub a2 : ℕ
  pub a3 : ℕ
  pub a4 : ℕ
  pub a6 : ℕ
  pub a7 : ℕ

abbrev pub Firmware : Type 0 → Type 0
Firmware F = Registers → F → (ℕ × ℕ) × F

-- Two values of type `long`.
pub record SbiRet : Type 0 where
  pub error : ℕ
  pub value : ℕ

-- The numbers of the calls.
abbrev pub sbi_ext_id_time : ℕ
sbi_ext_id_time = 0x5449_4d45

abbrev pub sbi_time_set_timer : ℕ
sbi_time_set_timer = 0

abbrev pub sbi_console_putchar_id : ℕ
sbi_console_putchar_id = 1

abbrev pub sbi_console_getchar_id : ℕ
sbi_console_getchar_id = 2

abbrev pub sbi_shutdown_id : ℕ
sbi_shutdown_id = 8

-- `int` to `long`, and `int` to `uint64_t`: the sign is extended.
abbrev pub sign_extend : ℕ → ℕ
sign_extend w = if ltb w (2 ^ 31) then w else w + (2 ^ 64 - 2 ^ 32)

module _ {F : Type 0} (ecall : Firmware F) where
  -- An argument of `SBICall` that is left out is 0.
  pub sbi_call : (arg7 arg6 arg0 arg1 arg2 arg3 arg4 : ℕ) → F → SbiRet × F
  sbi_call arg7 arg6 arg0 arg1 arg2 arg3 arg4 f =
      let ((a0, a1), f') =
        ecall
          (record {
            a0 = u32 arg0;
            a1 = u32 arg1;
            a2 = u32 arg2;
            a3 = u32 arg3;
            a4 = u32 arg4;
            a6 = u32 arg6;
            a7 = u32 arg7;
          })
          f in
      (record { error = sign_extend (u32 a0); value = sign_extend (u32 a1) }, f')

  pub sbi_console_putchar : ℕ → F → F
  sbi_console_putchar ch f = (sbi_call sbi_console_putchar_id 0 (sign_extend ch) 0 0 0 0 f).1

  -- An `int`.
  pub sbi_console_getchar : F → ℕ × F
  sbi_console_getchar f =
      let (ret, f') = sbi_call sbi_console_getchar_id 0 0 0 0 0 0 f in (u32 ret.error, f')

  pub sbi_set_timer : ℕ → F → F
  sbi_set_timer val f = (sbi_call sbi_ext_id_time sbi_time_set_timer val 0 0 0 0 f).1

  pub sbi_shutdown : F → F
  sbi_shutdown f = (sbi_call sbi_shutdown_id 0 0 0 0 0 0 f).1
