-- ===== src/Toyos/Printk.antt =====
-- toyos/Library/libc/printk.cpp and toyos/Kernel/Arch/riscv/KernelMain.cpp. vsprintf and strlen,
-- which come from SimpleKernel, are parameters. `char` is unsigned, as gcc has it on RISC-V.
pub mod Console
use project_base_learning.Base.{
  ℕ, zero, suc, ◌+◌, ◌^◌, ltb, if◌then◌else◌, u32, List, [], ◌∷◌, Mem, write,
}
use project_base_learning.Toyos.{Firmware, sbi_console_putchar}

-- `vsprintf buf fmt args m` is its `int` result and the memory after the call.
pub record LibC : Type 0 where
  pub vsprintf : ℕ → ℕ → List ℕ → Mem → ℕ × Mem
  pub strlen : ℕ → Mem → ℕ

-- The rounds of `for (int i = 0; i < size; i++)`: none for a negative size.
abbrev pub rounds : ℕ → ℕ
rounds size = if ltb size (2 ^ 31) then size else 0

module _ {F : Type 0} (ecall : Firmware F) where
  -- The loop from `i` on, with `left` rounds to go.
  pub putchar_loop : (buf : ℕ) → Mem → (left i : ℕ) → F → F
  putchar_loop buf m zero i f = f
  putchar_loop buf m (suc left) i f =
      putchar_loop buf m left (i + 1) (sbi_console_putchar ecall (m (buf + i)) f)

  -- `buf` is the address of the static buffer of 1024 bytes.
  pub printk : LibC → (buf fmt : ℕ) → List ℕ → Mem → F → ℕ × Mem × F
  printk libc buf fmt args m f =
      let (ret, m') = libc.vsprintf buf fmt args m in
      let size = u32 (libc.strlen buf m') in (ret, m', putchar_loop buf m' (rounds size) 0 f)

-- The array that `char str[24] = "hello world!"` sets up: the bytes and zeros behind them.
abbrev pub hello_world : List ℕ
hello_world =
    104 ∷ 101 ∷ 108 ∷ 108 ∷ 111 ∷ 32 ∷ 119 ∷ 111 ∷ 114 ∷ 108 ∷ 100 ∷ 33 ∷ 0 ∷ 0 ∷ 0 ∷ 0 ∷ 0 ∷ 0 ∷ 0
    ∷ 0 ∷ 0 ∷ 0 ∷ 0 ∷ 0 ∷ []

unfoldable pub put_bytes : ℕ → List ℕ → Mem → Mem
put_bytes a [] m = m
put_bytes a (c ∷ rest) m = put_bytes (a + 1) rest (write m a c)

-- Until `while (1)`. `fmt` is the address of the constant "%s %d\n", `str` that of the array.
pub kernel_main : {F : Type 0} → Firmware F → LibC → (buf fmt str : ℕ) → Mem → F → ℕ × Mem × F
kernel_main ecall libc buf fmt str m f =
    printk ecall libc buf fmt (str ∷ 1024 ∷ []) (put_bytes str hello_world m) f
