-- ===== src/Toyos/Printk/Console.antt =====
-- What printk sends to the console, and what the timer call cannot say.
use project_base_learning.Base.{
  ℕ, zero, suc, ◌+◌, ◌%◌, ◌^◌, ◌<◌, ◌≡◌, refl, sym, ap, ◌∙◌, arith, u32, List, [], ◌∷◌, ◌++◌, Mem,
  IsBytes,
}
use mathlib.Core.List.{append-nil, append_assoc}
use project_base_learning.Elephant.Str.Find.{IsString}
use project_base_learning.Toyos.{Firmware, Registers, sbi_call, sbi_console_putchar, sbi_set_timer}
use project_base_learning.Toyos.Printk.{LibC, rounds, putchar_loop, printk}

-- The firmware has a console: call 1 appends the low byte of a0 to what it shows.
abbrev pub IsConsole : {F : Type 0} → Firmware F → (F → List ℕ) → Type 0
IsConsole ecall shown =
    (r : Registers) (f : _) → r.a7 ≡ 1 → shown (ecall r f).1 ≡ shown f ++ r.a0 % 256 ∷ []

-- What strlen is documented to return, as a 32-bit `size_t`.
abbrev pub IsLength : (ℕ → Mem → ℕ) → Type 0
IsLength strlen = (a n : ℕ) (m : Mem) → n < 2 ^ 32 → IsString m a n → strlen a m ≡ n

-- The `n` bytes of the buffer at `buf` from index `i` on.
pub chars_at : Mem → (buf i n : ℕ) → List ℕ
chars_at m buf i zero = []
chars_at m buf i (suc n) = m (buf + i) ∷ chars_at m buf (i + 1) n

module _ {F : Type 0} (ecall : Firmware F) (shown : F → List ℕ)
    (console : IsConsole ecall shown) where
  putchar-shown :
      (ch : ℕ) (f : F) → ch < 256 → shown (sbi_console_putchar ecall ch f) ≡ shown f ++ ch ∷ []
  unfolding sbi_console_putchar sbi_call
  putchar-shown ch f small = console _ f refl ∙ ap (λ c. shown f ++ c ∷ []) (ground arith)

  loop-shown :
      (buf : ℕ) (m : Mem) (left i : ℕ) (f : F)
      → IsBytes m
      → shown (putchar_loop ecall buf m left i f) ≡ shown f ++ chars_at m buf i left
  unfolding putchar_loop chars_at
  loop-shown buf m zero i f bytes = sym (append-nil (shown f))
  loop-shown buf m (suc left) i f bytes =
      loop-shown buf m left (i + 1) _ bytes
      ∙ ap (λ l. l ++ chars_at m buf (i + 1) left) (putchar-shown (m (buf + i)) f (bytes _))
      ∙ append_assoc (shown f) (m (buf + i) ∷ []) _

  -- Whatever `vsprintf` leaves in the buffer, a string of fewer than 2 ^ 31 bytes, `printk` shows
  -- exactly these bytes on the console, in order, and returns the result of `vsprintf`. Conditions:
  -- call 1 of the firmware appends a byte to the console, and `strlen` returns the length.
  pub printk-shown :
      (libc : LibC) (buf fmt : ℕ) (args : List ℕ) (m : Mem) (f : F) (ret n : ℕ) (m' : Mem)
      → IsLength libc.strlen
      → libc.vsprintf buf fmt args m ≡ (ret, m')
      → IsBytes m'
      → IsString m' buf n
      → n < 2 ^ 31
      → (f' : F) × (printk ecall libc buf fmt args m f ≡ (ret, m', f'))
        × (shown f' ≡ shown f ++ chars_at m' buf 0 n)
  printk-shown libc buf fmt args m f ret n m' length formats bytes is_string fits =
      let same : rounds (u32 (libc.strlen buf m')) ≡ n =
        ground (arith, length buf n m' (omega arith) is_string) in
      (
        putchar_loop ecall buf m' n 0 f,
        unfold printk in rw (formats, same),
        loop-shown buf m' n 0 f bytes,
      )

-- The firmware cannot tell `sbi_set_timer val` from a call with another value of the same low 32
-- bits: a time of 2 ^ 32 or more never reaches it.
pub sbi_set_timer-low :
    {F : Type 0} (ecall : Firmware F) (val val' : ℕ) (f : F)
    → val % 2 ^ 32 ≡ val' % 2 ^ 32
    → sbi_set_timer ecall val f ≡ sbi_set_timer ecall val' f
unfolding sbi_set_timer sbi_call
sbi_set_timer-low ecall val val' f same = rw (same)
