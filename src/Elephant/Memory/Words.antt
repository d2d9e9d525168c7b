-- ===== src/Elephant/Memory/Words.antt =====
-- 32-bit words in the memory, the flags of a page table entry, and the addresses of entries.
use project_base_learning.Base.{
  ℕ, ◌+◌, ◌*◌, ◌/◌, ◌%◌, ◌^◌, ◌<◌, ◌≡◌, ◌⊎◌, arith, Mem, IsBytes, bit_or, ◌==◌,
}
use project_base_learning.Base.Bits.{
  bit_and_high, bit_and_one, bit_and_1023, bit_or_high, bit_or_one,
}
use project_base_learning.Elephant.Memory.{
  get32, put32, pde_idx, pte_idx, pte_ptr, pde_ptr, entry, is_present,
}

pub get32-put32 : (a w : ℕ) (m : Mem) → w < 2 ^ 32 → get32 (put32 a w m) a ≡ w
unfolding get32 put32
get32-put32 a w m fits = ground arith

pub put32-outside : (a w x : ℕ) (m : Mem) → (x < a) ⊎ (a + 3 < x) → put32 a w m x ≡ m x
unfolding put32
put32-outside a w x m out = ground arith

pub get32-put32_outside :
    (a w b : ℕ) (m : Mem) → (b + 3 < a) ⊎ (a + 3 < b) → get32 (put32 a w m) b ≡ get32 m b
unfolding get32
get32-put32_outside a w b m out = ground (
  arith,
  put32-outside a w b m,
  put32-outside a w (b + 1) m,
  put32-outside a w (b + 2) m,
  put32-outside a w (b + 3) m,
)

pub put32-IsBytes : (a w : ℕ) (m : Mem) → IsBytes m → IsBytes (put32 a w m)
unfolding put32
put32-IsBytes a w m bytes x = ground (arith, bytes x)

-- A page directory or table index is ten bits of the address.
pub pde_idx_lem : (addr : ℕ) → addr < 2 ^ 32 → pde_idx addr ≡ addr / 2 ^ 22
unfolding pde_idx
pde_idx_lem addr fits =
    ground
      (arith, bit_and_high 22 (addr / 2 ^ 22) (addr % 2 ^ 22) 0x3ff, bit_and_1023 (addr / 2 ^ 22))

pub pte_idx_lem : (addr : ℕ) → pte_idx addr ≡ addr / 2 ^ 12 % 1024
unfolding pte_idx
pte_idx_lem addr =
    ground
      (arith, bit_and_high 12 (addr / 2 ^ 12) (addr % 2 ^ 12) 0x3ff, bit_and_1023 (addr / 2 ^ 12))

-- Entry number n of the page tables stands 4 * n bytes into the window at the top of memory.
pub pte_ptr_lem : (addr : ℕ) → addr < 2 ^ 32 → pte_ptr addr ≡ 0xffc0_0000 + addr / 2 ^ 12 * 4
unfolding pte_ptr
pte_ptr_lem addr fits = ground (
  arith,
  pte_idx_lem addr,
  bit_and_high 22 (addr / 2 ^ 22) (addr % 2 ^ 22) 0x3ff,
  bit_and_1023 (addr / 2 ^ 22),
)

pub pde_ptr_lem : (addr : ℕ) → addr < 2 ^ 32 → pde_ptr addr ≡ 0xffff_f000 + addr / 2 ^ 22 * 4
unfolding pde_ptr
pde_ptr_lem addr fits = omega (arith, pde_idx_lem addr fits)

or_four : (p : ℕ) → p % 8 ≡ 0 → bit_or p 4 ≡ p + 4
or_four p h = ground (arith, bit_or_high 2 (p / 4) 0 1, bit_or_one (p / 4))

or_two : (p : ℕ) → p % 4 ≡ 0 → bit_or p 2 ≡ p + 2
or_two p h = ground (arith, bit_or_high 1 (p / 2) 0 1, bit_or_one (p / 2))

-- The three flags of an entry for a page-aligned address.
pub entry_lem : (p : ℕ) → p % 4096 ≡ 0 → entry p ≡ p + 7
unfolding entry
entry_lem p aligned =
    rw (or_four p (omega arith), or_two (p + 4) (omega arith))
      (omega (arith, bit_or_one (p + 4 + 2)))

pub is_present_lem : (m : Mem) (p : ℕ) → is_present m p ≡ (get32 m p % 2 == 1)
unfolding is_present
is_present_lem m p = ground (arith, bit_and_one (get32 m p))
