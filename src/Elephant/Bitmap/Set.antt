-- ===== src/Elephant/Bitmap/Set.antt =====
-- The bits and the memory after bitmap_set.
use project_base_learning.Base.{
  zero, suc, ℕ, ◌+◌, ◌*◌, ◌/◌, ◌%◌, ◌^◌, ◌-◌, ◌<◌, ◌≡◌, ◌≢◌, refl, arith, Mem, IsBytes, ok, panic,
  ◌==◌, if◌then◌else◌, write, u8, bit_and, bit_or,
}
use project_base_learning.Base.Bits.{bit_or-byte, bit_and-byte_clear}
use project_base_learning.Elephant.Bitmap.{Bitmap, bitmap_mask, bitmap_set}
use project_base_learning.Elephant.Bitmap.View.{bit_at}

-- `m'` is `m` with the bit `i` of the bitmap set to `value`.
pub record IsSet1 (btmp : Bitmap) (i value : ℕ) (m m' : Mem) : Type 0 where
  pub bits : (j : ℕ) → bit_at btmp m' j ≡ (if i == j then value else bit_at btmp m j)
  pub bytes : IsBytes m'
  pub others : (a : ℕ) → a ≢ btmp.bits + i / 8 → m' a ≡ m a

set_bit : (btmp : Bitmap) (i value : ℕ) (m : Mem) → Mem
set_bit btmp i value m =
    let at = btmp.bits + i / 8 in
    if value == 0
    then write m at (u8 (bit_and (m at) (2 ^ 32 - 1 - bitmap_mask * 2 ^ (i % 8))))
    else write m at (u8 (bit_or (m at) (bitmap_mask * 2 ^ (i % 8))))

module _ (btmp : Bitmap) (i : ℕ) (m : Mem) (bytes : IsBytes m) where
  abbrev old : ℕ
  old = m (btmp.bits + i / 8)

  set_bit-one_bits :
      (j : ℕ) → bit_at btmp (set_bit btmp i 1 m) j ≡ (if i == j then 1 else bit_at btmp m j)
  unfolding set_bit
  set_bit-one_bits j = ground (arith, bytes (btmp.bits + i / 8), bit_or-byte old (i % 8) (j % 8))

  set_bit-zero_bits :
      (j : ℕ) → bit_at btmp (set_bit btmp i 0 m) j ≡ (if i == j then 0 else bit_at btmp m j)
  unfolding set_bit
  set_bit-zero_bits j =
      ground (arith, bytes (btmp.bits + i / 8), bit_and-byte_clear old (i % 8) (j % 8))

-- With a value of 0 or 1, `bitmap_set` returns; the bit holds the value, every other bit that the
-- bitmap addresses and every other byte of the memory is what it was, and bytes stay bytes.
pub bitmap_set-IsSet1 :
    (btmp : Bitmap) (i value : ℕ) (m : Mem)
    → IsBytes m
    → value < 2
    → (m' : Mem) × (bitmap_set btmp i value m ≡ ok tt m') × IsSet1 btmp i value m m'
bitmap_set-IsSet1 btmp i zero m bytes h = (
  set_bit btmp i 0 m,
  unfold bitmap_set set_bit in refl,
  record {
    bits = set_bit-zero_bits btmp i m bytes;
    bytes = λ a. unfold set_bit in ground (arith, bytes a);
    others = λ a ne. unfold set_bit in ground arith;
  },
)
bitmap_set-IsSet1 btmp i (suc zero) m bytes h = (
  set_bit btmp i 1 m,
  unfold bitmap_set set_bit in refl,
  record {
    bits = set_bit-one_bits btmp i m bytes;
    bytes = λ a. unfold set_bit in ground (arith, bytes a);
    others = λ a ne. unfold set_bit in ground arith;
  },
)
bitmap_set-IsSet1 btmp i (suc (suc value)) m bytes h = absurd (omega arith)

-- Any other value halts the kernel.
bitmap_set-panic :
    (btmp : Bitmap) (i value : ℕ) (m : Mem) → 1 < value → bitmap_set btmp i value m ≡ panic
unfolding bitmap_set
bitmap_set-panic btmp i value m h = ground arith
