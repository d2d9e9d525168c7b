-- ===== src/Elephant/Bitmap.antt =====
-- os-elephant/lib/kernel/bitmap.c and bitmap.h, over a flat memory that holds the bits.
pub mod View
pub mod Init
pub mod Set
pub mod Scan
mod Tests
use project_base_learning.Base.{
  ℕ, zero, suc, ◌+◌, ◌-◌, ◌*◌, ◌/◌, ◌%◌, ◌^◌, Bool, true, false, not, ◌&&◌, ◌||◌, ltb, ◌==◌,
  if◌then◌else◌, Option, none, some, u8, u32, sub32, bit_and, bit_or, Cmd, pure, out_of_fuel, ok,
  ◌>>=◌, ◌>>◌, assert, get, modify, Mem, write,
}
use project_base_learning.Elephant.Str.{memset}

pub record Bitmap : Type 0 where
  pub btmp_bytes_len : ℕ
  pub bits : ℕ

abbrev pub bitmap_mask : ℕ
bitmap_mask = 1

unfoldable pub bitmap_init : Bitmap → Cmd Mem (Unit {0})
bitmap_init btmp = memset btmp.bits 0 btmp.btmp_bytes_len

-- The C result is the masked byte: zero for a free bit, and `1 << bit_odd` for a used one.
unfoldable pub bitmap_scan_test : Bitmap → ℕ → Mem → ℕ
bitmap_scan_test btmp bit_idx m =
    let byte_idx = bit_idx / 8 in
    let bit_odd = bit_idx % 8 in bit_and (m (btmp.bits + byte_idx)) (bitmap_mask * 2 ^ bit_odd)

-- `while ((0xff == btmp->bits[idx_byte]) && (idx_byte < btmp->btmp_bytes_len)) idx_byte++;`
pub full_bytes_loop : ℕ → Bitmap → ℕ → Cmd Mem ℕ
full_bytes_loop zero btmp idx_byte m = out_of_fuel
full_bytes_loop (suc fuel) btmp idx_byte m =
    let rest = full_bytes_loop fuel btmp (u32 (idx_byte + 1)) m in
    if 0xff == m (btmp.bits + idx_byte) && ltb idx_byte btmp.btmp_bytes_len
    then rest
    else ok idx_byte m

-- `while ((uint8_t)(BITMAP_MASK << idx_bit) & btmp->bits[idx_byte]) idx_bit++;`
pub used_bits_loop : ℕ → ℕ → ℕ → Cmd Mem ℕ
used_bits_loop zero byte idx_bit m = out_of_fuel
used_bits_loop (suc fuel) byte idx_bit m =
    let rest = used_bits_loop fuel byte (idx_bit + 1) m in
    if bit_and (u8 (bitmap_mask * 2 ^ idx_bit)) byte == 0 then ok idx_bit m else rest

-- `while (bit_left-- > 0)`: one round for each bit left; `none` is the -1 from before the loop.
pub run_loop : Bitmap → ℕ → ℕ → ℕ → ℕ → Mem → Option ℕ
run_loop btmp cnt zero next_bit count m = none
run_loop btmp cnt (suc bit_left) next_bit count m =
    let count' = if bitmap_scan_test btmp next_bit m == 0 then u32 (count + 1) else 0 in
    let rest = run_loop btmp cnt bit_left (u32 (next_bit + 1)) count' m in
    if count' == cnt then some (u32 (sub32 next_bit cnt + 1)) else rest

-- The bits of the first byte that is not full, and the search for a longer run behind the first
-- free bit.
pub scan_byte : Bitmap → ℕ → ℕ → Cmd Mem (Option ℕ)
scan_byte btmp cnt idx_byte = do
  m ← get
  idx_bit ← used_bits_loop 9 (m (btmp.bits + idx_byte)) 0
  let bit_idx_start = u32 (u32 (idx_byte * 8) + idx_bit)
  let bit_left = sub32 (u32 (btmp.btmp_bytes_len * 8)) bit_idx_start
  pure (
      if cnt == 1
      then some bit_idx_start
      else run_loop btmp cnt bit_left (u32 (bit_idx_start + 1)) 1 m)

-- The result -1 is `none`. The first loop reads one byte more than the bitmap has, at most.
unfoldable pub bitmap_scan : Bitmap → ℕ → Cmd Mem (Option ℕ)
unfolding full_bytes_loop used_bits_loop run_loop bitmap_scan_test scan_byte
bitmap_scan btmp cnt = do
  idx_byte ← full_bytes_loop (btmp.btmp_bytes_len + 1) btmp 0
  assert (ltb idx_byte btmp.btmp_bytes_len)
  if idx_byte == btmp.btmp_bytes_len then pure none else scan_byte btmp cnt idx_byte

-- `value` is an `int8_t`; the ASSERT admits 0 and 1 alone.
unfoldable pub bitmap_set : Bitmap → ℕ → ℕ → Cmd Mem (Unit {0})
bitmap_set btmp bit_idx value = do
  assert (value == 0 || value == 1)
  let byte_idx = bit_idx / 8
  let bit_odd = bit_idx % 8
  let at = btmp.bits + byte_idx
  modify (λ m.
      if value == 0
      then write m at (u8 (bit_and (m at) (2 ^ 32 - 1 - bitmap_mask * 2 ^ bit_odd)))
      else write m at (u8 (bit_or (m at) (bitmap_mask * 2 ^ bit_odd))))
