-- ===== src/Elephant/Bitmap/View.antt =====
-- What a bitmap stands for: the bits of its bytes, and those past its end in the bytes behind it.
use project_base_learning.Base.{ℕ, ◌+◌, ◌*◌, ◌/◌, ◌%◌, ◌^◌, ◌<◌, ◌≤◌, ◌≡◌, ◌≢◌, arith, Mem, IsBytes}
use native.Mathlib.Nat.{one-le-pow}
use project_base_learning.Base.Bits.{bit, bit_and-byte}
use project_base_learning.Elephant.Bitmap.{Bitmap, bitmap_scan_test}

-- The bit that the C code addresses by the index `i`.
abbrev pub bit_at : Bitmap → Mem → ℕ → ℕ
bit_at btmp m i = bit (m (btmp.bits + i / 8)) (i % 8)

-- The `cnt` bits from `start` are free.
abbrev pub IsFree : Bitmap → Mem → ℕ → ℕ → Type 0
IsFree btmp m start cnt = (i : ℕ) → start ≤ i → i < start + cnt → bit_at btmp m i ≡ 0

-- The `cnt` bits from 0 are used.
abbrev pub IsUsed : Bitmap → Mem → ℕ → Type 0
IsUsed btmp m cnt = (i : ℕ) → i < cnt → bit_at btmp m i ≡ 1

pub pow-pos : (k : ℕ) → 0 < 2 ^ k
pow-pos k = one-le-pow k 2 (omega arith)

-- `bitmap_scan_test` is zero exactly at a free bit.
pub bitmap_scan_test-bit_at :
    (btmp : Bitmap) (i : ℕ) (m : Mem)
    → IsBytes m
    → bitmap_scan_test btmp i m ≡ bit_at btmp m i * 2 ^ (i % 8)
unfolding bitmap_scan_test
bitmap_scan_test-bit_at btmp i m bytes =
    ground (arith, bytes (btmp.bits + i / 8), bit_and-byte (m (btmp.bits + i / 8)) (i % 8))

pub bitmap_scan_test-zero :
    (btmp : Bitmap) (i : ℕ) (m : Mem)
    → IsBytes m
    → bit_at btmp m i ≡ 0
    → bitmap_scan_test btmp i m ≡ 0
bitmap_scan_test-zero btmp i m bytes h = ground (arith, bitmap_scan_test-bit_at btmp i m bytes)

pub bitmap_scan_test-one :
    (btmp : Bitmap) (i : ℕ) (m : Mem)
    → IsBytes m
    → bit_at btmp m i ≡ 1
    → bitmap_scan_test btmp i m ≢ 0
bitmap_scan_test-one btmp i m bytes h =
    ground (arith, bitmap_scan_test-bit_at btmp i m bytes, pow-pos (i % 8))

-- What leaves the bytes of a bitmap alone leaves its free bits alone.
pub IsFree-frame :
    (btmp : Bitmap) (m m' : Mem) (start cnt : ℕ)
    → start + cnt ≤ btmp.btmp_bytes_len * 8
    → ((a : ℕ) → btmp.bits ≤ a → a < btmp.bits + btmp.btmp_bytes_len → m' a ≡ m a)
    → IsFree btmp m start cnt
    → IsFree btmp m' start cnt
IsFree-frame btmp m m' start cnt within same free i lo hi =
    ground (arith, free i, same (btmp.bits + i / 8))
