-- ===== src/Elephant/Bitmap/Scan/Free.antt =====
-- The first free bit of a bitmap, from the first byte that is not full and its first free bit.
use project_base_learning.Base.{
  ℕ, zero, suc, ◌+◌, ◌*◌, ◌/◌, ◌%◌, ◌<◌, ◌≤◌, ◌≡◌, ◌≢◌, refl, inl, inr, arith, Mem, IsBytes, ◌==◌,
  Bool-cases,
}
use project_base_learning.Base.Bits.{bit}
use project_base_learning.Elephant.Bitmap.{Bitmap}
use project_base_learning.Elephant.Bitmap.View.{bit_at, IsFree, IsUsed}
use project_base_learning.Elephant.Bitmap.Scan.First.{IsFirstByte, IsFirstBit}
use project_base_learning.Elephant.Bitmap.Scan.Runs.{IsCounted}

pub full_bit : (k : ℕ) → k < 8 → bit 255 k ≡ 1
full_bit zero h = refl
full_bit (suc zero) h = refl
full_bit (suc (suc zero)) h = refl
full_bit (suc (suc (suc zero))) h = refl
full_bit (suc (suc (suc (suc zero)))) h = refl
full_bit (suc (suc (suc (suc (suc zero))))) h = refl
full_bit (suc (suc (suc (suc (suc (suc zero)))))) h = refl
full_bit (suc (suc (suc (suc (suc (suc (suc zero))))))) h = refl
full_bit (suc (suc (suc (suc (suc (suc (suc (suc k)))))))) h = absurd (omega arith)

pub all_used-full : (b : ℕ) → b < 256 → ((k : ℕ) → k < 8 → bit b k ≡ 1) → b ≡ 255
all_used-full b small used = omega (
  arith,
  used 0 (omega arith),
  used 1 (omega arith),
  used 2 (omega arith),
  used 3 (omega arith),
  used 4 (omega arith),
  used 5 (omega arith),
  used 6 (omega arith),
  used 7 (omega arith),
)

-- The first free bit of the bitmap, in its byte and place.
pub record IsFirstFree (btmp : Bitmap) (m : Mem) (byte place : ℕ) : Type 0 where
  pub in_bitmap : byte < btmp.btmp_bytes_len
  pub in_byte : place < 8
  pub free : bit_at btmp m (byte * 8 + place) ≡ 0
  pub before : IsUsed btmp m (byte * 8 + place)

module _ (btmp : Bitmap) (m : Mem) (bytes : IsBytes m) (byte place : ℕ)
    (first : IsFirstByte btmp 0 byte m) (bit : IsFirstBit (m (btmp.bits + byte)) 0 place) where
  IsUsed-before : place ≤ 8 → IsUsed btmp m (byte * 8 + place)
  IsUsed-before le j h = elim (Bool-cases (j / 8 == byte)) [
    | inl e ↦ ground (arith, bit.used (j % 8))
    | inr e ↦ ground (arith, first.full (j / 8), full_bit (j % 8))
  ]

  place-lt : m (btmp.bits + byte) ≢ 255 → place < 8
  place-lt ne = elim (Bool-cases (place == 8)) [
    | inl e ↦ absurd (ne (all_used-full _ (bytes _) λ k h. bit.used k (omega arith) (ground arith)))
    | inr e ↦ ground (arith, bit.at_most)
  ]

  pub IsFirstFree-of :
      byte < btmp.btmp_bytes_len → m (btmp.bits + byte) ≢ 255 → IsFirstFree btmp m byte place
  IsFirstFree-of within ne =
      let lt = place-lt ne in
      record {
        in_bitmap = within;
        in_byte = lt;
        free = ground (arith, bit.free lt);
        before = IsUsed-before (omega arith);
      }

-- Behind the first free bit the run loop starts from a count of one.
pub IsFirstFree-IsCounted :
    (btmp : Bitmap) (m : Mem) (byte place cnt : ℕ)
    → IsFirstFree btmp m byte place
    → 1 < cnt
    → IsCounted btmp m cnt (byte * 8 + place + 1) 1
IsFirstFree-IsCounted btmp m byte place cnt f more = record {
  fits = omega arith;
  short = more;
  trailing = λ i lo hi. ground (arith, f.free);
  longest = longest;
  no_run = λ s le free.
      absurd (omega (arith, free s (omega arith) (omega arith), f.before s (omega arith)));
}
  where
    longest : (s k : ℕ) → s + k ≡ byte * 8 + place + 1 → IsFree btmp m s k → k ≤ 1
    longest s zero e free = omega arith
    longest s (suc zero) e free = omega arith
    longest s (suc (suc k)) e free =
        absurd (omega (arith, free s (omega arith) (omega arith), f.before s (omega arith)))
