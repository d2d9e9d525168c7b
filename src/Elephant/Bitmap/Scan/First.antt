-- ===== src/Elephant/Bitmap/Scan/First.antt =====
-- The first two loops of bitmap_scan: the first byte that is not full, its first free bit.
use project_base_learning.Base.{
  ℕ, zero, suc, ◌+◌, ◌^◌, ◌<◌, ◌≤◌, ◌≡◌, ◌≢◌, ◌⊎◌, inl, inr, arith, Mem, ok, ◌==◌, Bool-cases, ltb,
  ◌&&◌, ◌||◌, u32,
}
use project_base_learning.Base.Bits.{bit, bit_and-byte_shifted}
use project_base_learning.Elephant.Bitmap.{Bitmap, full_bytes_loop, used_bits_loop}

-- From byte `from` up to `idx` every byte is full; `idx` is the end of the bitmap or not full.
pub record IsFirstByte (btmp : Bitmap) (from idx : ℕ) (m : Mem) : Type 0 where
  pub from_le : from ≤ idx
  pub within : idx ≤ btmp.btmp_bytes_len
  pub full : (k : ℕ) → from ≤ k → k < idx → m (btmp.bits + k) ≡ 255
  pub stops : (idx ≡ btmp.btmp_bytes_len) ⊎ (m (btmp.bits + idx) ≢ 255)

pub full_bytes_loop-IsFirstByte :
    (fuel : ℕ) (btmp : Bitmap) (from : ℕ) (m : Mem)
    → from ≤ btmp.btmp_bytes_len
    → btmp.btmp_bytes_len < from + fuel
    → btmp.btmp_bytes_len < 2 ^ 32
    → (idx : ℕ) × (full_bytes_loop fuel btmp from m ≡ ok idx m) × IsFirstByte btmp from idx m
unfolding full_bytes_loop
full_bytes_loop-IsFirstByte zero btmp from m le fuel fits = absurd (omega arith)
full_bytes_loop-IsFirstByte (suc fuel) btmp from m le enough fits =
    elim (Bool-cases (0xff == m (btmp.bits + from) && ltb from btmp.btmp_bytes_len)) [
      | inl more ↦
          let (idx, runs, first) =
            full_bytes_loop-IsFirstByte fuel btmp (u32 (from + 1)) m (ground arith) (ground arith)
              fits in
          (
            idx,
            rw more runs,
            record {
              from_le = ground (arith, first.from_le);
              within = first.within;
              full = λ k lo hi. ground (arith, first.full k);
              stops = first.stops;
            },
          )
      | inr stop ↦ (
        from,
        rw stop,
        record {
          from_le = omega arith;
          within = le;
          full = λ k lo hi. absurd (omega arith);
          stops = ground arith;
        },
      )
    ]

-- The first free bit of a byte, or 8 where the byte is full.
pub record IsFirstBit (byte from idx : ℕ) : Type 0 where
  pub from_le : from ≤ idx
  pub at_most : idx ≤ 8
  pub used : (k : ℕ) → from ≤ k → k < idx → bit byte k ≡ 1
  pub free : idx < 8 → bit byte idx ≡ 0

pub used_bits_loop-IsFirstBit :
    (fuel byte from : ℕ) (m : Mem)
    → byte < 256
    → from ≤ 8
    → 8 < from + fuel
    → (idx : ℕ) × (used_bits_loop fuel byte from m ≡ ok idx m) × IsFirstBit byte from idx
unfolding used_bits_loop
used_bits_loop-IsFirstBit zero byte from m small le enough = absurd (omega arith)
used_bits_loop-IsFirstBit (suc fuel) byte from m small le enough =
    elim (Bool-cases (from == 8 || bit byte from == 0)) [
      | inl stop ↦ (
        from,
        rw (bit_and-byte_shifted byte from small (omega arith), stop),
        record {
          from_le = omega arith;
          at_most = le;
          used = λ k lo hi. absurd (omega arith);
          free = λ h. ground arith;
        },
      )
      | inr more ↦
          let (idx, runs, first) =
            used_bits_loop-IsFirstBit fuel byte (from + 1) m small (ground arith) (omega arith) in
          (
            idx,
            rw (bit_and-byte_shifted byte from small (omega arith), more) runs,
            record {
              from_le = ground (arith, first.from_le);
              at_most = first.at_most;
              used = λ k lo hi. ground (arith, first.used k);
              free = first.free;
            },
          )
    ]
