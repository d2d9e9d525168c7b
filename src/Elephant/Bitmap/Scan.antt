-- ===== src/Elephant/Bitmap/Scan.antt =====
-- bitmap_scan: which run of bits it returns, when it halts, and that its loops end.
pub mod First
pub mod Runs
pub mod Free
pub mod Reference
use project_base_learning.Base.{
  ℕ, zero, suc, ◌+◌, ◌-◌, ◌*◌, ◌/◌, ◌%◌, ◌^◌, ◌<◌, ◌≤◌, ◌≡◌, ◌≢◌, refl, ◌⊎◌, inl, inr, arith, ap,
  ◌∙◌, Mem, IsBytes, Option, none, some, Run, ok, panic, ◌==◌, Bool-cases, if◌then◌else◌, u32,
  sub32, lt→ltb, ge→ltb, ne→==,
}
use project_base_learning.Base.Bits.{bit}
use project_base_learning.Elephant.Bitmap.{
  Bitmap, full_bytes_loop, used_bits_loop, run_loop, scan_byte, bitmap_scan,
}
use project_base_learning.Elephant.Bitmap.View.{bit_at, IsFree, IsUsed}
use First.{IsFirstByte, full_bytes_loop-IsFirstByte, IsFirstBit, used_bits_loop-IsFirstBit}
use Free.{full_bit, all_used-full, IsFirstFree, IsFirstFree-of, IsFirstFree-IsCounted}
use Runs.{IsFirstRun, IsCounted, run_loop-IsFirstRun}

-- The index that bitmap_scan returns for one bit, from the byte and the place.
module _ (btmp : Bitmap) (m : Mem) (bytes : IsBytes m) (fits : btmp.btmp_bytes_len < 2 ^ 29) where
  -- What scan_byte returns once the place is known.
  abbrev answer : ℕ → ℕ → ℕ → Option ℕ
  answer cnt byte place =
      if cnt == 1
      then some (byte * 8 + place)
      else run_loop btmp cnt (btmp.btmp_bytes_len * 8 - (byte * 8 + place)) (byte * 8 + place + 1) 1
          m

  scan_byte-answer :
      (cnt byte place : ℕ)
      → used_bits_loop 9 (m (btmp.bits + byte)) 0 m ≡ ok place m
      → IsFirstFree btmp m byte place
      → scan_byte btmp cnt byte m ≡ ok (answer cnt byte place) m
  unfolding scan_byte
  scan_byte-answer cnt byte place runs f = ground (arith, runs, f.in_bitmap, f.in_byte)

  pub answer-IsFirstRun :
      (cnt byte place : ℕ)
      → IsFirstFree btmp m byte place
      → 1 < cnt
      → IsFirstRun btmp m cnt (btmp.btmp_bytes_len * 8 + 1) (answer cnt byte place)
  answer-IsFirstRun cnt byte place f more = rw (ne→== cnt 1 (omega arith)) (
      run_loop-IsFirstRun btmp cnt _ _ 1 _ m bytes (omega (arith, f.in_bitmap, f.in_byte))
        (omega arith) (IsFirstFree-IsCounted btmp m byte place cnt f more))

  scan_start :
      (idx : ℕ)
      → full_bytes_loop (btmp.btmp_bytes_len + 1) btmp 0 m ≡ ok idx m
      → idx < btmp.btmp_bytes_len
      → (cnt : ℕ) → bitmap_scan btmp cnt m ≡ scan_byte btmp cnt idx m
  unfolding bitmap_scan
  scan_start idx runs within cnt = ground (arith, runs)

  -- Where some bit of the bitmap is free, the search comes to the first one.
  pub scan-answer :
      (i : ℕ)
      → i < btmp.btmp_bytes_len * 8
      → bit_at btmp m i ≡ 0
      → (byte : ℕ) × (place : ℕ) × IsFirstFree btmp m byte place
        × ((cnt : ℕ) → bitmap_scan btmp cnt m ≡ ok (answer cnt byte place) m)
  scan-answer i within free =
      let (byte, runs, first) =
        full_bytes_loop-IsFirstByte (btmp.btmp_bytes_len + 1) btmp 0 m (omega arith) (omega arith)
          (omega arith) in
      let (place, runs', bit) =
        used_bits_loop-IsFirstBit 9 (m (btmp.bits + byte)) 0 m (bytes _) (omega arith)
          (omega arith) in
      let in_bitmap : byte < btmp.btmp_bytes_len = inside byte first in
      let f =
        IsFirstFree-of btmp m bytes byte place first bit in_bitmap
          (not_full byte first in_bitmap) in
      (
        byte,
        place,
        f,
        λ cnt. scan_start byte runs in_bitmap cnt ∙ scan_byte-answer cnt byte place runs' f,
      )
    where
      inside : (byte : ℕ) → IsFirstByte btmp 0 byte m → byte < btmp.btmp_bytes_len
      inside byte first = ground (arith, first.full (i / 8), full_bit (i % 8), first.within)

      not_full :
          (byte : ℕ)
          → IsFirstByte btmp 0 byte m
          → byte < btmp.btmp_bytes_len
          → m (btmp.bits + byte) ≢ 255
      not_full byte first lt = ground (arith, first.stops)

  -- With a bit free in the bitmap, a scan for one bit returns the first free bit, which lies in the
  -- bitmap, and changes no memory.
  pub bitmap_scan-one :
      (i : ℕ)
      → i < btmp.btmp_bytes_len * 8
      → bit_at btmp m i ≡ 0
      → (r : ℕ) × (bitmap_scan btmp 1 m ≡ ok (some r) m)
        × (r < btmp.btmp_bytes_len * 8)
        × (bit_at btmp m r ≡ 0)
        × IsUsed btmp m r
  bitmap_scan-one i within free =
      let (byte, place, f, runs) = scan-answer i within free in
      (byte * 8 + place, runs 1, omega (arith, f.in_bitmap, f.in_byte), f.free, f.before)

  -- With a bit free in the bitmap, a scan for `cnt` bits, two or more, returns the first run of
  -- `cnt` free bits that ends at most one bit past the bitmap, or -1 where no run ends there. It
  -- changes no memory.
  pub bitmap_scan-IsFirstRun :
      (cnt i : ℕ)
      → 1 < cnt
      → i < btmp.btmp_bytes_len * 8
      → bit_at btmp m i ≡ 0
      → (r : Option ℕ) × (bitmap_scan btmp cnt m ≡ ok r m)
        × IsFirstRun btmp m cnt (btmp.btmp_bytes_len * 8 + 1) r
  bitmap_scan-IsFirstRun cnt i more within free =
      let (byte, place, f, runs) = scan-answer i within free in
      (answer cnt byte place, runs cnt, answer-IsFirstRun cnt byte place f more)

  -- With no bit free, every scan halts the kernel in the ASSERT, so that the -1 behind it is never
  -- returned.
  pub bitmap_scan-full :
      (cnt : ℕ) → IsUsed btmp m (btmp.btmp_bytes_len * 8) → bitmap_scan btmp cnt m ≡ panic
  bitmap_scan-full cnt used =
      let (byte, runs, first) =
        full_bytes_loop-IsFirstByte (btmp.btmp_bytes_len + 1) btmp 0 m (omega arith) (omega arith)
          (omega arith) in
      unfold bitmap_scan in ground (arith, runs, at_end byte first)
    where
      at_end : (byte : ℕ) → IsFirstByte btmp 0 byte m → byte ≡ btmp.btmp_bytes_len
      at_end byte first = elim first.stops [
        | inl e ↦ e
        | inr ne ↦ elim (Bool-cases (byte == btmp.btmp_bytes_len)) [
          | inl e ↦ ground arith
          | inr e ↦ absurd (
              ne (
                all_used-full _ (bytes _) λ k h. ground (arith, first.within, used (byte * 8 + k))))
        ]
      ]

  -- Where only the last bit of the bitmap is free, and so is the first bit behind the bitmap, a
  -- scan for two bits returns a run whose second bit is not the bitmap's.
  pub bitmap_scan_overrun :
      0 < btmp.btmp_bytes_len
      → IsUsed btmp m (btmp.btmp_bytes_len * 8 - 1)
      → bit_at btmp m (btmp.btmp_bytes_len * 8 - 1) ≡ 0
      → bit_at btmp m (btmp.btmp_bytes_len * 8) ≡ 0
      → bitmap_scan btmp 2 m ≡ ok (some (btmp.btmp_bytes_len * 8 - 1)) m
  bitmap_scan_overrun pos used last behind =
      let (r, runs, first) =
        bitmap_scan-IsFirstRun 2 (btmp.btmp_bytes_len * 8 - 1) (omega arith) (omega arith) last in
      runs ∙ ap (λ o. ok o m) (only r first)
    where
      run : IsFree btmp m (btmp.btmp_bytes_len * 8 - 1) 2
      run j lo hi = elim (Bool-cases (j == btmp.btmp_bytes_len * 8)) [
        | inl e ↦ ground arith
        | inr e ↦ ground arith
      ]

      only :
          (r : Option ℕ)
          → IsFirstRun btmp m 2 (btmp.btmp_bytes_len * 8 + 1) r
          → r ≡ some (btmp.btmp_bytes_len * 8 - 1)
      only none never = absurd (never (btmp.btmp_bytes_len * 8 - 1) (omega arith) run)
      only (some s) (ends, free, least) = elim (Bool-cases (s == btmp.btmp_bytes_len * 8 - 1)) [
        | inl e ↦ ground arith
        | inr e ↦ absurd (ground (arith, free s, used s))
      ]

  -- The same for every count but zero.
  pub bitmap_scan-pos :
      (cnt i : ℕ)
      → 0 < cnt
      → i < btmp.btmp_bytes_len * 8
      → bit_at btmp m i ≡ 0
      → (r : Option ℕ) × (bitmap_scan btmp cnt m ≡ ok r m)
        × IsFirstRun btmp m cnt (btmp.btmp_bytes_len * 8 + 1) r
  bitmap_scan-pos (suc zero) i pos within free =
      let (r, runs, lt, is_free, used) = bitmap_scan-one i within free in
      (
        some r,
        runs,
        (
          omega arith,
          λ j lo hi. let e : j ≡ r = omega arith in rw e is_free,
          λ s below run. omega (arith, used s below, run s (omega arith) (omega arith)),
        ),
      )
  bitmap_scan-pos (suc (suc cnt)) i pos within free =
      bitmap_scan-IsFirstRun (suc (suc cnt)) i (omega arith) within free
  bitmap_scan-pos zero i pos within free = elim pos [ ]
