-- ===== src/Elephant/Bitmap/Tests.antt =====
-- Bitmaps of two bytes at address 500: the last bit alone free, all used, and three bits used.
use project_base_learning.Base.{
  ◌≡◌, refl, arith, Mem, IsBytes, ok, panic, ◌==◌, if◌then◌else◌, some, ==→eq,
}
use project_base_learning.Base.Bits.{all_below, all_below_sound}
use project_base_learning.Elephant.Bitmap.{Bitmap, bitmap_scan, bitmap_set}
use project_base_learning.Elephant.Bitmap.View.{bit_at, IsUsed}
use project_base_learning.Elephant.Bitmap.Set.{IsSet1, bitmap_set-IsSet1}
use project_base_learning.Elephant.Bitmap.Scan.{bitmap_scan_overrun}
use project_base_learning.Elephant.Bitmap.Scan.Reference.{
  reference_scan, bitmap_scan-reference_scan,
}

abbrev two_bytes : Bitmap
two_bytes = record { btmp_bytes_len = 2; bits = 500 }

abbrev nearly_full : Mem
nearly_full a = if a == 500 then 0xff else (if a == 501 then 0x7f else 0)

abbrev full : Mem
full a = 0xff

abbrev spotted : Mem
spotted a = if a == 500 then 0b0010_0101 else 0

nearly_full-IsBytes : IsBytes nearly_full
nearly_full-IsBytes a = ground arith

full-IsBytes : IsBytes full
full-IsBytes a = omega arith

spotted-IsBytes : IsBytes spotted
spotted-IsBytes a = ground arith

runs :
    (bitmap_scan two_bytes 1 spotted ≡ ok (some 1) spotted)
    × (bitmap_scan two_bytes 2 spotted ≡ ok (some 3) spotted)
    × (bitmap_scan two_bytes 3 spotted ≡ ok (some 6) spotted)
    × (bitmap_scan two_bytes 2 nearly_full ≡ ok (some 15) nearly_full)
    × (bitmap_scan two_bytes 1 full ≡ panic)
unfolding bitmap_scan
runs = (refl, refl, refl, refl, refl)

bitmap_set-IsSet1_example :
    (m' : Mem) × (bitmap_set two_bytes 9 1 spotted ≡ ok tt m') × IsSet1 two_bytes 9 1 spotted m'
bitmap_set-IsSet1_example = bitmap_set-IsSet1 two_bytes 9 1 spotted spotted-IsBytes (omega arith)

bitmap_scan-reference_scan_example :
    bitmap_scan two_bytes 3 spotted ≡ reference_scan two_bytes spotted 3
bitmap_scan-reference_scan_example =
    bitmap_scan-reference_scan two_bytes 3 spotted spotted-IsBytes (omega arith) (omega arith)

nearly_full-IsUsed : IsUsed two_bytes nearly_full 15
nearly_full-IsUsed i h =
    ==→eq _ _
      (all_below_sound 15 (λ j. bit_at two_bytes nearly_full j == 1) i (unfold all_below in refl) h)

bitmap_scan_overrun_example : bitmap_scan two_bytes 2 nearly_full ≡ ok (some 15) nearly_full
bitmap_scan_overrun_example =
    bitmap_scan_overrun two_bytes nearly_full nearly_full-IsBytes (omega arith) (omega arith)
      nearly_full-IsUsed refl refl
