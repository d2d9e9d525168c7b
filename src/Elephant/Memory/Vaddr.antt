-- ===== src/Elephant/Memory/Vaddr.antt =====
-- vaddr_get: the run of kernel addresses that it reserves.
use project_base_learning.Base.{
  ℕ, zero, suc, ◌+◌, ◌*◌, ◌/◌, ◌^◌, ◌<◌, ◌≤◌, ◌≡◌, refl, ◌⊎◌, arith, Mem, IsBytes, ok, panic, u32,
  leb, ltb, ◌&&◌, if◌then◌else◌, Option, some, none,
}
use project_base_learning.Elephant.Bitmap.{Bitmap, bitmap_scan}
use project_base_learning.Elephant.Bitmap.View.{bit_at, IsUsed}
use project_base_learning.Elephant.Bitmap.Set.{IsSet1, bitmap_set-IsSet1}
use project_base_learning.Elephant.Bitmap.Scan.{bitmap_scan-pos, bitmap_scan-full}
use project_base_learning.Elephant.Bitmap.Scan.Runs.{IsFirstRun}
use project_base_learning.Elephant.Memory.{
  VirtualAddr, Globals, pf_kernel, set_run_loop, vaddr_get, pg_size,
}

-- `m'` is `m` with the `cnt` bits from `start` set.
pub record IsRunSet (btmp : Bitmap) (start cnt : ℕ) (m m' : Mem) : Type 0 where
  pub bits :
      (j : ℕ)
      → bit_at btmp m' j ≡ (if leb start j && ltb j (start + cnt) then 1 else bit_at btmp m j)
  pub bytes : IsBytes m'
  pub others : (a : ℕ) → (a < btmp.bits) ⊎ (btmp.bits + (start + cnt) / 8 < a) → m' a ≡ m a

IsRunSet-cons :
    (btmp : Bitmap) (start cnt : ℕ) (m m1 m' : Mem)
    → IsSet1 btmp start 1 m m1
    → IsRunSet btmp (start + 1) cnt m1 m'
    → IsRunSet btmp start (suc cnt) m m'
IsRunSet-cons btmp start cnt m m1 m' one rest = record {
  bits = λ j. ground (arith, one.bits j, rest.bits j);
  bytes = rest.bytes;
  others = λ a out. ground (arith, one.others a, rest.others a);
}

pub set_run_loop-IsRunSet :
    (btmp : Bitmap) (start cnt : ℕ) (m : Mem)
    → IsBytes m
    → start + cnt ≤ 2 ^ 32
    → (m' : Mem) × (set_run_loop btmp start cnt m ≡ ok tt m') × IsRunSet btmp start cnt m m'
unfolding set_run_loop
set_run_loop-IsRunSet btmp start zero m bytes fits =
    (m, refl, record { bits = λ j. ground arith; bytes = bytes; others = λ a out. refl })
set_run_loop-IsRunSet btmp start (suc cnt) m bytes fits =
    let (m1, sets, one) = bitmap_set-IsSet1 btmp start 1 m bytes (omega arith) in
    let (m', runs, rest) = set_run_loop-IsRunSet btmp (start + 1) cnt m1 one.bytes (omega arith) in
    let same : u32 start ≡ start = omega arith in
    (m', rw (same, sets) runs, IsRunSet-cons btmp start cnt m m1 m' one rest)

-- What `vaddr_get` did for `cnt` pages: it reserved the first free run, or there was none.
abbrev pub IsReserved : VirtualAddr → ℕ → Mem → Option ℕ → ℕ → Mem → Type 0
IsReserved v cnt m none vaddr m' = (vaddr ≡ 0) × (m' ≡ m)
IsReserved v cnt m (some start) vaddr m' =
    (vaddr ≡ u32 (v.vaddr_start + start * pg_size)) × IsRunSet v.vaddr_bitmap start cnt m m'

module _ (g : Globals) (m : Mem) (bytes : IsBytes m)
    (fits : g.kernel_vaddr.vaddr_bitmap.btmp_bytes_len < 2 ^ 29) where
  -- With an address free, `vaddr_get` for the kernel takes the first run of `cnt` free pages that
  -- ends at most one page past the bitmap, marks exactly these pages used and returns the address
  -- of the run; where there is no such run it returns NULL and changes nothing.
  pub vaddr_get-IsReserved :
      (cnt i : ℕ)
      → 0 < cnt
      → i < g.kernel_vaddr.vaddr_bitmap.btmp_bytes_len * 8
      → bit_at g.kernel_vaddr.vaddr_bitmap m i ≡ 0
      → (found : Option ℕ) × (vaddr : ℕ) × (m' : Mem) × (vaddr_get g pf_kernel cnt m ≡ ok vaddr m')
        × IsFirstRun g.kernel_vaddr.vaddr_bitmap m cnt
            (g.kernel_vaddr.vaddr_bitmap.btmp_bytes_len * 8 + 1)
            found
        × IsReserved g.kernel_vaddr cnt m found vaddr m'
  vaddr_get-IsReserved cnt i pos within free =
      let (r, scans, first) =
        bitmap_scan-pos g.kernel_vaddr.vaddr_bitmap m bytes fits cnt i pos within free in
      go r scans first
    where
      go :
          (r : Option ℕ)
          → bitmap_scan g.kernel_vaddr.vaddr_bitmap cnt m ≡ ok r m
          → IsFirstRun g.kernel_vaddr.vaddr_bitmap m cnt
              (g.kernel_vaddr.vaddr_bitmap.btmp_bytes_len * 8 + 1)
              r
          → (found : Option ℕ) × (vaddr : ℕ) × (m' : Mem) × (vaddr_get g pf_kernel cnt m
              ≡ ok vaddr m')
            × IsFirstRun g.kernel_vaddr.vaddr_bitmap m cnt
                (g.kernel_vaddr.vaddr_bitmap.btmp_bytes_len * 8 + 1)
                found
            × IsReserved g.kernel_vaddr cnt m found vaddr m'
      go none scans first = (none, 0, m, unfold vaddr_get in rw scans, first, (refl, refl))
      go (some start) scans first =
          let (m', sets, run) =
            set_run_loop-IsRunSet g.kernel_vaddr.vaddr_bitmap start cnt m bytes
              (omega (arith, first.0)) in
          (
            some start,
            u32 (g.kernel_vaddr.vaddr_start + start * pg_size),
            m',
            unfold vaddr_get in rw (scans, sets),
            first,
            (refl, run),
          )

  -- With no address free it halts the kernel.
  pub vaddr_get-panic :
      (cnt : ℕ)
      → IsUsed g.kernel_vaddr.vaddr_bitmap m (g.kernel_vaddr.vaddr_bitmap.btmp_bytes_len * 8)
      → vaddr_get g pf_kernel cnt m ≡ panic
  vaddr_get-panic cnt used =
      unfold vaddr_get in rw (bitmap_scan-full g.kernel_vaddr.vaddr_bitmap m bytes fits cnt used)
