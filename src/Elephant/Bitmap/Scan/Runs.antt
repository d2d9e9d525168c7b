-- ===== src/Elephant/Bitmap/Scan/Runs.antt =====
-- The third loop of bitmap_scan: the first run of `cnt` free bits that ends before a limit.
use project_base_learning.Base.{
  ℕ, zero, suc, ◌+◌, ◌-◌, ◌^◌, ◌<◌, ◌≤◌, ◌≡◌, inl, inr, arith, Mem, IsBytes, Option, none, some,
  ◌==◌, Bool-cases,
}
use project_base_learning.Elephant.Bitmap.{Bitmap, run_loop}
use project_base_learning.Elephant.Bitmap.View.{
  bit_at, IsFree, bitmap_scan_test-zero, bitmap_scan_test-one,
}

-- `some i` is the first run of `cnt` free bits, and ends at `limit` or before it; with `none` no
-- run ends there.
abbrev pub IsFirstRun : Bitmap → Mem → ℕ → ℕ → Option ℕ → Type 0
IsFirstRun btmp m cnt limit none = (s : ℕ) → s + cnt ≤ limit → ¬ IsFree btmp m s cnt
IsFirstRun btmp m cnt limit (some i) =
    (i + cnt ≤ limit) × IsFree btmp m i cnt × ((s : ℕ) → s < i → ¬ IsFree btmp m s cnt)

-- Before the bit `next` stand `count` free bits and no more, and no run of `cnt`.
pub record IsCounted (btmp : Bitmap) (m : Mem) (cnt next count : ℕ) : Type 0 where
  pub fits : count ≤ next
  pub short : count < cnt
  pub trailing : IsFree btmp m (next - count) count
  pub longest : (s k : ℕ) → s + k ≡ next → IsFree btmp m s k → k ≤ count
  pub no_run : (s : ℕ) → s + cnt ≤ next → ¬ IsFree btmp m s cnt

module _ (btmp : Bitmap) (m : Mem) (cnt : ℕ) (next count : ℕ)
    (c : IsCounted btmp m cnt next count) where
  trailing-suc : bit_at btmp m next ≡ 0 → IsFree btmp m (next - count) (suc count)
  trailing-suc free i lo hi = elim (Bool-cases (i == next)) [
    | inl e ↦ ground arith
    | inr e ↦ c.trailing i lo (ground (arith, c.fits))
  ]

  longest-suc : (s k : ℕ) → s + k ≡ next + 1 → IsFree btmp m s k → k ≤ suc count
  longest-suc s zero e free = omega arith
  longest-suc s (suc k) e free =
      let before = c.longest s k (omega arith) (λ i lo hi. free i lo (omega arith)) in omega arith

  no_run-suc : suc count < cnt → (s : ℕ) → s + cnt ≤ next + 1 → ¬ IsFree btmp m s cnt
  no_run-suc short s le free = elim (Bool-cases (s + cnt == next + 1)) [
    | inl e ↦ let k = longest-suc s cnt (ground arith) free in omega arith
    | inr e ↦ c.no_run s (ground arith) free
  ]

  IsCounted-free :
      bit_at btmp m next ≡ 0 → suc count < cnt → IsCounted btmp m cnt (next + 1) (suc count)
  IsCounted-free free short = record {
    fits = omega (arith, c.fits);
    short = short;
    trailing = λ i lo hi. trailing-suc free i (omega (arith, c.fits)) (omega (arith, c.fits));
    longest = longest-suc;
    no_run = no_run-suc short;
  }

  IsCounted-used : bit_at btmp m next ≡ 1 → 0 < cnt → IsCounted btmp m cnt (next + 1) 0
  IsCounted-used used pos = record {
    fits = omega arith;
    short = pos;
    trailing = λ i lo hi. absurd (omega arith);
    longest = ends;
    no_run = λ s le free.
        let k = ends s cnt in
        elim (Bool-cases (s + cnt == next + 1)) [
          | inl e ↦ let k = ends s cnt (ground arith) free in omega arith
          | inr e ↦ c.no_run s (ground arith) free
        ];
  }
    where
      ends : (s k : ℕ) → s + k ≡ next + 1 → IsFree btmp m s k → k ≤ 0
      ends s zero e free = omega arith
      ends s (suc k) e free = absurd (omega (arith, free next (omega arith) (omega arith)))

  found :
      bit_at btmp m next ≡ 0
      → suc count ≡ cnt
      → IsFirstRun btmp m cnt (next + 1) (some (next - count))
  found free e = (
    omega (arith, c.fits),
    λ i lo hi. trailing-suc free i lo (omega (arith, c.fits)),
    λ s below. c.no_run s (omega (arith, c.fits)),
  )

IsFirstRun-weaken :
    (btmp : Bitmap) (m : Mem) (cnt limit limit' i : ℕ)
    → limit ≤ limit'
    → IsFirstRun btmp m cnt limit (some i)
    → IsFirstRun btmp m cnt limit' (some i)
IsFirstRun-weaken btmp m cnt limit limit' i le (a, b, c) = (omega arith, b, c)

module _ (btmp : Bitmap) (cnt left next count : ℕ) (m : Mem) (bytes : IsBytes m)
    (fits : next + 1 < 2 ^ 32) (le : count ≤ next) (short : count < cnt) where
  round_found :
      bit_at btmp m next ≡ 0
      → suc count ≡ cnt
      → run_loop btmp cnt (suc left) next count m ≡ some (next - count)
  unfolding run_loop
  round_found free e = ground (arith, bitmap_scan_test-zero btmp next m bytes)

  round_free :
      bit_at btmp m next ≡ 0
      → suc count < cnt
      → run_loop btmp cnt (suc left) next count m ≡ run_loop btmp cnt left (next + 1) (suc count) m
  unfolding run_loop
  round_free free more = ground (arith, bitmap_scan_test-zero btmp next m bytes)

  round_used :
      bit_at btmp m next ≡ 1
      → run_loop btmp cnt (suc left) next count m ≡ run_loop btmp cnt left (next + 1) 0 m
  unfolding run_loop
  round_used used = ground (arith, bitmap_scan_test-one btmp next m bytes)

pub run_loop-IsFirstRun :
    (btmp : Bitmap) (cnt left next count limit : ℕ) (m : Mem)
    → IsBytes m
    → next + left ≡ limit
    → limit < 2 ^ 32
    → IsCounted btmp m cnt next count
    → IsFirstRun btmp m cnt limit (run_loop btmp cnt left next count m)
run_loop-IsFirstRun btmp cnt zero next count limit m bytes e fits c =
    unfold run_loop in λ s le. c.no_run s (omega arith)
run_loop-IsFirstRun btmp cnt (suc left) next count limit m bytes e fits c =
    elim (Bool-cases (bit_at btmp m next == 0)) [
      | inl free ↦ elim (Bool-cases (suc count == cnt)) [
        | inl done ↦
            rw
              (round_found btmp cnt left next count m bytes (omega arith) c.fits c.short
                (ground arith) (ground arith))
              (IsFirstRun-weaken btmp m cnt (next + 1) limit (next - count) (omega arith)
                (found btmp m cnt next count c (ground arith) (ground arith)))
        | inr more ↦
            let more' : suc count < cnt = ground (arith, c.short) in
            rw
              (round_free btmp cnt left next count m bytes (omega arith) c.fits c.short
                (ground arith) more')
              (run_loop-IsFirstRun btmp cnt left (next + 1) (suc count) limit m bytes (omega arith)
                fits (IsCounted-free btmp m cnt next count c (ground arith) more'))
      ]
      | inr used ↦
          rw
            (round_used btmp cnt left next count m bytes (omega arith) c.fits c.short
              (ground arith))
            (run_loop-IsFirstRun btmp cnt left (next + 1) 0 limit m bytes (omega arith) fits
              (IsCounted-used btmp m cnt next count c (ground arith) (omega (arith, c.short))))
    ]
