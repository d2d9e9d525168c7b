-- ===== src/Elephant/Bitmap/Scan/Reference.antt =====
-- A scan that tries every start in turn, to compare bitmap_scan with.
use project_base_learning.Base.{
  ℕ, zero, suc, ◌+◌, ◌-◌, ◌*◌, ◌^◌, ◌<◌, ◌≤◌, ◌≡◌, ◌≢◌, refl, ap, ◌∙◌, ◌⊎◌, inl, inr, arith, Bool,
  true, false, ◌==◌, ◌&&◌, ◌||◌, ==→eq, ==→ne, if◌then◌else◌, Bool-cases, Option, none, some, Mem,
  IsBytes, Run, ok, panic,
}
use mathlib.Core.Path.{subst⁻¹}
use project_base_learning.Elephant.Bitmap.{Bitmap, bitmap_scan}
use project_base_learning.Elephant.Bitmap.View.{bit_at, IsFree}
use project_base_learning.Elephant.Bitmap.Scan.{bitmap_scan-pos, bitmap_scan-full}
use project_base_learning.Elephant.Bitmap.Scan.Runs.{IsFirstRun}

module _ (btmp : Bitmap) (m : Mem) where
  -- The `cnt` bits from `start` are free.
  pub free_run : (start cnt : ℕ) → Bool
  free_run start zero = true
  free_run start (suc cnt) = (bit_at btmp m start == 0) && free_run (start + 1) cnt

  -- The first of the `left` starts from `start` on at which a run begins.
  pub first_run : (cnt left start : ℕ) → Option ℕ
  first_run cnt zero start = none
  first_run cnt (suc left) start =
      let rest = first_run cnt left (start + 1) in if free_run start cnt then some start else rest

  -- One of the `left` bits from `start` on is free.
  pub any_free : (left start : ℕ) → Bool
  any_free zero start = false
  any_free (suc left) start = (bit_at btmp m start == 0) || any_free left (start + 1)

  any_free-cases :
      (left start : ℕ)
      → ((any_free left start ≡ true)
          × ((i : ℕ) × (start ≤ i) × (i < start + left) × (bit_at btmp m i ≡ 0)))
        ⊎ ((any_free left start ≡ false)
            × ((i : ℕ) → start ≤ i → i < start + left → bit_at btmp m i ≡ 1))
  unfolding any_free
  any_free-cases zero start = inr (refl, λ i lo hi. absurd (omega arith))
  any_free-cases (suc left) start = elim (Bool-cases (bit_at btmp m start == 0)) [
    | inl e ↦ rw (e) (inl (refl, (start, omega arith, omega arith, ground (arith, e))))
    | inr e ↦ rw (e) (elim (any_free-cases left (start + 1)) [
      | inl (some_free, (i, lo, hi, free)) ↦ inl (some_free, (i, omega arith, omega arith, free))
      | inr (no_free, used) ↦ inr (
        no_free,
        λ i lo hi. elim (Bool-cases (i == start)) [
          | inl g ↦ ground (arith, e, g)
          | inr g ↦ used i (ground arith) (omega arith)
        ],
      )
    ])
  ]

  free_run-IsFree : (start cnt : ℕ) → free_run start cnt ≡ true → IsFree btmp m start cnt
  unfolding free_run
  free_run-IsFree start zero e i lo hi = absurd (omega arith)
  free_run-IsFree start (suc cnt) e i lo hi = elim (Bool-cases (start == i)) [
    | inl g ↦ ground (arith, e, g)
    | inr g ↦ free_run-IsFree (start + 1) cnt (ground (arith, e)) i (ground arith) (omega arith)
  ]

  free_run-not : (start cnt : ℕ) → free_run start cnt ≡ false → ¬ IsFree btmp m start cnt
  unfolding free_run
  free_run-not start zero e free = ground (arith, e)
  free_run-not start (suc cnt) e free = elim (Bool-cases (bit_at btmp m start == 0)) [
    | inl g ↦
        free_run-not (start + 1) cnt (ground (arith, e, g))
          (λ i lo hi. free i (omega arith) (omega arith))
    | inr g ↦ ground (arith, g, free start)
  ]

  -- No run begins before `start`, and the starts that are left are those up to the limit: then what
  -- is found from there on is the first run of all.
  first_run-IsFirstRun :
      (cnt limit left start : ℕ)
      → ((s : ℕ) → s < start → ¬ IsFree btmp m s cnt)
      → limit + 1 ≤ start + left + cnt
      → (0 < left → start + left + cnt ≤ limit + 1)
      → IsFirstRun btmp m cnt limit (first_run cnt left start)
  unfolding first_run
  first_run-IsFirstRun cnt limit zero start before covers within = λ s ends. before s (omega arith)
  first_run-IsFirstRun cnt limit (suc left) start before covers within =
      elim (Bool-cases (free_run start cnt)) [
        | inl e ↦ rw (e) (omega (arith, within (omega arith)), free_run-IsFree start cnt e, before)
        | inr e ↦ rw (e) (
            first_run-IsFirstRun cnt limit left (start + 1)
              (λ s lt. elim (Bool-cases (s == start)) [
                | inl g ↦
                    subst⁻¹ (λ t. ¬ IsFree btmp m t cnt) (==→eq s start g)
                      (free_run-not start cnt e)
                | inr g ↦ before s (ground arith)
              ])
              (omega arith) (λ some_left. omega (arith, within (omega arith))))
      ]

  -- There is only one first run.
  IsFirstRun_unique :
      (cnt limit : ℕ) (r r' : Option ℕ)
      → IsFirstRun btmp m cnt limit r
      → IsFirstRun btmp m cnt limit r'
      → r ≡ r'
  IsFirstRun_unique cnt limit none none a b = refl
  IsFirstRun_unique cnt limit none (some i) a (ends, free, first) = absurd (a i ends free)
  IsFirstRun_unique cnt limit (some i) none (ends, free, first) b = absurd (b i ends free)
  IsFirstRun_unique cnt limit (some i) (some j) (ends, free, first) (ends', free', first') =
      elim (Bool-cases (i == j)) [
        | inl e ↦ ap some (==→eq i j e)
        | inr e ↦ elim (ne-cases i j (==→ne i j e)) [
          | inl lt ↦ absurd (first' i lt free)
          | inr gt ↦ absurd (first j gt free')
        ]
      ]
    where
      ne-cases : (i j : ℕ) → i ≢ j → (i < j) ⊎ (j < i)
      ne-cases i j ne = omega arith

  -- The scan that `bitmap_scan` stands for: it halts when no bit is free, and else tries every
  -- start up to the one where the run ends one bit past the bitmap.
  pub reference_scan : ℕ → Run Mem (Option ℕ)
  reference_scan cnt =
      if any_free (btmp.btmp_bytes_len * 8) 0
      then ok (first_run cnt (btmp.btmp_bytes_len * 8 + 2 - cnt) 0) m
      else panic

-- On every bitmap and for every count but zero `bitmap_scan` is that scan: it halts where no bit of
-- the bitmap is free, and else returns the first start of a run of `cnt` free bits that ends at most
-- one bit past the bitmap, or -1, and changes no memory.
pub bitmap_scan-reference_scan :
    (btmp : Bitmap) (cnt : ℕ) (m : Mem)
    → IsBytes m
    → btmp.btmp_bytes_len < 2 ^ 29
    → 0 < cnt
    → bitmap_scan btmp cnt m ≡ reference_scan btmp m cnt
unfolding reference_scan
bitmap_scan-reference_scan btmp cnt m bytes fits pos =
    let n = btmp.btmp_bytes_len * 8 in
    elim (any_free-cases btmp m n 0) [
      | inr (no_free, used) ↦
          rw (no_free)
            (bitmap_scan-full btmp m bytes fits cnt (λ i lt. used i (omega arith) (omega arith)))
      | inl (some_free, (i, lo, hi, free)) ↦
          let (r, runs, first) = bitmap_scan-pos btmp m bytes fits cnt i pos (omega arith) free in
          rw (some_free) (
            runs
            ∙ ap (λ o. ok o m)
                (IsFirstRun_unique btmp m cnt (n + 1) r (first_run btmp m cnt (n + 2 - cnt) 0) first
                  (first_run-IsFirstRun btmp m cnt (n + 1) (n + 2 - cnt) 0
                    (λ s lt. absurd (omega arith)) (omega arith) (λ some_left. omega arith))))
    ]
