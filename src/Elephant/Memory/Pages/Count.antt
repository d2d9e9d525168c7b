-- ===== src/Elephant/Memory/Pages/Count.antt =====
-- The number of free bits of a bitmap, and how setting one changes it.
use project_base_learning.Base.{
  ℕ, zero, suc, ◌+◌, ◌-◌, ◌<◌, ◌≡◌, refl, inl, inr, arith, Mem, ◌==◌, Bool-cases, if◌then◌else◌,
}
use project_base_learning.Elephant.Bitmap.{Bitmap}
use project_base_learning.Elephant.Bitmap.View.{bit_at, IsFree}

-- How many of the first `n` bits are free.
unfoldable pub free_count : Bitmap → Mem → ℕ → ℕ
free_count btmp m zero = 0
free_count btmp m (suc n) = free_count btmp m n + (1 - bit_at btmp m n)

pub free_count-pos :
    (btmp : Bitmap) (m : Mem) (n : ℕ)
    → 0 < free_count btmp m n
    → (i : ℕ) × (i < n) × (bit_at btmp m i ≡ 0)
unfolding free_count
free_count-pos btmp m zero h = elim h [ ]
free_count-pos btmp m (suc n) h = elim (Bool-cases (bit_at btmp m n == 0)) [
  | inl e ↦ (n, omega arith, ground arith)
  | inr e ↦ let (i, lt, free) = free_count-pos btmp m n (ground arith) in (i, omega arith, free)
]

pub free_count-same :
    (btmp : Bitmap) (m m' : Mem) (n : ℕ)
    → ((j : ℕ) → j < n → bit_at btmp m' j ≡ bit_at btmp m j)
    → free_count btmp m' n ≡ free_count btmp m n
unfolding free_count
free_count-same btmp m m' zero same = refl
free_count-same btmp m m' (suc n) same =
    ground (arith, same n, free_count-same btmp m m' n (λ j h. same j (omega arith)))

pub free_count-set :
    (btmp : Bitmap) (m m' : Mem) (r n : ℕ)
    → r < n
    → bit_at btmp m r ≡ 0
    → ((j : ℕ) → j < n → bit_at btmp m' j ≡ (if r == j then 1 else bit_at btmp m j))
    → free_count btmp m' n + 1 ≡ free_count btmp m n
unfolding free_count
free_count-set btmp m m' r zero lt free set = elim lt [ ]
free_count-set btmp m m' r (suc n) lt free set = elim (Bool-cases (r == n)) [
  | inl e ↦ ground (arith, set n, free_count-same btmp m m' n (λ j h. ground (arith, set j)))
  | inr e ↦
      ground (
        arith,
        set n,
        free_count-set btmp m m' r n (ground arith) free (λ j h. set j (omega arith)),
      )
]

pub free_count-IsFree :
    (btmp : Bitmap) (m : Mem) (n : ℕ) → IsFree btmp m 0 n → free_count btmp m n ≡ n
unfolding free_count
free_count-IsFree btmp m zero free = refl
free_count-IsFree btmp m (suc n) free =
    ground
      (arith, free n, free_count-IsFree btmp m n (λ i lo hi. free i (omega arith) (omega arith)))
