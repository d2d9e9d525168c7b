-- ===== src/Elephant/Str/Compare.antt =====
-- memcmp and strcmp: where the compared bytes first differ, in the order of the signed `char`.
use project_base_learning.Base.{
  ℕ, zero, suc, ◌+◌, ◌<◌, ◌≤◌, ◌≡◌, ◌≢◌, refl, ◌⊎◌, inl, inr, arith, Mem, IsBytes, ok, ◌==◌,
  Bool-cases, if◌then◌else◌, u8, ℤ, pos, negsuc,
}
use project_base_learning.Elephant.Str.{char_lt, memcmp_loop, memcmp, strcmp_loop, strcmp}
use project_base_learning.Elephant.Str.Find.{IsString, IsString-tail, IsString-head, IsString-end}

-- `c` comes before `d` in the order of the signed `char`.
abbrev pub Before : ℕ → ℕ → Type 0
Before c d = u8 (c + 128) < u8 (d + 128)

-- `r` is 1 or -1 by the two bytes at distance `i`, and the bytes in front of them agree.
abbrev pub DiffersAt : Mem → ℕ → ℕ → ℤ → ℕ → Type 0
DiffersAt m a b r i =
    ((j : ℕ) → j < i → m (a + j) ≡ m (b + j))
    × ((r ≡ pos 1) × Before (m (b + i)) (m (a + i))
        ⊎ (r ≡ negsuc 0) × Before (m (a + i)) (m (b + i)))

abbrev pub IsCompared : Mem → ℕ → ℕ → ℕ → ℤ → Type 0
IsCompared m a b size r =
    ((r ≡ pos 0) × ((i : ℕ) → i < size → m (a + i) ≡ m (b + i)))
    ⊎ ((i : ℕ) × (i < size) × DiffersAt m a b r i)

DiffersAt-zero :
    (m : Mem) (a b : ℕ)
    → IsBytes m
    → m a ≢ m b
    → DiffersAt m a b (if char_lt (m b) (m a) then pos 1 else negsuc 0) 0
unfolding char_lt
DiffersAt-zero m a b bytes ne = (λ j h. elim h [ ], ground (arith, bytes a, bytes b))

DiffersAt-suc :
    (m : Mem) (a b i : ℕ) (r : ℤ)
    → m a ≡ m b
    → DiffersAt m (a + 1) (b + 1) r i
    → DiffersAt m a b r (suc i)
DiffersAt-suc m a b i r e (same, order) = (before, ground arith)
  where
    before : (j : ℕ) → j < suc i → m (a + j) ≡ m (b + j)
    before zero h = ground arith
    before (suc j) h = ground (arith, same j)

memcmp_loop_lem :
    (a b size : ℕ) (m : Mem) → IsBytes m → IsCompared m a b size (memcmp_loop a b size m)
unfolding memcmp_loop
memcmp_loop_lem a b zero m bytes = inl (refl, λ i h. elim h [ ])
memcmp_loop_lem a b (suc size) m bytes = elim (Bool-cases (m a == m b)) [
  | inl e ↦ rw e (further (memcmp_loop_lem (a + 1) (b + 1) size m bytes) (ground arith))
  | inr e ↦ rw e (inr (0, omega arith, DiffersAt-zero m a b bytes (ground arith)))
]
  where
    further :
        IsCompared m (a + 1) (b + 1) size (memcmp_loop (a + 1) (b + 1) size m)
        → m a ≡ m b
        → IsCompared m a b (suc size) (memcmp_loop (a + 1) (b + 1) size m)
    further (inl (zero_result, same)) e = inl (zero_result, all)
      where
        all : (i : ℕ) → i < suc size → m (a + i) ≡ m (b + i)
        all zero h = ground arith
        all (suc i) h = ground (arith, same i)
    further (inr (i, below, at)) e = inr (suc i, omega arith, DiffersAt-suc m a b i _ e at)

-- Unless both pointers are NULL, `memcmp` returns 0 exactly for equal blocks, and else 1 or -1 by
-- the first two bytes that differ, compared as signed `char` values. It changes no memory.
pub memcmp-IsCompared :
    (a b size : ℕ) (m : Mem)
    → IsBytes m
    → (a ≢ 0) ⊎ (b ≢ 0)
    → (r : ℤ) × (memcmp a b size m ≡ ok r m) × IsCompared m a b size r
unfolding memcmp
memcmp-IsCompared a b size m bytes some_pointer =
    (memcmp_loop a b size m, ground arith, memcmp_loop_lem a b size m bytes)

-- The same for two strings of `n` and `k` bytes; the NUL of the shorter one takes part.
abbrev pub AreCompared : Mem → ℕ → ℕ → ℕ → ℕ → ℤ → Type 0
AreCompared m a b n k r =
    ((r ≡ pos 0) × (n ≡ k) × ((i : ℕ) → i < n → m (a + i) ≡ m (b + i)))
    ⊎ ((i : ℕ) × (i ≤ n) × (i ≤ k) × DiffersAt m a b r i)

-- What the last line of `strcmp` returns.
abbrev verdict : ℕ → ℕ → ℤ
verdict c d = if char_lt c d then negsuc 0 else (if char_lt d c then pos 1 else pos 0)

verdict-DiffersAt :
    (m : Mem) (a b : ℕ) → IsBytes m → m a ≢ m b → DiffersAt m a b (verdict (m a) (m b)) 0
unfolding char_lt
verdict-DiffersAt m a b bytes ne = (λ j h. elim h [ ], ground (arith, bytes a, bytes b))

AreCompared-suc :
    (m : Mem) (a b n k : ℕ) (r : ℤ)
    → m a ≡ m b
    → AreCompared m (a + 1) (b + 1) n k r
    → AreCompared m a b (suc n) (suc k) r
AreCompared-suc m a b n k r e (inl (zero_result, lengths, same)) =
    inl (zero_result, omega arith, all)
  where
    all : (i : ℕ) → i < suc n → m (a + i) ≡ m (b + i)
    all zero h = ground arith
    all (suc i) h = ground (arith, same i)
AreCompared-suc m a b n k r e (inr (i, in_n, in_k, at)) =
    inr (suc i, omega arith, omega arith, DiffersAt-suc m a b i r e at)

module _ (m : Mem) (bytes : IsBytes m) where
  strcmp_stops :
      (fuel a b : ℕ) → m a ≢ m b → strcmp_loop (suc fuel) a b m ≡ ok (verdict (m a) (m b)) m
  unfolding strcmp_loop
  strcmp_stops fuel a b ne = ground arith

  strcmp_loop_lem :
      (fuel a b n k : ℕ)
      → IsString m a n
      → IsString m b k
      → n < fuel
      → (r : ℤ) × (strcmp_loop fuel a b m ≡ ok r m) × AreCompared m a b n k r
  unfolding strcmp_loop char_lt
  strcmp_loop_lem zero a b n k sa sb h = elim h [ ]
  strcmp_loop_lem (suc fuel) a b zero zero sa sb h = (
    pos 0,
    ground (arith, IsString-end a sa, IsString-end b sb),
    inl (refl, refl, λ i j. elim j [ ]),
  )
  strcmp_loop_lem (suc fuel) a b zero (suc k) sa sb h =
      let ne : m a ≢ m b = ground (arith, IsString-end a sa, IsString-head b k sb) in
      (
        verdict (m a) (m b),
        strcmp_stops fuel a b ne,
        inr (0, omega arith, omega arith, verdict-DiffersAt m a b bytes ne),
      )
  strcmp_loop_lem (suc fuel) a b (suc n) zero sa sb h =
      let ne : m a ≢ m b = ground (arith, IsString-head a n sa, IsString-end b sb) in
      (
        verdict (m a) (m b),
        strcmp_stops fuel a b ne,
        inr (0, omega arith, omega arith, verdict-DiffersAt m a b bytes ne),
      )
  strcmp_loop_lem (suc fuel) a b (suc n) (suc k) sa sb h = elim (Bool-cases (m a == m b)) [
    | inl e ↦
        let (r, runs, compared) =
          strcmp_loop_lem fuel (a + 1) (b + 1) n k (IsString-tail a n sa) (IsString-tail b k sb)
            (omega arith) in
        (
          r,
          ground (arith, IsString-head a n sa),
          AreCompared-suc m a b n k r (ground arith) compared,
        )
    | inr e ↦
        let ne : m a ≢ m b = ground arith in
        (
          verdict (m a) (m b),
          strcmp_stops fuel a b ne,
          inr (0, omega arith, omega arith, verdict-DiffersAt m a b bytes ne),
        )
  ]

  -- With more fuel than the first string has bytes, `strcmp` returns 0 exactly for equal strings,
  -- and else 1 or -1 by the first two bytes that differ, compared as signed `char` values. It
  -- changes no memory.
  pub strcmp-AreCompared :
      (fuel a b n k : ℕ)
      → IsString m a n
      → IsString m b k
      → a ≢ 0
      → b ≢ 0
      → n < fuel
      → (r : ℤ) × (strcmp fuel a b m ≡ ok r m) × AreCompared m a b n k r
  unfolding strcmp
  strcmp-AreCompared fuel a b n k sa sb na nb h =
      let (r, runs, compared) = strcmp_loop_lem fuel a b n k sa sb h in (r, ground arith, compared)
