-- ===== src/Elephant/Str/Find.antt =====
-- strlen, strchr, strrchr and strchrs, on a string of `n` bytes and its NUL.
use project_base_learning.Base.{
  ℕ, zero, suc, ◌+◌, ◌^◌, ◌<◌, ◌≤◌, ◌≡◌, ◌≢◌, refl, ◌⊎◌, inl, inr, arith, true, false, Mem, ok, ap,
  ◌==◌, leb, Bool-cases, if◌then◌else◌, u32,
}
use project_base_learning.Elephant.Str.{
  char_is, skip_loop, strlen, strchr_loop, strchr, strrchr_loop, strrchr, strchrs_loop, strchrs,
}

-- At `p` stand `n` bytes that are not NUL, and a NUL behind them.
pub record IsString (m : Mem) (p n : ℕ) : Type 0 where
  pub inside : (i : ℕ) → i < n → m (p + i) ≢ 0
  pub stop : m (p + n) ≡ 0

pub IsString-tail : {m : Mem} (p n : ℕ) → IsString m p (suc n) → IsString m (p + 1) n
IsString-tail p n s = record {
  inside = λ i h. ground (arith, s.inside (suc i));
  stop = ground (arith, s.stop);
}

pub IsString-head : {m : Mem} (p n : ℕ) → IsString m p (suc n) → (m p == 0) ≡ false
IsString-head p n s = ground (arith, s.inside 0)

pub IsString-end : {m : Mem} (p : ℕ) → IsString m p zero → (m p == 0) ≡ true
IsString-end p s = ground (arith, s.stop)

pub skip_loop_lem :
    (fuel p n : ℕ) (m : Mem) → IsString m p n → n < fuel → skip_loop fuel p m ≡ ok (p + n + 1) m
unfolding skip_loop
skip_loop_lem zero p n m s h = elim h [ ]
skip_loop_lem (suc fuel) p zero m s h = ground (arith, IsString-end p s)
skip_loop_lem (suc fuel) p (suc n) m s h =
    ground (arith, IsString-head p n s, skip_loop_lem fuel (p + 1) n m (IsString-tail p n s))

-- With more fuel than bytes, `strlen` returns the number of bytes before the NUL, as a
-- `uint32_t`, and changes no memory.
pub strlen_lem :
    (fuel p n : ℕ) (m : Mem) → IsString m p n → p ≢ 0 → n < fuel → strlen fuel p m ≡ ok (u32 n) m
unfolding strlen
strlen_lem fuel p n m s ne h = ground (arith, skip_loop_lem fuel p n m s)

-- `r` points at the first byte of the string that is `ch`, or is NULL where there is none. A `ch`
-- above 127 is never found.
abbrev pub IsFirst : Mem → ℕ → ℕ → ℕ → ℕ → Type 0
IsFirst m p n ch r =
    ((i : ℕ) × (i < n)
      × (r ≡ p + i)
      × (m (p + i) ≡ ch)
      × (ch < 128)
      × ((j : ℕ) → j < i → m (p + j) ≢ ch))
    ⊎ ((r ≡ 0) × ((128 ≤ ch) ⊎ ((j : ℕ) → j < n → m (p + j) ≢ ch)))

IsFirst-here : (m : Mem) (p n ch : ℕ) → char_is (m p) ch ≡ true → IsFirst m p (suc n) ch p
unfolding char_is
IsFirst-here m p n ch e =
    inl (0, omega arith, omega arith, ground arith, ground arith, λ j h. elim h [ ])

IsFirst-later :
    (m : Mem) (p n ch r : ℕ)
    → char_is (m p) ch ≡ false
    → IsFirst m (p + 1) n ch r
    → IsFirst m p (suc n) ch r
unfolding char_is
IsFirst-later m p n ch r e (inl (i, below, at, is, small, before)) =
    inl (suc i, omega arith, omega arith, ground arith, small, earlier)
  where
    earlier : (j : ℕ) → j < suc i → m (p + j) ≢ ch
    earlier zero h = ground arith
    earlier (suc j) h = ground (arith, before j)
IsFirst-later m p n ch r e (inr (null, inl big)) = inr (null, inl big)
IsFirst-later m p n ch r e (inr (null, inr never)) = elim (Bool-cases (leb 128 ch)) [
  | inl big ↦ inr (null, inl (ground arith))
  | inr small ↦ inr (null, inr (absent small))
]
  where
    absent : leb 128 ch ≡ false → (j : ℕ) → j < suc n → m (p + j) ≢ ch
    absent small zero h = ground arith
    absent small (suc j) h = ground (arith, never j)

strchr_loop_lem :
    (fuel p n ch : ℕ) (m : Mem)
    → IsString m p n
    → n < fuel
    → (r : ℕ) × (strchr_loop fuel p ch m ≡ ok r m) × IsFirst m p n ch r
unfolding strchr_loop
strchr_loop_lem zero p n ch m s h = elim h [ ]
strchr_loop_lem (suc fuel) p zero ch m s h =
    (0, rw (IsString-end p s), inr (refl, inr λ j k. elim k [ ]))
strchr_loop_lem (suc fuel) p (suc n) ch m s h = elim (Bool-cases (char_is (m p) ch)) [
  | inl e ↦ (p, rw (IsString-head p n s, e), IsFirst-here m p n ch e)
  | inr e ↦
      let (r, runs, first) =
        strchr_loop_lem fuel (p + 1) n ch m (IsString-tail p n s) (omega arith) in
      (r, rw (IsString-head p n s, e) runs, IsFirst-later m p n ch r e first)
]

-- With more fuel than bytes, `strchr` returns the address of the first `ch` in the string, or
-- NULL where there is none or `ch` is above 127, and changes no memory.
pub strchr-IsFirst :
    (fuel p n ch : ℕ) (m : Mem)
    → IsString m p n
    → p ≢ 0
    → n < fuel
    → (r : ℕ) × (strchr fuel p ch m ≡ ok r m) × IsFirst m p n ch r
unfolding strchr
strchr-IsFirst fuel p n ch m s ne h =
    let (r, runs, first) = strchr_loop_lem fuel p n ch m s h in (r, ground arith, first)

-- As `IsFirst`, for the last such byte; where there is none, `r` is `otherwise`.
abbrev pub IsLast : Mem → ℕ → ℕ → ℕ → ℕ → ℕ → Type 0
IsLast m p n ch otherwise r =
    ((i : ℕ) × (i < n)
      × (r ≡ p + i)
      × (m (p + i) ≡ ch)
      × (ch < 128)
      × ((j : ℕ) → i < j → j < n → m (p + j) ≢ ch))
    ⊎ ((r ≡ otherwise) × ((128 ≤ ch) ⊎ ((j : ℕ) → j < n → m (p + j) ≢ ch)))

IsLast-step :
    (m : Mem) (p n ch last r : ℕ)
    → IsLast m (p + 1) n ch (if char_is (m p) ch then p else last) r
    → IsLast m p (suc n) ch last r
unfolding char_is
IsLast-step m p n ch last r (inl (i, below, at, is, small, after)) =
    inl (suc i, omega arith, omega arith, ground arith, small, later)
  where
    later : (j : ℕ) → suc i < j → j < suc n → m (p + j) ≢ ch
    later zero h k = absurd (omega arith)
    later (suc j) h k = ground (arith, after j)
IsLast-step m p n ch last r (inr (e, never)) = elim (Bool-cases (char_is (m p) ch)) [
  | inl here ↦ found here (rw here at e) never
  | inr other ↦ missing other (rw other at e) never
]
  where
    found :
        char_is (m p) ch ≡ true
        → r ≡ p
        → (128 ≤ ch) ⊎ ((j : ℕ) → j < n → m (p + 1 + j) ≢ ch)
        → IsLast m p (suc n) ch last r
    found here at (inl big) = absurd (ground arith)
    found here at (inr absent) =
        inl (0, omega arith, omega arith, ground arith, ground arith, after)
      where
        after : (j : ℕ) → 0 < j → j < suc n → m (p + j) ≢ ch
        after zero h k = elim h [ ]
        after (suc j) h k = ground (arith, absent j)

    missing :
        char_is (m p) ch ≡ false
        → r ≡ last
        → (128 ≤ ch) ⊎ ((j : ℕ) → j < n → m (p + 1 + j) ≢ ch)
        → IsLast m p (suc n) ch last r
    missing other at (inl big) = inr (at, inl big)
    missing other at (inr absent) = elim (Bool-cases (leb 128 ch)) [
      | inl big ↦ inr (at, inl (ground arith))
      | inr small ↦ inr (at, inr (nowhere small))
    ]
      where
        nowhere : leb 128 ch ≡ false → (j : ℕ) → j < suc n → m (p + j) ≢ ch
        nowhere small zero h = ground arith
        nowhere small (suc j) h = ground (arith, absent j)

strrchr_loop_lem :
    (fuel p n ch last : ℕ) (m : Mem)
    → IsString m p n
    → n < fuel
    → (r : ℕ) × (strrchr_loop fuel p ch last m ≡ ok r m) × IsLast m p n ch last r
unfolding strrchr_loop
strrchr_loop_lem zero p n ch last m s h = elim h [ ]
strrchr_loop_lem (suc fuel) p zero ch last m s h =
    (last, rw (IsString-end p s), inr (refl, inr λ j k. elim k [ ]))
strrchr_loop_lem (suc fuel) p (suc n) ch last m s h =
    let (r, runs, is) =
      strrchr_loop_lem fuel (p + 1) n ch (if char_is (m p) ch then p else last) m
        (IsString-tail p n s) (omega arith) in
    (r, rw (IsString-head p n s) runs, IsLast-step m p n ch last r is)

-- With more fuel than bytes, `strrchr` returns the address of the last `ch` in the string, or
-- NULL where there is none or `ch` is above 127, and changes no memory.
pub strrchr-IsLast :
    (fuel p n ch : ℕ) (m : Mem)
    → IsString m p n
    → p ≢ 0
    → n < fuel
    → (r : ℕ) × (strrchr fuel p ch m ≡ ok r m) × IsLast m p n ch 0 r
unfolding strrchr
strrchr-IsLast fuel p n ch m s ne h =
    let (r, runs, is) = strrchr_loop_lem fuel p n ch 0 m s h in (r, ground arith, is)

-- How many of the `n` bytes at `p` are `ch`, counted from the end.
unfoldable pub occurrences : Mem → ℕ → ℕ → ℕ → ℕ
occurrences m p zero ch = 0
occurrences m p (suc n) ch = occurrences m p n ch + (if m (p + n) == ch then 1 else 0)

occurrences-head :
    (m : Mem) (p n ch : ℕ)
    → occurrences m p (suc n) ch ≡ (if m p == ch then 1 else 0) + occurrences m (p + 1) n ch
unfolding occurrences
occurrences-head m p zero ch = ground arith
occurrences-head m p (suc n) ch = ground (arith, occurrences-head m p n ch)

strchrs_loop_lem :
    (fuel p n ch cnt : ℕ) (m : Mem)
    → IsString m p n
    → n < fuel
    → ch < 128
    → cnt < 2 ^ 32
    → strchrs_loop fuel p ch cnt m ≡ ok (u32 (cnt + occurrences m p n ch)) m
unfolding strchrs_loop char_is
strchrs_loop_lem zero p n ch cnt m s h small fits = elim h [ ]
strchrs_loop_lem (suc fuel) p zero ch cnt m s h small fits =
    rw (IsString-end p s) (ap (λ k. ok k m) (unfold occurrences in omega arith))
strchrs_loop_lem (suc fuel) p (suc n) ch cnt m s h small fits = ground (
  arith,
  IsString-head p n s,
  occurrences-head m p n ch,
  strchrs_loop_lem fuel (p + 1) n ch cnt m (IsString-tail p n s),
  strchrs_loop_lem fuel (p + 1) n ch (u32 (cnt + 1)) m (IsString-tail p n s),
)

-- For a `ch` below 128, with more fuel than bytes, `strchrs` returns the number of bytes of the
-- string that are `ch`, as a `uint32_t`, and changes no memory.
pub strchrs-occurrences :
    (fuel p n ch : ℕ) (m : Mem)
    → IsString m p n
    → p ≢ 0
    → n < fuel
    → ch < 128
    → strchrs fuel p ch m ≡ ok (u32 (occurrences m p n ch)) m
unfolding strchrs
strchrs-occurrences fuel p n ch m s ne h small =
    ground (arith, strchrs_loop_lem fuel p n ch 0 m s h small)
