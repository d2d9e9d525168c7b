-- ===== src/Elephant/Memory/Palloc/Refine.antt =====
-- An abstract allocator of pages, and sequences of calls of palloc.
use project_base_learning.Base.{
  ℕ, ap, sym, ◌∙◌, ==→eq, zero, suc, ◌+◌, ◌*◌, ◌^◌, ◌<◌, ◌≤◌, ◌≡◌, refl, ◌⊎◌, inl, inr, arith, Bool,
  true, false, ◌==◌, if◌then◌else◌, Bool-cases, Option, none, some, List, [], ◌∷◌, map, Mem,
  IsBytes, Cmd, pure, ok, panic, ◌>>=◌, update,
}
use project_base_learning.Elephant.Bitmap.View.{bit_at}
use project_base_learning.Elephant.Memory.{Pool, palloc}
use project_base_learning.Elephant.Memory.Palloc.{page_address, palloc-IsPageTaken, palloc-panic}

-- The first number from `i` on that is in the set, of `left` numbers.
pub lowest : (ℕ → Bool) → (left i : ℕ) → Option ℕ
lowest free zero i = none
lowest free (suc left) i = let rest = lowest free left (i + 1) in if free i then some i else rest

-- The allocator: a set of free pages below `n`. It hands out the lowest one, and has nothing to
-- hand out when the set is empty.
abbrev pub hand_out : (ℕ → Bool) → Option ℕ → Option (ℕ × (ℕ → Bool))
hand_out free none = none
hand_out free (some r) = some (r, update free r false)

abbrev pub allocate : (n : ℕ) → (ℕ → Bool) → Option (ℕ × (ℕ → Bool))
allocate n free = hand_out free (lowest free n 0)

abbrev pub hand_on : ℕ → Option (List ℕ × (ℕ → Bool)) → Option (List ℕ × (ℕ → Bool))
hand_on r none = none
hand_on r (some (rs, free)) = some (r ∷ rs, free)

abbrev pub then_more :
    ((ℕ → Bool) → Option (List ℕ × (ℕ → Bool)))
    → Option (ℕ × (ℕ → Bool))
    → Option (List ℕ × (ℕ → Bool))
then_more more none = none
then_more more (some (r, free)) = hand_on r (more free)

-- `k` pages, first to last, and the set that is left.
pub allocate_many : (k n : ℕ) → (ℕ → Bool) → Option (List ℕ × (ℕ → Bool))
allocate_many zero n free = some ([], free)
allocate_many (suc k) n free = then_more (allocate_many k n) (allocate n free)

-- `k` calls of `palloc`.
pub palloc_many : ℕ → Pool → Cmd Mem (List ℕ)
palloc_many zero p = pure []
palloc_many (suc k) p = do page ← palloc p; pages ← palloc_many k p; pure (page ∷ pages)

-- The set stands for the bitmap of the pool.
abbrev pub StandsFor : Pool → Mem → (ℕ → Bool) → Type 0
StandsFor p m free =
    (j : ℕ) → j < p.pool_bitmap.btmp_bytes_len * 8 → free j ≡ (bit_at p.pool_bitmap m j == 0)

lowest-cases :
    (free : ℕ → Bool) (left i : ℕ)
    → ((lowest free left i ≡ none) × ((j : ℕ) → i ≤ j → j < i + left → free j ≡ false))
      ⊎ ((r : ℕ) × (lowest free left i ≡ some r)
          × (i ≤ r)
          × (r < i + left)
          × (free r ≡ true)
          × ((j : ℕ) → i ≤ j → j < r → free j ≡ false))
unfolding lowest
lowest-cases free zero i = inl (refl, λ j lo hi. absurd (omega arith))
lowest-cases free (suc left) i = elim (Bool-cases (free i)) [
  | inl e ↦ rw (e) (inr (i, refl, omega arith, omega arith, e, λ j lo hi. absurd (omega arith)))
  | inr e ↦ rw (e) (elim (lowest-cases free left (i + 1)) [
    | inl (no_more, used) ↦ inl (no_more, λ j lo hi. from i e j lo (λ h. used j h (omega arith)))
    | inr (r, found, above, below, is_free, used) ↦
        inr
          (r, found, omega arith, omega arith, is_free, λ j lo hi. from i e j lo (λ h. used j h hi))
  ])
]
  where
    from :
        (i : ℕ) → free i ≡ false → (j : ℕ) → i ≤ j → (i + 1 ≤ j → free j ≡ false) → free j ≡ false
    from i e j lo more = elim (Bool-cases (i == j)) [
      | inl g ↦ ap free (sym (==→eq i j g)) ∙ e
      | inr g ↦ more (ground arith)
    ]

-- What the two have in common after one page: nothing more to hand out, or the same page and a set
-- that stands for the bitmap again.
pub palloc-allocate :
    (p : Pool) (m : Mem) (free : ℕ → Bool)
    → IsBytes m
    → p.pool_bitmap.btmp_bytes_len < 2 ^ 29
    → StandsFor p m free
    → let n = p.pool_bitmap.btmp_bytes_len * 8 in
      ((allocate n free ≡ none) × (palloc p m ≡ panic))
      ⊎ ((r : ℕ) × (m' : Mem) × (allocate n free ≡ some (r, update free r false))
          × (palloc p m ≡ ok (page_address p r) m')
          × IsBytes m'
          × StandsFor p m' (update free r false))
palloc-allocate p m free bytes fits stands =
    let n = p.pool_bitmap.btmp_bytes_len * 8 in
    elim (lowest-cases free n 0) [
      | inl (nothing, used) ↦
          rw (nothing)
            (inl (refl, palloc-panic p m bytes fits λ j lt. ground (arith, stands j lt, used j)))
      | inr (r, found, _, below, is_free, used) ↦
          let bit_free : bit_at p.pool_bitmap m r ≡ 0 = ground (arith, stands r) in
          let (r', m', taken) = palloc-IsPageTaken p m bytes fits r (omega arith) bit_free in
          let same : r' ≡ r =
            ground (arith, taken.first r, taken.was_free, taken.in_pool, used r', stands r') in
          rw (found) (
            inr (
              r,
              m',
              refl,
              rw (taken.runs, same) refl,
              taken.change.bytes,
              λ j lt. ground (arith, same, taken.change.bits j, stands j lt),
            ))
    ]

-- Any number of calls of `palloc` is a run of the abstract allocator, which always hands out the
-- lowest free page: where that comes to its end, so do the calls, with the addresses of the same
-- pages in the same order, and the bitmap then stands for the set that is left; and where the
-- allocator has nothing to hand out any more, the calls halt the kernel.
pub palloc_many-allocate_many :
    (k : ℕ) (p : Pool) (m : Mem) (free : ℕ → Bool)
    → IsBytes m
    → p.pool_bitmap.btmp_bytes_len < 2 ^ 29
    → StandsFor p m free
    → let n = p.pool_bitmap.btmp_bytes_len * 8 in
      ((allocate_many k n free ≡ none) × (palloc_many k p m ≡ panic))
      ⊎ ((rs : List ℕ) × (left : ℕ → Bool) × (m' : Mem) × (allocate_many k n free ≡ some (rs, left))
          × (palloc_many k p m ≡ ok (map (page_address p) rs) m')
          × IsBytes m'
          × StandsFor p m' left)
unfolding allocate_many palloc_many
palloc_many-allocate_many zero p m free bytes fits stands =
    inr ([], free, m, refl, refl, bytes, stands)
palloc_many-allocate_many (suc k) p m free bytes fits stands =
    elim (palloc-allocate p m free bytes fits stands) [
      | inl (nothing, halts) ↦ rw (nothing, halts) (inl (refl, refl))
      | inr (r, m1, given, runs, bytes1, stands1) ↦
          elim (palloc_many-allocate_many k p m1 (update free r false) bytes1 fits stands1) [
            | inl (nothing, halts) ↦ rw (given, runs, nothing, halts) (inl (refl, refl))
            | inr (rs, left, m', given', runs', bytes', stands') ↦
                rw (given, runs, given', runs')
                  (inr (r ∷ rs, left, m', refl, refl, bytes', stands'))
          ]
    ]
