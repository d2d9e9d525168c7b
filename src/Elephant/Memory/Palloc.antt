-- ===== src/Elephant/Memory/Palloc.antt =====
-- palloc: the page that it hands out, and the pool it leaves.
pub mod Refine
use project_base_learning.Base.{
  ℕ, ◌+◌, ◌*◌, ◌^◌, ◌<◌, ◌≤◌, ◌≡◌, ◌≢◌, inl, inr, arith, Mem, IsBytes, ok, panic, u32, Bool-cases,
  ◌==◌,
}
use project_base_learning.Elephant.Bitmap.View.{bit_at, IsUsed}
use project_base_learning.Elephant.Bitmap.Set.{IsSet1, bitmap_set-IsSet1}
use project_base_learning.Elephant.Bitmap.Scan.{bitmap_scan-one, bitmap_scan-full}
use project_base_learning.Elephant.Memory.{Pool, palloc, pg_size}

-- The address of page number `r` of a pool.
abbrev pub page_address : Pool → ℕ → ℕ
page_address p r = u32 (r * pg_size + p.phy_addr_start)

-- `palloc` took page `r`, the first free one, from memory `m`, and left `m'`.
pub record IsPageTaken (p : Pool) (r : ℕ) (m m' : Mem) : Type 0 where
  pub runs : palloc p m ≡ ok (page_address p r) m'
  pub in_pool : r < p.pool_bitmap.btmp_bytes_len * 8
  pub was_free : bit_at p.pool_bitmap m r ≡ 0
  pub first : IsUsed p.pool_bitmap m r
  pub change : IsSet1 p.pool_bitmap r 1 m m'

module _ (p : Pool) (m : Mem) (bytes : IsBytes m)
    (fits : p.pool_bitmap.btmp_bytes_len < 2 ^ 29) where
  -- While some page of the pool is free, `palloc` returns the address of the first free page, marks
  -- that page used and nothing else.
  pub palloc-IsPageTaken :
      (i : ℕ)
      → i < p.pool_bitmap.btmp_bytes_len * 8
      → bit_at p.pool_bitmap m i ≡ 0
      → (r : ℕ) × (m' : Mem) × IsPageTaken p r m m'
  palloc-IsPageTaken i within free =
      let (r, scans, lt, is_free, used) =
        bitmap_scan-one p.pool_bitmap m bytes fits i within free in
      let (m', sets, change) = bitmap_set-IsSet1 p.pool_bitmap r 1 m bytes (omega arith) in
      (
        r,
        m',
        record {
          runs = unfold palloc in rw (scans, sets);
          in_pool = lt;
          was_free = is_free;
          first = used;
          change = change;
        },
      )

  -- When no page of the pool is free, `palloc` halts the kernel: it never returns NULL.
  pub palloc-panic : IsUsed p.pool_bitmap m (p.pool_bitmap.btmp_bytes_len * 8) → palloc p m ≡ panic
  palloc-panic used = unfold palloc in rw (bitmap_scan-full p.pool_bitmap m bytes fits 1 used)

-- Two calls in a row hand out different pages.
pub IsPageTaken-ne :
    (p : Pool) (r r' : ℕ) (m m' m'' : Mem) → IsPageTaken p r m m' → IsPageTaken p r' m' m'' → r ≢ r'
IsPageTaken-ne p r r' m m' m'' one two e = ground (arith, one.change.bits r', two.was_free)

-- With two pages free in a pool whose addresses fit 32 bits, two calls of `palloc` in a row return
-- the addresses of two different pages of the pool.
pub palloc_twice :
    (p : Pool) (m : Mem) (i j : ℕ)
    → IsBytes m
    → p.pool_bitmap.btmp_bytes_len < 2 ^ 29
    → p.phy_addr_start + p.pool_bitmap.btmp_bytes_len * 8 * pg_size ≤ 2 ^ 32
    → i ≢ j
    → i < p.pool_bitmap.btmp_bytes_len * 8
    → j < p.pool_bitmap.btmp_bytes_len * 8
    → bit_at p.pool_bitmap m i ≡ 0
    → bit_at p.pool_bitmap m j ≡ 0
    → (r : ℕ) × (r' : ℕ) × (m1 : Mem) × (m2 : Mem) × (palloc p m ≡ ok (page_address p r) m1)
      × (palloc p m1 ≡ ok (page_address p r') m2)
      × (r < p.pool_bitmap.btmp_bytes_len * 8)
      × (r' < p.pool_bitmap.btmp_bytes_len * 8)
      × (page_address p r ≢ page_address p r')
palloc_twice p m i j bytes fits addresses ne in_i in_j free_i free_j =
    let (r, m1, one) = palloc-IsPageTaken p m bytes fits i in_i free_i in
    let (k, in_k, free_k) = left r m1 one in
    let (r', m2, two) = palloc-IsPageTaken p m1 one.change.bytes fits k in_k free_k in
    let apart = IsPageTaken-ne p r r' m m1 m2 one two in
    (
      r,
      r',
      m1,
      m2,
      one.runs,
      two.runs,
      one.in_pool,
      two.in_pool,
      λ e. apart (omega (arith, one.in_pool, two.in_pool)),
    )
  where
    left :
        (r : ℕ) (m1 : Mem)
        → IsPageTaken p r m m1
        → (k : ℕ) × (k < p.pool_bitmap.btmp_bytes_len * 8) × (bit_at p.pool_bitmap m1 k ≡ 0)
    left r m1 one = elim (Bool-cases (r == i)) [
      | inl e ↦ (j, in_j, ground (arith, one.change.bits j))
      | inr e ↦ (i, in_i, ground (arith, one.change.bits i))
    ]
