-- ===== src/Elephant/Memory/Pages.antt =====
-- malloc_page and get_kernel_pages: when they halt, when they return NULL, and what they allocate.
pub mod Count
pub mod Ready
use project_base_learning.Base.{
  ℕ, zero, suc, ◌+◌, ◌-◌, ◌*◌, ◌/◌, ◌%◌, ◌^◌, ◌<◌, ◌≤◌, ◌≡◌, ◌≢◌, refl, ◌⊎◌, inl, inr, arith, ◌∙◌,
  Mem, IsBytes, true, false, ok, panic, u32, ◌==◌, ltb, leb, ◌&&◌, Bool-cases, if◌then◌else◌, ne→==,
  Option, none, some, lt→ltb, ap, Run, out_of_fuel,
}
use project_base_learning.Elephant.Bitmap.{Bitmap}
use project_base_learning.Elephant.Bitmap.View.{bit_at, IsFree}
use project_base_learning.Elephant.Bitmap.Scan.Runs.{IsFirstRun}
use project_base_learning.Elephant.Memory.{
  Pool, VirtualAddr, Globals, PoolFlags, pf_kernel, pf_user, pool_flags_value, vaddr_get,
  map_pages_loop, malloc_page, get_kernel_pages, pte_ptr, pde_ptr, is_present,
}
use project_base_learning.Elephant.Memory.Words.{pte_ptr_lem, pde_ptr_lem}
use project_base_learning.Elephant.Memory.Palloc.{page_address}
use project_base_learning.Elephant.Memory.Vaddr.{IsRunSet, IsReserved, vaddr_get-IsReserved}
use Count.{free_count, free_count-same}
use Ready.{
  window, kernel_space, bits_of, IsPlaced, IsReady, IsRound, map-IsRound, is_present-below,
  page_address_lem,
}

-- `cnt` pages were taken from the pool and entered.
pub record IsMapped (p : Pool) (cnt : ℕ) (m m' : Mem) : Type 0 where
  pub ready : IsReady p m'
  pub taken : free_count p.pool_bitmap m' (bits_of p) + cnt ≡ free_count p.pool_bitmap m (bits_of p)
  pub others :
      (a : ℕ)
      → a < window
      → (a < p.pool_bitmap.bits) ⊎ (p.pool_bitmap.bits + p.pool_bitmap.btmp_bytes_len ≤ a)
      → m' a ≡ m a

pub map_pages_loop-IsMapped :
    (g : Globals) (vaddr cnt : ℕ) (m : Mem)
    → IsPlaced g.kernel_pool
    → IsReady g.kernel_pool m
    → kernel_space ≤ vaddr
    → vaddr + cnt * 4096 < 2 ^ 32
    → cnt ≤ free_count g.kernel_pool.pool_bitmap m (bits_of g.kernel_pool)
    → (m' : Mem) × (map_pages_loop g g.kernel_pool vaddr cnt m ≡ ok true m')
      × IsMapped g.kernel_pool cnt m m'
map_pages_loop-IsMapped g vaddr zero m placed ready high fits enough = (
  m,
  unfold map_pages_loop in refl,
  record { ready = ready; taken = omega arith; others = λ a low out. refl },
)
map_pages_loop-IsMapped g vaddr (suc cnt) m placed ready high fits enough =
    let (m1, round, steps) =
      map-IsRound g vaddr cnt m placed ready high (omega arith) (omega arith) in
    let (m', runs, mapped) =
      map_pages_loop-IsMapped g (u32 (vaddr + 4096)) cnt m1 placed round.ready (omega arith)
        (omega arith) (omega (arith, round.one_less)) in
    (
      m',
      steps ∙ runs,
      record {
        ready = mapped.ready;
        taken = omega (arith, mapped.taken, round.one_less);
        others = λ a low out. mapped.others a low out ∙ round.others a low out;
      },
    )

-- The kernel's address range: its bitmap stands behind the pool's and below the window, and its
-- addresses, with one page more, lie in the kernel's gigabyte.
pub record IsRange (g : Globals) : Type 0 where
  pub len_fits : g.kernel_vaddr.vaddr_bitmap.btmp_bytes_len < 2 ^ 29
  pub behind :
      g.kernel_pool.pool_bitmap.bits + g.kernel_pool.pool_bitmap.btmp_bytes_len
      ≤ g.kernel_vaddr.vaddr_bitmap.bits
  pub low : g.kernel_vaddr.vaddr_bitmap.bits + g.kernel_vaddr.vaddr_bitmap.btmp_bytes_len < window
  pub in_kernel : kernel_space ≤ g.kernel_vaddr.vaddr_start
  pub addresses :
      g.kernel_vaddr.vaddr_start + (g.kernel_vaddr.vaddr_bitmap.btmp_bytes_len * 8 + 1) * 4096
      < 2 ^ 32

-- Reserving addresses leaves the pool ready and its free pages free.
module _ (g : Globals) (start cnt : ℕ) (m m1 : Mem) (placed : IsPlaced g.kernel_pool)
    (range : IsRange g) (ready : IsReady g.kernel_pool m)
    (ends : start + cnt ≤ g.kernel_vaddr.vaddr_bitmap.btmp_bytes_len * 8 + 1)
    (run : IsRunSet g.kernel_vaddr.vaddr_bitmap start cnt m m1) where
  pool_kept :
      (j : ℕ)
      → j < bits_of g.kernel_pool
      → bit_at g.kernel_pool.pool_bitmap m1 j ≡ bit_at g.kernel_pool.pool_bitmap m j
  pool_kept j lt = ground (arith, run.others (g.kernel_pool.pool_bitmap.bits + j / 8), range.behind)

  high_kept : (a : ℕ) → window ≤ a → m1 a ≡ m a
  high_kept a high = run.others a (inr (omega (arith, range.low)))

  IsReady-reserved : IsReady g.kernel_pool m1
  IsReady-reserved = record {
    bytes = run.bytes;
    tables = λ v high fits.
        is_present-below m m1 (pde_ptr v) (omega (arith, pde_ptr_lem v fits)) high_kept
        ∙ ready.tables v high fits;
    unmapped = λ r lt free.
        is_present-below m m1 (pte_ptr (page_address g.kernel_pool r))
          (omega (
            arith,
            page_address_lem g.kernel_pool placed r lt,
            placed.pages,
            pte_ptr_lem (page_address g.kernel_pool r) (omega arith),
          ))
          high_kept
        ∙ ready.unmapped r lt (ground (arith, pool_kept r lt));
  }

  count_kept :
      free_count g.kernel_pool.pool_bitmap m1 (bits_of g.kernel_pool)
      ≡ free_count g.kernel_pool.pool_bitmap m (bits_of g.kernel_pool)
  count_kept = free_count-same g.kernel_pool.pool_bitmap m m1 (bits_of g.kernel_pool) pool_kept

malloc_page_runs :
    (g : Globals) (cnt vaddr : ℕ) (m m1 m' : Mem)
    → 0 < cnt
    → cnt < 3840
    → vaddr ≢ 0
    → vaddr_get g pf_kernel cnt m ≡ ok vaddr m1
    → map_pages_loop g g.kernel_pool vaddr cnt m1 ≡ ok true m'
    → malloc_page g pf_kernel cnt m ≡ ok vaddr m'
unfolding malloc_page pool_flags_value
malloc_page_runs g cnt vaddr m m1 m' pos small ne reserved mapped =
    rw (lt→ltb 0 cnt pos, lt→ltb cnt 3840 small, reserved, ne→== vaddr 0 ne, mapped)

-- What an allocation of `cnt` kernel pages at the run of addresses from `start` does.
pub record IsAllocated (g : Globals) (start cnt : ℕ) (m m' : Mem) : Type 0 where
  pub was_free : IsFree g.kernel_vaddr.vaddr_bitmap m start cnt
  pub ends : start + cnt ≤ g.kernel_vaddr.vaddr_bitmap.btmp_bytes_len * 8 + 1
  pub first : (s : ℕ) → s < start → ¬ IsFree g.kernel_vaddr.vaddr_bitmap m s cnt
  pub reserved :
      (j : ℕ)
      → j < g.kernel_vaddr.vaddr_bitmap.btmp_bytes_len * 8
      → bit_at g.kernel_vaddr.vaddr_bitmap m' j
        ≡ (if leb start j && ltb j (start + cnt) then 1 else bit_at g.kernel_vaddr.vaddr_bitmap m j)
  pub taken :
      free_count g.kernel_pool.pool_bitmap m' (bits_of g.kernel_pool) + cnt
      ≡ free_count g.kernel_pool.pool_bitmap m (bits_of g.kernel_pool)
  pub ready : IsReady g.kernel_pool m'
  pub others :
      (a : ℕ)
      → a < window
      → (a < g.kernel_pool.pool_bitmap.bits)
        ⊎ (g.kernel_pool.pool_bitmap.bits + g.kernel_pool.pool_bitmap.btmp_bytes_len ≤ a)
      → (a < g.kernel_vaddr.vaddr_bitmap.bits)
        ⊎ (g.kernel_vaddr.vaddr_bitmap.bits + (start + cnt) / 8 < a)
      → m' a ≡ m a

abbrev pub range_address : Globals → ℕ → ℕ
range_address g start = g.kernel_vaddr.vaddr_start + start * 4096

module _ (g : Globals) (cnt : ℕ) (m : Mem) (placed : IsPlaced g.kernel_pool) (range : IsRange g)
    (ready : IsReady g.kernel_pool m) (pos : 0 < cnt) (small : cnt < 3840)
    (enough : cnt ≤ free_count g.kernel_pool.pool_bitmap m (bits_of g.kernel_pool)) where
  allocate :
      (found : Option ℕ) (vaddr : ℕ) (m1 : Mem)
      → vaddr_get g pf_kernel cnt m ≡ ok vaddr m1
      → IsFirstRun g.kernel_vaddr.vaddr_bitmap m cnt
          (g.kernel_vaddr.vaddr_bitmap.btmp_bytes_len * 8 + 1)
          found
      → IsReserved g.kernel_vaddr cnt m found vaddr m1
      → (s : ℕ) → s + cnt ≤ g.kernel_vaddr.vaddr_bitmap.btmp_bytes_len * 8
      → IsFree g.kernel_vaddr.vaddr_bitmap m s cnt
      → (start : ℕ) × (m' : Mem) × (malloc_page g pf_kernel cnt m ≡ ok (range_address g start) m')
        × IsAllocated g start cnt m m'
  allocate none vaddr m1 runs never reserved s fits free = absurd (never s (omega arith) free)
  allocate (some start) vaddr m1 runs (ends, is_free, least) (at, run) s fits free =
      let address : vaddr ≡ range_address g start = omega (arith, range.addresses) in
      let ready1 = IsReady-reserved g start cnt m m1 placed range ready ends run in
      let count = count_kept g start cnt m m1 placed range ready ends run in
      let (m', maps, mapped) =
        map_pages_loop-IsMapped g vaddr cnt m1 placed ready1 (omega (arith, range.in_kernel))
          (omega (arith, range.addresses)) (omega arith) in
      (
        start,
        m',
        malloc_page_runs g cnt vaddr m m1 m' pos small (omega (arith, range.in_kernel)) runs maps
            ∙ ap (λ v. ok v m') address,
        record {
          was_free = is_free;
          ends = ends;
          first = least;
          reserved = λ j lt. ground (
            arith,
            mapped.others (g.kernel_vaddr.vaddr_bitmap.bits + j / 8),
            run.bits j,
            range.behind,
            range.low,
          );
          taken = omega (arith, mapped.taken);
          ready = mapped.ready;
          others = λ a lo out apart. mapped.others a lo out ∙ run.others a apart;
        },
      )

  -- When the page tables of the kernel's gigabyte are there and no free page is entered yet,
  -- `malloc_page` for 1 to 3839 kernel pages, with that many pages free in the pool and as long a
  -- run of addresses free, returns the address of the first free run (which may end one page past
  -- the bitmap), marks exactly this run used, takes exactly that many pages from the pool and
  -- leaves the pool ready for the next call and the rest of the memory below the page tables as it
  -- was. It does not halt and does not return NULL.
  pub malloc_page-IsAllocated :
      (s : ℕ)
      → s + cnt ≤ g.kernel_vaddr.vaddr_bitmap.btmp_bytes_len * 8
      → IsFree g.kernel_vaddr.vaddr_bitmap m s cnt
      → (start : ℕ) × (m' : Mem) × (malloc_page g pf_kernel cnt m ≡ ok (range_address g start) m')
        × IsAllocated g start cnt m m'
  malloc_page-IsAllocated s fits free =
      let (found, vaddr, m1, runs, first, reserved) =
        vaddr_get-IsReserved g m ready.bytes range.len_fits cnt s pos (omega arith)
          (free s (omega arith) (omega arith)) in
      allocate found vaddr m1 runs first reserved s fits free

-- For the user pool, whose address range is not written yet, a count of 1 to 3839 gives NULL and
-- leaves the memory as it was; any other count halts the kernel.
pub malloc_page-user :
    (g : Globals) (cnt : ℕ) (m : Mem)
    → malloc_page g pf_user cnt m ≡ (if ltb 0 cnt && ltb cnt 3840 then ok 0 m else panic)
unfolding malloc_page vaddr_get
malloc_page-user g cnt m = ground arith

-- `get_kernel_pages` is `malloc_page` for the kernel pool.
pub get_kernel_pages-malloc_page :
    (g : Globals) (cnt : ℕ) (m : Mem) → get_kernel_pages g cnt m ≡ malloc_page g pf_kernel cnt m
get_kernel_pages-malloc_page g cnt m = go (malloc_page g pf_kernel cnt m) refl
  where
    go :
        (r : Run Mem ℕ)
        → malloc_page g pf_kernel cnt m ≡ r
        → get_kernel_pages g cnt m ≡ malloc_page g pf_kernel cnt m
    go (ok a s) e = unfold get_kernel_pages in rw (e) (ground arith)
    go panic e = unfold get_kernel_pages in rw (e)
    go out_of_fuel e = unfold get_kernel_pages in rw (e)
