-- ===== src/Elephant/Memory/Pages/Ready.antt =====
-- The state in which pages can be mapped, and one round of the loop of malloc_page.
use project_base_learning.Base.{
  ℕ, suc, ◌+◌, ◌*◌, ◌/◌, ◌^◌, ◌<◌, ◌≤◌, ◌≡◌, ◌≢◌, ◌⊎◌, inl, inr, arith, ◌∙◌, Mem, IsBytes, true,
  false, ok, u32, ◌==◌, Bool-cases, if◌then◌else◌, ne→==,
}
use project_base_learning.Elephant.Bitmap.View.{bit_at}
use project_base_learning.Elephant.Memory.{
  Pool, Globals, get32, pte_ptr, pde_ptr, is_present, page_table_add, palloc, map_pages_loop,
}
use project_base_learning.Elephant.Memory.Words.{pte_ptr_lem, pde_ptr_lem}
use project_base_learning.Elephant.Memory.Palloc.{page_address, IsPageTaken, palloc-IsPageTaken}
use project_base_learning.Elephant.Memory.Mapping.{
  IsPool, IsStored, IsStored-get32, is_present-get32, page_table_add-IsStored,
}
use project_base_learning.Elephant.Memory.Pages.Count.{free_count, free_count-pos, free_count-set}

-- The first address of the window of page tables at the top of memory.
abbrev pub window : ℕ
window = 0xffc0_0000

-- The first address of the kernel's part of every address space.
abbrev pub kernel_space : ℕ
kernel_space = 0xc000_0000

abbrev pub bits_of : Pool → ℕ
bits_of p = p.pool_bitmap.btmp_bytes_len * 8

-- What does not change: the bitmap of the pool and its pages lie below the window, no page is 0.
pub record IsPlaced (p : Pool) : Type 0 where
  pub pool : IsPool p
  pub nonzero : 0 < p.phy_addr_start
  pub pages : p.phy_addr_start + bits_of p * 4096 ≤ window
  pub bitmap : p.pool_bitmap.bits + p.pool_bitmap.btmp_bytes_len ≤ window

-- The page tables of the kernel's gigabyte are there, and the entry of a free page is not present.
pub record IsReady (p : Pool) (m : Mem) : Type 0 where
  pub bytes : IsBytes m
  pub tables : (v : ℕ) → kernel_space ≤ v → v < 2 ^ 32 → is_present m (pde_ptr v) ≡ true
  pub unmapped :
      (r : ℕ)
      → r < bits_of p
      → bit_at p.pool_bitmap m r ≡ 0
      → is_present m (pte_ptr (page_address p r)) ≡ false

-- Entries do not see a change below the window.
pub is_present-below :
    (m m' : Mem) (q : ℕ)
    → window ≤ q
    → ((a : ℕ) → window ≤ a → m' a ≡ m a)
    → is_present m' q ≡ is_present m q
is_present-below m m' q in_window same = is_present-get32 q m m' (words m m' q in_window same)
  where
    words :
        (m m' : Mem) (q : ℕ)
        → window ≤ q
        → ((a : ℕ) → window ≤ a → m' a ≡ m a)
        → get32 m' q ≡ get32 m q
    words m m' q in_window same =
        unfold get32 in ground (arith, same q, same (q + 1), same (q + 2), same (q + 3))

module _ (p : Pool) (placed : IsPlaced p) where
  pub page_address_lem : (r : ℕ) → r < bits_of p → page_address p r ≡ r * 4096 + p.phy_addr_start
  page_address_lem r lt = omega (arith, placed.pages)

  -- The entries of different pages are different words of the window, below the directory.
  entry_place :
      (r : ℕ)
      → r < bits_of p
      → pte_ptr (page_address p r) ≡ window + (r * 4096 + p.phy_addr_start) / 4096 * 4
  entry_place r lt =
      omega (arith, page_address_lem r lt, pte_ptr_lem (page_address p r) (omega arith))

  module _ (r : ℕ) (m m1 m2 : Mem) (ready : IsReady p m) (taken : IsPageTaken p r m m1)
      (stored : IsStored (pte_ptr (page_address p r)) (page_address p r + 7) m1 m2) where
    above : (a : ℕ) → window ≤ a → m1 a ≡ m a
    above a in_window = ground (arith, taken.change.others a, placed.bitmap, taken.in_pool)

    tables_kept : (v : ℕ) → kernel_space ≤ v → v < 2 ^ 32 → is_present m2 (pde_ptr v) ≡ true
    tables_kept v high fits =
        let dir = pde_ptr_lem v fits in
        is_present-get32 (pde_ptr v) m1 m2 (
          IsStored-get32 _ _ (pde_ptr v) m1 m2 stored
            (omega (arith, entry_place r taken.in_pool, placed.pages, taken.in_pool)))
        ∙ is_present-below m m1 (pde_ptr v) (omega arith) above
        ∙ ready.tables v high fits

    bits_after :
        (j : ℕ)
        → j < bits_of p
        → bit_at p.pool_bitmap m2 j ≡ (if r == j then 1 else bit_at p.pool_bitmap m j)
    bits_after j lt = ground (
      arith,
      taken.change.bits j,
      stored.others (p.pool_bitmap.bits + j / 8),
      placed.bitmap,
      entry_place r taken.in_pool,
    )

    unmapped_after :
        (j : ℕ)
        → j < bits_of p
        → bit_at p.pool_bitmap m2 j ≡ 0
        → is_present m2 (pte_ptr (page_address p j)) ≡ false
    unmapped_after j lt free = elim (Bool-cases (r == j)) [
      | inl e ↦ absurd (ground (arith, bits_after j lt))
      | inr e ↦
          is_present-get32 (pte_ptr (page_address p j)) m1 m2 (
            IsStored-get32 _ _ (pte_ptr (page_address p j)) m1 m2 stored
              (apart j lt (ground arith)))
          ∙ is_present-below m m1 (pte_ptr (page_address p j)) (omega (arith, entry_place j lt))
              above
          ∙ ready.unmapped j lt (ground (arith, bits_after j lt))
    ]
      where
        apart :
            (j : ℕ)
            → j < bits_of p
            → r ≢ j
            → (pte_ptr (page_address p j) + 3 < pte_ptr (page_address p r))
              ⊎ (pte_ptr (page_address p r) + 3 < pte_ptr (page_address p j))
        apart j lt ne = omega (arith, entry_place r taken.in_pool, entry_place j lt)

    IsReady-after : IsBytes m2 → IsReady p m2
    IsReady-after bytes = record { bytes = bytes; tables = tables_kept; unmapped = unmapped_after }

-- One round of the loop: it takes the first free page, enters it, and the next round is ready too.
pub record IsRound (p : Pool) (m m' : Mem) : Type 0 where
  pub ready : IsReady p m'
  pub one_less :
      free_count p.pool_bitmap m' (bits_of p) + 1 ≡ free_count p.pool_bitmap m (bits_of p)
  pub others :
      (a : ℕ)
      → a < window
      → (a < p.pool_bitmap.bits) ⊎ (p.pool_bitmap.bits + p.pool_bitmap.btmp_bytes_len ≤ a)
      → m' a ≡ m a

pub map-IsRound :
    (g : Globals) (vaddr cnt : ℕ) (m : Mem)
    → IsPlaced g.kernel_pool
    → IsReady g.kernel_pool m
    → kernel_space ≤ vaddr
    → vaddr < 2 ^ 32
    → 0 < free_count g.kernel_pool.pool_bitmap m (bits_of g.kernel_pool)
    → (m' : Mem) × IsRound g.kernel_pool m m'
      × (map_pages_loop g g.kernel_pool vaddr (suc cnt) m
          ≡ map_pages_loop g g.kernel_pool (u32 (vaddr + 4096)) cnt m')
map-IsRound g vaddr cnt m placed ready high fits some_free =
    let p = g.kernel_pool in
    let (i, within, free) = free_count-pos p.pool_bitmap m (bits_of p) some_free in
    let (r, m1, taken) = palloc-IsPageTaken p m ready.bytes placed.pool.len_fits i within free in
    let address = page_address_lem p placed r taken.in_pool in
    let above1 : (a : ℕ) → window ≤ a → m1 a ≡ m a =
      λ a h. ground (arith, taken.change.others a, placed.bitmap, taken.in_pool) in
    let dir = pde_ptr_lem vaddr fits in
    let slot = entry_place p placed r taken.in_pool in
    let there : is_present m1 (pde_ptr vaddr) ≡ true =
      is_present-below m m1 (pde_ptr vaddr) (omega arith) above1 ∙ ready.tables vaddr high fits in
    let absent : is_present m1 (pte_ptr (page_address p r)) ≡ false =
      is_present-below m m1 (pte_ptr (page_address p r)) (omega arith) above1
      ∙ ready.unmapped r taken.in_pool taken.was_free in
    let (m2, added, stored) =
      page_table_add-IsStored g vaddr (page_address p r) m1 (omega (arith, placed.pool.aligned))
        (omega (arith, placed.pages, taken.in_pool)) there absent in
    let bits = bits_after p placed r m m1 m2 ready taken stored in
    (
      m2,
      record {
        ready =
            IsReady-after p placed r m m1 m2 ready taken stored (stored.bytes taken.change.bytes);
        one_less =
            free_count-set p.pool_bitmap m m2 r (bits_of p) taken.in_pool taken.was_free bits;
        others = λ a low out.
            ground (arith, stored.others a, taken.change.others a, taken.in_pool, slot);
      },
      runs m1 m2 (page_address p r) taken.runs (omega (arith, placed.nonzero)) added,
    )
  where
    runs :
        (m1 m2 : Mem) (page : ℕ)
        → palloc g.kernel_pool m ≡ ok page m1
        → page ≢ 0
        → page_table_add g vaddr page m1 ≡ ok tt m2
        → map_pages_loop g g.kernel_pool vaddr (suc cnt) m
          ≡ map_pages_loop g g.kernel_pool (u32 (vaddr + 4096)) cnt m2
    runs m1 m2 page allocated ne added =
        unfold map_pages_loop in rw (allocated, ne→== page 0 ne, added)
