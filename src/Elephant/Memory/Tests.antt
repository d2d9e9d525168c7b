-- ===== src/Elephant/Memory/Tests.antt =====
-- A small kernel: pools of sixteen pages, every page table there and every page free.
use project_base_learning.Base.{
  inl, ℕ, ◌+◌, ◌*◌, ◌%◌, ◌^◌, ◌<◌, ◌≤◌, ◌≡◌, refl, ◌⊎◌, arith, Mem, IsBytes, true, false, ok, panic,
  leb, ltb, ◌&&◌, if◌then◌else◌, none, some, List, map, ◌==◌, Bool,
}
use project_base_learning.Elephant.Bitmap.View.{bit_at, IsFree}
use project_base_learning.Elephant.Memory.{
  Pool, Globals, pf_kernel, pf_user, pool_layout, mem_pool_init, mem_bitmap_base, pg_size, get32,
  pte_ptr, pde_ptr, is_present, page_table_add, malloc_page,
}
use project_base_learning.Elephant.Memory.Words.{pte_ptr_lem, pde_ptr_lem, is_present_lem}
use project_base_learning.Elephant.Memory.Layout.{
  IsLaidOut, free_pages, mem_pool_init-IsLaidOut, pool_layout-pages,
}
use project_base_learning.Elephant.Memory.Palloc.{page_address, IsPageTaken, palloc-IsPageTaken}
use project_base_learning.Elephant.Memory.Palloc.Refine.{
  allocate_many, palloc_many, StandsFor, palloc_many-allocate_many,
}
use project_base_learning.Elephant.Memory.Mapping.{
  IsPool, IsStored, page_table_add-IsStored, page_table_add-vaddr_unmapped, IsNewTable,
  page_table_add-IsNewTable,
}
use project_base_learning.Elephant.Memory.Pages.{
  IsRange, IsAllocated, range_address, malloc_page-IsAllocated, malloc_page-user,
}
use project_base_learning.Elephant.Memory.Pages.Count.{free_count}
use project_base_learning.Elephant.Memory.Pages.Ready.{IsPlaced, IsReady, window}

abbrev pool : Pool
pool = record {
  pool_bitmap = record { btmp_bytes_len = 2; bits = 0xc009_a000 };
  phy_addr_start = 0x20_0000;
  pool_size = 0x1_0000;
}

abbrev globals : Globals
globals = record {
  kernel_pool = pool;
  user_pool = pool;
  kernel_vaddr = record {
    vaddr_bitmap = record { btmp_bytes_len = 2; bits = 0xc009_a010 };
    vaddr_start = 0xc010_0000;
  };
}

-- Every word of the directory is odd, all else is zero.
abbrev tables : Mem
tables a = if leb 0xffff_f000 a then 1 else 0

abbrev blank : Mem
blank a = 0

tables-IsBytes : IsBytes tables
tables-IsBytes a = ground arith

directory : (v : ℕ) → v < 2 ^ 32 → is_present tables (pde_ptr v) ≡ true
directory v fits =
    ground (arith, is_present_lem tables (pde_ptr v), pde_ptr_lem v fits, word (pde_ptr v))
  where
    word : (q : ℕ) → 0xffff_f000 ≤ q → get32 tables q ≡ 0x0101_0101
    word q h = unfold get32 in ground arith

unmapped : (p : ℕ) → p < window → is_present tables (pte_ptr p) ≡ false
unmapped p low =
    ground (arith, is_present_lem tables (pte_ptr p), pte_ptr_lem p (omega arith), word (pte_ptr p))
  where
    word : (q : ℕ) → q + 3 < 0xffff_f000 → get32 tables q ≡ 0
    word q h = unfold get32 in ground arith

is_pool : IsPool pool
is_pool = record { len_fits = omega arith; aligned = refl; addresses = omega arith }

placed : IsPlaced pool
placed = record { pool = is_pool; nonzero = omega arith; pages = omega arith; bitmap = omega arith }

range : IsRange globals
range = record {
  len_fits = omega arith;
  behind = omega arith;
  low = omega arith;
  in_kernel = omega arith;
  addresses = omega arith;
}

ready : IsReady pool tables
ready = record {
  bytes = tables-IsBytes;
  tables = λ v high. directory v;
  unmapped = λ r lt free. unmapped (page_address pool r) (omega arith);
}

sixteen_free : free_count pool.pool_bitmap tables 16 ≡ 16
unfolding free_count
sixteen_free = refl

addresses-IsFree : IsFree globals.kernel_vaddr.vaddr_bitmap tables 0 3
addresses-IsFree i lo hi = ground arith

mem_pool_init-IsLaidOut_example :
    (g : Globals) × (m' : Mem) × (mem_pool_init 0x200_0000 blank ≡ ok g m')
    × IsLaidOut 0x200_0000 g
    × IsFree g.kernel_pool.pool_bitmap m' 0 (g.kernel_pool.pool_bitmap.btmp_bytes_len * 8)
    × IsFree g.user_pool.pool_bitmap m' 0 (g.user_pool.pool_bitmap.btmp_bytes_len * 8)
    × IsFree g.kernel_vaddr.vaddr_bitmap m' 0 (g.kernel_vaddr.vaddr_bitmap.btmp_bytes_len * 8)
    × ((a : ℕ)
        → (a < mem_bitmap_base)
          ⊎ (g.kernel_vaddr.vaddr_bitmap.bits + g.kernel_vaddr.vaddr_bitmap.btmp_bytes_len ≤ a)
        → m' a ≡ blank a)
    × (IsBytes blank → IsBytes m')
mem_pool_init-IsLaidOut_example =
    mem_pool_init-IsLaidOut 0x200_0000 (omega arith) (omega arith) blank

-- With 512 megabytes, the 130560 free pages are 65024 to the program.
pool_layout-pages_example :
    let g = pool_layout 0x2000_0000 in
    (g.kernel_pool.pool_size + g.user_pool.pool_size ≡ free_pages 0x2000_0000 % 2 ^ 16 * pg_size)
    × (g.kernel_pool.pool_size + g.user_pool.pool_size < 2 ^ 28)
pool_layout-pages_example = pool_layout-pages 0x2000_0000 (omega arith)

palloc-IsPalloc_example : (r : ℕ) × (m' : Mem) × IsPageTaken pool r tables m'
palloc-IsPalloc_example =
    palloc-IsPageTaken pool tables tables-IsBytes (omega arith) 5 (omega arith) refl

palloc_many-allocate_many_example :
    ((allocate_many 17 (2 * 8) (λ j. bit_at pool.pool_bitmap tables j == 0) ≡ none)
      × (palloc_many 17 pool tables ≡ panic))
    ⊎ ((rs : List ℕ) × (left : ℕ → Bool) × (m' : Mem) × (allocate_many 17
            (2 * 8)
            (λ j. bit_at pool.pool_bitmap tables j == 0)
          ≡ some (rs, left))
        × (palloc_many 17 pool tables ≡ ok (map (page_address pool) rs) m')
        × IsBytes m'
        × StandsFor pool m' left)
palloc_many-allocate_many_example =
    palloc_many-allocate_many 17 pool tables (λ j. bit_at pool.pool_bitmap tables j == 0)
      tables-IsBytes (omega arith) (λ j lt. refl)

page_table_add-IsStored_example :
    (m' : Mem) × (page_table_add globals 0xc010_0000 0x20_0000 tables ≡ ok tt m')
    × IsStored (pte_ptr 0x20_0000) (0x20_0000 + 7) tables m'
page_table_add-IsStored_example =
    page_table_add-IsStored globals 0xc010_0000 0x20_0000 tables refl (omega arith)
      (directory 0xc010_0000 (omega arith)) (unmapped 0x20_0000 (omega arith))

page_table_add-vaddr_unmapped_example :
    (m' : Mem) × (page_table_add globals 0xc010_0000 0x20_0000 tables ≡ ok tt m')
    × (is_present m' (pte_ptr 0xc010_0000) ≡ false)
page_table_add-vaddr_unmapped_example =
    page_table_add-vaddr_unmapped globals 0xc010_0000 0x20_0000 tables refl (omega arith)
      (omega arith) (inl λ h. omega (arith, h)) (directory 0xc010_0000 (omega arith))
      (unmapped 0x20_0000 (omega arith)) (unmapped 0xc010_0000 (omega arith))

no_table : is_present blank (pde_ptr 0xc010_0000) ≡ false
unfolding is_present get32
no_table = refl

page_table_add-IsNewTable_example :
    (r : ℕ) × (m1 : Mem) × (m' : Mem) × IsPageTaken pool r blank m1
    × (page_table_add globals 0xc010_0000 0x20_1000 blank ≡ ok tt m')
    × IsNewTable
        (pde_ptr 0xc010_0000)
        (page_address pool r)
        (pte_ptr 0x20_1000)
        (0x20_1000 + 7)
        m1
        m'
page_table_add-IsNewTable_example =
    page_table_add-IsNewTable globals 0xc010_0000 0x20_1000 blank (λ a. omega arith) is_pool refl
      (omega arith) (omega arith) 0 (omega arith) refl no_table

malloc_page-IsAllocated_example :
    (start : ℕ) × (m' : Mem) × (malloc_page globals pf_kernel 3 tables
      ≡ ok (range_address globals start) m')
    × IsAllocated globals start 3 tables m'
malloc_page-IsAllocated_example =
    malloc_page-IsAllocated globals 3 tables placed range ready (omega arith) (omega arith)
      (omega (arith, sixteen_free)) 0 (omega arith) addresses-IsFree

malloc_page-user_example :
    malloc_page globals pf_user 3840 tables
    ≡ (if ltb 0 3840 && ltb 3840 3840 then ok 0 tables else panic)
malloc_page-user_example = malloc_page-user globals 3840 tables
