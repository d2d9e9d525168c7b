-- ===== src/Elephant/Memory.antt =====
-- os-elephant/kernel/memory.c and memory.h: the page pools and the allocation of pages.
-- The three global structs are written by `mem_pool_init` alone: they are its result, and an
-- argument of what comes after. The printing is left out. `PG_SIZE` is 4096.
pub mod Words
pub mod Layout
pub mod Palloc
pub mod Vaddr
pub mod Mapping
pub mod Pages
pub mod Initial
mod Tests
use project_base_learning.Base.{
  ℕ, zero, suc, ◌+◌, ◌-◌, ◌*◌, ◌/◌, ◌%◌, ◌^◌, Bool, true, false, not, ◌&&◌, ◌||◌, ltb, ◌==◌,
  if◌then◌else◌, Option, none, some, u8, u16, u32, sub32, bit_and, bit_or, Run, Cmd, pure, panic,
  ok, ◌>>=◌, ◌>>◌, assert, get, modify, Mem, write,
}
use project_base_learning.Elephant.Str.{memset}
use project_base_learning.Elephant.Bitmap.{Bitmap, bitmap_init, bitmap_scan, bitmap_set}

pub record Pool : Type 0 where
  pub pool_bitmap : Bitmap
  pub phy_addr_start : ℕ
  pub pool_size : ℕ

pub record VirtualAddr : Type 0 where
  pub vaddr_bitmap : Bitmap
  pub vaddr_start : ℕ

pub record Globals : Type 0 where
  pub kernel_pool : Pool
  pub user_pool : Pool
  pub kernel_vaddr : VirtualAddr

pub data PoolFlags : Type 0 where
  pf_kernel pf_user : PoolFlags

-- The values of the enum.
pub pool_flags_value : PoolFlags → ℕ
pool_flags_value pf_kernel = 1
pool_flags_value pf_user = 2

abbrev pub pg_size : ℕ
pg_size = 4096

abbrev pub mem_bitmap_base : ℕ
mem_bitmap_base = 0xc009_a000

abbrev pub k_heap_start : ℕ
k_heap_start = 0xc010_0000

-- `*(uint32_t*)a`, little endian.
unfoldable pub get32 : Mem → ℕ → ℕ
get32 m a = m a + m (a + 1) * 2 ^ 8 + m (a + 2) * 2 ^ 16 + m (a + 3) * 2 ^ 24

-- `*(uint32_t*)a = w`.
pub put32 : ℕ → ℕ → Mem → Mem
put32 a w m =
    write (write (write (write m a (u8 w)) (a + 1) (u8 (w / 2 ^ 8))) (a + 2) (u8 (w / 2 ^ 16)))
      (a + 3) (u8 (w / 2 ^ 24))

-- The sizes that mem_pool_init computes from the number of bytes of memory.
pub pool_layout : ℕ → Globals
pool_layout all_mem =
    let page_table_size = pg_size * 256 in
    let used_mem = page_table_size + 0x10_0000 in
    let free_mem = sub32 all_mem used_mem in
    let all_free_pages = u16 (free_mem / pg_size) in
    let kernel_free_pages = all_free_pages / 2 in
    let user_free_pages = all_free_pages - kernel_free_pages in
    let kbm_length = kernel_free_pages / 8 in
    let ubm_length = user_free_pages / 8 in
    let kp_start = used_mem in
    let up_start = u32 (kp_start + kernel_free_pages * pg_size) in
    record {
      kernel_pool = record {
        pool_bitmap = record { btmp_bytes_len = kbm_length; bits = mem_bitmap_base };
        phy_addr_start = kp_start;
        pool_size = u32 (kernel_free_pages * pg_size);
      };
      user_pool = record {
        pool_bitmap = record {
          btmp_bytes_len = ubm_length;
          bits = u32 (mem_bitmap_base + kbm_length);
        };
        phy_addr_start = up_start;
        pool_size = u32 (user_free_pages * pg_size);
      };
      kernel_vaddr = record {
        vaddr_bitmap = record {
          btmp_bytes_len = kbm_length;
          bits = u32 (mem_bitmap_base + kbm_length + ubm_length);
        };
        vaddr_start = k_heap_start;
      };
    }

pub mem_pool_init : ℕ → Cmd Mem Globals
mem_pool_init all_mem = do
  let g = pool_layout all_mem
  bitmap_init g.kernel_pool.pool_bitmap
  bitmap_init g.user_pool.pool_bitmap
  bitmap_init g.kernel_vaddr.vaddr_bitmap
  pure g

pub mem_init : Cmd Mem Globals
mem_init = do m ← get; mem_pool_init (get32 m 0xb00)

pub pde_idx : ℕ → ℕ
pde_idx addr = bit_and addr 0xffc0_0000 / 2 ^ 22

pub pte_idx : ℕ → ℕ
pte_idx addr = bit_and addr 0x003f_f000 / 2 ^ 12

pub pte_ptr : ℕ → ℕ
pte_ptr vaddr = u32 (0xffc0_0000 + bit_and vaddr 0xffc0_0000 / 2 ^ 10 + pte_idx vaddr * 4)

pub pde_ptr : ℕ → ℕ
pde_ptr vaddr = u32 (0xffff_f000 + pde_idx vaddr * 4)

-- `while (cnt < pg_cnt) bitmap_set(..., bit_idx_start + cnt++, 1);`, with `left` rounds to go.
pub set_run_loop : Bitmap → ℕ → ℕ → Cmd Mem (Unit {0})
set_run_loop btmp bit_idx zero = pure tt
set_run_loop btmp bit_idx (suc left) = do
  bitmap_set btmp (u32 bit_idx) 1
  set_run_loop btmp (bit_idx + 1) left

-- NULL is 0. The branch for the user pool is a TODO that leaves `vaddr_start` at 0.
pub vaddr_get : Globals → PoolFlags → ℕ → Cmd Mem ℕ
vaddr_get g pf_user pg_cnt = pure 0
vaddr_get g pf_kernel pg_cnt = do
  found ← bitmap_scan g.kernel_vaddr.vaddr_bitmap pg_cnt
  elim found [
    | none ↦ pure 0
    | some bit_idx_start ↦ do
      set_run_loop g.kernel_vaddr.vaddr_bitmap bit_idx_start pg_cnt
      pure (u32 (g.kernel_vaddr.vaddr_start + bit_idx_start * pg_size))
  ]

pub palloc : Pool → Cmd Mem ℕ
palloc m_pool = do
  found ← bitmap_scan m_pool.pool_bitmap 1
  elim found [
    | none ↦ pure 0
    | some bit_idx ↦ do
      bitmap_set m_pool.pool_bitmap bit_idx 1
      pure (u32 (bit_idx * pg_size + m_pool.phy_addr_start))
  ]

-- `p | PG_US_U | PG_RW_W | PG_P_1`
pub entry : ℕ → ℕ
entry p = bit_or (bit_or (bit_or p 4) 2) 1

-- `*p & 0x00000001`
pub is_present : Mem → ℕ → Bool
is_present m p = not (bit_and (get32 m p) 1 == 0)

-- The branch for a page table that is there.
pub add_to_table : ℕ → ℕ → Cmd Mem (Unit {0})
add_to_table pte page_phyaddr = do
  m ← get
  assert (not (is_present m pte))
  if not (is_present m pte) then modify (put32 pte (entry page_phyaddr)) else (λ _. panic)

-- The branch for a page directory entry that is not present: a new page table first.
pub add_new_table : Globals → ℕ → ℕ → ℕ → Cmd Mem (Unit {0})
add_new_table g pde pte page_phyaddr = do
  pde_phyaddr ← palloc g.kernel_pool
  modify (put32 pde (entry pde_phyaddr))
  memset (bit_and pte 0xffff_f000) 0 pg_size
  m ← get
  assert (not (is_present m pte))
  modify (put32 pte (entry page_phyaddr))

pub page_table_add : Globals → ℕ → ℕ → Cmd Mem (Unit {0})
page_table_add g vaddr page_phyaddr = do
  let pde = pde_ptr vaddr
  let pte = pte_ptr page_phyaddr
  m ← get
  if is_present m pde then add_to_table pte page_phyaddr else add_new_table g pde pte page_phyaddr

-- `while (cnt-- > 0)`; `false` is the `return NULL` inside it.
pub map_pages_loop : Globals → Pool → ℕ → ℕ → Cmd Mem Bool
map_pages_loop g mem_pool vaddr zero = pure true
map_pages_loop g mem_pool vaddr (suc cnt) = do
  page_phyaddr ← palloc mem_pool
  if page_phyaddr == 0 then pure false else (do
    page_table_add g vaddr page_phyaddr
    map_pages_loop g mem_pool (u32 (vaddr + pg_size)) cnt)

pub malloc_page : Globals → PoolFlags → ℕ → Cmd Mem ℕ
malloc_page g pf pg_cnt = do
  assert (ltb 0 pg_cnt && ltb pg_cnt 3840)
  vaddr_start ← vaddr_get g pf pg_cnt
  let mem_pool = if not (bit_and (pool_flags_value pf) 1 == 0) then g.kernel_pool else g.user_pool
  if vaddr_start == 0 then pure 0 else (do
    mapped ← map_pages_loop g mem_pool vaddr_start pg_cnt
    pure (if mapped then vaddr_start else 0))

pub get_kernel_pages : Globals → ℕ → Cmd Mem ℕ
get_kernel_pages g pg_cnt = do
  vaddr ← malloc_page g pf_kernel pg_cnt
  if vaddr == 0 then pure 0 else pure vaddr
