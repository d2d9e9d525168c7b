-- ===== src/Elephant/Memory/Layout.antt =====
-- mem_pool_init: where the pools and their bitmaps lie.
use project_base_learning.Base.{
  ℕ, ◌+◌, ◌-◌, ◌*◌, ◌/◌, ◌%◌, ◌^◌, ◌<◌, ◌≤◌, ◌≡◌, ◌⊎◌, Mem, IsBytes, ok, arith, leb, if◌then◌else◌,
  Bool-cases, inl, inr,
}
use project_base_learning.Elephant.Bitmap.View.{IsFree, IsFree-frame}
use project_base_learning.Elephant.Bitmap.Init.{bitmap_init-IsFree}
use project_base_learning.Elephant.Memory.{
  Globals, pool_layout, mem_pool_init, mem_bitmap_base, pg_size, k_heap_start,
}

-- The pages of memory above the first two megabytes.
abbrev pub free_pages : ℕ → ℕ
free_pages all_mem = (all_mem - 0x20_0000) / pg_size

-- The pools are adjacent and end inside the memory, no bitmap has more bits than its pool has
-- pages, and the three bitmaps are adjacent, from `mem_bitmap_base` on.
pub record IsLaidOut (all_mem : ℕ) (g : Globals) : Type 0 where
  pub kernel_start : g.kernel_pool.phy_addr_start ≡ 0x20_0000
  pub adjacent : g.user_pool.phy_addr_start ≡ g.kernel_pool.phy_addr_start + g.kernel_pool.pool_size
  pub inside : g.user_pool.phy_addr_start + g.user_pool.pool_size ≤ all_mem
  pub kernel_bits : g.kernel_pool.pool_bitmap.btmp_bytes_len * 8 * pg_size ≤ g.kernel_pool.pool_size
  pub user_bits : g.user_pool.pool_bitmap.btmp_bytes_len * 8 * pg_size ≤ g.user_pool.pool_size
  pub kernel_pages : g.kernel_pool.pool_bitmap.btmp_bytes_len ≡ free_pages all_mem % 2 ^ 16 / 2 / 8
  pub heap_start : g.kernel_vaddr.vaddr_start ≡ k_heap_start
  pub bits_start : g.kernel_pool.pool_bitmap.bits ≡ mem_bitmap_base
  pub user_behind :
      g.user_pool.pool_bitmap.bits
      ≡ g.kernel_pool.pool_bitmap.bits + g.kernel_pool.pool_bitmap.btmp_bytes_len
  pub vaddr_behind :
      g.kernel_vaddr.vaddr_bitmap.bits
      ≡ g.user_pool.pool_bitmap.bits + g.user_pool.pool_bitmap.btmp_bytes_len
  pub same_length :
      g.kernel_vaddr.vaddr_bitmap.btmp_bytes_len ≡ g.kernel_pool.pool_bitmap.btmp_bytes_len
  pub bits_end :
      g.kernel_vaddr.vaddr_bitmap.bits + g.kernel_vaddr.vaddr_bitmap.btmp_bytes_len
      ≤ mem_bitmap_base + 3 * pg_size

pool_layout-IsLaidOut :
    (all_mem : ℕ) → 0x20_0000 ≤ all_mem → all_mem < 2 ^ 32 → IsLaidOut all_mem (pool_layout all_mem)
unfolding pool_layout
pool_layout-IsLaidOut all_mem enough fits = record {
  kernel_start = omega arith;
  adjacent = omega arith;
  inside = omega arith;
  kernel_bits = omega arith;
  user_bits = omega arith;
  kernel_pages = omega arith;
  heap_start = omega arith;
  bits_start = omega arith;
  user_behind = omega arith;
  vaddr_behind = omega arith;
  same_length = omega arith;
  bits_end = omega arith;
}

-- What the call writes: zeros in the three bitmaps.
module _ (all_mem : ℕ) (enough : 0x20_0000 ≤ all_mem) (fits : all_mem < 2 ^ 32) (m : Mem) where
  abbrev g : Globals
  g = pool_layout all_mem

  abbrev layout : IsLaidOut all_mem (pool_layout all_mem)
  layout = pool_layout-IsLaidOut all_mem enough fits

  -- For every amount of memory of two megabytes and more, `mem_pool_init` returns pools that are
  -- laid out side by side inside the memory, with every page of both pools and of the kernel's
  -- address range free. It writes only to the bytes of the three bitmaps, and bytes stay bytes.
  pub mem_pool_init-IsLaidOut :
      (g : Globals) × (m' : Mem) × (mem_pool_init all_mem m ≡ ok g m')
      × IsLaidOut all_mem g
      × IsFree g.kernel_pool.pool_bitmap m' 0 (g.kernel_pool.pool_bitmap.btmp_bytes_len * 8)
      × IsFree g.user_pool.pool_bitmap m' 0 (g.user_pool.pool_bitmap.btmp_bytes_len * 8)
      × IsFree g.kernel_vaddr.vaddr_bitmap m' 0 (g.kernel_vaddr.vaddr_bitmap.btmp_bytes_len * 8)
      × ((a : ℕ)
          → (a < mem_bitmap_base)
            ⊎ (g.kernel_vaddr.vaddr_bitmap.bits + g.kernel_vaddr.vaddr_bitmap.btmp_bytes_len ≤ a)
          → m' a ≡ m a)
      × (IsBytes m → IsBytes m')
  mem_pool_init-IsLaidOut =
      let (m1, runs1, free1, same1, bytes1) =
        bitmap_init-IsFree g.kernel_pool.pool_bitmap m (omega (arith, layout.bits_start)) in
      let (m2, runs2, free2, same2, bytes2) =
        bitmap_init-IsFree g.user_pool.pool_bitmap m1
          (omega (arith, layout.bits_start, layout.user_behind)) in
      let (m3, runs3, free3, same3, bytes3) =
        bitmap_init-IsFree g.kernel_vaddr.vaddr_bitmap m2
          (omega (arith, layout.bits_start, layout.user_behind, layout.vaddr_behind)) in
      (
        g,
        m3,
        unfold mem_pool_init in rw (runs1, runs2, runs3),
        layout,
        IsFree-frame g.kernel_pool.pool_bitmap m1 m3 0
            (g.kernel_pool.pool_bitmap.btmp_bytes_len * 8) (omega arith)
            (λ a lo hi. ground (arith, same2 a, same3 a, layout.user_behind, layout.vaddr_behind))
            free1,
        IsFree-frame g.user_pool.pool_bitmap m2 m3 0 (g.user_pool.pool_bitmap.btmp_bytes_len * 8)
            (omega arith) (λ a lo hi. ground (arith, same3 a, layout.vaddr_behind)) free2,
        free3,
        λ a out. ground (
          arith,
          same1 a,
          same2 a,
          same3 a,
          layout.bits_start,
          layout.user_behind,
          layout.vaddr_behind,
          layout.bits_end,
        ),
        λ bytes. bytes3 (bytes2 (bytes1 bytes)),
      )

-- However much memory there is, the two pools together hold the number of free pages as the code
-- counts them, modulo 65536, so that they never reach 256 megabytes. The free memory is what is above
-- two megabytes; below two megabytes it wraps at 2 ^ 32.
pub pool_layout-pages :
    (all_mem : ℕ)
    → all_mem < 2 ^ 32
    → let g = pool_layout all_mem in
      let free_mem =
        if leb 0x20_0000 all_mem then all_mem - 0x20_0000 else all_mem + 2 ^ 32 - 0x20_0000 in
      (g.kernel_pool.pool_size + g.user_pool.pool_size ≡ free_mem / pg_size % 2 ^ 16 * pg_size)
      × (g.kernel_pool.pool_size + g.user_pool.pool_size < 2 ^ 28)
unfolding pool_layout
pool_layout-pages all_mem fits = elim (Bool-cases (leb 0x20_0000 all_mem)) [
  | inl e ↦ rw (e) (ground arith, omega arith)
  | inr e ↦ rw (e) (ground arith, omega arith)
]
