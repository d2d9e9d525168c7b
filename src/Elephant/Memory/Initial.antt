-- ===== src/Elephant/Memory/Initial.antt =====
-- mem_init on the page tables of the loader: the state in which pages can be allocated.
use project_base_learning.Base.{
  ℕ, ◌+◌, ◌*◌, ◌^◌, ◌<◌, ◌≤◌, ◌≡◌, ◌⊎◌, inr, arith, ◌∙◌, Mem, IsBytes, true, false, ok,
}
use project_base_learning.Elephant.Bitmap.View.{IsFree}
use project_base_learning.Elephant.Memory.{
  Globals, mem_init, mem_bitmap_base, get32, pte_ptr, pde_ptr, is_present,
}
use project_base_learning.Elephant.Memory.Words.{pte_ptr_lem, pde_ptr_lem}
use project_base_learning.Elephant.Memory.Palloc.{page_address}
use project_base_learning.Elephant.Memory.Layout.{IsLaidOut, mem_pool_init-IsLaidOut}
use project_base_learning.Elephant.Memory.Pages.{IsRange}
use project_base_learning.Elephant.Memory.Pages.Ready.{
  IsPlaced, IsReady, bits_of, window, kernel_space, is_present-below, page_address_lem,
}

-- What boot/loader.S leaves: the amount of memory at 0xb00, the page tables of the kernel's
-- gigabyte, and no entry for a page above the first two megabytes.
pub record IsLoaded (all_mem : ℕ) (m : Mem) : Type 0 where
  pub bytes : IsBytes m
  pub detected : get32 m 0xb00 ≡ all_mem
  pub enough : 0x20_0000 ≤ all_mem
  pub fits : all_mem < 2 ^ 32
  pub tables : (v : ℕ) → kernel_space ≤ v → v < 2 ^ 32 → is_present m (pde_ptr v) ≡ true
  pub unmapped : (p : ℕ) → 0x20_0000 ≤ p → p < 0x20_0000 + 2 ^ 27 → is_present m (pte_ptr p) ≡ false

module _ (all_mem : ℕ) (g : Globals) (layout : IsLaidOut all_mem g) where
  pub IsPlaced-initial : IsPlaced g.kernel_pool
  IsPlaced-initial = record {
    pool = record {
      len_fits = omega (arith, layout.kernel_pages);
      aligned = omega (arith, layout.kernel_start);
      addresses = omega (arith, layout.kernel_pages, layout.kernel_start);
    };
    nonzero = omega (arith, layout.kernel_start);
    pages = omega (arith, layout.kernel_pages, layout.kernel_start);
    bitmap = omega (arith, layout.kernel_pages, layout.bits_start);
  }

  pub IsRange-initial : IsRange g
  IsRange-initial = record {
    len_fits = omega (arith, layout.kernel_pages, layout.same_length);
    behind = omega (arith, layout.user_behind, layout.vaddr_behind);
    low = omega (arith, layout.bits_end);
    in_kernel = omega (arith, layout.heap_start);
    addresses = omega (arith, layout.heap_start, layout.same_length, layout.kernel_pages);
  }

  pub IsReady-initial :
      (m m' : Mem)
      → IsLoaded all_mem m
      → IsBytes m'
      → ((a : ℕ) → window ≤ a → m' a ≡ m a)
      → IsReady g.kernel_pool m'
  IsReady-initial m m' loaded bytes same = record {
    bytes = bytes;
    tables = λ v high fits.
        is_present-below m m' (pde_ptr v) (omega (arith, pde_ptr_lem v fits)) same
        ∙ loaded.tables v high fits;
    unmapped = λ r lt free.
        let page = page_address_lem g.kernel_pool IsPlaced-initial r lt in
        is_present-below m m' (pte_ptr (page_address g.kernel_pool r))
          (omega (
            arith,
            IsPlaced-initial.pages,
            page,
            pte_ptr_lem (page_address g.kernel_pool r) (omega arith),
          ))
          same
        ∙ loaded.unmapped (page_address g.kernel_pool r) (omega (arith, page, layout.kernel_start))
            (omega (arith, page, layout.kernel_start, layout.kernel_pages));
  }

-- The state after mem_init.
pub record IsInitial (all_mem : ℕ) (g : Globals) (m m' : Mem) : Type 0 where
  pub layout : IsLaidOut all_mem g
  pub ready : IsReady g.kernel_pool m'
  pub kernel_free : IsFree g.kernel_pool.pool_bitmap m' 0 (bits_of g.kernel_pool)
  pub user_free : IsFree g.user_pool.pool_bitmap m' 0 (bits_of g.user_pool)
  pub addresses_free :
      IsFree g.kernel_vaddr.vaddr_bitmap m' 0 (g.kernel_vaddr.vaddr_bitmap.btmp_bytes_len * 8)
  pub others :
      (a : ℕ)
      → (a < mem_bitmap_base)
        ⊎ (g.kernel_vaddr.vaddr_bitmap.bits + g.kernel_vaddr.vaddr_bitmap.btmp_bytes_len ≤ a)
      → m' a ≡ m a

pub mem_init-IsInitial :
    (all_mem : ℕ) (m : Mem)
    → IsLoaded all_mem m
    → (g : Globals) × (m' : Mem) × (mem_init m ≡ ok g m') × IsInitial all_mem g m m'
mem_init-IsInitial all_mem m loaded =
    let (g, m', runs, layout, kernel_free, user_free, addresses_free, others, bytes) =
      mem_pool_init-IsLaidOut all_mem loaded.enough loaded.fits m in
    (
      g,
      m',
      unfold mem_init in rw (loaded.detected, runs),
      record {
        layout = layout;
        ready =
            IsReady-initial all_mem g layout m m' loaded (bytes loaded.bytes)
              λ a high. others a (inr (omega (arith, layout.bits_end)));
        kernel_free = kernel_free;
        user_free = user_free;
        addresses_free = addresses_free;
        others = others;
      },
    )
