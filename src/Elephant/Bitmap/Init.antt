-- ===== src/Elephant/Bitmap/Init.antt =====
-- The bits of a bitmap after bitmap_init.
use project_base_learning.Base.{ℕ, ◌+◌, ◌*◌, ◌/◌, ◌<◌, ◌≤◌, ◌≡◌, ◌≢◌, ◌⊎◌, arith, Mem, IsBytes, ok}
use project_base_learning.Elephant.Str.Block.{memset_lem}
use project_base_learning.Elephant.Bitmap.{Bitmap, bitmap_init}
use project_base_learning.Elephant.Bitmap.View.{IsFree}

-- `bitmap_init` returns with every bit of the bitmap free, and leaves the memory outside of its
-- bytes as it was; bytes stay bytes.
pub bitmap_init-IsFree :
    (btmp : Bitmap) (m : Mem)
    → btmp.bits ≢ 0
    → (m' : Mem) × (bitmap_init btmp m ≡ ok tt m')
      × IsFree btmp m' 0 (btmp.btmp_bytes_len * 8)
      × ((a : ℕ) → (a < btmp.bits) ⊎ (btmp.bits + btmp.btmp_bytes_len ≤ a) → m' a ≡ m a)
      × (IsBytes m → IsBytes m')
unfolding bitmap_init
bitmap_init-IsFree btmp m ne =
    let (m', runs, written) = memset_lem btmp.bits 0 btmp.btmp_bytes_len m ne in
    (
      m',
      runs,
      λ i lo hi. ground (arith, written (btmp.bits + i / 8)),
      λ a out. ground (arith, written a),
      λ bytes a. ground (arith, written a, bytes a),
    )
