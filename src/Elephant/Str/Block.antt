-- ===== src/Elephant/Str/Block.antt =====
-- memset, memcpy: what they write, byte by byte.
use project_base_learning.Base.{
  ℕ, zero, suc, ◌+◌, ◌<◌, ◌≤◌, ◌≡◌, ◌≢◌, refl, ◌⊎◌, arith, Mem, write, ok, leb, ltb, ◌&&◌,
  if◌then◌else◌,
}
use project_base_learning.Elephant.Str.{memset_loop, memset, memcpy_loop, memcpy}

memset_loop_lem :
    (dst value size : ℕ) (m : Mem) (a : ℕ)
    → memset_loop dst value size m a ≡ (if leb dst a && ltb a (dst + size) then value else m a)
unfolding memset_loop
memset_loop_lem dst value zero m a = ground arith
memset_loop_lem dst value (suc size) m a =
    ground (arith, memset_loop_lem (dst + 1) value size (write m dst value) a)

-- With a pointer that is not NULL, `memset` returns; then the `size` bytes from `dst` hold
-- `value`, and every other byte is what it was.
pub memset_lem :
    (dst value size : ℕ) (m : Mem)
    → dst ≢ 0
    → (m' : Mem) × (memset dst value size m ≡ ok tt m')
      × ((a : ℕ) → m' a ≡ (if leb dst a && ltb a (dst + size) then value else m a))
unfolding memset
memset_lem dst value size m ne =
    (memset_loop dst value size m, ground arith, memset_loop_lem dst value size m)

memcpy_loop-outside :
    (dst src size : ℕ) (m : Mem) (a : ℕ)
    → (a < dst) ⊎ (dst + size ≤ a)
    → memcpy_loop dst src size m a ≡ m a
unfolding memcpy_loop
memcpy_loop-outside dst src zero m a out = refl
memcpy_loop-outside dst src (suc size) m a out =
    ground (arith, memcpy_loop-outside (dst + 1) (src + 1) size (write m dst (m src)) a)

memcpy_loop-inside :
    (dst src size : ℕ) (m : Mem) (i : ℕ)
    → (dst ≤ src) ⊎ (src + size ≤ dst)
    → i < size
    → memcpy_loop dst src size m (dst + i) ≡ m (src + i)
unfolding memcpy_loop
memcpy_loop-inside dst src zero m i apart h = elim h [ ]
memcpy_loop-inside dst src (suc size) m zero apart h =
    ground (arith, memcpy_loop-outside (dst + 1) (src + 1) size (write m dst (m src)) dst)
memcpy_loop-inside dst src (suc size) m (suc i) apart h =
    ground (arith, memcpy_loop-inside (dst + 1) (src + 1) size (write m dst (m src)) i)

-- `memcpy` moves the block as it was before the call, also where the two overlap with the
-- destination in front, and writes nothing else.
pub memcpy_lem :
    (dst src size : ℕ) (m : Mem)
    → dst ≢ 0
    → src ≢ 0
    → (dst ≤ src) ⊎ (src + size ≤ dst)
    → (m' : Mem) × (memcpy dst src size m ≡ ok tt m')
      × ((i : ℕ) → i < size → m' (dst + i) ≡ m (src + i))
      × ((a : ℕ) → (a < dst) ⊎ (dst + size ≤ a) → m' a ≡ m a)
unfolding memcpy
memcpy_lem dst src size m nd ns apart = (
  memcpy_loop dst src size m,
  ground arith,
  λ i h. memcpy_loop-inside dst src size m i apart h,
  memcpy_loop-outside dst src size m,
)
