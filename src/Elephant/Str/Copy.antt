-- ===== src/Elephant/Str/Copy.antt =====
-- strcpy and strcat: the copied string and what else is written.
use project_base_learning.Base.{
  ℕ, zero, suc, ◌+◌, ◌-◌, ◌<◌, ◌≤◌, ◌≡◌, ◌≢◌, ◌⊎◌, arith, Mem, write, ok,
}
use project_base_learning.Elephant.Str.{strcpy_loop, strcpy, strcat}
use project_base_learning.Elephant.Str.Find.{
  IsString, IsString-tail, IsString-head, IsString-end, skip_loop_lem,
}

-- `m'` has the `n` bytes and the NUL from `src` of `m` at `dst`, and is else `m`.
pub record IsCopied (m : Mem) (dst src n : ℕ) (m' : Mem) : Type 0 where
  pub inside : (i : ℕ) → i ≤ n → m' (dst + i) ≡ m (src + i)
  pub outside : (a : ℕ) → (a < dst) ⊎ (dst + n < a) → m' a ≡ m a

-- Copying from the front is safe where the target does not begin inside the source.
abbrev pub Apart : ℕ → ℕ → ℕ → Type 0
Apart dst src n = (dst ≤ src) ⊎ (src + n < dst)

IsString-write :
    (m : Mem) (p n a v : ℕ) → (a < p) ⊎ (p + n < a) → IsString m p n → IsString (write m a v) p n
IsString-write m p n a v out s = record {
  inside = λ i h. ground (arith, s.inside i);
  stop = ground (arith, s.stop);
}

IsCopied-suc :
    (m m' : Mem) (dst src n : ℕ)
    → Apart dst src (suc n)
    → IsCopied (write m dst (m src)) (dst + 1) (src + 1) n m'
    → IsCopied m dst src (suc n) m'
IsCopied-suc m m' dst src n apart c = record {
  inside = inside;
  outside = λ a out. ground (arith, c.outside a);
}
  where
    inside : (i : ℕ) → i ≤ suc n → m' (dst + i) ≡ m (src + i)
    inside zero h = ground (arith, c.outside dst)
    inside (suc i) h = ground (arith, c.inside i)

strcpy_loop_lem :
    (fuel dst src n : ℕ) (m : Mem)
    → IsString m src n
    → Apart dst src n
    → n < fuel
    → (m' : Mem) × (strcpy_loop fuel dst src m ≡ ok tt m') × IsCopied m dst src n m'
unfolding strcpy_loop
strcpy_loop_lem zero dst src n m s apart h = elim h [ ]
strcpy_loop_lem (suc fuel) dst src zero m s apart h = (
  write m dst (m src),
  rw (IsString-end src s),
  record { inside = λ i k. ground arith; outside = λ a out. ground arith },
)
strcpy_loop_lem (suc fuel) dst src (suc n) m s apart h =
    let tail = IsString-write m (src + 1) n dst (m src) (ground arith) (IsString-tail src n s) in
    let (m', runs, copied) =
      strcpy_loop_lem fuel (dst + 1) (src + 1) n (write m dst (m src)) tail (ground arith)
        (omega arith) in
    (m', rw (IsString-head src n s) runs, IsCopied-suc m m' dst src n apart copied)

-- With more fuel than bytes, and a target that does not begin inside the source, `strcpy` returns
-- the target, where the string with its NUL now stands; no other byte changes.
pub strcpy-IsCopied :
    (fuel dst src n : ℕ) (m : Mem)
    → IsString m src n
    → dst ≢ 0
    → src ≢ 0
    → Apart dst src n
    → n < fuel
    → (m' : Mem) × (strcpy fuel dst src m ≡ ok dst m') × IsCopied m dst src n m'
unfolding strcpy
strcpy-IsCopied fuel dst src n m s nd ns apart h =
    let (m', runs, copied) = strcpy_loop_lem fuel dst src n m s apart h in
    (m', ground arith, copied)

-- With more fuel than either string has bytes, `strcat` copies the source, NUL and all, behind the
-- `k` bytes of the target, over the target's NUL, returns the target and changes no other byte;
-- the place of the copy must not begin inside the source.
pub strcat-IsCopied :
    (fuel dst src k n : ℕ) (m : Mem)
    → IsString m dst k
    → IsString m src n
    → dst ≢ 0
    → src ≢ 0
    → Apart (dst + k) src n
    → k < fuel
    → n < fuel
    → (m' : Mem) × (strcat fuel dst src m ≡ ok dst m') × IsCopied m (dst + k) src n m'
unfolding strcat
strcat-IsCopied fuel dst src k n m sd ss nd ns apart hk hn =
    let (m', runs, copied) = strcpy_loop_lem fuel (dst + k) src n m ss apart hn in
    let back : dst + k + 1 - 1 ≡ dst + k = omega arith in
    (m', ground (arith, skip_loop_lem fuel dst k m sd hk), copied)

-- After `strcat` the target holds a string of `k + n` bytes, when it stands in front of the source
-- or ends before it.
pub strcat-IsString :
    (m m' : Mem) (dst src k n : ℕ)
    → IsString m dst k
    → IsString m src n
    → IsCopied m (dst + k) src n m'
    → IsString m' dst (k + n)
strcat-IsString m m' dst src k n sd ss c = record { inside = inside; stop = stop }
  where
    stop : m' (dst + (k + n)) ≡ 0
    stop = ground (arith, c.inside n, ss.stop)

    inside : (i : ℕ) → i < k + n → m' (dst + i) ≢ 0
    inside i h =
        ground (arith, c.outside (dst + i), c.inside (i - k), sd.inside i, ss.inside (i - k))
