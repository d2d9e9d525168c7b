-- ===== src/Elephant/Memory/Mapping.antt =====
-- page_table_add: the entry that it writes, in either branch, and where.
use project_base_learning.Base.{
  ℕ, ◌+◌, ◌*◌, ◌/◌, ◌%◌, ◌^◌, ◌<◌, ◌≤◌, ◌≡◌, ◌≢◌, ◌⊎◌, inl, inr, arith, ◌∙◌, ap, Mem, IsBytes, true,
  false, ok, panic, bit_and, leb, ltb, ◌&&◌, if◌then◌else◌,
}
use project_base_learning.Base.Bits.{bit_and_high, bit_and_low}
use project_base_learning.Elephant.Str.{memset}
use project_base_learning.Elephant.Str.Block.{memset_lem}
use project_base_learning.Elephant.Bitmap.View.{bit_at}
use project_base_learning.Elephant.Memory.{
  Pool, Globals, get32, put32, pte_ptr, pde_ptr, entry, is_present, add_to_table, add_new_table,
  page_table_add, palloc, pg_size,
}
use project_base_learning.Elephant.Memory.Words.{
  get32-put32, put32-outside, get32-put32_outside, put32-IsBytes, pte_ptr_lem, pde_ptr_lem,
  entry_lem, is_present_lem,
}
use project_base_learning.Elephant.Memory.Palloc.{page_address, IsPageTaken, palloc-IsPageTaken}

-- `m'` is `m` with the word `w` at `a`.
pub record IsStored (a w : ℕ) (m m' : Mem) : Type 0 where
  pub word : get32 m' a ≡ w
  pub others : (x : ℕ) → (x < a) ⊎ (a + 3 < x) → m' x ≡ m x
  pub bytes : IsBytes m → IsBytes m'

put32-IsStored : (a w : ℕ) (m : Mem) → w < 2 ^ 32 → IsStored a w m (put32 a w m)
put32-IsStored a w m fits = record {
  word = get32-put32 a w m fits;
  others = λ x out. put32-outside a w x m out;
  bytes = put32-IsBytes a w m;
}

pub IsStored-get32 :
    (a w b : ℕ) (m m' : Mem)
    → IsStored a w m m'
    → (b + 3 < a) ⊎ (a + 3 < b)
    → get32 m' b ≡ get32 m b
unfolding get32
IsStored-get32 a w b m m' s out =
    ground (arith, s.others b, s.others (b + 1), s.others (b + 2), s.others (b + 3))

pub is_present-get32 :
    (p : ℕ) (m m' : Mem) → get32 m' p ≡ get32 m p → is_present m' p ≡ is_present m p
is_present-get32 p m m' e = ground (arith, is_present_lem m p, is_present_lem m' p)

module _ (g : Globals) (vaddr phys : ℕ) (m : Mem) (aligned : phys % 4096 ≡ 0)
    (fits : phys < 2 ^ 32) where
  -- With a page table there and the entry not present, `page_table_add` writes the physical address
  -- with the flags present, writable and user, at the entry of the physical address.
  pub page_table_add-IsStored :
      is_present m (pde_ptr vaddr) ≡ true
      → is_present m (pte_ptr phys) ≡ false
      → (m' : Mem) × (page_table_add g vaddr phys m ≡ ok tt m')
        × IsStored (pte_ptr phys) (phys + 7) m m'
  unfolding page_table_add add_to_table
  page_table_add-IsStored there absent =
      let e = entry_lem phys aligned in
      (
        put32 (pte_ptr phys) (entry phys) m,
        rw (there, absent),
        rw e (put32-IsStored (pte_ptr phys) (phys + 7) m (omega arith)),
      )

  -- With the entry present as well, the ASSERT halts the kernel.
  pub page_table_add-panic :
      is_present m (pde_ptr vaddr) ≡ true
      → is_present m (pte_ptr phys) ≡ true
      → page_table_add g vaddr phys m ≡ panic
  unfolding page_table_add add_to_table
  page_table_add-panic there present = rw (there, present)

  -- With a page table there, `page_table_add` never writes the entry of the virtual address, where
  -- that is another word than the entry of the physical one: what was not mapped stays not mapped.
  -- Conditions: neither entry is present; and the two are different words, also where two entries of
  -- the directory share a table, as those of 0 and of the kernel do: the addresses have different
  -- places in their tables, or their directory entries do not name the same table.
  pub page_table_add-vaddr_unmapped :
      vaddr < 2 ^ 32
      → (vaddr / 4096 % 1024 ≢ phys / 4096 % 1024)
        ⊎ (get32 m (pde_ptr vaddr) / 4096 ≢ get32 m (pde_ptr phys) / 4096)
      → is_present m (pde_ptr vaddr) ≡ true
      → is_present m (pte_ptr phys) ≡ false
      → is_present m (pte_ptr vaddr) ≡ false
      → (m' : Mem) × (page_table_add g vaddr phys m ≡ ok tt m')
        × (is_present m' (pte_ptr vaddr) ≡ false)
  page_table_add-vaddr_unmapped vfits words there absent unmapped =
      let (m', runs, stored) = page_table_add-IsStored there absent in
      (
        m',
        runs,
        is_present-get32 (pte_ptr vaddr) m m' (
              IsStored-get32 (pte_ptr phys) (phys + 7) (pte_ptr vaddr) m m' stored
                (ground (arith, pages, pte_ptr_lem vaddr vfits, pte_ptr_lem phys fits)))
            ∙ unmapped,
      )
    where
      same_table :
          vaddr / 4096 ≡ phys / 4096
          → get32 m (pde_ptr vaddr) / 4096 ≡ get32 m (pde_ptr phys) / 4096
      same_table e =
          ap (λ p. get32 m p / 4096)
            (pde_ptr_lem vaddr vfits ∙ omega (arith, e, pde_ptr_lem phys fits))

      pages : vaddr / 4096 ≢ phys / 4096
      pages e = elim words [
        | inl places ↦ places (ap (λ p. p % 1024) e)
        | inr tables ↦ tables (same_table e)
      ]

-- `p & 0xfffff000` is the start of the page.
page_start : (p : ℕ) → p < 2 ^ 32 → bit_and p 0xffff_f000 ≡ p / 4096 * 4096
page_start p fits =
    ground (arith, bit_and_high 12 (p / 4096) (p % 4096) 0xf_ffff, bit_and_low 20 0 (p / 4096))

-- A new page table: its directory entry at `pde` names the page at `table`, and the page of `pte`
-- is zero but for the word at `pte`.
pub record IsNewTable (pde table pte w : ℕ) (m m' : Mem) : Type 0 where
  pub directory : get32 m' pde ≡ table + 7
  pub word : get32 m' pte ≡ w
  pub zeroed : (x : ℕ) → pte / 4096 ≡ x / 4096 → (x < pte) ⊎ (pte + 3 < x) → m' x ≡ 0
  pub others : (x : ℕ) → pte / 4096 ≢ x / 4096 → (x < pde) ⊎ (pde + 3 < x) → m' x ≡ m x

module _ (pde table pte w : ℕ) (m m3 : Mem) (pte_fits : pte < 2 ^ 32) (pte_word : pte % 4 ≡ 0)
    (pde_word : pde % 4 ≡ 0) (apart : pte / 4096 ≢ pde / 4096) (table_fits : table + 7 < 2 ^ 32)
    (w_fits : w < 2 ^ 32)
    (zeros : (a : ℕ)
      → m3 a ≡ (
          if leb (pte / 4096 * 4096) a && ltb a (pte / 4096 * 4096 + 4096)
          then 0
          else put32 pde (table + 7) m a)) where
  zero_word : get32 m3 pte ≡ 0
  unfolding get32
  zero_word = ground (arith, zeros pte, zeros (pte + 1), zeros (pte + 2), zeros (pte + 3))

  pde_kept : get32 m3 pde ≡ table + 7
  pde_kept = ground (arith, same, get32-put32 pde (table + 7) m)
    where
      same : get32 m3 pde ≡ get32 (put32 pde (table + 7) m) pde
      same =
          unfold get32 in
          ground (arith, zeros pde, zeros (pde + 1), zeros (pde + 2), zeros (pde + 3))

  IsNewTable-of : IsNewTable pde table pte w m (put32 pte w m3)
  IsNewTable-of = record {
    directory = get32-put32_outside pte w pde m3 (omega arith) ∙ pde_kept;
    word = get32-put32 pte w m3 w_fits;
    zeroed = λ x e out. ground (arith, put32-outside pte w x m3, zeros x);
    others = λ x ne out.
        ground (arith, put32-outside pte w x m3, zeros x, put32-outside pde (table + 7) x m);
  }

-- The branch as a chain of its steps.
add_new_table_runs :
    (g : Globals) (pde pte phys table base w : ℕ) (m m1 m3 : Mem)
    → palloc g.kernel_pool m ≡ ok table m1
    → entry table ≡ w
    → bit_and pte 0xffff_f000 ≡ base
    → memset base 0 pg_size (put32 pde w m1) ≡ ok tt m3
    → is_present m3 pte ≡ false
    → add_new_table g pde pte phys m ≡ ok tt (put32 pte (entry phys) m3)
unfolding add_new_table
add_new_table_runs g pde pte phys table base w m m1 m3 allocated is_entry start cleared clear =
    rw (allocated, is_entry, start, cleared, clear)

-- A pool whose pages have 32-bit addresses, at page boundaries.
pub record IsPool (p : Pool) : Type 0 where
  pub len_fits : p.pool_bitmap.btmp_bytes_len < 2 ^ 29
  pub aligned : p.phy_addr_start % 4096 ≡ 0
  pub addresses : p.phy_addr_start + p.pool_bitmap.btmp_bytes_len * 8 * 4096 ≤ 2 ^ 32

module _ (g : Globals) (vaddr phys : ℕ) (m : Mem) (bytes : IsBytes m) (pool : IsPool g.kernel_pool)
    (aligned : phys % 4096 ≡ 0) (below : phys < 0xffc0_0000) (vfits : vaddr < 2 ^ 32) where
  -- With no page table for the virtual address, and a page free in the kernel pool,
  -- `page_table_add` takes the first free page for a new table, enters it in the directory for the
  -- virtual address, clears the page where the entry of the physical address stands and writes that
  -- entry. It does not halt.
  pub page_table_add-IsNewTable :
      (i : ℕ)
      → i < g.kernel_pool.pool_bitmap.btmp_bytes_len * 8
      → bit_at g.kernel_pool.pool_bitmap m i ≡ 0
      → is_present m (pde_ptr vaddr) ≡ false
      → (r : ℕ) × (m1 : Mem) × (m' : Mem) × IsPageTaken g.kernel_pool r m m1
        × (page_table_add g vaddr phys m ≡ ok tt m')
        × IsNewTable (pde_ptr vaddr) (page_address g.kernel_pool r) (pte_ptr phys) (phys + 7) m1 m'
  page_table_add-IsNewTable i within free absent =
      let (r, m1, taken) = palloc-IsPageTaken g.kernel_pool m bytes pool.len_fits i within free in
      let table = page_address g.kernel_pool r in
      let pte = pte_ptr phys in
      let slot = pte_ptr_lem phys (omega arith) in
      let dir = pde_ptr_lem vaddr vfits in
      let table_entry : entry table ≡ table + 7 =
        entry_lem table (omega (arith, taken.in_pool, pool.aligned, pool.addresses)) in
      let m2 = put32 (pde_ptr vaddr) (table + 7) m1 in
      let start = page_start pte (omega arith) in
      let (m3, cleared, zeros) = memset_lem (pte / 4096 * 4096) 0 4096 m2 (omega arith) in
      let fits : table + 7 < 2 ^ 32 = omega (arith, taken.in_pool, pool.aligned, pool.addresses) in
      let zero : get32 m3 pte ≡ 0 =
        zero_word (pde_ptr vaddr) table pte (phys + 7) m1 m3 (omega arith) (omega arith)
          (omega arith) (omega arith) fits (omega arith) zeros in
      let clear : is_present m3 pte ≡ false = ground (arith, is_present_lem m3 pte) in
      (
        r,
        m1,
        put32 pte (phys + 7) m3,
        taken,
        enters
            ∙ add_new_table_runs g (pde_ptr vaddr) pte phys table (pte / 4096 * 4096) (table + 7) m
                m1 m3 taken.runs table_entry start cleared clear
            ∙ ap (λ w. ok tt (put32 pte w m3)) (entry_lem phys aligned),
        IsNewTable-of (pde_ptr vaddr) table pte (phys + 7) m1 m3 (omega arith) (omega arith)
            (omega arith) (omega arith) fits (omega arith) zeros,
      )
    where
      enters : page_table_add g vaddr phys m ≡ add_new_table g (pde_ptr vaddr) (pte_ptr phys) phys m
      enters = unfold page_table_add in rw absent
