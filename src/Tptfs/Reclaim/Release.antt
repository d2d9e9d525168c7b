-- ===== src/Tptfs/Reclaim/Release.antt =====
-- What tpt_reclaim undoes.
use project_base_learning.Base.{
  ℕ, ◌+◌, ◌-◌, ◌^◌, ◌≡◌, ◌≢◌, refl, ◌==◌, ◌||◌, if◌then◌else◌, arith, eq→==, ne→==, Bool-cases, inl,
  inr, u32,
}
use project_base_learning.Tptfs.{State, Store, Kernel, Call, lock_own, vop_add_writecount}
use project_base_learning.Tptfs.NodeCache.{tpt_hashrem}
use project_base_learning.Tptfs.Reclaim.{tpt_reclaim, reclaim_writecount, is_negative}
use project_base_learning.Tptfs.Tally.{
  Ends, Ends-and_then, tally, gives, once, interlocks, interunlocks, IsEven,
}

-- The calls that change the write count of a vnode, by the amount that they add.
unfoldable pub write_leases : ℕ → Call → ℕ
write_leases l (vop_add_writecount v n) = if v == l then n else 0
write_leases l _ = 0

-- The negation of a positive write count, as an int; 0 for the others.
abbrev pub undoes : ℕ → ℕ
undoes w = if is_negative w || (w == 0) then 0 else u32 (2 ^ 32 - w)

module _ (hash : ℕ → ℕ) (kernel : Kernel) where
  writecount-ends :
      (vp lowervp w : ℕ) (s : State)
      → (s.store.vnodes vp).v_writecount ≡ w
      → Ends
          (λ _ t.
            (tally (gives lowervp) t.calls ≡ tally (gives lowervp) s.calls)
            × (tally (interlocks vp) t.calls ≡ tally (interlocks vp) s.calls)
            × (tally (interunlocks vp) t.calls ≡ tally (interunlocks vp) s.calls)
            × (tally (write_leases lowervp) t.calls
                ≡ undoes w + tally (write_leases lowervp) s.calls))
          (reclaim_writecount hash kernel vp lowervp s)
  unfolding reclaim_writecount Ends tally gives interlocks interunlocks write_leases
  writecount-ends vp lowervp w s same = elim (Bool-cases (is_negative w)) [
    | inl e ↦ elim (Bool-cases (w == 0)) [
      | inl z ↦ rw (same, e, z) (refl, refl, refl, omega arith)
      | inr z ↦ rw (same, e, z) (refl, refl, refl, omega arith)
    ]
    | inr e ↦ elim (Bool-cases (w == 0)) [
      | inl z ↦ rw (same, e, z) (refl, refl, refl, omega arith)
      | inr z ↦
          rw (same, e, z)
            (omega arith, omega arith, omega arith, ground (arith, eq→== lowervp lowervp refl))
    ]
  ]

  -- `tpt_reclaim` gives up the reference on the lower vnode exactly once, the vnode's interlock is
  -- free again, and where the vnode was open for writing the lower vnode's write count goes down by
  -- the same number. Conditions: the vnode has its node, and what the kernel does while it takes
  -- the vnode's own lock leaves the write count alone; only a thread with that lock changes it.
  pub tpt_reclaim-released :
      (vp : ℕ) (s : State)
      → (s.store.vnodes vp).v_data ≢ 0
      → ((st : Store)
          → ((kernel (lock_own vp) st).store.vnodes vp).v_writecount ≡ (st.vnodes vp).v_writecount)
      → let lowervp = (s.store.nodes (s.store.vnodes vp).v_data).tpt_lowervp in
        Ends
          (λ e t.
            (e ≡ 0)
            × (tally (gives lowervp) t.calls ≡ 1 + tally (gives lowervp) s.calls)
            × IsEven (interlocks vp) (interunlocks vp) s t
            × (tally (write_leases lowervp) t.calls
                ≡ undoes (s.store.vnodes vp).v_writecount + tally (write_leases lowervp) s.calls))
          (tpt_reclaim hash kernel vp s)
  unfolding tpt_reclaim tpt_hashrem Ends tally gives interlocks interunlocks write_leases once
  tpt_reclaim-released vp s d w =
      let xp = (s.store.vnodes vp).v_data in
      let lowervp = (s.store.nodes xp).tpt_lowervp in
      let count = (s.store.vnodes vp).v_writecount in
      rw (ne→== _ 0 d) (
        Ends-and_then _
          (λ e t.
            (e ≡ 0)
            × (tally (gives lowervp) t.calls ≡ 1 + tally (gives lowervp) s.calls)
            × IsEven (interlocks vp) (interunlocks vp) s t
            × (tally (write_leases lowervp) t.calls
                ≡ undoes count + tally (write_leases lowervp) s.calls))
          (reclaim_writecount hash kernel vp lowervp _) _
          (writecount-ends vp lowervp count _ (rw (eq→== vp vp refl) (w _)))
          (λ x t h. elim (Bool-cases (t.store.nodes xp).nullv_nounlock) [
            | inl e ↦
                rw (ne→== _ 0 d, e)
                  (
                    refl,
                    ground (arith, h.0, eq→== lowervp lowervp refl),
                    ground (arith, h.1, h.2),
                    omega (arith, h.3),
                  )
            | inr e ↦
                rw (ne→== _ 0 d, e)
                  (
                    refl,
                    ground (arith, h.0, eq→== lowervp lowervp refl),
                    ground (arith, h.1, h.2),
                    omega (arith, h.3),
                  )
          ]))
