-- ===== src/Tptfs/Vfsops/Forced.antt =====
-- The rounds of a forced unmount.
use project_base_learning.Base.{
  ℕ, zero, suc, ◌+◌, ◌-◌, ◌<◌, ◌≤◌, ◌≡◌, ◌≢◌, refl, true, ◌==◌, [], arith, eq→==, ne→==, ==→eq,
  Bool-cases, inl, inr,
}
use project_base_learning.Tptfs.{State, Store, Kernel, vflush}
use project_base_learning.Tptfs.Vfsops.{tptfs_unmount, unmount_flush, unmount_finish}
use project_base_learning.Tptfs.Vfsops.Mounted.{IsMountedOn}
use project_base_learning.Tptfs.Tally.{Ends, Ends-and_then, Ends-map, tally, gives, once}

abbrev pub vnodes_on : ℕ → Store → ℕ
vnodes_on mp st = (st.mounts mp).mnt_nvnodelistsize

-- The mount has its data, as `tpt_mountfs` filled it.
abbrev pub IsFilled : (mp devvp : ℕ) → Store → Type 0
IsFilled mp devvp st =
    ((st.mounts mp).mnt_data ≢ 0) × IsMountedOn mp devvp (record { store = st; calls = [] })

-- What the kernel promises of a forced flush: it returns 0, it leaves fewer vnodes where there are
-- any, and it leaves the data of the mount alone.
pub record IsFlushing (kernel : Kernel) (mp devvp : ℕ) : Type 0 where
  pub succeeds : (st : Store) → (kernel (vflush mp true) st).error ≡ 0
  pub fewer : (st : Store) → vnodes_on mp (kernel (vflush mp true) st).store ≤ vnodes_on mp st - 1
  pub keeps :
      (st : Store) → IsFilled mp devvp st → IsFilled mp devvp (kernel (vflush mp true) st).store

module _ (kernel : Kernel) (mp devvp l : ℕ) (flushing : IsFlushing kernel mp devvp) where
  -- The loop ends after at most one round for each vnode and lets go of no reference.
  flush-ends :
      (fuel : ℕ) (s : State)
      → vnodes_on mp s.store ≤ fuel
      → IsFilled mp devvp s.store
      → Ends
          (λ e t.
            (e ≡ 0)
            × (vnodes_on mp t.store ≡ 0)
            × IsFilled mp devvp t.store
            × (tally (gives l) t.calls ≡ tally (gives l) s.calls))
          (unmount_flush kernel (suc fuel) mp true s)
  unfolding unmount_flush Ends tally gives
  flush-ends zero s enough filled =
      rw
        (
          flushing.succeeds s.store,
          eq→== (vnodes_on mp (kernel (vflush mp true) s.store).store) 0
              (omega (arith, flushing.fewer s.store)),
        )
        (refl, omega (arith, flushing.fewer s.store), flushing.keeps s.store filled, omega arith)
  flush-ends (suc fuel) s enough filled =
      let flushed = kernel (vflush mp true) s.store in
      elim (Bool-cases (vnodes_on mp flushed.store == 0)) [
        | inl e ↦
            rw (flushing.succeeds s.store, e)
              (refl, ==→eq _ 0 e, flushing.keeps s.store filled, omega arith)
        | inr e ↦
            rw (flushing.succeeds s.store, e)
              (Ends-map (unmount_flush kernel (suc fuel) mp true _)
                (λ e t h. (h.0, h.1, h.2, omega (arith, h.3)))
                (flush-ends fuel _ (omega (arith, flushing.fewer s.store))
                  (flushing.keeps s.store filled)))
      ]

  -- A forced unmount of a mount as `tpt_mountfs` leaves it always comes to its end, after at most
  -- one round more than the mount has vnodes: it returns 0, the mount has no data any more, and the
  -- reference on the lower root is let go of exactly once. Conditions: a forced flush
  -- succeeds, leaves fewer vnodes where there are any, and does not touch the data of the mount.
  pub tptfs_unmount-forced :
      (fuel : ℕ) (s : State)
      → vnodes_on mp s.store < fuel
      → IsFilled mp devvp s.store
      → Ends
          (λ e t.
            (e ≡ 0)
            × ((t.store.mounts mp).mnt_data ≡ 0)
            × (tally (gives l) t.calls ≡ once (devvp == l) + tally (gives l) s.calls))
          (tptfs_unmount kernel fuel mp true s)
  unfolding tptfs_unmount Ends tally gives unmount_finish
  tptfs_unmount-forced zero s enough filled = absurd (omega arith)
  tptfs_unmount-forced (suc fuel) s enough filled =
      Ends-and_then _ _ (unmount_flush kernel (suc fuel) mp true s) _
        (flush-ends fuel s (omega arith) filled)
        (λ e t h.
          rw (h.0, ne→== _ 0 h.2.0, h.2.1.2, h.2.1.0)
            (refl, rw (eq→== mp mp refl) refl, omega (arith, h.3)))
