-- ===== src/Tptfs/Vfsops/Mounted.antt =====
-- The reference on the vnode of the disk, from the mount to the unmount.
use project_base_learning.Base.{
  ℕ, suc, ◌+◌, ◌≡◌, ◌≢◌, refl, ◌⊎◌, false, ◌==◌, arith, eq→==, ne→==, ==→ne, Bool-cases, inl, inr,
}
use project_base_learning.Tptfs.{
  State, Kernel, vfs_flagopt_ro, g_vfs_open, vop_unlock, bread, vflush, vn_isdisk_error, malloc,
}
use project_base_learning.Tptfs.Vfsops.{
  tpt_mountfs, mountfs_out, mountfs_fill, mount_disk, tpt_compute_sb_data, minus_one, tptfs_unmount,
  unmount_flush, unmount_finish,
}
use project_base_learning.Tptfs.Tally.{Ends, Ends-map, Ends-and_then, tally, gives, once}

-- The mount has the disk as its lower root, and its own mount as the mount below.
abbrev pub IsMountedOn : (mp devvp : ℕ) → State → Type 0
IsMountedOn mp devvp t =
    ((t.store.tpt_mounts (t.store.mounts mp).mnt_data).nullm_lowerrootvp ≡ devvp)
    × ((t.store.tpt_mounts (t.store.mounts mp).mnt_data).nullm_vfs ≡ mp)
    × ((t.store.tpt_mounts (t.store.mounts mp).mnt_data).nullm_cache ≡ false)

module _ (kernel : Kernel) (l : ℕ) where
  out-ends :
      (bp cp : ℕ) (s : State)
      → Ends
          (λ e t. (e ≡ minus_one) × (tally (gives l) t.calls ≡ tally (gives l) s.calls))
          (mountfs_out kernel bp cp s)
  unfolding mountfs_out Ends tally gives
  out-ends bp cp s = elim (Bool-cases (bp == 0)) [
    | inl e ↦ elim (Bool-cases (cp == 0)) [
      | inl g ↦ rw (e, g) (refl, omega arith)
      | inr g ↦ rw (e, g) (refl, omega arith)
    ]
    | inr e ↦ elim (Bool-cases (cp == 0)) [
      | inl g ↦ rw (e, g) (refl, omega arith)
      | inr g ↦ rw (e, g) (refl, omega arith)
    ]
  ]

  -- `tpt_mountfs` lets go of no reference. It returns 0 exactly when it has mounted the disk.
  mountfs-ends :
      (devvp mp : ℕ) (s : State)
      → Ends
          (λ e t.
            (tally (gives l) t.calls ≡ tally (gives l) s.calls)
            × ((e ≢ 0) ⊎ ((e ≡ 0) × IsMountedOn mp devvp t)))
          (tpt_mountfs kernel devvp mp s)
  unfolding tpt_mountfs mountfs_fill tpt_compute_sb_data Ends tally gives
  mountfs-ends devvp mp s =
      let flag = kernel vfs_flagopt_ro s.store in
      let opened = kernel (g_vfs_open devvp) flag.store in
      let unlocked = kernel (vop_unlock devvp) opened.store in
      let read = kernel (bread devvp) unlocked.store in
      let tptmp = kernel malloc read.store in
      let fs = kernel malloc tptmp.store in
      elim (Bool-cases (opened.error == 0)) [
        | inr e ↦ rw (e) (omega arith, inl (==→ne _ 0 e))
        | inl e ↦ elim (Bool-cases (read.error == 0)) [
          | inr g ↦
              rw (e, g)
                (Ends-map (mountfs_out kernel read.out opened.out _)
                  (λ x t h. (omega (arith, h.1), inl (omega (arith, h.0))))
                  (out-ends read.out opened.out _))
          | inl g ↦
              rw (e, g)
                (
                  omega arith,
                  inr (
                    refl,
                    rw (eq→== mp mp refl, eq→== tptmp.out tptmp.out refl) (refl, refl, refl),
                  ),
                )
        ]
      ]

  -- From the point where `tptfs_mount` has the vnode of the disk with a reference, there are two
  -- ends. It lets go of that reference once, and returns the error of `vn_isdisk_error` or one that
  -- is not 0; or it returns 0 and keeps the reference, and the mount has the vnode as its lower
  -- root, itself as the mount below, and NULLM_CACHE not set.
  pub mount_disk-IsMountedOn :
      (mp fspec devvp : ℕ) (s : State)
      → Ends
          (λ e t.
            (((e ≢ 0) ⊎ (e ≡ (kernel (vn_isdisk_error devvp) s.store).error))
              × (tally (gives l) t.calls ≡ once (devvp == l) + tally (gives l) s.calls))
            ⊎ ((e ≡ 0)
                × (tally (gives l) t.calls ≡ tally (gives l) s.calls)
                × IsMountedOn mp devvp t))
          (mount_disk kernel mp fspec devvp s)
  unfolding mount_disk Ends tally gives
  mount_disk-IsMountedOn mp fspec devvp s =
      let disk = kernel (vn_isdisk_error devvp) s.store in
      elim (Bool-cases (disk.out == 0)) [
        | inl e ↦ rw (e) (inl (inr refl, omega arith))
        | inr e ↦ rw (e) (
            Ends-and_then _ _ (tpt_mountfs kernel devvp mp _) _ (mountfs-ends devvp mp _)
              (λ error t h. elim (h.1) [
                | inl n ↦ rw (ne→== error 0 n) (inl (inl n, omega (arith, h.0)))
                | inr (z, m) ↦ rw (z) (inr (refl, omega (arith, h.0), m))
              ]))
      ]

  -- A mount as `tpt_mountfs` leaves it is unmounted without force in one round. The answer is an
  -- error, and then the mount keeps its data and no reference is let go of; or 0, and then the
  -- reference on the lower root is let go of exactly once, and the mount has no data any more.
  -- Conditions: after the flush the mount has its data, as `tpt_mountfs` filled it.
  pub tptfs_unmount-released :
      (fuel mp devvp : ℕ) (s : State)
      → ((kernel (vflush mp false) s.store).store.mounts mp).mnt_data ≢ 0
      → IsMountedOn mp devvp (record s { store = (kernel (vflush mp false) s.store).store })
      → Ends
          (λ e t.
            ((e ≢ 0)
              × (tally (gives l) t.calls ≡ tally (gives l) s.calls)
              × ((t.store.mounts mp).mnt_data ≢ 0))
            ⊎ ((e ≡ 0)
                × (tally (gives l) t.calls ≡ once (devvp == l) + tally (gives l) s.calls)
                × ((t.store.mounts mp).mnt_data ≡ 0)))
          (tptfs_unmount kernel (suc fuel) mp false s)
  unfolding tptfs_unmount unmount_flush unmount_finish Ends tally gives
  tptfs_unmount-released fuel mp devvp s d m =
      let flushed = kernel (vflush mp false) s.store in
      elim (Bool-cases (flushed.error == 0)) [
        | inr e ↦ rw (e, e) (inl (==→ne _ 0 e, omega arith, d))
        | inl e ↦ elim (Bool-cases ((flushed.store.mounts mp).mnt_nvnodelistsize == 0)) [
          | inr g ↦ rw (e, g) (inl (omega arith, omega arith, d))
          | inl g ↦
              rw (e, g, ne→== _ 0 d, m.2, m.0) (inr (refl, omega arith, rw (eq→== mp mp refl) refl))
        ]
      ]
