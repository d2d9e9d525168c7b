-- ===== src/Tptfs/Vfsops/Passed/Endless.antt =====
-- The operations that are passed on, on a mount that tpt_mountfs has filled.
use project_base_learning.Base.{◌∷◌, ℕ, zero, suc, ◌≡◌, ◌≢◌, refl, Bool, true, ne→==, out_of_fuel}
use project_base_learning.Tptfs.{State, Store, Kernel, malloc}
use project_base_learning.Tptfs.Vfsops.Passed.{
  Statfs, zero_statfs, tptfs_statfs, tptfs_quotactl, tptfs_extattrctl, tptfs_vget, tptfs_fhtovp,
  vfs_statfs_of, vfs_quotactl_of, vfs_extattrctl_of, vfs_vget_of, vfs_fhtovp_of,
}

-- The mount has its data, and `lower` as the mount below.
abbrev pub IsOver : (mp lower : ℕ) → Store → Type 0
IsOver mp lower st =
    ((st.mounts mp).mnt_data ≢ 0) × ((st.tpt_mounts (st.mounts mp).mnt_data).nullm_vfs ≡ lower)

module _ (hash : ℕ → ℕ) (kernel : Kernel) (is_tptfs : ℕ → Bool) (mp : ℕ)
    (ours : is_tptfs mp ≡ true) where
  quotactl-endless :
      (fuel : ℕ) (s : State)
      → IsOver mp mp s.store
      → vfs_quotactl_of kernel is_tptfs fuel mp s ≡ out_of_fuel
  unfolding vfs_quotactl_of tptfs_quotactl
  quotactl-endless zero s over = refl
  quotactl-endless (suc fuel) s over =
      rw (ours, ne→== _ 0 over.0, over.1) (quotactl-endless fuel s over)

  extattrctl-endless :
      (fuel : ℕ) (s : State)
      → IsOver mp mp s.store
      → vfs_extattrctl_of kernel is_tptfs fuel mp s ≡ out_of_fuel
  unfolding vfs_extattrctl_of tptfs_extattrctl
  extattrctl-endless zero s over = refl
  extattrctl-endless (suc fuel) s over =
      rw (ours, ne→== _ 0 over.0, over.1) (extattrctl-endless fuel s over)

  vget-endless :
      (fuel ino : ℕ) (s : State)
      → IsOver mp mp s.store
      → vfs_vget_of hash kernel is_tptfs fuel ino mp s ≡ out_of_fuel
  unfolding vfs_vget_of tptfs_vget
  vget-endless zero ino s over = refl
  vget-endless (suc fuel) ino s over =
      rw (ours, ne→== _ 0 over.0, over.1, vget-endless fuel ino s over)

  fhtovp-endless :
      (fuel : ℕ) (s : State)
      → IsOver mp mp s.store
      → vfs_fhtovp_of hash kernel is_tptfs fuel mp s ≡ out_of_fuel
  unfolding vfs_fhtovp_of tptfs_fhtovp
  fhtovp-endless zero s over = refl
  fhtovp-endless (suc fuel) s over = rw (ours, ne→== _ 0 over.0, over.1, fhtovp-endless fuel s over)

  module _ (kept faked : ℕ) (prepare : ℕ → Store → Statfs → Statfs) (read_statfs : ℕ → Statfs)
      (keeps : (st : Store) → IsOver mp mp st → IsOver mp mp (kernel malloc st).store) where
    statfs-endless :
        (fuel : ℕ) (sbp : Statfs) (s : State)
        → IsOver mp mp s.store
        → vfs_statfs_of kernel is_tptfs kept faked prepare read_statfs fuel mp sbp s ≡ out_of_fuel
    unfolding vfs_statfs_of tptfs_statfs
    statfs-endless zero sbp s over = refl
    statfs-endless (suc fuel) sbp s over =
        let over' = keeps s.store over in
        rw (
          ours,
          ne→== _ 0 over'.0,
          over'.1,
          statfs-endless fuel zero_statfs
              (record { store = (kernel malloc s.store).store; calls = malloc ∷ s.calls }) over',
        )

    -- On a mount whose mount below is itself, as `tpt_mountfs` fills it, none of the five operations
    -- that are passed on ever comes back: whatever depth of calls is allowed, it is used up.
    -- Conditions: the mount has its data, and `malloc` leaves that alone.
    pub passed-endless :
        (fuel ino : ℕ) (sbp : Statfs) (s : State)
        → IsOver mp mp s.store
        → (vfs_statfs_of kernel is_tptfs kept faked prepare read_statfs fuel mp sbp s ≡ out_of_fuel)
          × (vfs_quotactl_of kernel is_tptfs fuel mp s ≡ out_of_fuel)
          × (vfs_extattrctl_of kernel is_tptfs fuel mp s ≡ out_of_fuel)
          × (vfs_vget_of hash kernel is_tptfs fuel ino mp s ≡ out_of_fuel)
          × (vfs_fhtovp_of hash kernel is_tptfs fuel mp s ≡ out_of_fuel)
    passed-endless fuel ino sbp s over = (
      statfs-endless fuel sbp s over,
      quotactl-endless fuel s over,
      extattrctl-endless fuel s over,
      vget-endless fuel ino s over,
      fhtovp-endless fuel s over,
    )
