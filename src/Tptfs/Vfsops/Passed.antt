-- ===== src/Tptfs/Vfsops/Passed.antt =====
-- tptfs/tpt_vfsops.c, the operations that the layer passes to the mount below, the table tpt_vfsops,
-- and what the kernel makes of such a call. `below` is the macro of the operation, such as
-- VFS_STATFS: the function in the table of the mount that it is given.
pub mod Endless
pub mod Kept
pub mod Copied
use project_base_learning.Base.{
  ℕ, zero, suc, ◌-◌, ◌^◌, Bool, true, false, not, ◌==◌, if◌then◌else◌, List, [], ◌∷◌, Run, ok,
  out_of_fuel, pure, ◌>>=◌, ◌>>◌, bit_and, bit_or,
}
use project_base_learning.Tptfs.{
  Store, Layer, Kernel, Reply, malloc, free, vfs_quotactl, vfs_statfs, vfs_vget, vfs_fhtovp,
  vfs_extattrctl, call, note, tpt_mount,
}
use project_base_learning.Tptfs.NodeCache.{tpt_nodeget}

-- `struct statfs`, the fields that are copied.
pub record Statfs : Type 0 where
  pub f_type : ℕ
  pub f_flags : ℕ
  pub f_bsize : ℕ
  pub f_iosize : ℕ
  pub f_blocks : ℕ
  pub f_bfree : ℕ
  pub f_bavail : ℕ
  pub f_files : ℕ
  pub f_ffree : ℕ

-- `kept` is the set of flags that are the upper mount's own, `faked` that of those that are not
-- taken from below.
unfoldable pub statfs_copy : (kept faked : ℕ) (sbp mstat : Statfs) → Statfs
statfs_copy kept faked sbp mstat = record sbp {
  f_type = mstat.f_type;
  f_flags = bit_or (bit_and sbp.f_flags kept) (bit_and mstat.f_flags (2 ^ 64 - 1 - faked));
  f_bsize = mstat.f_bsize;
  f_iosize = mstat.f_iosize;
  f_blocks = mstat.f_blocks;
  f_bfree = mstat.f_bfree;
  f_bavail = mstat.f_bavail;
  f_files = mstat.f_files;
  f_ffree = mstat.f_ffree;
}

-- What `malloc` with M_ZERO leaves.
abbrev pub zero_statfs : Statfs
zero_statfs = record {
  f_type = 0;
  f_flags = 0;
  f_bsize = 0;
  f_iosize = 0;
  f_blocks = 0;
  f_bfree = 0;
  f_bavail = 0;
  f_files = 0;
  f_ffree = 0;
}

pub tptfs_quotactl : (below : ℕ → Layer ℕ) (mp : ℕ) → Layer ℕ
tptfs_quotactl below mp = do mntdata ← tpt_mount mp; below mntdata.nullm_vfs

pub tptfs_extattrctl : (below : ℕ → Layer ℕ) (mp : ℕ) → Layer ℕ
tptfs_extattrctl below mp = do mntdata ← tpt_mount mp; below mntdata.nullm_vfs

unfoldable pub tptfs_sync : (mp : ℕ) → Layer ℕ
tptfs_sync mp = pure 0

-- `below` returns the error and what it leaves in the buffer; the result is the error and `*sbp`.
pub tptfs_statfs :
    Kernel
    → (kept faked : ℕ) (below : ℕ → Statfs → Layer (ℕ × Statfs)) (mp : ℕ) (sbp : Statfs)
    → Layer (ℕ × Statfs)
tptfs_statfs kernel kept faked below mp sbp = do
  mstat ← call kernel malloc
  mntdata ← tpt_mount mp
  r ← below mntdata.nullm_vfs zero_statfs
  note (free mstat.out)
  if not (r.0 == 0) then pure (r.0, sbp) else pure (0, statfs_copy kept faked sbp r.1)

module _ (hash : ℕ → ℕ) (kernel : Kernel) where
  pub tptfs_vget : (below : ℕ → Layer (ℕ × ℕ)) (mp ino vpp : ℕ) → Layer (ℕ × ℕ)
  tptfs_vget below mp ino vpp = do
    mntdata ← tpt_mount mp
    r ← below mntdata.nullm_vfs
    if not (r.0 == 0) then pure (r.0, vpp) else tpt_nodeget hash kernel mp r.1

  pub tptfs_fhtovp : (below : ℕ → Layer (ℕ × ℕ)) (mp vpp : ℕ) → Layer (ℕ × ℕ)
  tptfs_fhtovp below mp vpp = do
    mntdata ← tpt_mount mp
    r ← below mntdata.nullm_vfs
    if not (r.0 == 0) then pure (r.0, vpp) else tpt_nodeget hash kernel mp r.1

-- The macros: a mount of the layer has the table `tpt_vfsops`, and any other mount is the kernel's.
-- `is_tptfs` tells them apart, and `fuel` bounds the calls inside one another.
module _ (kernel : Kernel) (is_tptfs : ℕ → Bool) where
  pub vfs_quotactl_of : (fuel mp : ℕ) → Layer ℕ
  vfs_quotactl_of zero mp = λ s. out_of_fuel
  vfs_quotactl_of (suc fuel) mp =
      if is_tptfs mp
      then tptfs_quotactl (vfs_quotactl_of fuel) mp
      else (do r ← call kernel (vfs_quotactl mp); pure r.error)

  pub vfs_extattrctl_of : (fuel mp : ℕ) → Layer ℕ
  vfs_extattrctl_of zero mp = λ s. out_of_fuel
  vfs_extattrctl_of (suc fuel) mp =
      if is_tptfs mp
      then tptfs_extattrctl (vfs_extattrctl_of fuel) mp
      else (do r ← call kernel (vfs_extattrctl mp); pure r.error)

  -- VFS_STATFS first puts into the buffer what the kernel knows of the mount: `prepare`. `read_statfs`
  -- is what another filesystem stores at the pointer that it answers with.
  pub vfs_statfs_of :
      (kept faked : ℕ) (prepare : ℕ → Store → Statfs → Statfs) (read_statfs : ℕ → Statfs)
      (fuel mp : ℕ) (sbp : Statfs)
      → Layer (ℕ × Statfs)
  vfs_statfs_of kept faked prepare read_statfs zero mp sbp = λ s. out_of_fuel
  vfs_statfs_of kept faked prepare read_statfs (suc fuel) mp sbp =
      if is_tptfs mp
      then (λ s.
          tptfs_statfs kernel kept faked (vfs_statfs_of kept faked prepare read_statfs fuel) mp
            (prepare mp s.store sbp) s)
      else (do r ← call kernel (vfs_statfs mp); pure (r.error, read_statfs r.out))

module _ (hash : ℕ → ℕ) (kernel : Kernel) (is_tptfs : ℕ → Bool) where
  pub vfs_vget_of : (fuel ino mp : ℕ) → Layer (ℕ × ℕ)
  vfs_vget_of zero ino mp = λ s. out_of_fuel
  vfs_vget_of (suc fuel) ino mp =
      if is_tptfs mp
      then tptfs_vget hash kernel (vfs_vget_of fuel ino) mp ino 0
      else (do r ← call kernel (vfs_vget mp); pure (r.error, r.out))

  pub vfs_fhtovp_of : (fuel mp : ℕ) → Layer (ℕ × ℕ)
  vfs_fhtovp_of zero mp = λ s. out_of_fuel
  vfs_fhtovp_of (suc fuel) mp =
      if is_tptfs mp
      then tptfs_fhtovp hash kernel (vfs_fhtovp_of fuel) mp 0
      else (do r ← call kernel (vfs_fhtovp mp); pure (r.error, r.out))
