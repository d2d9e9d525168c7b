-- ===== src/Tptfs/Vfsops.antt =====
-- tptfs/tpt_vfsops.c: mounting a disk, unmounting it and its root. The text that
-- tptfs_mount prints is left out.
pub mod Mounted
pub mod Passed
pub mod Forced
pub mod Root
pub mod Kept
mod Tests
use project_base_learning.Base.{
  ℕ, zero, suc, ◌-◌, ◌^◌, Bool, true, false, not, ◌==◌, ◌&&◌, ◌||◌, if◌then◌else◌, update, List, [],
  ◌∷◌, Run, ok, out_of_fuel, pure, ◌>>=◌, ◌>>◌, bit_and, bit_or,
}
use project_base_learning.Tptfs.{
  State, Store, Layer, Kernel, Vnode, TptMount, Mount, vput, vrele, vget, LkType, vop_unlock,
  malloc, free, vfs_getopt_from, vfs_flagopt_ro, namei, vn_isdisk_error, g_vfs_open, bread,
  g_topology_lock, g_topology_unlock, brelse, g_vfs_close, vfs_mountedfrom, bcopy, vflush,
  mnt_ilock, mnt_iunlock, msleep, tailq_remove, vfs_quotactl, vfs_statfs, vfs_vget, vfs_fhtovp,
  vfs_extattrctl, call, note, vnode, mount, tpt_mount, tpt_mount_at,
}
use project_base_learning.Tptfs.NodeCache.{tpt_nodeget}
use project_base_learning.Tptfs.Bypass.{einval}
use project_base_learning.Tptfs.Access.{eopnotsupp}

abbrev pub ebusy : ℕ
ebusy = 16

-- -1 as an int.
abbrev pub minus_one : ℕ
minus_one = 2 ^ 32 - 1

abbrev pub set_mount : ℕ → (Mount → Mount) → Layer (Unit {0})
set_mount mp f s = ok tt (record s {
  store = record (s.store) { mounts = update s.store.mounts mp (f (s.store.mounts mp)) };
})

abbrev pub set_tpt_mount : ℕ → TptMount → Layer (Unit {0})
set_tpt_mount p m s =
    ok tt (record s { store = record (s.store) { tpt_mounts = update s.store.tpt_mounts p m } })

-- `tpt_compute_sb_data`
pub tpt_compute_sb_data : (devvp fs : ℕ) → Layer ℕ
tpt_compute_sb_data devvp fs = pure 0

module _ (kernel : Kernel) where
  -- The label `out:`.
  pub mountfs_out : (bp cp : ℕ) → Layer ℕ
  mountfs_out bp cp = do
    if not (bp == 0) then (do _ ← call kernel (brelse bp); pure tt) else pure tt
    if not (cp == 0)
        then (do
          note g_topology_lock
          _ ← call kernel (g_vfs_close cp)
          note g_topology_unlock
          pure minus_one)
        else pure minus_one

  -- The super block is in `bp`: the structures of the mount.
  pub mountfs_fill : (devvp mp bp cp : ℕ) → Layer ℕ
  mountfs_fill devvp mp bp cp = do
    tptmp ← call kernel malloc
    fs ← call kernel malloc
    note (bcopy bp fs.out)
    error ← tpt_compute_sb_data devvp fs.out
    if not (error == 0) then mountfs_out bp cp else (do
      set_mount mp (λ m. record m { mnt_data = tptmp.out })
      set_tpt_mount tptmp.out
          (record { nullm_vfs = mp; nullm_lowerrootvp = devvp; nullm_cache = false; fs = fs.out })
      pure 0)

  pub tpt_mountfs : (devvp mp : ℕ) → Layer ℕ
  tpt_mountfs devvp mp = do
    _ ← call kernel vfs_flagopt_ro
    note g_topology_lock
    opened ← call kernel (g_vfs_open devvp)
    note g_topology_unlock
    _ ← call kernel (vop_unlock devvp)
    if not (opened.error == 0) then pure opened.error else (do
      read ← call kernel (bread devvp)
      if not (read.error == 0)
          then mountfs_out read.out opened.out
          else mountfs_fill devvp mp read.out opened.out)

  -- What follows when the vnode of the disk is found, locked and referenced.
  pub mount_disk : (mp fspec devvp : ℕ) → Layer ℕ
  mount_disk mp fspec devvp = do
    disk ← call kernel (vn_isdisk_error devvp)
    if disk.out == 0 then (do _ ← call kernel (vput devvp); pure disk.error) else (do
      error ← tpt_mountfs devvp mp
      if not (error == 0)
          then (do _ ← call kernel (vrele devvp); pure error)
          else (do note (vfs_mountedfrom mp); pure 0))

  -- `terminated` tells that the last character of the option is NUL.
  pub tptfs_mount : (mp : ℕ) (terminated : Bool) → Layer ℕ
  tptfs_mount mp terminated = do
    m ← mount mp
    if m.mnt_rootfs then pure eopnotsupp else (do
      fspec ← call kernel vfs_getopt_from
      if not (fspec.error == 0) || not terminated || (fspec.out == 0) then pure einval else (do
        found ← call kernel namei
        if not (found.error == 0) then pure found.error else mount_disk mp fspec.out found.out))

  -- The loop of `tptfs_unmount`: the error with which it returns, or 0 where it goes on.
  pub unmount_flush : (fuel mp : ℕ) (force : Bool) → Layer ℕ
  unmount_flush zero mp force = λ s. out_of_fuel
  unmount_flush (suc fuel) mp force = do
    r ← call kernel (vflush mp force)
    if not (r.error == 0) then pure r.error else (do
      note (mnt_ilock mp)
      m ← mount mp
      note (mnt_iunlock mp)
      if m.mnt_nvnodelistsize == 0
          then pure 0
          else (if not force then pure ebusy else unmount_flush fuel mp force))

  pub unmount_wait : (fuel ump : ℕ) → Layer (Unit {0})
  unmount_wait zero ump = λ s. out_of_fuel
  unmount_wait (suc fuel) ump = do
    m ← mount ump
    if m.mntk_vgone_upper
        then (do
          set_mount ump (λ m. record m { mntk_vgone_waiter = true })
          _ ← call kernel (msleep ump)
          unmount_wait fuel ump)
        else pure tt

  -- The flushed mount loses its data.
  pub unmount_finish : (fuel mp : ℕ) → Layer ℕ
  unmount_finish fuel mp = do
    m ← mount mp
    mntdata ← tpt_mount mp
    let ump = mntdata.nullm_vfs
    if mntdata.nullm_cache
        then (do
          note (mnt_ilock ump)
          unmount_wait fuel ump
          note (tailq_remove ump mp)
          note (mnt_iunlock ump))
        else pure tt
    _ ← call kernel (vrele mntdata.nullm_lowerrootvp)
    set_mount mp (λ m. record m { mnt_data = 0 })
    note (free m.mnt_data)
    pure 0

  pub tptfs_unmount : (fuel mp : ℕ) (force : Bool) → Layer ℕ
  tptfs_unmount fuel mp force = do
    error ← unmount_flush fuel mp force
    if not (error == 0) then pure error else unmount_finish fuel mp

module _ (hash : ℕ → ℕ) (kernel : Kernel) where
  -- The error and `*vpp`. The pointer to the mount's data is read once, and followed again after `vget`.
  pub tptfs_root : (mp : ℕ) (flags : LkType) (vpp : ℕ) → Layer (ℕ × ℕ)
  tptfs_root mp flags vpp = do
    m ← mount mp
    let mntdata = m.mnt_data
    before ← tpt_mount_at mntdata
    r ← call kernel (vget before.nullm_lowerrootvp flags)
    if r.error == 0
        then (do
          after ← tpt_mount_at mntdata
          made ← tpt_nodeget hash kernel mp after.nullm_lowerrootvp
          pure (made.0, if made.0 == 0 then made.1 else vpp))
        else pure (r.error, vpp)
