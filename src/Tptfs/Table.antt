-- ===== src/Tptfs/Table.antt =====
-- The tables tpt_vnodeops of tptfs/tpt_vnops.c and tpt_vfsops of tptfs/tpt_vfsops.c, through which the
-- FreeBSD kernel calls the layer: an operation with its arguments, and the function that runs for it.
pub mod Kept
use project_base_learning.Base.{
  ℕ, Bool, true, false, if◌then◌else◌, List, Run, ok, pure, ◌>>=◌, ◌>>◌,
}
use project_base_learning.Tptfs.{
  Store, Layer, Kernel, Reply, LkType, vop_stdislocked, vop_stdadvlockpurge, call,
}
use project_base_learning.Tptfs.NodeCache.{tptfs_init, tptfs_uninit}
use project_base_learning.Tptfs.Bypass.{Args, tpt_add_writecount, tpt_open, tpt_stat, tpt_getattr}
use project_base_learning.Tptfs.Access.{
  ComponentName, Vattr, eopnotsupp, bypass_error, tpt_lookup, tpt_setattr, tpt_access, tpt_accessx,
}
use project_base_learning.Tptfs.Names.{
  tpt_remove, tpt_rename, tpt_rmdir, tpt_vptocnp, tpt_getwritemount, tpt_print, tpt_vptofh,
  tpt_read_pgcache, tpt_vput_pair,
}
use project_base_learning.Tptfs.Lock.{tpt_lock, tpt_unlock}
use project_base_learning.Tptfs.Reclaim.{
  tpt_inactive, tpt_need_inactive, tpt_reclaim, tptfs_reclaim_lowervp, tptfs_unlink_lowervp,
}
use project_base_learning.Tptfs.Vfsops.{tptfs_mount, tptfs_unmount, tptfs_root}
use project_base_learning.Tptfs.Vfsops.Passed.{
  Statfs, tptfs_sync, vfs_quotactl_of, vfs_extattrctl_of, vfs_statfs_of, vfs_vget_of, vfs_fhtovp_of,
}

-- An operation on a vnode of the layer. Every operation without an entry of its own has the one of
-- `vop_bypass`.
pub data VnodeOp : Type 0 where
  bypass : (a_gen : Args) → VnodeOp
  access accessx : (a_vp a_accmode : ℕ) (ap : Args) → VnodeOp
  advlockpurge bmap islocked strategy : (a_vp : ℕ) → VnodeOp
  stat getattr : (a_vp : ℕ) (a_gen : Args) (device : ℕ) → VnodeOp
  getwritemount inactive need_inactive print read_pgcache reclaim : (a_vp : ℕ) → VnodeOp
  unlock vptofh : (a_vp : ℕ) → VnodeOp
  lock1 : (a_vp : ℕ) (flags : LkType) (interlock : Bool) → VnodeOp
  lookup : (a_dvp : ℕ) (a_cnp : ComponentName) (a_vpp : ℕ) → VnodeOp
  open_vnode rmdir : (a_vp : ℕ) (a_gen : Args) → VnodeOp
  remove : (a_vp refcount : ℕ) (a_gen : Args) → VnodeOp
  rename : (a_fdvp a_fvp a_tdvp a_tvp : ℕ) (ap : Args) → VnodeOp
  setattr : (a_vp : ℕ) (a_vap : Vattr) (ap : Args) → VnodeOp
  vptocnp : (a_vp a_vpp : ℕ) → VnodeOp
  add_writecount : (a_vp a_inc : ℕ) → VnodeOp
  vput_pair : (a_dvp vp : ℕ) (a_unlock_vp : Bool) → VnodeOp

-- Of a pair, the int that the function returns.
abbrev pub returned : Layer (ℕ × ℕ) → Layer ℕ
returned m = do r ← m; pure r.0

module _ (hash : ℕ → ℕ) (kernel : Kernel) where
  unfoldable pub vnode_op : VnodeOp → Layer ℕ
  vnode_op (bypass a_gen) = bypass_error hash kernel a_gen
  vnode_op (access a_vp a_accmode ap) = tpt_access hash kernel a_vp a_accmode ap
  vnode_op (accessx a_vp a_accmode ap) = tpt_accessx hash kernel a_vp a_accmode ap
  vnode_op (advlockpurge a_vp) = do r ← call kernel (vop_stdadvlockpurge a_vp); pure r.error
  vnode_op (bmap a_vp) = pure eopnotsupp
  vnode_op (islocked a_vp) = do r ← call kernel (vop_stdislocked a_vp); pure r.error
  vnode_op (strategy a_vp) = pure eopnotsupp
  vnode_op (stat a_vp a_gen device) = returned (tpt_stat hash kernel a_vp a_gen device)
  vnode_op (getattr a_vp a_gen device) = returned (tpt_getattr hash kernel a_vp a_gen device)
  vnode_op (getwritemount a_vp) = do _ ← tpt_getwritemount kernel a_vp; pure 0
  vnode_op (inactive a_vp) = tpt_inactive hash kernel a_vp
  vnode_op (need_inactive a_vp) = do want ← tpt_need_inactive a_vp; pure (if want then 1 else 0)
  vnode_op (print a_vp) = tpt_print kernel a_vp
  vnode_op (read_pgcache a_vp) = tpt_read_pgcache kernel a_vp
  vnode_op (reclaim a_vp) = tpt_reclaim hash kernel a_vp
  vnode_op (unlock a_vp) = tpt_unlock kernel a_vp
  vnode_op (vptofh a_vp) = tpt_vptofh kernel a_vp
  vnode_op (lock1 a_vp flags interlock) = tpt_lock kernel a_vp flags interlock
  vnode_op (lookup a_dvp a_cnp a_vpp) = returned (tpt_lookup hash kernel a_dvp a_cnp a_vpp)
  vnode_op (open_vnode a_vp a_gen) = tpt_open hash kernel a_vp a_gen
  vnode_op (rmdir a_vp a_gen) = tpt_rmdir hash kernel a_vp a_gen
  vnode_op (remove a_vp refcount a_gen) = tpt_remove hash kernel a_vp refcount a_gen
  vnode_op (rename a_fdvp a_fvp a_tdvp a_tvp ap) =
      tpt_rename hash kernel a_fdvp a_fvp a_tdvp a_tvp ap
  vnode_op (setattr a_vp a_vap ap) = tpt_setattr hash kernel a_vp a_vap ap
  vnode_op (vptocnp a_vp a_vpp) = returned (tpt_vptocnp hash kernel a_vp a_vpp)
  vnode_op (add_writecount a_vp a_inc) = tpt_add_writecount hash kernel a_vp a_inc
  vnode_op (vput_pair a_dvp vp a_unlock_vp) =
      returned (tpt_vput_pair hash kernel a_dvp vp a_unlock_vp)

-- An operation on a mount of the layer. The depth of the calls inside one another is bounded by
-- `fuel`, and so are the rounds of `tptfs_unmount`.
pub data VfsOp : Type 0 where
  extattrctl fhtovp quotactl : (fuel mp : ℕ) → VfsOp
  init uninit : VfsOp
  mount : (mp : ℕ) (terminated : Bool) → VfsOp
  root : (mp : ℕ) (flags : LkType) (vpp : ℕ) → VfsOp
  statfs :
      (kept faked : ℕ) (prepare : ℕ → Store → Statfs → Statfs) (read_statfs : ℕ → Statfs)
      (fuel mp : ℕ) (sbp : Statfs)
      → VfsOp
  sync : (mp : ℕ) → VfsOp
  unmount : (fuel mp : ℕ) (force : Bool) → VfsOp
  vget : (fuel ino mp : ℕ) → VfsOp
  reclaim_lowervp unlink_lowervp : (mp lowervp : ℕ) → VfsOp

module _ (hash : ℕ → ℕ) (kernel : Kernel) (is_tptfs : ℕ → Bool) where
  unfoldable pub vfs_op : VfsOp → Layer ℕ
  vfs_op (extattrctl fuel mp) = vfs_extattrctl_of kernel is_tptfs fuel mp
  vfs_op (fhtovp fuel mp) = returned (vfs_fhtovp_of hash kernel is_tptfs fuel mp)
  vfs_op (quotactl fuel mp) = vfs_quotactl_of kernel is_tptfs fuel mp
  vfs_op init = λ s. ok 0 (tptfs_init hash s)
  vfs_op uninit = tptfs_uninit hash
  vfs_op (mount mp terminated) = tptfs_mount kernel mp terminated
  vfs_op (root mp flags vpp) = returned (tptfs_root hash kernel mp flags vpp)
  vfs_op (statfs kept faked prepare read_statfs fuel mp sbp) = do
    r ← vfs_statfs_of kernel is_tptfs kept faked prepare read_statfs fuel mp sbp
    pure r.0
  vfs_op (sync mp) = tptfs_sync mp
  vfs_op (unmount fuel mp force) = tptfs_unmount kernel fuel mp force
  vfs_op (vget fuel ino mp) = returned (vfs_vget_of hash kernel is_tptfs fuel ino mp)
  vfs_op (reclaim_lowervp mp lowervp) = do tptfs_reclaim_lowervp hash kernel mp lowervp; pure 0
  vfs_op (unlink_lowervp mp lowervp) = do tptfs_unlink_lowervp hash kernel mp lowervp; pure 0
