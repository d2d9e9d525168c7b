-- ===== src/Tptfs/Table/Kept.antt =====
-- The hash across the operations of the two tables.
use project_base_learning.Base.{ℕ, arith, Bool, Run, ok, and_then}
use project_base_learning.Tptfs.{Store, State, Kernel}
use project_base_learning.Tptfs.NodeCache.{tptfs_init, tptfs_uninit}
use project_base_learning.Tptfs.NodeCache.Hash.{IsCache, IsPlaced, count}
use project_base_learning.Tptfs.NodeCache.Kept.{Leaves, Leaves-and_then, Leaves-ok}
use project_base_learning.Tptfs.NodeCache.Kept.Nodeget.{IsSharing}
use project_base_learning.Tptfs.Bypass.Wrapped.{
  writecount-keeps, open-keeps, stat-keeps, getattr-keeps,
}
use project_base_learning.Tptfs.Access.Kept.{
  bypass_error-keeps, lookup-keeps, setattr-keeps, access-keeps, accessx-keeps,
}
use project_base_learning.Tptfs.Names.{tpt_getwritemount}
use project_base_learning.Tptfs.Names.Kept.{
  rmdir-keeps, remove-keeps, rename-keeps, vptocnp-keeps, getwritemount-keeps, print-keeps,
  vptofh-keeps, read_pgcache-keeps, vput_pair-keeps,
}
use project_base_learning.Tptfs.Lock.Kept.{lock-keeps, unlock-keeps}
use project_base_learning.Tptfs.Reclaim.{
  tpt_need_inactive, tptfs_reclaim_lowervp, tptfs_unlink_lowervp,
}
use project_base_learning.Tptfs.Reclaim.Kept.{
  reclaim-keeps, inactive-keeps, need_inactive-keeps, reclaim_lowervp-keeps, unlink_lowervp-keeps,
}
use project_base_learning.Tptfs.Vfsops.Kept.{mount-keeps, unmount-keeps, root-keeps}
use project_base_learning.Tptfs.Vfsops.Passed.{vfs_statfs_of, tptfs_sync}
use project_base_learning.Tptfs.Vfsops.Passed.Kept.{
  quotactl-keeps, extattrctl-keeps, statfs-keeps, vget-keeps, fhtovp-keeps,
}
use project_base_learning.Tptfs.Table.{
  VnodeOp, bypass, access, accessx, advlockpurge, bmap, islocked, strategy, stat, getattr,
  getwritemount, inactive, need_inactive, print, read_pgcache, reclaim, unlock, vptofh, lock1,
  lookup, open_vnode, rmdir, remove, rename, setattr, vptocnp, add_writecount, vput_pair, vnode_op,
  VfsOp, extattrctl, fhtovp, quotactl, init, uninit, mount, root, statfs, sync, unmount, vget,
  reclaim_lowervp, unlink_lowervp, vfs_op,
}

-- A command whose result is not used.
ignored-keeps :
    (P : Store → Type 0) {A : Type 0} (r : Run State A) (k : A → ℕ)
    → Leaves P r
    → Leaves P (and_then r (λ a. ok (k a)))
ignored-keeps P r k p = Leaves-and_then P P r _ p (λ a t q. Leaves-ok P (k a) t q)

-- Of a pair, the int that is returned.
returned-keeps :
    (P : Store → Type 0) (r : Run State (ℕ × ℕ)) → Leaves P r → Leaves P (and_then r (λ a. ok a.0))
returned-keeps P r p = ignored-keeps P r (λ a. a.0) p

pub init-IsCache : (hash : ℕ → ℕ) (s : State) → IsCache hash (tptfs_init hash s).store
unfolding tptfs_init IsPlaced count
init-IsCache hash s = record { placed = λ i. tt; unique = λ i mp l. omega arith }

module _ (hash : ℕ → ℕ) (kernel : Kernel) (is_owned : ℕ → Store → Type 0)
    (sharing : IsSharing hash kernel is_owned) where
  abbrev P : Store → Type 0
  P = IsCache hash

  pub vnode_op-keeps :
      (op : VnodeOp) (s : State)
      → IsCache hash s.store
      → Leaves (IsCache hash) (vnode_op hash kernel op s)
  unfolding vnode_op
  vnode_op-keeps (bypass a_gen) s c = bypass_error-keeps hash kernel is_owned sharing a_gen s c
  vnode_op-keeps (access a_vp a_accmode ap) s c =
      access-keeps hash kernel is_owned sharing a_vp a_accmode ap s c
  vnode_op-keeps (accessx a_vp a_accmode ap) s c =
      accessx-keeps hash kernel is_owned sharing a_vp a_accmode ap s c
  vnode_op-keeps (advlockpurge a_vp) s c = Leaves-ok P _ _ (sharing.cache _ _ c)
  vnode_op-keeps (bmap a_vp) s c = Leaves-ok P _ s c
  vnode_op-keeps (islocked a_vp) s c = Leaves-ok P _ _ (sharing.cache _ _ c)
  vnode_op-keeps (strategy a_vp) s c = Leaves-ok P _ s c
  vnode_op-keeps (stat a_vp a_gen device) s c =
      returned-keeps P _ (stat-keeps hash kernel is_owned sharing a_vp a_gen device s c)
  vnode_op-keeps (getattr a_vp a_gen device) s c =
      returned-keeps P _ (getattr-keeps hash kernel is_owned sharing a_vp a_gen device s c)
  vnode_op-keeps (getwritemount a_vp) s c =
      ignored-keeps P (tpt_getwritemount kernel a_vp s) (λ mpp. 0)
        (getwritemount-keeps hash kernel is_owned sharing a_vp s c)
  vnode_op-keeps (inactive a_vp) s c = inactive-keeps hash kernel is_owned sharing a_vp s c
  vnode_op-keeps (need_inactive a_vp) s c =
      ignored-keeps P (tpt_need_inactive a_vp s) _
        (need_inactive-keeps hash kernel is_owned sharing a_vp s c)
  vnode_op-keeps (print a_vp) s c = print-keeps hash kernel is_owned sharing a_vp s c
  vnode_op-keeps (read_pgcache a_vp) s c = read_pgcache-keeps hash kernel is_owned sharing a_vp s c
  vnode_op-keeps (reclaim a_vp) s c = reclaim-keeps hash kernel is_owned sharing a_vp s c
  vnode_op-keeps (unlock a_vp) s c = unlock-keeps P kernel sharing.cache a_vp s c
  vnode_op-keeps (vptofh a_vp) s c = vptofh-keeps hash kernel is_owned sharing a_vp s c
  vnode_op-keeps (lock1 a_vp flags interlock) s c =
      lock-keeps P kernel sharing.cache a_vp flags interlock s c
  vnode_op-keeps (lookup a_dvp a_cnp a_vpp) s c =
      returned-keeps P _ (lookup-keeps hash kernel is_owned sharing a_dvp a_cnp a_vpp s c)
  vnode_op-keeps (open_vnode a_vp a_gen) s c =
      open-keeps hash kernel is_owned sharing a_vp a_gen s c
  vnode_op-keeps (rmdir a_vp a_gen) s c = rmdir-keeps hash kernel is_owned sharing a_vp a_gen s c
  vnode_op-keeps (remove a_vp refcount a_gen) s c =
      remove-keeps hash kernel is_owned sharing a_vp refcount a_gen s c
  vnode_op-keeps (rename a_fdvp a_fvp a_tdvp a_tvp ap) s c =
      rename-keeps hash kernel is_owned sharing a_fdvp a_fvp a_tdvp a_tvp ap s c
  vnode_op-keeps (setattr a_vp a_vap ap) s c =
      setattr-keeps hash kernel is_owned sharing a_vp a_vap ap s c
  vnode_op-keeps (vptocnp a_vp a_vpp) s c =
      returned-keeps P _ (vptocnp-keeps hash kernel is_owned sharing a_vp a_vpp s c)
  vnode_op-keeps (add_writecount a_vp a_inc) s c =
      writecount-keeps hash kernel is_owned sharing a_vp a_inc s c
  vnode_op-keeps (vput_pair a_dvp vp a_unlock_vp) s c =
      returned-keeps P _ (vput_pair-keeps hash kernel is_owned sharing a_dvp vp a_unlock_vp s c)

  pub vfs_op-keeps :
      (is_tptfs : ℕ → Bool) (op : VfsOp) (s : State)
      → IsCache hash s.store
      → Leaves (IsCache hash) (vfs_op hash kernel is_tptfs op s)
  unfolding vfs_op
  vfs_op-keeps is_tptfs (extattrctl fuel mp) s c =
      extattrctl-keeps hash kernel is_owned sharing is_tptfs fuel mp s c
  vfs_op-keeps is_tptfs (fhtovp fuel mp) s c =
      returned-keeps P _ (fhtovp-keeps hash kernel is_owned sharing is_tptfs fuel mp s c)
  vfs_op-keeps is_tptfs (quotactl fuel mp) s c =
      quotactl-keeps hash kernel is_owned sharing is_tptfs fuel mp s c
  vfs_op-keeps is_tptfs init s c = Leaves-ok P 0 (tptfs_init hash s) (init-IsCache hash s)
  vfs_op-keeps is_tptfs uninit s c = unfold tptfs_uninit in Leaves-ok P 0 _ c
  vfs_op-keeps is_tptfs (mount mp terminated) s c =
      mount-keeps hash kernel is_owned sharing mp terminated s c
  vfs_op-keeps is_tptfs (root mp flags vpp) s c =
      returned-keeps P _ (root-keeps hash kernel is_owned sharing mp flags vpp s c)
  vfs_op-keeps is_tptfs (statfs kept faked prepare read_statfs fuel mp sbp) s c =
      ignored-keeps P (vfs_statfs_of kernel is_tptfs kept faked prepare read_statfs fuel mp sbp s) _
        (statfs-keeps hash kernel is_owned sharing is_tptfs kept faked prepare read_statfs fuel mp
          sbp s c)
  vfs_op-keeps is_tptfs (sync mp) s c = unfold tptfs_sync in Leaves-ok P 0 s c
  vfs_op-keeps is_tptfs (unmount fuel mp force) s c =
      unmount-keeps hash kernel is_owned sharing fuel mp force s c
  vfs_op-keeps is_tptfs (vget fuel ino mp) s c =
      returned-keeps P _ (vget-keeps hash kernel is_owned sharing is_tptfs fuel ino mp s c)
  vfs_op-keeps is_tptfs (reclaim_lowervp mp lowervp) s c =
      ignored-keeps P (tptfs_reclaim_lowervp hash kernel mp lowervp s) _
        (reclaim_lowervp-keeps hash kernel is_owned sharing mp lowervp s c)
  vfs_op-keeps is_tptfs (unlink_lowervp mp lowervp) s c =
      ignored-keeps P (tptfs_unlink_lowervp hash kernel mp lowervp s) _
        (unlink_lowervp-keeps hash kernel is_owned sharing mp lowervp s c)
