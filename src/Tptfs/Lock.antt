-- ===== src/Tptfs/Lock.antt =====
-- tptfs/tpt_vnops.c, tpt_lock and tpt_unlock: the layer's vnodes share the lock of the lower ones.
pub mod Interlock
pub mod Kept
use project_base_learning.Base.{
  ℕ, Bool, true, false, not, ◌==◌, ◌&&◌, if◌then◌else◌, Run, ok, panic, pure, ◌>>=◌, ◌>>◌,
}
use project_base_learning.Tptfs.{
  LkType, lk_shared, lk_exclusive, lk_upgrade, lk_other, Layer, Kernel, vholdnz, vdrop, vi_lock,
  vi_unlock, vop_lock, vop_stdlock, vop_stdunlock, vop_unlock, call, note, vnode, tpt_node,
}

-- The mode in which a vnode that was reclaimed meanwhile is locked again; other requests panic.
pub relock_mode : LkType → Layer LkType
relock_mode lk_shared = pure lk_shared
relock_mode lk_upgrade = pure lk_exclusive
relock_mode lk_exclusive = pure lk_exclusive
relock_mode lk_other = λ s. panic

-- The lower vnode, 0 where there is no node.
pub lower_or_null : (vp : ℕ) → Layer ℕ
lower_or_null vp = do
  v ← vnode vp
  if v.v_data == 0 then pure 0 else (do xp ← tpt_node v.v_data; pure xp.tpt_lowervp)

module _ (kernel : Kernel) where
  -- The lock was switched from the lower vnode's to the vnode's own while the thread slept.
  pub relock : (vp lvp : ℕ) (flags : LkType) (error : ℕ) → Layer ℕ
  relock vp lvp flags error = do
    v ← vnode vp
    if (v.v_data == 0) && (error == 0)
        then (do
          mode ← relock_mode flags
          _ ← call kernel (vop_unlock lvp)
          r ← call kernel (vop_stdlock vp mode)
          pure r.error)
        else pure error

  -- `flags` are the type bits; `interlock` is LK_INTERLOCK: the caller has the interlock already.
  pub tpt_lock : (vp : ℕ) (flags : LkType) (interlock : Bool) → Layer ℕ
  tpt_lock vp flags interlock = do
    if interlock then pure tt else note (vi_lock vp)
    lvp ← lower_or_null vp
    if lvp == 0
        then (do note (vi_unlock vp); r ← call kernel (vop_stdlock vp flags); pure r.error)
        else (do
          note (vholdnz lvp)
          note (vi_unlock vp)
          r ← call kernel (vop_lock lvp flags)
          error ← relock vp lvp flags r.error
          note (vdrop lvp)
          pure error)

  pub tpt_unlock : (vp : ℕ) → Layer ℕ
  tpt_unlock vp = do
    lvp ← lower_or_null vp
    if lvp == 0 then (do r ← call kernel (vop_stdunlock vp); pure r.error) else (do
      note (vholdnz lvp)
      r ← call kernel (vop_unlock lvp)
      note (vdrop lvp)
      pure r.error)
