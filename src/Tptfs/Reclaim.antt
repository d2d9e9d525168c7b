-- ===== src/Tptfs/Reclaim.antt =====
-- tptfs/tpt_vnops.c, tpt_want_recycle, tpt_inactive, tpt_need_inactive and tpt_reclaim, and the two
-- functions of tptfs/tpt_vfsops.c that the lower layer calls on a vnode that goes away.
pub mod Release
pub mod Kept
pub mod Recycle
pub mod Leases
use project_base_learning.Base.{
  ℕ, zero, ◌-◌, ◌^◌, Bool, true, false, not, ◌==◌, ◌&&◌, ◌||◌, if◌then◌else◌, Run, ok, pure, ◌>>=◌,
  ◌>>◌, ltb, u32,
}
use project_base_learning.Tptfs.{
  Layer, Kernel, vref, vrele, vput, vunref, vgone, vrecycle, vhold, vdrop, vi_lock, vi_unlock,
  lock_own, vop_unlock, vop_add_writecount, free, call, note, vnode, set_vnode, tpt_node,
  set_tpt_node, tpt_mount, null_vp_to_lower_vp,
}
use project_base_learning.Tptfs.NodeCache.{tpt_hashget, tpt_hashrem}

pub tpt_want_recycle : (vp : ℕ) → Layer Bool
tpt_want_recycle vp = do
  v ← vnode vp
  xp ← tpt_node v.v_data
  lower ← vnode xp.tpt_lowervp
  xmp ← tpt_mount v.v_mount
  pure (not xmp.nullm_cache || xp.nullv_drop || lower.vv_nosync)

pub tpt_need_inactive : (a_vp : ℕ) → Layer Bool
tpt_need_inactive a_vp = tpt_want_recycle a_vp

-- The sign of an int in two's complement.
abbrev pub is_negative : ℕ → Bool
is_negative n = not (ltb n (2 ^ 31))

module _ (hash : ℕ → ℕ) (kernel : Kernel) where
  pub tpt_inactive : (a_vp : ℕ) → Layer ℕ
  tpt_inactive a_vp = do
    want ← tpt_want_recycle a_vp
    if want
        then (do
          set_vnode a_vp (λ v. record v { v_object = 0 })
          _ ← call kernel (vrecycle a_vp)
          pure 0)
        else pure 0

  -- A lease of write references to the lower vnode is undone.
  pub reclaim_writecount : (vp lowervp : ℕ) → Layer (Unit {0})
  reclaim_writecount vp lowervp = do
    v ← vnode vp
    if not (v.v_writecount == 0) && not (is_negative v.v_writecount)
        then (do
          _ ← call kernel (vop_add_writecount lowervp (u32 (2 ^ 32 - v.v_writecount)))
          pure tt)
        else (if is_negative v.v_writecount
            then set_vnode vp (λ v. record v { v_writecount = 0 })
            else pure tt)

  pub tpt_reclaim : (a_vp : ℕ) → Layer ℕ
  tpt_reclaim a_vp = do
    v ← vnode a_vp
    let xp = v.v_data
    node ← tpt_node xp
    let lowervp = node.tpt_lowervp
    tpt_hashrem hash xp
    _ ← call kernel (lock_own a_vp)
    note (vi_lock a_vp)
    set_vnode a_vp (λ v. record v { v_data = 0; v_object = 0; v_vnlock = a_vp })
    reclaim_writecount a_vp lowervp
    note (vi_unlock a_vp)
    node ← tpt_node xp
    _ ← if node.nullv_nounlock then call kernel (vunref lowervp) else call kernel (vput lowervp)
    note (free xp)
    pure 0

  pub tptfs_reclaim_lowervp : (mp lowervp : ℕ) → Layer (Unit {0})
  tptfs_reclaim_lowervp mp lowervp = do
    vp ← tpt_hashget hash mp lowervp
    if vp == 0 then pure tt else (do
      v ← vnode vp
      set_tpt_node v.v_data (λ x. record x { nullv_nounlock = true })
      _ ← call kernel (vgone vp)
      _ ← call kernel (vput vp)
      pure tt)

  -- The end of `tptfs_unlink_lowervp`: the reference on the vnode goes, and where it was the last one
  -- the lock too.
  pub unlink_rest : (vp xp : ℕ) → Layer (Unit {0})
  unlink_rest vp xp = do
    note (vhold vp)
    _ ← call kernel (vunref vp)
    v ← vnode vp
    if v.v_usecount == 0
        then (do _ ← call kernel (vop_unlock vp); pure tt)
        else set_tpt_node xp (λ x. record x { nullv_nounlock = false })
    note (vdrop vp)

  pub tptfs_unlink_lowervp : (mp lowervp : ℕ) → Layer (Unit {0})
  tptfs_unlink_lowervp mp lowervp = do
    vp ← tpt_hashget hash mp lowervp
    if vp == 0 then pure tt else (do
      v ← vnode vp
      let xp = v.v_data
      set_tpt_node xp (λ x. record x { nullv_drop = true; nullv_nounlock = true })
      unlink_rest vp xp)
