-- ===== src/Tptfs/Names.antt =====
-- tptfs/tpt_vnops.c, the operations that remove and rename, and those that ask the lower layer for
-- names, pages and mounts, and tpt_print.
pub mod Rename
pub mod Parent
pub mod Pair
pub mod Removed
pub mod Kept
mod Tests
use project_base_learning.Base.{
  ℕ, ◌-◌, ◌^◌, Bool, true, false, not, ◌==◌, ◌&&◌, ◌||◌, if◌then◌else◌, Run, ok, pure, ◌>>=◌, ◌>>◌,
  ltb,
}
use project_base_learning.Tptfs.{
  Layer, Kernel, Vnode, TptNode, vref, vrele, vput, vhold, vholdnz, vdrop, vi_lock, vi_unlock,
  vop_islocked, vop_unlock, vn_lock, LkType, lk_shared, lk_exclusive, lk_other, vfs_ref, vfs_rel,
  vn_vptocnp, printf, vop_vptofh, vop_read_pgcache, vop_getwritemount, vop_vput_pair, call, note,
  vnode, tpt_node, set_tpt_node, null_vp_to_lower_vp,
}
use project_base_learning.Tptfs.NodeCache.{tpt_nodeget, enoent, islocked_exclusive, islocked_shared}
use project_base_learning.Tptfs.Bypass.{Args, tpt_bypass}
use project_base_learning.Tptfs.Access.{bypass_error, ejustreturn}

abbrev pub exdev : ℕ
exdev = 18

-- What `VOP_ISLOCKED` returned, as a request.
abbrev pub mode_of : ℕ → LkType
mode_of locked =
    if locked == islocked_exclusive
    then lk_exclusive
    else (if locked == islocked_shared then lk_shared else lk_other)

-- `VTONULL (vp)->tpt_flags |= NULLV_DROP`
abbrev pub set_drop : ℕ → Layer (Unit {0})
set_drop vp = do v ← vnode vp; set_tpt_node v.v_data (λ x. record x { nullv_drop = true })

module _ (hash : ℕ → ℕ) (kernel : Kernel) where
  -- `refcount` is what `vrefcnt (vp)` returns.
  pub tpt_remove : (a_vp refcount : ℕ) (a_gen : Args) → Layer ℕ
  tpt_remove a_vp refcount a_gen =
      if ltb 1 refcount
      then (do
        lvp ← null_vp_to_lower_vp a_vp
        note (vref lvp)
        set_drop a_vp
        retval ← bypass_error hash kernel a_gen
        _ ← call kernel (vrele lvp)
        pure retval)
      else (do set_drop a_vp; bypass_error hash kernel a_gen)

  -- `rename` across mounts: every argument is let go.
  pub rename_refuse : (fdvp fvp tdvp tvp : ℕ) → Layer ℕ
  rename_refuse fdvp fvp tdvp tvp = do
    _ ← if tdvp == tvp then call kernel (vrele tdvp) else call kernel (vput tdvp)
    if not (tvp == 0) then (do _ ← call kernel (vput tvp); pure tt) else pure tt
    _ ← call kernel (vrele fdvp)
    _ ← call kernel (vrele fvp)
    pure exdev

  pub tpt_rename : (a_fdvp a_fvp a_tdvp a_tvp : ℕ) (ap : Args) → Layer ℕ
  tpt_rename a_fdvp a_fvp a_tdvp a_tvp ap = do
    fvp ← vnode a_fvp
    tdvp ← vnode a_tdvp
    tvp ← vnode a_tvp
    if not (fvp.v_mount == tdvp.v_mount) || (not (a_tvp == 0) && not (fvp.v_mount == tvp.v_mount))
        then rename_refuse a_fdvp a_fvp a_tdvp a_tvp
        else (do if not (a_tvp == 0) then set_drop a_tvp else pure tt; bypass_error hash kernel ap)

  pub tpt_rmdir : (a_vp : ℕ) (a_gen : Args) → Layer ℕ
  tpt_rmdir a_vp a_gen = do set_drop a_vp; bypass_error hash kernel a_gen

  -- The error and `*a_vpp`; `mode` is that in which `vp` is locked again.
  pub vptocnp_alias : (mp vp : ℕ) (mode : LkType) (ldvp vpp : ℕ) → Layer (ℕ × ℕ)
  vptocnp_alias mp vp mode ldvp vpp = do
    locked ← call kernel (vn_lock ldvp lk_shared)
    if not (locked.error == 0)
        then (do
          _ ← call kernel (vrele ldvp)
          _ ← call kernel (vn_lock vp mode)
          note (vfs_rel mp)
          pure (enoent, vpp))
        else (do
          made ← tpt_nodeget hash kernel mp ldvp
          if made.0 == 0 then (do _ ← call kernel (vop_unlock made.1); pure tt) else pure tt
          _ ← call kernel (vn_lock vp mode)
          note (vfs_rel mp)
          pure made)

  pub tpt_vptocnp : (a_vp a_vpp : ℕ) → Layer (ℕ × ℕ)
  tpt_vptocnp a_vp a_vpp = do
    locked ← call kernel (vop_islocked a_vp)
    lvp ← null_vp_to_lower_vp a_vp
    note (vhold lvp)
    v ← vnode a_vp
    let mp = v.v_mount
    note (vfs_ref mp)
    _ ← call kernel (vop_unlock a_vp)
    note (vref lvp)
    r ← call kernel (vn_vptocnp lvp)
    note (vdrop lvp)
    if not (r.error == 0)
        then (do
          _ ← call kernel (vn_lock a_vp (mode_of locked.error))
          note (vfs_rel mp)
          pure (enoent, a_vpp))
        else vptocnp_alias mp a_vp (mode_of locked.error) r.out a_vpp

module _ (kernel : Kernel) where
  -- `*a_mpp`
  pub tpt_getwritemount : (a_vp : ℕ) → Layer ℕ
  tpt_getwritemount a_vp = do
    note (vi_lock a_vp)
    v ← vnode a_vp
    if v.v_data == 0 then (do note (vi_unlock a_vp); pure 0) else (do
      xp ← tpt_node v.v_data
      if xp.tpt_lowervp == 0 then (do note (vi_unlock a_vp); pure 0) else (do
        note (vholdnz xp.tpt_lowervp)
        note (vi_unlock a_vp)
        r ← call kernel (vop_getwritemount xp.tpt_lowervp)
        note (vdrop xp.tpt_lowervp)
        pure r.out))

  pub tpt_print : (a_vp : ℕ) → Layer ℕ
  tpt_print a_vp = do
    v ← vnode a_vp
    xp ← tpt_node v.v_data
    note (printf a_vp xp.tpt_lowervp)
    pure 0

  pub tpt_vptofh : (a_vp : ℕ) → Layer ℕ
  tpt_vptofh a_vp = do
    lvp ← null_vp_to_lower_vp a_vp
    r ← call kernel (vop_vptofh lvp)
    pure r.error

  pub tpt_read_pgcache : (a_vp : ℕ) → Layer ℕ
  tpt_read_pgcache a_vp = do
    note (vi_lock a_vp)
    v ← vnode a_vp
    if v.v_data == 0 then (do note (vi_unlock a_vp); pure ejustreturn) else (do
      xp ← tpt_node v.v_data
      note (vref xp.tpt_lowervp)
      note (vi_unlock a_vp)
      r ← call kernel (vop_read_pgcache xp.tpt_lowervp)
      _ ← call kernel (vrele xp.tpt_lowervp)
      pure r.error)

module _ (hash : ℕ → ℕ) (kernel : Kernel) where
  -- What follows `VOP_VPUT_PAIR` for the vnode `vp`: the new `*vpp`.
  pub vput_pair_after : (mp vp lvp : ℕ) (a_unlock_vp : Bool) → Layer ℕ
  vput_pair_after mp vp lvp a_unlock_vp = do
    v ← vnode vp
    lower ← vnode lvp
    vpp ←
        if not a_unlock_vp && not (v.v_vnlock == lower.v_vnlock)
        then (do
          made ← tpt_nodeget hash kernel mp lvp
          if made.0 == 0 then (do _ ← call kernel (vput vp); pure made.1) else pure vp)
        else pure vp
    if a_unlock_vp then (do _ ← call kernel (vrele vp); pure tt) else pure tt
    note (vdrop vp)
    pure vpp

  -- `vp` is `*a_vpp`, and 0 where `a_vpp` is NULL; the result has the error and the new `*a_vpp`.
  pub tpt_vput_pair : (a_dvp vp : ℕ) (a_unlock_vp : Bool) → Layer (ℕ × ℕ)
  tpt_vput_pair a_dvp vp a_unlock_vp = do
    ldvp ← null_vp_to_lower_vp a_dvp
    note (vref ldvp)
    if vp == 0
        then (do
          r ← call kernel (vop_vput_pair ldvp 0 a_unlock_vp)
          _ ← call kernel (vrele a_dvp)
          pure (r.error, 0))
        else (do
          note (vhold vp)
          v ← vnode vp
          lvp ← null_vp_to_lower_vp vp
          if a_unlock_vp then note (vref lvp) else pure tt
          r ← call kernel (vop_vput_pair ldvp lvp a_unlock_vp)
          vpp ← vput_pair_after v.v_mount vp r.out a_unlock_vp
          _ ← call kernel (vrele a_dvp)
          pure (r.error, vpp))
