-- ===== src/Tptfs/Access.antt =====
-- tptfs/tpt_vnops.c, the operations that a read-only mount refuses: tpt_lookup, tpt_setattr,
-- tpt_access and tpt_accessx.
pub mod ReadOnly
pub mod Holds
pub mod Kept
use project_base_learning.Base.{
  ℕ, ◌-◌, ◌^◌, Bool, true, false, not, ◌==◌, ◌&&◌, ◌||◌, if◌then◌else◌, Run, ok, pure, ◌>>=◌, ◌>>◌,
  bit_and,
}
use project_base_learning.Tptfs.{
  VType, vnon, vreg, vdir, vblk, vchr, vlnk, vsock, vfifo, vbad, Layer, Kernel, Vnode, Mount, vref,
  vrele, vput, vhold, vdrop, vop_lookup, vop_unlock, vn_lock, lk_exclusive, call, note, vnode,
  mount, null_vp_to_lower_vp,
}
use project_base_learning.Tptfs.NodeCache.{tpt_nodeget, enoent}
use project_base_learning.Tptfs.Bypass.{Args, Result, tpt_bypass}

abbrev pub erofs : ℕ
erofs = 30

abbrev pub eisdir : ℕ
eisdir = 21

abbrev pub eopnotsupp : ℕ
eopnotsupp = 45

-- -2 as an int.
abbrev pub ejustreturn : ℕ
ejustreturn = 2 ^ 32 - 2

pub data NameiOp : Type 0 where
  op_lookup op_create op_delete op_rename : NameiOp

-- `struct componentname`: `cn_nameiop` and the bit ISLASTCN of `cn_flags`.
pub record ComponentName : Type 0 where
  pub cn_nameiop : NameiOp
  pub islastcn : Bool

abbrev pub is_delete_or_rename : NameiOp → Bool
is_delete_or_rename op_lookup = false
is_delete_or_rename op_create = false
is_delete_or_rename op_delete = true
is_delete_or_rename op_rename = true

abbrev pub is_create_or_rename : NameiOp → Bool
is_create_or_rename op_lookup = false
is_create_or_rename op_create = true
is_create_or_rename op_delete = false
is_create_or_rename op_rename = true

module _ (hash : ℕ → ℕ) (kernel : Kernel) where
  -- The lower layer may have unlocked `ldvp`, and `dvp` may be doomed since.
  pub lookup_doomed : (dvp ldvp error lvp : ℕ) → Layer ℕ
  lookup_doomed dvp ldvp error lvp = do
    v ← vnode dvp
    if ((error == 0) || (error == ejustreturn)) && v.virf_doomed
        then (do
          if not (lvp == 0) then (do _ ← call kernel (vput lvp); pure tt) else pure tt
          _ ← call kernel (vop_unlock ldvp)
          _ ← call kernel (vn_lock dvp lk_exclusive)
          pure enoent)
        else pure error

  -- The error and `*a_vpp`.
  pub lookup_alias : (mp dvp ldvp error lvp vpp : ℕ) → Layer (ℕ × ℕ)
  lookup_alias mp dvp ldvp error lvp vpp =
      if ((error == 0) || (error == ejustreturn)) && not (lvp == 0)
      then (if ldvp == lvp
          then (do note (vref dvp); _ ← call kernel (vrele lvp); pure (error, dvp))
          else (do
            made ← tpt_nodeget hash kernel mp lvp
            pure (made.0, if made.0 == 0 then made.1 else vpp)))
      else pure (error, vpp)

  pub tpt_lookup : (a_dvp : ℕ) (a_cnp : ComponentName) (a_vpp : ℕ) → Layer (ℕ × ℕ)
  tpt_lookup a_dvp a_cnp a_vpp = do
    dvp ← vnode a_dvp
    let mp = dvp.v_mount
    m ← mount mp
    if a_cnp.islastcn && m.mnt_rdonly && is_delete_or_rename a_cnp.cn_nameiop
        then pure (erofs, a_vpp)
        else (do
          ldvp ← null_vp_to_lower_vp a_dvp
          note (vhold ldvp)
          r ← call kernel (vop_lookup ldvp)
          error ← lookup_doomed a_dvp ldvp r.error r.out
          note (vdrop ldvp)
          m ← mount mp
          let error =
              if (error == ejustreturn)
                && a_cnp.islastcn
                && m.mnt_rdonly
                && is_create_or_rename a_cnp.cn_nameiop
              then erofs
              else error
          lookup_alias mp a_dvp ldvp error r.out a_vpp)

-- `struct vattr`, each field as wide as its type in the kernel; VNOVAL is -1 in each.
pub record Vattr : Type 0 where
  pub va_flags : ℕ
  pub va_uid : ℕ
  pub va_gid : ℕ
  pub va_atime_sec : ℕ
  pub va_mtime_sec : ℕ
  pub va_mode : ℕ
  pub va_size : ℕ

abbrev pub vnoval16 : ℕ
vnoval16 = 2 ^ 16 - 1

abbrev pub vnoval32 : ℕ
vnoval32 = 2 ^ 32 - 1

abbrev pub vnoval64 : ℕ
vnoval64 = 2 ^ 64 - 1

unfoldable pub sets_attribute : Vattr → Bool
sets_attribute vap =
    not (vap.va_flags == vnoval64)
    || not (vap.va_uid == vnoval32)
    || not (vap.va_gid == vnoval32)
    || not (vap.va_atime_sec == vnoval64)
    || not (vap.va_mtime_sec == vnoval64)
    || not (vap.va_mode == vnoval16)

-- The `switch` on a size that is to be set: the value that is returned, or that the call goes on.
pub data SizeVerdict : Type 0 where
  returns : ℕ → SizeVerdict
  goes_on : SizeVerdict

pub size_verdict : VType → (va_flags : ℕ) → (mnt_rdonly : Bool) → SizeVerdict
size_verdict vdir va_flags rdonly = returns eisdir
size_verdict vchr va_flags rdonly = returns (if not (va_flags == vnoval64) then eopnotsupp else 0)
size_verdict vblk va_flags rdonly = returns (if not (va_flags == vnoval64) then eopnotsupp else 0)
size_verdict vsock va_flags rdonly = returns (if not (va_flags == vnoval64) then eopnotsupp else 0)
size_verdict vfifo va_flags rdonly = returns (if not (va_flags == vnoval64) then eopnotsupp else 0)
size_verdict vreg va_flags rdonly = if rdonly then returns erofs else goes_on
size_verdict vlnk va_flags rdonly = if rdonly then returns erofs else goes_on
size_verdict vnon va_flags rdonly = if rdonly then returns erofs else goes_on
size_verdict vbad va_flags rdonly = if rdonly then returns erofs else goes_on

abbrev pub vwrite : ℕ
vwrite = 0x80

-- `case VDIR: case VLNK: case VREG:`
abbrev pub is_file : VType → Bool
is_file vdir = true
is_file vlnk = true
is_file vreg = true
is_file _ = false

module _ (hash : ℕ → ℕ) (kernel : Kernel) where
  unfoldable pub bypass_error : Args → Layer ℕ
  bypass_error ap = do r ← tpt_bypass hash kernel ap; pure (Result.error r)

  pub tpt_setattr : (a_vp : ℕ) (a_vap : Vattr) (ap : Args) → Layer ℕ
  tpt_setattr a_vp a_vap ap = do
    v ← vnode a_vp
    mp ← mount v.v_mount
    if sets_attribute a_vap && mp.mnt_rdonly
        then pure erofs
        else (if not (a_vap.va_size == vnoval64)
            then (elim (size_verdict v.v_type a_vap.va_flags mp.mnt_rdonly) [
              | returns e ↦ pure e
              | goes_on ↦ bypass_error ap
            ])
            else bypass_error ap)

  pub tpt_access : (a_vp a_accmode : ℕ) (ap : Args) → Layer ℕ
  tpt_access a_vp a_accmode ap = do
    v ← vnode a_vp
    mp ← mount v.v_mount
    if not (bit_and a_accmode vwrite == 0) && is_file v.v_type && mp.mnt_rdonly
        then pure erofs
        else bypass_error ap

  pub tpt_accessx : (a_vp a_accmode : ℕ) (ap : Args) → Layer ℕ
  tpt_accessx a_vp a_accmode ap = do
    v ← vnode a_vp
    mp ← mount v.v_mount
    if not (bit_and a_accmode vwrite == 0) && is_file v.v_type && mp.mnt_rdonly
        then pure erofs
        else bypass_error ap
