-- ===== src/Tptfs/Bypass.antt =====
-- tptfs/tpt_vnops.c, tpt_bypass and the operations that wrap it only slightly.
pub mod Balance
pub mod Kept
pub mod Wrapped
use project_base_learning.Base.{
  ℕ, suc, ◌+◌, ◌-◌, Bool, true, false, not, ◌==◌, ◌&&◌, ◌||◌, if◌then◌else◌, List, [], ◌∷◌, map,
  Run, ok, panic, pure, ◌>>=◌, ◌>>◌, u32,
}
use project_base_learning.Tptfs.{
  VopVector, tpt_vnodeops, dead_vnodeops, other_vnodeops, Layer, Kernel, vref, vrele, vop_islocked,
  vop_unlock, vop_lock, lk_exclusive, vcall, vop_add_writecount, vi_lock, vi_unlock, call, note,
  vnode, set_vnode, set_tpt_node, mount, null_vp_to_lower_vp, Mount,
}
use project_base_learning.Tptfs.NodeCache.{tpt_nodeget, islocked_exclusive}

abbrev pub einval : ℕ
einval = 22

-- `struct vop_generic_args` with what its descriptor says: the vnode arguments in the order of
-- `vdesc_vp_offsets`, each with its VDESC_VPi_WILLRELE, whether there is a `vdesc_vpp_offset`, and
-- the pointer that is stored there.
pub record Args : Type 0 where
  pub a_vps : List (ℕ × Bool)
  pub has_vpp : Bool
  pub a_vpp : ℕ

-- `*vps_p[i]`, `old_vps[i]` and the bit of `reles`.
pub record Slot : Type 0 where
  pub arg : ℕ
  pub old : ℕ
  pub willrele : Bool

abbrev pub is_tpt : VopVector → Bool
is_tpt tpt_vnodeops = true
is_tpt dead_vnodeops = false
is_tpt other_vnodeops = false

pub map_vp : (first : Bool) (vp : ℕ) (willrele : Bool) → Layer Slot
map_vp first vp willrele = do
  v ← vnode vp
  if not first && ((vp == 0) || not (is_tpt v.v_op))
      then pure (record { arg = vp; old = 0; willrele = willrele })
      else (do
        lower ← null_vp_to_lower_vp vp
        if willrele then note (vref vp) else pure tt
        pure (record { arg = lower; old = vp; willrele = willrele }))

pub map_vps : (first : Bool) → List (ℕ × Bool) → Layer (List Slot)
map_vps first [] = pure []
map_vps first ((vp, willrele) ∷ rest) = do
  slot ← map_vp first vp willrele
  slots ← map_vps false rest
  pure (slot ∷ slots)

module _ (kernel : Kernel) where
  -- The upper vnode takes over the lock, where it was reclaimed meanwhile.
  pub move_lock : (lvp old : ℕ) → Layer (Unit {0})
  move_lock lvp old = if lvp == 0 then pure tt else (do
    locked ← call kernel (vop_islocked lvp)
    v ← vnode old
    lower ← vnode lvp
    if (locked.error == islocked_exclusive) && not (v.v_vnlock == lower.v_vnlock)
        then (do
          _ ← call kernel (vop_unlock lvp)
          _ ← call kernel (vop_lock old lk_exclusive)
          pure tt)
        else pure tt)

  -- What the argument is afterwards.
  pub unmap_vp : (lvp : ℕ) → Slot → Layer ℕ
  unmap_vp lvp slot = if slot.old == 0 then pure lvp else (do
    move_lock lvp slot.old
    if slot.willrele then (do _ ← call kernel (vrele slot.old); pure slot.old) else pure slot.old)

  pub unmap_vps : (after : ℕ → ℕ) (i : ℕ) → List Slot → Layer (List ℕ)
  unmap_vps after i [] = pure []
  unmap_vps after i (slot ∷ rest) = do
    arg ← unmap_vp (after i) slot
    args ← unmap_vps after (suc i) rest
    pure (arg ∷ args)

abbrev pub first_old : List Slot → ℕ
first_old [] = 0
first_old (slot ∷ slots) = slot.old

abbrev pub first_arg : List Slot → ℕ
first_arg [] = 0
first_arg (slot ∷ slots) = slot.arg

abbrev pub arg_at : List Slot → ℕ → ℕ
arg_at [] i = 0
arg_at (slot ∷ slots) i = let rest = arg_at slots (i - 1) in if i == 0 then slot.arg else rest

pub record Result : Type 0 where
  pub error : ℕ
  pub vpp : ℕ
  pub args : List ℕ

module _ (hash : ℕ → ℕ) (kernel : Kernel) where
  -- The call on the lower layer: the error, the vnode it returned and the slots afterwards.
  pub bypass_call : List Slot → Layer (ℕ × ℕ × (ℕ → ℕ))
  bypass_call slots = if first_arg slots == 0 then pure (einval, 0, arg_at slots) else (do
    r ← call kernel (vcall (map (λ slot. Slot.arg slot) slots))
    pure (r.error, r.out, r.slots))

  pub bypass_vpp : (ap : Args) (slots : List Slot) (error out : ℕ) → Layer (ℕ × ℕ)
  bypass_vpp ap slots error out =
      if ap.has_vpp && (error == 0) && not (ap.a_vpp == 0)
      then (do v ← vnode (first_old slots); tpt_nodeget hash kernel v.v_mount out)
      else pure (error, out)

  pub tpt_bypass : Args → Layer Result
  tpt_bypass ap = do
    slots ← map_vps true ap.a_vps
    called ← bypass_call slots
    args ← unmap_vps kernel called.2 0 slots
    made ← bypass_vpp ap slots called.0 called.1
    pure (record { error = made.0; vpp = made.1; args = args })

  -- `a_inc` is an int in two's complement, and the sum wraps.
  unfoldable pub tpt_add_writecount : (a_vp a_inc : ℕ) → Layer ℕ
  tpt_add_writecount a_vp a_inc = do
    lvp ← null_vp_to_lower_vp a_vp
    note (vi_lock a_vp)
    r ← call kernel (vop_add_writecount lvp a_inc)
    if r.error == 0
        then set_vnode a_vp (λ v. record v { v_writecount = u32 (v.v_writecount + a_inc) })
        else pure tt
    note (vi_unlock a_vp)
    pure r.error

  pub tpt_open : (a_vp : ℕ) (a_gen : Args) → Layer ℕ
  tpt_open a_vp a_gen = do
    ldvp ← null_vp_to_lower_vp a_vp
    r ← tpt_bypass a_gen
    lower ← vnode ldvp
    if r.error == 0
        then set_vnode a_vp (λ v. record v {
          v_object = lower.v_object;
          virf_pgread = lower.virf_pgread || v.virf_pgread;
        })
        else pure tt
    pure r.error

  -- `tpt_stat` and `tpt_getattr`: the error and the number of the device, where that is written.
  pub tpt_stat : (a_vp : ℕ) (a_gen : Args) (st_dev : ℕ) → Layer (ℕ × ℕ)
  tpt_stat a_vp a_gen st_dev = do
    r ← tpt_bypass a_gen
    if not (r.error == 0)
        then pure (r.error, st_dev)
        else (do v ← vnode a_vp; mp ← mount v.v_mount; pure (0, Mount.f_fsid mp))

  pub tpt_getattr : (a_vp : ℕ) (a_gen : Args) (va_fsid : ℕ) → Layer (ℕ × ℕ)
  tpt_getattr a_vp a_gen va_fsid = do
    r ← tpt_bypass a_gen
    if not (r.error == 0)
        then pure (r.error, va_fsid)
        else (do v ← vnode a_vp; mp ← mount v.v_mount; pure (0, Mount.f_fsid mp))
