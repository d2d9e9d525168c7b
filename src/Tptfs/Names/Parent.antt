-- ===== src/Tptfs/Names/Parent.antt =====
-- The hold and the reference of tpt_vptocnp, while the vnode is unlocked.
use project_base_learning.Base.{
  ℕ, ◌+◌, ◌≡◌, ◌≢◌, refl, ◌==◌, ◌∷◌, arith, ne→==, Bool-cases, inl, inr,
}
use project_base_learning.Tptfs.{
  State, Store, Kernel, Call, LkType, vref, vrele, vhold, vdrop, vop_islocked, vop_unlock, vn_lock,
  lk_shared, vfs_ref, vfs_rel, vn_vptocnp,
}
use project_base_learning.Tptfs.NodeCache.{tpt_nodeget}
use project_base_learning.Tptfs.NodeCache.Creation.{IsObliging}
use project_base_learning.Tptfs.NodeCache.References.{tpt_nodeget-Outcome}
use project_base_learning.Tptfs.NodeCache.Silent.{IsHoldCount, is_hold, nodeget-Stays}
use project_base_learning.Tptfs.Tally.{
  Adds, Adds-after, Adds-more, Ends-both, Ends, Ends-and_then, Ends-IsEven, IsEven, tally, holds,
  drops, mount_takes, mount_gives,
}
use project_base_learning.Tptfs.Access.Holds.{holds-q, drops-q}
use project_base_learning.Tptfs.Names.{tpt_vptocnp, vptocnp_alias, mode_of}

mount_takes-q : (m : ℕ) → IsHoldCount (mount_takes m)
unfolding mount_takes is_hold
mount_takes-q m c h = ground arith

mount_gives-q : (m : ℕ) → IsHoldCount (mount_gives m)
unfolding mount_gives is_hold
mount_gives-q m c h = ground arith

paired_holds :
    (l v m : ℕ)
    → holds l (vhold v) + holds l (vfs_ref m) + holds l (vdrop v) + holds l (vfs_rel m)
      ≡ drops l (vhold v) + drops l (vfs_ref m) + drops l (vdrop v) + drops l (vfs_rel m)
unfolding holds drops
paired_holds l v m = omega arith

paired_mounts :
    (n v m : ℕ)
    → mount_takes n (vhold v)
        + mount_takes n (vfs_ref m)
        + mount_takes n (vdrop v)
        + mount_takes n (vfs_rel m)
      ≡ mount_gives n (vhold v)
        + mount_gives n (vfs_ref m)
        + mount_gives n (vdrop v)
        + mount_gives n (vfs_rel m)
unfolding mount_takes mount_gives
paired_mounts n v m = omega arith

module _ (f : Call → ℕ) (q : IsHoldCount f) (hash : ℕ → ℕ) (kernel : Kernel) where
  alias-Adds :
      (mp vp : ℕ) (mode : LkType) (ldvp vpp : ℕ) (s : State)
      → Adds f (f (vfs_rel mp)) s.calls (vptocnp_alias hash kernel mp vp mode ldvp vpp s)
  unfolding vptocnp_alias tally is_hold
  alias-Adds mp vp mode ldvp vpp s =
      let locked = kernel (vn_lock ldvp lk_shared) s.store in
      elim (Bool-cases (locked.error == 0)) [
        | inr e ↦
            unfold Adds in
            rw (e) (
              omega (
                arith,
                q (vn_lock ldvp lk_shared) refl,
                q (vrele ldvp) refl,
                q (vn_lock vp mode) refl,
              ))
        | inl e ↦ rw (e) (
            Adds-after f (f (vfs_rel mp)) s.calls (vn_lock ldvp lk_shared ∷ s.calls)
              (tpt_nodeget hash kernel mp ldvp _) _ (omega (arith, q (vn_lock ldvp lk_shared) refl))
              (nodeget-Stays f q hash kernel mp ldvp _)
              (λ made t. elim (Bool-cases (made.0 == 0)) [
                | inl g ↦
                    unfold Adds in
                    rw (g) (omega (arith, q (vop_unlock made.1) refl, q (vn_lock vp mode) refl))
                | inr g ↦ unfold Adds in rw (g) (omega (arith, q (vn_lock vp mode) refl))
              ]))
      ]

-- The lower vnode, the mount and the vnode that the lower layer found, as the run sees them.
module _ (kernel : Kernel) (vp : ℕ) (s : State) where
  abbrev pub first_store : Store
  first_store = (kernel (vop_islocked vp) s.store).store

  abbrev pub cnp_lower : ℕ
  cnp_lower = (first_store.nodes (first_store.vnodes vp).v_data).tpt_lowervp

  abbrev pub cnp_mount : ℕ
  cnp_mount = (first_store.vnodes vp).v_mount

  abbrev pub cnp_found : ℕ
  cnp_found = (kernel (vn_vptocnp cnp_lower) (kernel (vop_unlock vp) first_store).store).out

module _ (f : Call → ℕ) (q : IsHoldCount f) (hash : ℕ → ℕ) (kernel : Kernel) where
  cnp-Adds :
      (vp vpp : ℕ) (s : State)
      → ((first_store kernel vp s).vnodes vp).v_data ≢ 0
      → Adds f
          (f (vhold (cnp_lower kernel vp s))
            + f (vfs_ref (cnp_mount kernel vp s))
            + f (vdrop (cnp_lower kernel vp s))
            + f (vfs_rel (cnp_mount kernel vp s)))
          s.calls
          (tpt_vptocnp hash kernel vp vpp s)
  unfolding tpt_vptocnp tally is_hold
  cnp-Adds vp vpp s d =
      let lvp = cnp_lower kernel vp s in
      let mp = cnp_mount kernel vp s in
      let locked = kernel (vop_islocked vp) s.store in
      let found = kernel (vn_vptocnp lvp) (kernel (vop_unlock vp) locked.store).store in
      elim (Bool-cases (found.error == 0)) [
        | inr e ↦
            unfold Adds in
            rw (ne→== _ 0 d, e)
              (omega (
                arith,
                q (vop_islocked vp) refl,
                q (vop_unlock vp) refl,
                q (vref lvp) refl,
                q (vn_vptocnp lvp) refl,
                q (vn_lock vp (mode_of locked.error)) refl,
              ))
        | inl e ↦
            rw (ne→== _ 0 d, e)
              (Adds-more f (f (vhold lvp) + f (vfs_ref mp) + f (vdrop lvp)) (f (vfs_rel mp)) s.calls
                (vdrop lvp
                  ∷ vn_vptocnp lvp
                  ∷ vref lvp
                  ∷ vop_unlock vp
                  ∷ vfs_ref mp
                  ∷ vhold lvp
                  ∷ vop_islocked vp
                  ∷ s.calls)
                _
                (omega (
                  arith,
                  q (vop_islocked vp) refl,
                  q (vop_unlock vp) refl,
                  q (vref lvp) refl,
                  q (vn_vptocnp lvp) refl,
                ))
                (alias-Adds f q hash kernel mp vp (mode_of locked.error) found.out vpp _))
      ]

module _ (hash : ℕ → ℕ) (kernel : Kernel) where
  alias-ends :
      (mp vp : ℕ) (mode : LkType) (ldvp vpp : ℕ) (s : State)
      → IsObliging kernel mp ldvp
      → (s.store.mounts mp).mnt_data ≢ 0
      → Ends (λ _ _. Unit) (vptocnp_alias hash kernel mp vp mode ldvp vpp s)
  unfolding vptocnp_alias Ends
  alias-ends mp vp mode ldvp vpp s laws m =
      let locked = kernel (vn_lock ldvp lk_shared) s.store in
      elim (Bool-cases (locked.error == 0)) [
        | inr e ↦ rw (e) tt
        | inl e ↦ rw (e) (
            Ends-and_then _ (λ _ _. Unit) (tpt_nodeget hash kernel mp ldvp _) _
              (tpt_nodeget-Outcome hash kernel mp ldvp _ laws (laws.stays _ _ m))
              (λ made t h. elim (Bool-cases (made.0 == 0)) [
                | inl g ↦ rw (g) tt
                | inr g ↦ rw (g) tt
              ]))
      ]

  cnp-ends :
      (vp vpp : ℕ) (s : State)
      → ((first_store kernel vp s).vnodes vp).v_data ≢ 0
      → (s.store.mounts (cnp_mount kernel vp s)).mnt_data ≢ 0
      → IsObliging kernel (cnp_mount kernel vp s) (cnp_found kernel vp s)
      → Ends (λ _ _. Unit) (tpt_vptocnp hash kernel vp vpp s)
  unfolding tpt_vptocnp
  cnp-ends vp vpp s d m laws =
      let lvp = cnp_lower kernel vp s in
      let locked = kernel (vop_islocked vp) s.store in
      let found = kernel (vn_vptocnp lvp) (kernel (vop_unlock vp) locked.store).store in
      elim (Bool-cases (found.error == 0)) [
        | inr e ↦ unfold Ends in rw (ne→== _ 0 d, e) tt
        | inl e ↦
            rw (ne→== _ 0 d, e)
              (alias-ends (cnp_mount kernel vp s) vp (mode_of locked.error) found.out vpp _ laws
                (laws.stays _ _ (laws.stays _ _ (laws.stays _ _ m))))
      ]

  -- `tpt_vptocnp` always returns, on every branch with each vnode let go of as often as it was held
  -- and each mount given up as often as it was referenced, although the vnode is unlocked in
  -- between. Conditions: the vnode has its node, its mount has its data, and the kernel keeps to
  -- its rules on the vnode that the lower layer finds.
  pub tpt_vptocnp-holds :
      (vp vpp l n : ℕ) (s : State)
      → ((first_store kernel vp s).vnodes vp).v_data ≢ 0
      → (s.store.mounts (cnp_mount kernel vp s)).mnt_data ≢ 0
      → IsObliging kernel (cnp_mount kernel vp s) (cnp_found kernel vp s)
      → Ends
          (λ _ t. IsEven (holds l) (drops l) s t × IsEven (mount_takes n) (mount_gives n) s t)
          (tpt_vptocnp hash kernel vp vpp s)
  tpt_vptocnp-holds vp vpp l n s d m laws =
      let lvp = cnp_lower kernel vp s in
      let mp = cnp_mount kernel vp s in
      let ends = cnp-ends vp vpp s d m laws in
      Ends-both _ _ (tpt_vptocnp hash kernel vp vpp s)
        (Ends-IsEven (holds l) (drops l) _ _ s (tpt_vptocnp hash kernel vp vpp s) _
          (paired_holds l lvp mp) ends (cnp-Adds (holds l) (holds-q l) hash kernel vp vpp s d)
          (cnp-Adds (drops l) (drops-q l) hash kernel vp vpp s d))
        (Ends-IsEven (mount_takes n) (mount_gives n) _ _ s (tpt_vptocnp hash kernel vp vpp s) _
          (paired_mounts n lvp mp) ends
          (cnp-Adds (mount_takes n) (mount_takes-q n) hash kernel vp vpp s d)
          (cnp-Adds (mount_gives n) (mount_gives-q n) hash kernel vp vpp s d))
