-- ===== src/Tptfs/Removal.antt =====
-- A vnode that was removed: tpt_remove and tpt_rmdir of tptfs/tpt_vnops.c, and tpt_inactive after
-- them.
mod Tests
use project_base_learning.Base.{
  ℕ, ◌∙◌, ◌≡◌, ◌≢◌, refl, Bool, true, false, not, ◌||◌, ◌∷◌, if◌then◌else◌, arith, Bool-cases, inl,
  inr,
}
use project_base_learning.Tptfs.{Store, State, Kernel, Call, vrecycle}
use project_base_learning.Tptfs.Tally.{Ends, Ends-map}
use project_base_learning.Tptfs.Bypass.{Args}
use project_base_learning.Tptfs.Bypass.Balance.{IsAlive}
use project_base_learning.Tptfs.Names.{tpt_remove, tpt_rmdir}
use project_base_learning.Tptfs.Names.Removed.{IsDropped, rmdir-ends, remove-ends}
use project_base_learning.Tptfs.Reclaim.{tpt_inactive}
use project_base_learning.Tptfs.Reclaim.Recycle.{is_wanted, inactive-ends}

-- The next call of the layer on the vnode, `tpt_inactive`, makes one call, which recycles it.
abbrev pub IsRecycledNext : (hash : ℕ → ℕ) → Kernel → (vp : ℕ) → State → Type 0
IsRecycledNext hash kernel vp t =
    Ends (λ r u. (r ≡ 0) × (u.calls ≡ vrecycle vp ∷ t.calls)) (tpt_inactive hash kernel vp t)

absorbs : (a b : Bool) → (a || true || b) ≡ true
absorbs true b = refl
absorbs false b = refl

module _ (hash : ℕ → ℕ) (kernel : Kernel) (vp xp : ℕ) where
  dropped-IsRecycledNext :
      (t : State) → xp ≢ 0 → IsDropped vp xp t.store → IsRecycledNext hash kernel vp t
  dropped-IsRecycledNext t node (at, drop, filled) =
      let wanted : is_wanted vp t ≡ true = rw (at, drop) (absorbs _ _) in
      Ends-map (tpt_inactive hash kernel vp t) (λ r u h. (h.0, h.1 ∙ rw (wanted) refl))
        (inactive-ends hash kernel vp t (λ z. node (omega (arith, at, z))) filled)

  -- `tpt_remove`, with however many users, and `tpt_rmdir` always return, whatever the lower layer
  -- answers, and the vnode is recycled by the next `tpt_inactive`, so that it does not keep the
  -- lower vnode that was removed. Conditions: the vnode has its node and its mount has its data, the
  -- vnode arguments are vnodes of the layer or NULL, the operation returns no vnode, and the kernel
  -- and other threads leave the node with the vnode and its flag set.
  pub tpt_remove-IsRecycledNext :
      (ap : Args) (refcount : ℕ) (s : State)
      → ((c : Call) (st : Store) → IsDropped vp xp st → IsDropped vp xp (kernel c st).store)
      → ap.has_vpp ≡ false
      → xp ≢ 0
      → IsAlive s.store true ap.a_vps
      → (s.store.vnodes vp).v_data ≡ xp
      → (s.store.mounts (s.store.vnodes vp).v_mount).mnt_data ≢ 0
      → Ends (λ _ t. IsRecycledNext hash kernel vp t) (tpt_remove hash kernel vp refcount ap s)
        × Ends (λ _ t. IsRecycledNext hash kernel vp t) (tpt_rmdir hash kernel vp ap s)
  tpt_remove-IsRecycledNext ap refcount s keeps plain node alive at filled = (
    Ends-map (tpt_remove hash kernel vp refcount ap s) (λ e t. dropped-IsRecycledNext t node)
        (remove-ends hash kernel vp xp ap keeps plain s node alive at filled refcount),
    Ends-map (tpt_rmdir hash kernel vp ap s) (λ e t. dropped-IsRecycledNext t node)
        (rmdir-ends hash kernel vp xp ap keeps plain s node alive at filled),
  )
