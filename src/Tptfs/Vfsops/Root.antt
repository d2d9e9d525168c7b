-- ===== src/Tptfs/Vfsops/Root.antt =====
-- The reference that tptfs_root takes on the lower root.
mod Tests
use project_base_learning.Base.{
  ℕ, ◌≡◌, ◌≢◌, refl, ◌⊎◌, ◌==◌, if◌then◌else◌, ne→==, ==→ne, ==→eq, Bool-cases, inl, inr, ◌∷◌, ok,
}
use project_base_learning.Tptfs.{State, Kernel, LkType, vget}
use project_base_learning.Tptfs.NodeCache.{tpt_nodeget}
use project_base_learning.Tptfs.NodeCache.Creation.{Outcome, IsObliging}
use project_base_learning.Tptfs.NodeCache.References.{tpt_nodeget-Outcome}
use project_base_learning.Tptfs.Vfsops.{tptfs_root}
use project_base_learning.Tptfs.Tally.{Ends, Ends-and_then}

module _ (hash : ℕ → ℕ) (kernel : Kernel) where
  -- After `vget` of the lower root.
  abbrev pub got : (l : ℕ) → LkType → State → State
  got l flags s = record s {
    store = (kernel (vget l flags) s.store).store;
    calls = vget l flags ∷ s.calls;
  }

  -- `tptfs_root` always returns. Where the lower root cannot be had it returns the error of `vget`,
  -- leaves `*vpp` alone and makes no further call. Else the reference that `vget` took is used exactly
  -- once: it is given up where an error is returned, and then `*vpp` is left alone and no reference
  -- taken; it is given up where the vnode of a node that is there is returned, and that vnode alone
  -- gets a reference instead; else a new vnode is returned, with a new node that keeps the reference.
  -- Conditions: the kernel keeps to its rules, the mount has its data, and `vget` leaves the lower
  -- root in it.
  pub tptfs_root-Outcome :
      (mp l : ℕ) (flags : LkType) (vpp : ℕ) (s : State)
      → IsObliging kernel mp l
      → (s.store.mounts mp).mnt_data ≢ 0
      → (s.store.tpt_mounts (s.store.mounts mp).mnt_data).nullm_lowerrootvp ≡ l
      → ((got l flags s).store.tpt_mounts (s.store.mounts mp).mnt_data).nullm_lowerrootvp ≡ l
      → let e = (kernel (vget l flags) s.store).error in
        Ends
          (λ r t.
            ((e ≢ 0) × (r ≡ (e, vpp)) × (t ≡ got l flags s))
            ⊎ ((e ≡ 0)
                × ((vp : ℕ) × Outcome kernel mp l (got l flags s) t r.0 vp
                    × (r.1 ≡ (if r.0 == 0 then vp else vpp)))))
          (tptfs_root hash kernel mp flags vpp s)
  unfolding tptfs_root
  tptfs_root-Outcome mp l flags vpp s laws m root root' =
      let reply = kernel (vget l flags) s.store in
      elim (Bool-cases (reply.error == 0)) [
        | inr e ↦ unfold Ends in rw (ne→== _ 0 m, root, e) (inl (==→ne _ 0 e, refl, refl))
        | inl e ↦
            rw (ne→== _ 0 m, root, e, ne→== _ 0 m, root')
              (Ends-and_then _ _ (tpt_nodeget hash kernel mp l (got l flags s)) _
                (tpt_nodeget-Outcome hash kernel mp l (got l flags s) laws
                  (laws.stays (vget l flags) s.store m))
                (λ made t o. unfold Ends in inr (==→eq _ 0 e, (made.1, o, refl))))
      ]
