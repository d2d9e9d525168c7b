-- ===== src/Tptfs/Names/Removed.antt =====
-- The flag on the node after tpt_remove and tpt_rmdir.
use project_base_learning.Base.{
  ℕ, ◌≡◌, ◌≢◌, refl, Bool, true, false, ltb, List, [], ◌∷◌, eq→==, ne→==, Bool-cases, inl, inr,
  pure, ◌>>=◌,
}
use project_base_learning.Tptfs.{Store, State, Kernel, Call, TptNode, vrele, call}
use project_base_learning.Tptfs.NodeCache.Kept.{Ends-Leaves}
use project_base_learning.Tptfs.Tally.{Ends, Ends-and_then}
use project_base_learning.Tptfs.Bypass.{Args, tpt_bypass}
use project_base_learning.Tptfs.Bypass.Kept.{bypass_plain-keeps}
use project_base_learning.Tptfs.Bypass.Balance.{IsAlive, tpt_bypass-AreRestored}
use project_base_learning.Tptfs.Access.{bypass_error}
use project_base_learning.Tptfs.Names.{tpt_remove, tpt_rmdir}

-- The vnode has the node `xp`, which is to be dropped, and its mount has its data.
abbrev pub IsDropped : (vp xp : ℕ) → Store → Type 0
IsDropped vp xp st =
    ((st.vnodes vp).v_data ≡ xp)
    × ((st.nodes xp).nullv_drop ≡ true)
    × ((st.mounts (st.vnodes vp).v_mount).mnt_data ≢ 0)

IsAlive-nodes :
    (st : Store) (nodes : ℕ → TptNode) (first : Bool) (vps : List (ℕ × Bool))
    → IsAlive st first vps
    → IsAlive (record st { nodes = nodes }) first vps
unfolding IsAlive
IsAlive-nodes st nodes first [] alive = tt
IsAlive-nodes st nodes first (vp ∷ vps) (a, b) = (a, IsAlive-nodes st nodes false vps b)

module _ (hash : ℕ → ℕ) (kernel : Kernel) (vp xp : ℕ) (ap : Args)
    (keeps : (c : Call) (st : Store) → IsDropped vp xp st → IsDropped vp xp (kernel c st).store)
    (plain : ap.has_vpp ≡ false) where
  error-ends :
      (s : State)
      → IsAlive s.store true ap.a_vps
      → IsDropped vp xp s.store
      → Ends (λ _ t. IsDropped vp xp t.store) (bypass_error hash kernel ap s)
  unfolding bypass_error
  error-ends s alive dropped =
      Ends-and_then _ _ (tpt_bypass hash kernel ap s) _
        (Ends-Leaves (IsDropped vp xp) _ (tpt_bypass hash kernel ap s)
          (tpt_bypass-AreRestored hash kernel 0 ap s alive plain)
          (bypass_plain-keeps (IsDropped vp xp) kernel keeps hash ap s plain dropped))
        (λ r t h. unfold Ends in h.1)

  -- From any state in which the vnode has its node, the flag is set before the lower layer is asked.
  module _ (s : State) (node : xp ≢ 0) (alive : IsAlive s.store true ap.a_vps)
      (at : (s.store.vnodes vp).v_data ≡ xp)
      (filled : (s.store.mounts (s.store.vnodes vp).v_mount).mnt_data ≢ 0) where
    pub rmdir-ends : Ends (λ _ t. IsDropped vp xp t.store) (tpt_rmdir hash kernel vp ap s)
    unfolding tpt_rmdir
    rmdir-ends =
        rw (at, ne→== xp 0 node)
          (error-ends _ (IsAlive-nodes s.store _ true ap.a_vps alive)
            (at, rw (eq→== xp xp refl) refl, filled))

    after :
        (r : ℕ) (t : State)
        → IsDropped vp xp t.store
        → Ends
            (λ _ t. IsDropped vp xp t.store)
            ((call kernel (vrele (s.store.nodes xp).tpt_lowervp) >>= λ _. pure r) t)
    after r t dropped = unfold Ends in keeps _ t.store dropped

    pub remove-ends :
        (refcount : ℕ)
        → Ends (λ _ t. IsDropped vp xp t.store) (tpt_remove hash kernel vp refcount ap s)
    unfolding tpt_remove
    remove-ends refcount = elim (Bool-cases (ltb 1 refcount)) [
      | inr e ↦
          rw (e, at, ne→== xp 0 node)
            (error-ends _ (IsAlive-nodes s.store _ true ap.a_vps alive)
              (at, rw (eq→== xp xp refl) refl, filled))
      | inl e ↦
          rw (e, at, ne→== xp 0 node, at, ne→== xp 0 node)
            (Ends-and_then _ (λ _ t. IsDropped vp xp t.store) (bypass_error hash kernel ap _) _
              (error-ends _ (IsAlive-nodes s.store _ true ap.a_vps alive)
                (at, rw (eq→== xp xp refl) refl, filled))
              (λ r t h. after r t h))
    ]
