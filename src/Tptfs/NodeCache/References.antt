-- ===== src/Tptfs/NodeCache/References.antt =====
-- Who holds the reference on the lower vnode after tpt_nodeget.
use project_base_learning.Base.{
  ℕ, ◌+◌, ◌≡◌, ◌≢◌, refl, ◌==◌, Run, ok, panic, out_of_fuel, and_then, arith, eq→==, ne→==, ==→ne,
  ==→eq, sym, Bool-cases, inl, inr,
}
use project_base_learning.Tptfs.{State, Kernel, vop_islocked, vn_lock, lk_upgrade}
use project_base_learning.Tptfs.NodeCache.{
  tpt_hashget, nodeget_upgrade, tpt_nodeget, list_find, list_empty, is_alias, nodeget_found,
  islocked_exclusive,
}
use project_base_learning.Tptfs.Tally.{Ends, tally, gives, takes, once}
use project_base_learning.Tptfs.NodeCache.Creation.{
  TookNoneBut, Outcome, failed, shared, IsObliging, IsQuiet, after, create-ends,
}

module _ (hash : ℕ → ℕ) (kernel : Kernel) (mp lowervp : ℕ) where
  upgrade-ends :
      (s : State)
      → IsObliging kernel mp lowervp
      → (s.store.mounts mp).mnt_data ≢ 0
      → Ends
          (λ r t. Outcome kernel mp lowervp s t r.0 r.1)
          (nodeget_upgrade hash kernel mp lowervp s)
  unfolding nodeget_upgrade Ends tally gives takes once IsQuiet
  upgrade-ends s laws m =
      let locked = kernel (vop_islocked lowervp) s.store in
      let upgraded = kernel (vn_lock lowervp lk_upgrade) locked.store in
      let m1 = laws.stays (vop_islocked lowervp) s.store m in
      elim (Bool-cases (locked.error == islocked_exclusive)) [
        | inl e ↦ rw (e) (
            after hash kernel mp lowervp s _ _ (omega arith, λ w n. omega arith)
              (create-ends hash kernel mp lowervp _ laws m1))
        | inr e ↦ elim (Bool-cases (upgraded.store.vnodes lowervp).virf_doomed) [
          | inl d ↦
              rw (e, d)
                (failed (omega arith) (ground (arith, eq→== lowervp lowervp refl))
                  (λ w n _. omega arith))
          | inr d ↦
              rw (e, d)
                (after hash kernel mp lowervp s _ _ (omega arith, λ w n. omega arith)
                  (create-ends hash kernel mp lowervp _ laws
                    (laws.stays (vn_lock lowervp lk_upgrade) locked.store m1)))
        ]
      ]

  -- A hit takes a reference on the vnode that is returned; a miss is quiet.
  data Hit (s t : State) : ℕ → Type 0 where
    miss : IsQuiet lowervp s t → Hit s t 0
    hit :
        {vp : ℕ}
        → vp ≢ 0
        → tally (gives lowervp) t.calls ≡ tally (gives lowervp) s.calls
        → tally (takes vp) t.calls ≡ 1 + tally (takes vp) s.calls
        → TookNoneBut vp s t
        → Hit s t vp

  hashget-ends :
      (s : State) → Ends (λ vp t. (t.store ≡ s.store) × Hit s t vp) (tpt_hashget hash mp lowervp s)
  unfolding tpt_hashget Ends tally gives takes once IsQuiet
  hashget-ends s =
      let hd = s.store.hashtbl (hash lowervp) in
      let found = list_find (is_alias s.store mp lowervp) hd in
      let other = (s.store.nodes found).tpt_vnode in
      elim (Bool-cases (list_empty hd)) [
        | inl e ↦ rw (e) (refl, miss (refl, λ v n. refl))
        | inr e ↦ elim (Bool-cases (found == 0)) [
          | inl f ↦ rw (e, f) (refl, miss (omega arith, λ v n. omega arith))
          | inr f ↦ elim (Bool-cases (other == 0)) [
            | inl o ↦
                rw (e, f, ==→eq other 0 o)
                  (refl, miss (omega arith, λ v n. ground (arith, ne→== 0 v (λ p. n (sym p)))))
            | inr o ↦
                rw (e, f)
                  (
                    refl,
                    hit (==→ne other 0 o) (omega arith) (ground (arith, eq→== other other refl))
                        (λ w n d. ground (arith, ne→== other w (λ q. d (sym q)))),
                  )
          ]
        ]
      ]

  nodeget_of_hit :
      (s : State)
      → IsObliging kernel mp lowervp
      → (s.store.mounts mp).mnt_data ≢ 0
      → (r : Run State ℕ) → Ends (λ vp t. (t.store ≡ s.store) × Hit s t vp) r
      → Ends
          (λ p t. Outcome kernel mp lowervp s t p.0 p.1)
          (and_then r (λ found. nodeget_found hash kernel mp lowervp found))
  unfolding nodeget_found Ends tally gives takes once
  nodeget_of_hit s laws m (ok _ t) (same, miss q) =
      after hash kernel mp lowervp s t _ q (upgrade-ends t laws (rw (same) m))
  nodeget_of_hit s laws m (ok vp t) (same, hit n g h none) = rw (ne→== vp 0 n) (
      shared n (ground (arith, g, eq→== lowervp lowervp refl)) (ground (arith, h))
        (λ w z d. omega (arith, none w z d)))
  nodeget_of_hit s laws m panic p = elim p [ ]
  nodeget_of_hit s laws m out_of_fuel p = elim p [ ]

  -- `tpt_nodeget` always returns, and the spare reference on the lower vnode that the caller hands
  -- over is used exactly once. It is given up where an error is returned, and no reference is taken;
  -- it is given up where the vnode of another node is returned, and that vnode alone gets a reference
  -- instead; else a new vnode is returned, with a new node that keeps the reference, which is then not
  -- given up, and no reference is taken. Condition: the kernel keeps to its rules, and the mount has
  -- its data.
  pub tpt_nodeget-Outcome :
      (s : State)
      → IsObliging kernel mp lowervp
      → (s.store.mounts mp).mnt_data ≢ 0
      → Ends (λ r t. Outcome kernel mp lowervp s t r.0 r.1) (tpt_nodeget hash kernel mp lowervp s)
  unfolding tpt_nodeget
  tpt_nodeget-Outcome s laws m =
      nodeget_of_hit s laws m (tpt_hashget hash mp lowervp s) (hashget-ends s)
