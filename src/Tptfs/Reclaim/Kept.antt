-- ===== src/Tptfs/Reclaim/Kept.antt =====
-- The hash across the operations on a vnode that goes away.
use project_base_learning.Base.{ℕ, ◌≡◌, refl, true, false, not, ◌==◌, ◌&&◌, Bool-cases, inl, inr}
use project_base_learning.Tptfs.{Store, State, Kernel, TptNode, vunref, set_tpt_node}
use project_base_learning.Tptfs.NodeCache.{tpt_hashget, tpt_hashrem}
use project_base_learning.Tptfs.NodeCache.Hash.{IsCache}
use project_base_learning.Tptfs.NodeCache.Kept.{
  Leaves, Leaves-and_then, vnode-IsCache, fields-IsCache, hashrem-keeps,
}
use project_base_learning.Tptfs.NodeCache.Kept.Nodeget.{IsSharing, hashget-keeps}
use project_base_learning.Tptfs.Reclaim.{
  tpt_inactive, tpt_need_inactive, tpt_want_recycle, tpt_reclaim, reclaim_writecount,
  tptfs_reclaim_lowervp, tptfs_unlink_lowervp, unlink_rest, is_negative,
}

module _ (hash : ℕ → ℕ) (kernel : Kernel) (is_owned : ℕ → Store → Type 0)
    (sharing : IsSharing hash kernel is_owned) where
  -- A write to the flags of a node.
  pub flags-keeps :
      (xp : ℕ) (f : TptNode → TptNode) (s : State)
      → ((x : TptNode) → ((f x).tpt_lowervp ≡ x.tpt_lowervp) × ((f x).tpt_vnode ≡ x.tpt_vnode))
      → IsCache hash s.store
      → Leaves (IsCache hash) (set_tpt_node xp f s)
  unfolding Leaves
  flags-keeps xp f s same cache = elim (Bool-cases (xp == 0)) [
    | inl e ↦ rw (e) tt
    | inr e ↦
        let (lower, vp) = same (s.store.nodes xp) in
        rw (e) (fields-IsCache hash s.store xp (f (s.store.nodes xp)) lower vp cache)
  ]

  writecount-keeps :
      (vp lowervp : ℕ) (s : State)
      → IsCache hash s.store
      → Leaves (IsCache hash) (reclaim_writecount hash kernel vp lowervp s)
  unfolding reclaim_writecount Leaves
  writecount-keeps vp lowervp s cache =
      let w = (s.store.vnodes vp).v_writecount in
      elim (Bool-cases (not (w == 0) && not (is_negative w))) [
        | inl e ↦ rw (e) (sharing.cache _ _ cache)
        | inr e ↦ elim (Bool-cases (is_negative w)) [
          | inl g ↦ rw (e, g) (vnode-IsCache hash s.store vp _ cache refl)
          | inr g ↦ rw (e, g) cache
        ]
      ]

  pub reclaim-keeps :
      (vp : ℕ) (s : State)
      → IsCache hash s.store
      → Leaves (IsCache hash) (tpt_reclaim hash kernel vp s)
  unfolding tpt_reclaim
  reclaim-keeps vp s cache =
      let xp = (s.store.vnodes vp).v_data in
      let lowervp = (s.store.nodes xp).tpt_lowervp in
      elim (Bool-cases (xp == 0)) [
        | inl e ↦ unfold Leaves in rw (e) tt
        | inr e ↦ rw (e) (
            Leaves-and_then _ _ (tpt_hashrem hash xp s) _ (hashrem-keeps hash xp s cache) (λ a t c.
              Leaves-and_then _ _ (reclaim_writecount hash kernel vp lowervp _) _
                (writecount-keeps vp lowervp _
                  (vnode-IsCache hash _ vp _ (sharing.cache _ _ c) refl))
                (λ b u d. elim (Bool-cases (u.store.nodes xp).nullv_nounlock) [
                  | inl g ↦ unfold Leaves in rw (e, g) (sharing.cache _ _ d)
                  | inr g ↦ unfold Leaves in rw (e, g) (sharing.cache _ _ d)
                ])))
      ]

  want-keeps :
      (vp : ℕ) (s : State) → IsCache hash s.store → Leaves (IsCache hash) (tpt_want_recycle vp s)
  unfolding tpt_want_recycle Leaves
  want-keeps vp s cache = elim (Bool-cases ((s.store.vnodes vp).v_data == 0)) [
    | inl e ↦ rw (e) tt
    | inr e ↦ elim (Bool-cases ((s.store.mounts (s.store.vnodes vp).v_mount).mnt_data == 0)) [
      | inl g ↦ rw (e, g) tt
      | inr g ↦ rw (e, g) cache
    ]
  ]

  pub need_inactive-keeps :
      (vp : ℕ) (s : State) → IsCache hash s.store → Leaves (IsCache hash) (tpt_need_inactive vp s)
  unfolding tpt_need_inactive
  need_inactive-keeps vp s cache = want-keeps vp s cache

  pub inactive-keeps :
      (vp : ℕ) (s : State)
      → IsCache hash s.store
      → Leaves (IsCache hash) (tpt_inactive hash kernel vp s)
  unfolding tpt_inactive
  inactive-keeps vp s cache =
      Leaves-and_then _ _ (tpt_want_recycle vp s) _ (want-keeps vp s cache) (λ want t c.
        elim (Bool-cases want) [
          | inl e ↦ unfold Leaves in rw (e) (sharing.cache _ _ (vnode-IsCache hash _ vp _ c refl))
          | inr e ↦ unfold Leaves in rw (e) c
        ])

  pub reclaim_lowervp-keeps :
      (mp lowervp : ℕ) (s : State)
      → IsCache hash s.store
      → Leaves (IsCache hash) (tptfs_reclaim_lowervp hash kernel mp lowervp s)
  unfolding tptfs_reclaim_lowervp
  reclaim_lowervp-keeps mp lowervp s cache =
      Leaves-and_then _ _ (tpt_hashget hash mp lowervp s) _
        (hashget-keeps hash kernel is_owned sharing (IsCache hash) mp lowervp s cache)
        (λ vp t c. elim (Bool-cases (vp == 0)) [
          | inl e ↦ unfold Leaves in rw (e) c
          | inr e ↦ rw (e) (
              Leaves-and_then _ _
                (set_tpt_node (t.store.vnodes vp).v_data (λ x. record x { nullv_nounlock = true })
                  t)
                _
                (flags-keeps (t.store.vnodes vp).v_data (λ x. record x { nullv_nounlock = true }) t
                  (λ x. (refl, refl)) c)
                (λ a u d. unfold Leaves in sharing.cache _ _ (sharing.cache _ _ d)))
        ])

  rest-keeps :
      (vp xp : ℕ) (s : State)
      → IsCache hash s.store
      → Leaves (IsCache hash) (unlink_rest hash kernel vp xp s)
  unfolding unlink_rest
  rest-keeps vp xp s cache =
      let after = kernel (vunref vp) s.store in
      elim (Bool-cases ((after.store.vnodes vp).v_usecount == 0)) [
        | inl g ↦ unfold Leaves in rw (g) (sharing.cache _ _ (sharing.cache _ _ cache))
        | inr g ↦ elim (Bool-cases (xp == 0)) [
          | inl e ↦ unfold Leaves in rw (g, e) tt
          | inr e ↦
              let x = record (after.store.nodes xp) { nullv_nounlock = false } in
              unfold Leaves in
              rw (g, e) (fields-IsCache hash after.store xp x refl refl (sharing.cache _ _ cache))
        ]
      ]

  pub unlink_lowervp-keeps :
      (mp lowervp : ℕ) (s : State)
      → IsCache hash s.store
      → Leaves (IsCache hash) (tptfs_unlink_lowervp hash kernel mp lowervp s)
  unfolding tptfs_unlink_lowervp
  unlink_lowervp-keeps mp lowervp s cache =
      Leaves-and_then _ _ (tpt_hashget hash mp lowervp s) _
        (hashget-keeps hash kernel is_owned sharing (IsCache hash) mp lowervp s cache)
        (λ vp t c. elim (Bool-cases (vp == 0)) [
          | inl e ↦ unfold Leaves in rw (e) c
          | inr e ↦
              let xp = (t.store.vnodes vp).v_data in
              rw (e) (
                Leaves-and_then _ _
                  (set_tpt_node xp (λ x. record x { nullv_drop = true; nullv_nounlock = true }) t) _
                  (flags-keeps xp (λ x. record x { nullv_drop = true; nullv_nounlock = true }) t
                    (λ x. (refl, refl)) c)
                  (λ a u d. rest-keeps vp xp u d))
        ])
