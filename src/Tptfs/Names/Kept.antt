-- ===== src/Tptfs/Names/Kept.antt =====
-- The hash across the operations that remove and rename, and those that ask the lower layer.
use project_base_learning.Base.{
  pure, ◌>>◌, if◌then◌else◌, false, ◌>>=◌, ℕ, refl, ◌==◌, not, ◌&&◌, ◌||◌, ltb, true, Bool, ◌∷◌,
  Bool-cases, inl, inr,
}
use project_base_learning.Tptfs.{
  Store, State, Kernel, note, vhold, vdrop, LkType, call, vop_islocked, vref, vrele, vput,
  vop_unlock, vn_lock, lk_shared, vn_vptocnp,
}
use project_base_learning.Tptfs.NodeCache.{tpt_nodeget}
use project_base_learning.Tptfs.NodeCache.Hash.{IsCache}
use project_base_learning.Tptfs.NodeCache.Kept.{Leaves, Leaves-and_then, Leaves-ok}
use project_base_learning.Tptfs.NodeCache.Kept.Combined.{
  Leaves-lower, Leaves-call_if, Leaves-call_either,
}
use project_base_learning.Tptfs.NodeCache.Kept.Nodeget.{IsSharing, nodeget-keeps}
use project_base_learning.Tptfs.Bypass.{Args}
use project_base_learning.Tptfs.Access.{bypass_error}
use project_base_learning.Tptfs.Access.Kept.{bypass_error-keeps}
use project_base_learning.Tptfs.Reclaim.Kept.{flags-keeps}
use project_base_learning.Tptfs.Names.{
  set_drop, tpt_remove, tpt_rmdir, tpt_rename, rename_refuse, vptocnp_alias, tpt_vptocnp,
  tpt_getwritemount, tpt_print, tpt_vptofh, tpt_read_pgcache, vput_pair_after, tpt_vput_pair,
}

module _ (hash : ℕ → ℕ) (kernel : Kernel) (is_owned : ℕ → Store → Type 0)
    (sharing : IsSharing hash kernel is_owned) where
  abbrev P : Store → Type 0
  P = IsCache hash

  set_drop-keeps :
      (vp : ℕ) (s : State) → IsCache hash s.store → Leaves (IsCache hash) (set_drop vp s)
  set_drop-keeps vp s cache =
      flags-keeps hash kernel is_owned sharing (s.store.vnodes vp).v_data
        (λ x. record x { nullv_drop = true }) s (λ x. (refl, refl)) cache

  pub rmdir-keeps :
      (a_vp : ℕ) (a_gen : Args) (s : State)
      → IsCache hash s.store
      → Leaves (IsCache hash) (tpt_rmdir hash kernel a_vp a_gen s)
  unfolding tpt_rmdir
  rmdir-keeps a_vp a_gen s cache =
      Leaves-and_then _ _ (set_drop a_vp s) _ (set_drop-keeps a_vp s cache)
        (λ a t c. bypass_error-keeps hash kernel is_owned sharing a_gen t c)

  pub remove-keeps :
      (a_vp refcount : ℕ) (a_gen : Args) (s : State)
      → IsCache hash s.store
      → Leaves (IsCache hash) (tpt_remove hash kernel a_vp refcount a_gen s)
  unfolding tpt_remove
  remove-keeps a_vp refcount a_gen s cache = elim (Bool-cases (ltb 1 refcount)) [
    | inl e ↦ rw (e) (
        Leaves-lower P a_vp s _ (λ lvp.
          let held = record s { calls = vref lvp ∷ s.calls } in
          Leaves-and_then P P (set_drop a_vp held) _ (set_drop-keeps a_vp held cache) (λ a t c.
            Leaves-and_then P P (bypass_error hash kernel a_gen t)
              (λ retval. call kernel (vrele lvp) >>= (λ _. pure retval))
              (bypass_error-keeps hash kernel is_owned sharing a_gen t c)
              (λ retval u d. Leaves-ok P retval _ (sharing.cache (vrele lvp) u.store d)))))
    | inr e ↦ rw (e) (
        Leaves-and_then _ _ (set_drop a_vp s) _ (set_drop-keeps a_vp s cache)
          (λ a t c. bypass_error-keeps hash kernel is_owned sharing a_gen t c))
  ]

  refuse-keeps :
      (fdvp fvp tdvp tvp : ℕ) (s : State)
      → IsCache hash s.store
      → Leaves (IsCache hash) (rename_refuse hash kernel fdvp fvp tdvp tvp s)
  unfolding rename_refuse
  refuse-keeps fdvp fvp tdvp tvp s cache =
      Leaves-and_then _ _ _ _
        (Leaves-call_either P kernel sharing.cache (tdvp == tvp) (vrele tdvp) (vput tdvp) s cache)
        (λ r t c.
          Leaves-and_then _ _ _ _
            (Leaves-call_if P kernel sharing.cache (not (tvp == 0)) (vput tvp) t c)
            (λ a u d. Leaves-ok P _ _ (sharing.cache _ _ (sharing.cache _ _ d))))

  pub rename-keeps :
      (a_fdvp a_fvp a_tdvp a_tvp : ℕ) (ap : Args) (s : State)
      → IsCache hash s.store
      → Leaves (IsCache hash) (tpt_rename hash kernel a_fdvp a_fvp a_tdvp a_tvp ap s)
  unfolding tpt_rename
  rename-keeps a_fdvp a_fvp a_tdvp a_tvp ap s cache =
      let m = (s.store.vnodes a_fvp).v_mount in
      elim (Bool-cases (
        not (m == (s.store.vnodes a_tdvp).v_mount)
        || (not (a_tvp == 0) && not (m == (s.store.vnodes a_tvp).v_mount)))) [
          | inl e ↦ rw (e) (refuse-keeps a_fdvp a_fvp a_tdvp a_tvp s cache)
          | inr e ↦ elim (Bool-cases (not (a_tvp == 0))) [
            | inl g ↦
                rw (e, g)
                  (Leaves-and_then _ _ (set_drop a_tvp s) _ (set_drop-keeps a_tvp s cache)
                    (λ a t c. bypass_error-keeps hash kernel is_owned sharing ap t c))
            | inr g ↦ rw (e, g) (bypass_error-keeps hash kernel is_owned sharing ap s cache)
          ]
        ]

  alias-keeps :
      (mp vp : ℕ) (mode : LkType) (ldvp vpp : ℕ) (s : State)
      → IsCache hash s.store
      → Leaves (IsCache hash) (vptocnp_alias hash kernel mp vp mode ldvp vpp s)
  unfolding vptocnp_alias
  alias-keeps mp vp mode ldvp vpp s cache =
      let locked = kernel (vn_lock ldvp lk_shared) s.store in
      elim (Bool-cases (not (locked.error == 0))) [
        | inl e ↦
            rw (e)
              (Leaves-ok P _ _ (sharing.cache _ _ (sharing.cache _ _ (sharing.cache _ _ cache))))
        | inr e ↦ rw (e) (
            Leaves-and_then _ _ (tpt_nodeget hash kernel mp ldvp _) _
              (nodeget-keeps hash kernel is_owned sharing mp ldvp _ (sharing.cache _ _ cache))
              (λ made t c.
                Leaves-and_then _ _ _ _
                  (Leaves-call_if P kernel sharing.cache (made.0 == 0) (vop_unlock made.1) t c)
                  (λ a u d. Leaves-ok P _ _ (sharing.cache _ _ d))))
      ]

  pub vptocnp-keeps :
      (a_vp a_vpp : ℕ) (s : State)
      → IsCache hash s.store
      → Leaves (IsCache hash) (tpt_vptocnp hash kernel a_vp a_vpp s)
  unfolding tpt_vptocnp
  vptocnp-keeps a_vp a_vpp s cache =
      let locked = kernel (vop_islocked a_vp) s.store in
      let unlocked = kernel (vop_unlock a_vp) locked.store in
      let mp = (locked.store.vnodes a_vp).v_mount in
      Leaves-lower P a_vp (record { store = locked.store; calls = vop_islocked a_vp ∷ s.calls }) _
        (λ lvp.
          let found = kernel (vn_vptocnp lvp) unlocked.store in
          let c =
            sharing.cache (vn_vptocnp lvp) _
              (sharing.cache (vop_unlock a_vp) _ (sharing.cache (vop_islocked a_vp) _ cache)) in
          elim (Bool-cases (not (found.error == 0))) [
            | inl e ↦ rw (e) (Leaves-ok P _ _ (sharing.cache _ _ c))
            | inr e ↦ rw (e) (alias-keeps mp a_vp _ _ a_vpp _ c)
          ])

  pub getwritemount-keeps :
      (a_vp : ℕ) (s : State)
      → IsCache hash s.store
      → Leaves (IsCache hash) (tpt_getwritemount kernel a_vp s)
  unfolding tpt_getwritemount
  getwritemount-keeps a_vp s cache =
      let xp = (s.store.vnodes a_vp).v_data in
      elim (Bool-cases (xp == 0)) [
        | inl e ↦ rw (e) (Leaves-ok P _ _ cache)
        | inr e ↦ elim (Bool-cases ((s.store.nodes xp).tpt_lowervp == 0)) [
          | inl g ↦ rw (e) (rw (e, g) (Leaves-ok P _ _ cache))
          | inr g ↦ rw (e) (rw (e, g) (Leaves-ok P _ _ (sharing.cache _ _ cache)))
        ]
      ]

  pub print-keeps :
      (a_vp : ℕ) (s : State)
      → IsCache hash s.store
      → Leaves (IsCache hash) (tpt_print kernel a_vp s)
  unfolding tpt_print
  print-keeps a_vp s cache = elim (Bool-cases ((s.store.vnodes a_vp).v_data == 0)) [
    | inl e ↦ unfold Leaves in rw (e) tt
    | inr e ↦ rw (e) (Leaves-ok P _ _ cache)
  ]

  pub vptofh-keeps :
      (a_vp : ℕ) (s : State)
      → IsCache hash s.store
      → Leaves (IsCache hash) (tpt_vptofh kernel a_vp s)
  unfolding tpt_vptofh
  vptofh-keeps a_vp s cache =
      Leaves-lower P a_vp s _ (λ lvp. Leaves-ok P _ _ (sharing.cache _ _ cache))

  pub read_pgcache-keeps :
      (a_vp : ℕ) (s : State)
      → IsCache hash s.store
      → Leaves (IsCache hash) (tpt_read_pgcache kernel a_vp s)
  unfolding tpt_read_pgcache
  read_pgcache-keeps a_vp s cache = elim (Bool-cases ((s.store.vnodes a_vp).v_data == 0)) [
    | inl e ↦ rw (e) (Leaves-ok P _ _ cache)
    | inr e ↦ rw (e) (rw (e) (Leaves-ok P _ _ (sharing.cache _ _ (sharing.cache _ _ cache))))
  ]

  -- What follows VOP_VPUT_PAIR.
  after-keeps :
      (mp vp lvp : ℕ) (a_unlock_vp : Bool) (s : State)
      → IsCache hash s.store
      → Leaves (IsCache hash) (vput_pair_after hash kernel mp vp lvp a_unlock_vp s)
  unfolding vput_pair_after
  after-keeps mp vp lvp a_unlock_vp s cache =
      elim (Bool-cases
        (not a_unlock_vp && not ((s.store.vnodes vp).v_vnlock == (s.store.vnodes lvp).v_vnlock))) [
          | inl e ↦ rw (e) (
              Leaves-and_then _ _ _ _
                (Leaves-and_then _ P (tpt_nodeget hash kernel mp lvp s) _
                  (nodeget-keeps hash kernel is_owned sharing mp lvp s cache)
                  (λ made t c. elim (Bool-cases (made.0 == 0)) [
                    | inl g ↦ rw (g) (Leaves-ok P _ _ (sharing.cache _ _ c))
                    | inr g ↦ rw (g) (Leaves-ok P _ _ c)
                  ]))
                (λ vpp t c. release vpp t c))
          | inr e ↦ rw (e) (release vp s cache)
        ]
    where
      release :
          (vpp : ℕ) (t : State)
          → IsCache hash t.store
          → Leaves (IsCache hash) (
              ((if a_unlock_vp then (do _ ← call kernel (vrele vp); pure tt) else pure tt)
                  >> (note (vdrop vp) >> pure vpp))
                t)
      release vpp t c =
          Leaves-and_then _ _ _ _ (Leaves-call_if P kernel sharing.cache a_unlock_vp (vrele vp) t c)
            (λ a u d. Leaves-ok P vpp _ d)

  pub vput_pair-keeps :
      (a_dvp vp : ℕ) (a_unlock_vp : Bool) (s : State)
      → IsCache hash s.store
      → Leaves (IsCache hash) (tpt_vput_pair hash kernel a_dvp vp a_unlock_vp s)
  unfolding tpt_vput_pair
  vput_pair-keeps a_dvp vp a_unlock_vp s cache = Leaves-lower P a_dvp s _ (λ ldvp.
      elim (Bool-cases (vp == 0)) [
        | inl e ↦ rw (e) (Leaves-ok P _ _ (sharing.cache _ _ (sharing.cache _ _ cache)))
        | inr e ↦ rw (e) (
            Leaves-lower P vp (record { store = s.store; calls = vhold vp ∷ vref ldvp ∷ s.calls }) _
              (λ lvp. elim (Bool-cases a_unlock_vp) [
                | inl g ↦ rw (g) (
                    Leaves-and_then _ _ (vput_pair_after hash kernel _ vp _ true _) _
                      (after-keeps _ vp _ true _ (sharing.cache _ _ cache))
                      (λ vpp t c. Leaves-ok P _ _ (sharing.cache _ _ c)))
                | inr g ↦ rw (g) (
                    Leaves-and_then _ _ (vput_pair_after hash kernel _ vp _ false _) _
                      (after-keeps _ vp _ false _ (sharing.cache _ _ cache))
                      (λ vpp t c. Leaves-ok P _ _ (sharing.cache _ _ c)))
              ]))
      ])
