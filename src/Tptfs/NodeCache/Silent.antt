-- ===== src/Tptfs/NodeCache/Silent.antt =====
-- The calls of tpt_nodeget: holds, and references on mounts.
use project_base_learning.Base.{
  ℕ, ◌≡◌, refl, Bool, true, false, not, ◌==◌, ◌&&◌, List, ◌∷◌, Run, arith, Bool-cases, inl, inr,
}
use project_base_learning.Tptfs.{
  State, Kernel, Call, vref, vrele, vput, vgone, vi_lock, vi_unlock, vop_islocked, lock_own,
  vn_lock, lk_upgrade, getnewvnode, insmntque1, malloc, free, hash_rlock, hash_runlock, hash_wlock,
  hash_wunlock, vhold, vholdnz, vdrop, vfs_ref, vfs_rel,
}
use project_base_learning.Tptfs.NodeCache.{
  tpt_hashget, tpt_hashins, tpt_destroy_proto, tpt_insmntque_dtr, nodeget_insert, nodeget_pgread,
  nodeget_enter, nodeget_queue, nodeget_fill, nodeget_create, nodeget_upgrade, nodeget_found,
  tpt_nodeget, list_find, list_empty, is_alias, islocked_exclusive,
}
use project_base_learning.Tptfs.Tally.{Stays, Stays-∷, Stays-and_then, tally}

unfoldable pub is_hold : Call → Bool
is_hold (vhold _) = true
is_hold (vholdnz _) = true
is_hold (vdrop _) = true
is_hold (vfs_ref _) = true
is_hold (vfs_rel _) = true
is_hold _ = false

-- `f` counts only calls that hold, reference a mount or let go.
abbrev pub IsHoldCount : (Call → ℕ) → Type 0
IsHoldCount f = (c : Call) → is_hold c ≡ false → f c ≡ 0

module _ (f : Call → ℕ) (q : IsHoldCount f) (hash : ℕ → ℕ) (kernel : Kernel) where
  pub skip :
      (c : Call)
      → is_hold c ≡ false
      → {A : Type 0} (cs : List Call) (r : Run State A) → Stays f (c ∷ cs) r
      → Stays f cs r
  skip c h cs r = Stays-∷ f c cs r (q c h)

  proto-Stays : (vp xp : ℕ) (s : State) → Stays f s.calls (tpt_destroy_proto kernel vp xp s)
  unfolding tpt_destroy_proto Stays tally is_hold
  proto-Stays vp xp s = omega (
    arith,
    q (lock_own vp) refl,
    q (vi_lock vp) refl,
    q (vi_unlock vp) refl,
    q (vgone vp) refl,
    q (vput vp) refl,
    q (free xp) refl,
  )

  dtr-Stays : (vp xp : ℕ) (s : State) → Stays f s.calls (tpt_insmntque_dtr kernel vp xp s)
  unfolding tpt_insmntque_dtr Stays tally is_hold
  dtr-Stays vp xp s = elim (Bool-cases (xp == 0)) [
    | inl e ↦ rw (e) tt
    | inr e ↦ rw (e) (skip (vput (s.store.nodes xp).tpt_lowervp) refl _ _ (proto-Stays vp xp _))
  ]

  hashins-Stays : (mp xp : ℕ) (s : State) → Stays f s.calls (tpt_hashins hash mp xp s)
  unfolding tpt_hashins Stays tally is_hold
  hashins-Stays mp xp s =
      let lowervp = (s.store.nodes xp).tpt_lowervp in
      let found = list_find (is_alias s.store mp lowervp) (s.store.hashtbl (hash lowervp)) in
      elim (Bool-cases (found == 0)) [
        | inl e ↦ rw (e) (omega (arith, q hash_wlock refl, q hash_wunlock refl))
        | inr e ↦ rw (e) (
            omega (
              arith,
              q hash_wlock refl,
              q hash_wunlock refl,
              q (vref (s.store.nodes found).tpt_vnode) refl,
            ))
      ]

  insert-Stays :
      (mp lowervp xp vp : ℕ) (s : State)
      → Stays f s.calls (nodeget_insert hash kernel mp lowervp xp vp s)
  unfolding nodeget_insert Stays tally is_hold
  insert-Stays mp lowervp xp vp s =
      Stays-and_then f s.calls (tpt_hashins hash mp xp s) _ (hashins-Stays mp xp s) (λ other t.
        elim (Bool-cases (other == 0)) [
          | inl e ↦ rw (e) refl
          | inr e ↦ rw (e) (
              skip (vrele lowervp) refl t.calls _ (
                Stays-and_then f (vrele lowervp ∷ t.calls) (tpt_destroy_proto kernel vp xp _) _
                  (proto-Stays vp xp _) (λ _ u. refl)))
        ])

  pgread-Stays :
      (lowervp vp : ℕ) (s : State) → Stays f s.calls (nodeget_pgread hash kernel lowervp vp s)
  unfolding nodeget_pgread Stays
  pgread-Stays lowervp vp s =
      elim (Bool-cases
        ((s.store.vnodes lowervp).virf_pgread && not (s.store.vnodes vp).virf_pgread)) [
          | inl e ↦ rw (e) refl
          | inr e ↦ rw (e) refl
        ]

  enter-Stays :
      (mp lowervp xp vp : ℕ) (s : State)
      → Stays f s.calls (nodeget_enter hash kernel mp lowervp xp vp s)
  unfolding nodeget_enter
  enter-Stays mp lowervp xp vp s = elim (Bool-cases ((s.store.mounts mp).mnt_data == 0)) [
    | inl e ↦ rw (e) (unfold Stays in tt)
    | inr e ↦ rw (e) (
        Stays-and_then f s.calls _ _ (pgread-Stays lowervp vp _)
          (λ _ t. insert-Stays mp lowervp xp vp t))
  ]

  queue-Stays :
      (mp lowervp xp vp : ℕ) (s : State)
      → Stays f s.calls (nodeget_queue hash kernel mp lowervp xp vp s)
  unfolding nodeget_queue Stays tally is_hold
  queue-Stays mp lowervp xp vp s =
      let queued = kernel (insmntque1 vp mp) s.store in
      elim (Bool-cases (queued.error == 0)) [
        | inl e ↦ rw (e) (skip (insmntque1 vp mp) refl s.calls _ (enter-Stays mp lowervp xp vp _))
        | inr e ↦ rw (e) (
            skip (insmntque1 vp mp) refl s.calls _ (
              Stays-and_then f (insmntque1 vp mp ∷ s.calls) (tpt_insmntque_dtr kernel vp xp _) _
                (dtr-Stays vp xp _) (λ _ u. refl)))
      ]

  fill-Stays :
      (mp lowervp xp vp : ℕ) (s : State)
      → Stays f s.calls (nodeget_fill hash kernel mp lowervp xp vp s)
  unfolding nodeget_fill
  fill-Stays mp lowervp xp vp s = elim (Bool-cases (xp == 0)) [
    | inl e ↦ rw (e) (unfold Stays in tt)
    | inr e ↦ rw (e) (queue-Stays mp lowervp xp vp _)
  ]

  create-Stays :
      (mp lowervp : ℕ) (s : State) → Stays f s.calls (nodeget_create hash kernel mp lowervp s)
  unfolding nodeget_create Stays tally is_hold
  create-Stays mp lowervp s =
      let memory = kernel malloc s.store in
      elim (Bool-cases ((kernel (getnewvnode mp) memory.store).error == 0)) [
        | inr e ↦ rw (e) (
            omega (
              arith,
              q malloc refl,
              q (getnewvnode mp) refl,
              q (vput lowervp) refl,
              q (free memory.out) refl,
            ))
        | inl e ↦ rw (e) (
            skip malloc refl s.calls _ (
              skip (getnewvnode mp) refl (malloc ∷ s.calls) _
                (fill-Stays mp lowervp memory.out (kernel (getnewvnode mp) memory.store).out _)))
      ]

  upgrade-Stays :
      (mp lowervp : ℕ) (s : State) → Stays f s.calls (nodeget_upgrade hash kernel mp lowervp s)
  unfolding nodeget_upgrade Stays tally is_hold
  upgrade-Stays mp lowervp s =
      let locked = kernel (vop_islocked lowervp) s.store in
      let upgraded = kernel (vn_lock lowervp lk_upgrade) locked.store in
      let asks = q (vop_islocked lowervp) refl in
      let locks = q (vn_lock lowervp lk_upgrade) refl in
      elim (Bool-cases (locked.error == islocked_exclusive)) [
        | inl e ↦ rw (e) (skip (vop_islocked lowervp) refl s.calls _ (create-Stays mp lowervp _))
        | inr e ↦ elim (Bool-cases (upgraded.store.vnodes lowervp).virf_doomed) [
          | inl d ↦ rw (e, d) (omega (arith, asks, locks, q (vput lowervp) refl))
          | inr d ↦
              rw (e, d)
                (skip (vop_islocked lowervp) refl s.calls _ (
                  skip (vn_lock lowervp lk_upgrade) refl (vop_islocked lowervp ∷ s.calls) _
                    (create-Stays mp lowervp _)))
        ]
      ]

  hashget-Stays : (mp lowervp : ℕ) (s : State) → Stays f s.calls (tpt_hashget hash mp lowervp s)
  unfolding tpt_hashget Stays tally is_hold
  hashget-Stays mp lowervp s =
      let hd = s.store.hashtbl (hash lowervp) in
      let found = list_find (is_alias s.store mp lowervp) hd in
      let other = (s.store.nodes found).tpt_vnode in
      elim (Bool-cases (list_empty hd)) [
        | inl e ↦ rw (e) refl
        | inr e ↦ elim (Bool-cases (found == 0)) [
          | inl g ↦ rw (e, g) (omega (arith, q hash_rlock refl, q hash_runlock refl))
          | inr g ↦
              rw (e, g) (omega (arith, q hash_rlock refl, q hash_runlock refl, q (vref other) refl))
        ]
      ]

  pub nodeget-Stays :
      (mp lowervp : ℕ) (s : State) → Stays f s.calls (tpt_nodeget hash kernel mp lowervp s)
  unfolding tpt_nodeget nodeget_found Stays tally is_hold
  nodeget-Stays mp lowervp s =
      Stays-and_then f s.calls (tpt_hashget hash mp lowervp s) _ (hashget-Stays mp lowervp s)
        (λ found t. elim (Bool-cases (found == 0)) [
          | inl e ↦ rw (e) (upgrade-Stays mp lowervp t)
          | inr e ↦ rw (e) (omega (arith, q (vrele lowervp) refl))
        ])
