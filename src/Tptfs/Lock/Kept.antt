-- ===== src/Tptfs/Lock/Kept.antt =====
-- The store across tpt_lock and tpt_unlock.
use project_base_learning.Base.{
  ℕ, Bool, true, false, ◌==◌, ◌&&◌, Bool-cases, inl, inr, pure, if◌then◌else◌,
}
use project_base_learning.Tptfs.{
  Store, State, Kernel, Call, LkType, lk_shared, lk_exclusive, lk_upgrade, lk_other, note, vi_lock,
}
use project_base_learning.Tptfs.NodeCache.Kept.{Leaves, Leaves-and_then, Leaves-ok}
use project_base_learning.Tptfs.Lock.{relock_mode, lower_or_null, relock, tpt_lock, tpt_unlock}

module _ (P : Store → Type 0) where
  relock_mode-keeps : (flags : LkType) (s : State) → P s.store → Leaves P (relock_mode flags s)
  unfolding relock_mode Leaves
  relock_mode-keeps lk_shared s p = p
  relock_mode-keeps lk_upgrade s p = p
  relock_mode-keeps lk_exclusive s p = p
  relock_mode-keeps lk_other s p = tt

  lower_or_null-keeps : (vp : ℕ) (s : State) → P s.store → Leaves P (lower_or_null vp s)
  unfolding lower_or_null Leaves
  lower_or_null-keeps vp s p = elim (Bool-cases ((s.store.vnodes vp).v_data == 0)) [
    | inl e ↦ rw (e) p
    | inr e ↦ rw (e) (rw (e) p)
  ]

  module _ (kernel : Kernel) (keeps : (c : Call) (st : Store) → P st → P (kernel c st).store) where
    relock-keeps :
        (vp lvp : ℕ) (flags : LkType) (error : ℕ) (s : State)
        → P s.store
        → Leaves P (relock kernel vp lvp flags error s)
    unfolding relock
    relock-keeps vp lvp flags error s p =
        elim (Bool-cases (((s.store.vnodes vp).v_data == 0) && (error == 0))) [
          | inl e ↦ rw (e) (
              Leaves-and_then P P (relock_mode flags s) _ (relock_mode-keeps flags s p)
                (λ mode t q. Leaves-ok P _ _ (keeps _ _ (keeps _ _ q))))
          | inr e ↦ rw (e) (Leaves-ok P _ s p)
        ]

    interlock-keeps :
        (vp : ℕ) (interlock : Bool) (s : State)
        → P s.store
        → Leaves P ((if interlock then pure tt else note (vi_lock vp)) s)
    interlock-keeps vp true s p = Leaves-ok P tt s p
    interlock-keeps vp false s p = Leaves-ok P tt _ p

    pub lock-keeps :
        (vp : ℕ) (flags : LkType) (interlock : Bool) (s : State)
        → P s.store
        → Leaves P (tpt_lock kernel vp flags interlock s)
    unfolding tpt_lock
    lock-keeps vp flags interlock s p =
        Leaves-and_then P P _ _ (interlock-keeps vp interlock s p) (λ a t q.
          Leaves-and_then P P (lower_or_null vp t) _ (lower_or_null-keeps vp t q) (λ lvp u r.
            elim (Bool-cases (lvp == 0)) [
              | inl e ↦ rw (e) (Leaves-ok P _ _ (keeps _ _ r))
              | inr e ↦ rw (e) (
                  Leaves-and_then P P (relock kernel vp lvp flags _ _) _
                    (relock-keeps vp lvp flags _ _ (keeps _ _ r)) (λ error v o. Leaves-ok P _ _ o))
            ]))

    pub unlock-keeps : (vp : ℕ) (s : State) → P s.store → Leaves P (tpt_unlock kernel vp s)
    unfolding tpt_unlock
    unlock-keeps vp s p =
        Leaves-and_then P P (lower_or_null vp s) _ (lower_or_null-keeps vp s p) (λ lvp u r.
          elim (Bool-cases (lvp == 0)) [
            | inl e ↦ rw (e) (Leaves-ok P _ _ (keeps _ _ r))
            | inr e ↦ rw (e) (Leaves-ok P _ _ (keeps _ _ r))
          ])
