-- ===== src/Tptfs/Lock/Interlock.antt =====
-- The interlock and the holds across tpt_lock and tpt_unlock.
use project_base_learning.Base.{
  ℕ, ◌+◌, ◌≡◌, ◌≢◌, refl, Bool, true, false, ◌==◌, ◌&&◌, arith, eq→==, Bool-cases, inl, inr,
}
use project_base_learning.Tptfs.{
  State, Kernel, LkType, lk_shared, lk_exclusive, lk_upgrade, lk_other,
}
use project_base_learning.Tptfs.Lock.{tpt_lock, relock, relock_mode, lower_or_null}
use project_base_learning.Tptfs.Tally.{
  Ends, Ends-and_then, tally, holds, drops, interlocks, interunlocks, once, IsEven,
}

-- Afterwards the interlock of the vnode is free: it was taken here or, with LK_INTERLOCK, before,
-- and is let go of once.
abbrev pub IsInterlockFreed : (vp : ℕ) (interlock : Bool) → State → State → Type 0
IsInterlockFreed vp interlock s t =
    tally (interlocks vp) t.calls + once interlock + tally (interunlocks vp) s.calls
    ≡ tally (interunlocks vp) t.calls + tally (interlocks vp) s.calls

module _ (kernel : Kernel) where
  relock-ends :
      (l vp lvp : ℕ) (flags : LkType) (error : ℕ) (s : State)
      → flags ≢ lk_other
      → Ends
          (λ _ t.
            (tally (holds l) t.calls ≡ tally (holds l) s.calls)
            × (tally (drops l) t.calls ≡ tally (drops l) s.calls)
            × (tally (interlocks vp) t.calls ≡ tally (interlocks vp) s.calls)
            × (tally (interunlocks vp) t.calls ≡ tally (interunlocks vp) s.calls))
          (relock kernel vp lvp flags error s)
  unfolding relock relock_mode Ends tally holds drops interlocks interunlocks
  relock-ends l vp lvp lk_other error s known = elim (known refl) [ ]
  relock-ends l vp lvp lk_shared error s known =
      elim (Bool-cases (((s.store.vnodes vp).v_data == 0) && (error == 0))) [
        | inr e ↦ rw (e) (refl, refl, refl, refl)
        | inl e ↦ rw (e) (omega arith, omega arith, omega arith, omega arith)
      ]
  relock-ends l vp lvp lk_exclusive error s known =
      elim (Bool-cases (((s.store.vnodes vp).v_data == 0) && (error == 0))) [
        | inr e ↦ rw (e) (refl, refl, refl, refl)
        | inl e ↦ rw (e) (omega arith, omega arith, omega arith, omega arith)
      ]
  relock-ends l vp lvp lk_upgrade error s known =
      elim (Bool-cases (((s.store.vnodes vp).v_data == 0) && (error == 0))) [
        | inr e ↦ rw (e) (refl, refl, refl, refl)
        | inl e ↦ rw (e) (omega arith, omega arith, omega arith, omega arith)
      ]

  -- `tpt_lock` returns with the interlock of the vnode let go of exactly once, whether the caller
  -- had taken it or not, and holds no vnode any more; so on each path: with or without a node, and
  -- with the node reclaimed while the thread slept. Condition: the request is for a shared or an
  -- exclusive lock or an upgrade; the code panics on others when the node was reclaimed.
  pub tpt_lock-IsInterlockFreed :
      (l vp : ℕ) (flags : LkType) (interlock : Bool) (s : State)
      → flags ≢ lk_other
      → Ends
          (λ _ t. IsEven (holds l) (drops l) s t × IsInterlockFreed vp interlock s t)
          (tpt_lock kernel vp flags interlock s)
  unfolding tpt_lock lower_or_null Ends tally holds drops interlocks interunlocks once
  tpt_lock-IsInterlockFreed l vp flags true s known =
      let xp = (s.store.vnodes vp).v_data in
      let lvp = (s.store.nodes xp).tpt_lowervp in
      elim (Bool-cases (xp == 0)) [
        | inl e ↦ rw (e) (omega arith, ground (arith, eq→== vp vp refl))
        | inr e ↦ elim (Bool-cases (lvp == 0)) [
          | inl g ↦ rw (e, e, g) (omega arith, ground (arith, eq→== vp vp refl))
          | inr g ↦
              rw (e, e, g)
                (Ends-and_then _
                  (λ _ t. IsEven (holds l) (drops l) s t × IsInterlockFreed vp true s t)
                  (relock kernel vp lvp flags _ _) _ (relock-ends l vp lvp flags _ _ known)
                  (λ x t h. (omega (arith, h.0, h.1), ground (arith, h.2, h.3, eq→== vp vp refl))))
        ]
      ]
  tpt_lock-IsInterlockFreed l vp flags false s known =
      let xp = (s.store.vnodes vp).v_data in
      let lvp = (s.store.nodes xp).tpt_lowervp in
      elim (Bool-cases (xp == 0)) [
        | inl e ↦ rw (e) (omega arith, ground (arith, eq→== vp vp refl))
        | inr e ↦ elim (Bool-cases (lvp == 0)) [
          | inl g ↦ rw (e, e, g) (omega arith, ground (arith, eq→== vp vp refl))
          | inr g ↦
              rw (e, e, g)
                (Ends-and_then _
                  (λ _ t. IsEven (holds l) (drops l) s t × IsInterlockFreed vp false s t)
                  (relock kernel vp lvp flags _ _) _ (relock-ends l vp lvp flags _ _ known)
                  (λ x t h. (omega (arith, h.0, h.1), ground (arith, h.2, h.3, eq→== vp vp refl))))
        ]
      ]
