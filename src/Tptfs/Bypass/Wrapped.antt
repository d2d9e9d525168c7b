-- ===== src/Tptfs/Bypass/Wrapped.antt =====
-- The hash across tpt_add_writecount, tpt_open, tpt_stat and tpt_getattr.
use project_base_learning.Base.{ℕ, refl, ◌==◌, not, Bool-cases, inl, inr}
use project_base_learning.Tptfs.{Store, State, Kernel, vop_add_writecount}
use project_base_learning.Tptfs.NodeCache.Hash.{IsCache}
use project_base_learning.Tptfs.NodeCache.Kept.{Leaves, Leaves-and_then, Leaves-ok, vnode-IsCache}
use project_base_learning.Tptfs.NodeCache.Kept.Combined.{Leaves-lower}
use project_base_learning.Tptfs.NodeCache.Kept.Nodeget.{IsSharing}
use project_base_learning.Tptfs.Bypass.{
  Args, Result, tpt_bypass, tpt_add_writecount, tpt_open, tpt_stat, tpt_getattr,
}
use project_base_learning.Tptfs.Bypass.Kept.{bypass-keeps}

module _ (hash : ℕ → ℕ) (kernel : Kernel) (is_owned : ℕ → Store → Type 0)
    (sharing : IsSharing hash kernel is_owned) where
  abbrev P : Store → Type 0
  P = IsCache hash

  pub writecount-keeps :
      (a_vp a_inc : ℕ) (s : State)
      → IsCache hash s.store
      → Leaves (IsCache hash) (tpt_add_writecount hash kernel a_vp a_inc s)
  unfolding tpt_add_writecount
  writecount-keeps a_vp a_inc s cache = Leaves-lower P a_vp s _ (λ lvp.
      let after = kernel (vop_add_writecount lvp a_inc) s.store in
      elim (Bool-cases (after.error == 0)) [
        | inl e ↦
            rw (e) (
              Leaves-ok P _ _
                (vnode-IsCache hash after.store a_vp _ (sharing.cache _ _ cache) refl))
        | inr e ↦ rw (e) (Leaves-ok P _ _ (sharing.cache _ _ cache))
      ])

  pub open-keeps :
      (a_vp : ℕ) (a_gen : Args) (s : State)
      → IsCache hash s.store
      → Leaves (IsCache hash) (tpt_open hash kernel a_vp a_gen s)
  unfolding tpt_open
  open-keeps a_vp a_gen s cache = Leaves-lower P a_vp s _ (λ ldvp.
      Leaves-and_then _ _ (tpt_bypass hash kernel a_gen s) _
        (bypass-keeps hash kernel is_owned sharing a_gen s cache)
        (λ r t c. elim (Bool-cases (Result.error r == 0)) [
          | inl e ↦ rw (e) (Leaves-ok P _ _ (vnode-IsCache hash t.store a_vp _ c refl))
          | inr e ↦ rw (e) (Leaves-ok P _ _ c)
        ]))

  pub stat-keeps :
      (a_vp : ℕ) (a_gen : Args) (st_dev : ℕ) (s : State)
      → IsCache hash s.store
      → Leaves (IsCache hash) (tpt_stat hash kernel a_vp a_gen st_dev s)
  unfolding tpt_stat
  stat-keeps a_vp a_gen st_dev s cache =
      Leaves-and_then _ _ (tpt_bypass hash kernel a_gen s) _
        (bypass-keeps hash kernel is_owned sharing a_gen s cache)
        (λ r t c. elim (Bool-cases (not (Result.error r == 0))) [
          | inl e ↦ rw (e) (Leaves-ok P _ _ c)
          | inr e ↦ rw (e) (Leaves-ok P _ _ c)
        ])

  pub getattr-keeps :
      (a_vp : ℕ) (a_gen : Args) (va_fsid : ℕ) (s : State)
      → IsCache hash s.store
      → Leaves (IsCache hash) (tpt_getattr hash kernel a_vp a_gen va_fsid s)
  unfolding tpt_getattr tpt_stat
  getattr-keeps a_vp a_gen va_fsid s cache = stat-keeps a_vp a_gen va_fsid s cache
