-- ===== src/Tptfs/Access/Kept.antt =====
-- The hash across tpt_lookup, tpt_setattr, tpt_access and tpt_accessx.
use project_base_learning.Base.{
  ℕ, ◌≡◌, refl, ◌==◌, not, ◌&&◌, ◌||◌, ◌⊎◌, inl, inr, bit_and, Bool-cases,
}
use project_base_learning.Tptfs.{Store, State, Kernel, vput}
use project_base_learning.Tptfs.NodeCache.{tpt_nodeget}
use project_base_learning.Tptfs.NodeCache.Hash.{IsCache}
use project_base_learning.Tptfs.NodeCache.Kept.{Leaves, Leaves-and_then, Leaves-ok}
use project_base_learning.Tptfs.NodeCache.Kept.Combined.{Leaves-lower, Leaves-call_if}
use project_base_learning.Tptfs.NodeCache.Kept.Nodeget.{IsSharing, nodeget-keeps}
use project_base_learning.Tptfs.Bypass.{Args, tpt_bypass}
use project_base_learning.Tptfs.Bypass.Kept.{bypass-keeps}
use project_base_learning.Tptfs.Access.{
  ComponentName, Vattr, SizeVerdict, returns, goes_on, bypass_error, tpt_lookup, lookup_doomed,
  lookup_alias, tpt_setattr, tpt_access, tpt_accessx, ejustreturn, size_verdict, sets_attribute,
  vnoval64, vwrite, is_file, is_delete_or_rename,
}

verdict_cases : (v : SizeVerdict) → ((e : ℕ) × (v ≡ returns e)) ⊎ (v ≡ goes_on)
verdict_cases (returns e) = inl (e, refl)
verdict_cases goes_on = inr refl

module _ (hash : ℕ → ℕ) (kernel : Kernel) (is_owned : ℕ → Store → Type 0)
    (sharing : IsSharing hash kernel is_owned) where
  abbrev P : Store → Type 0
  P = IsCache hash

  pub bypass_error-keeps :
      (ap : Args) (s : State)
      → IsCache hash s.store
      → Leaves (IsCache hash) (bypass_error hash kernel ap s)
  unfolding bypass_error
  bypass_error-keeps ap s cache =
      Leaves-and_then _ _ (tpt_bypass hash kernel ap s) _
        (bypass-keeps hash kernel is_owned sharing ap s cache) (λ r t c. Leaves-ok P _ t c)

  doomed-keeps :
      (dvp ldvp error lvp : ℕ) (s : State)
      → IsCache hash s.store
      → Leaves (IsCache hash) (lookup_doomed hash kernel dvp ldvp error lvp s)
  unfolding lookup_doomed
  doomed-keeps dvp ldvp error lvp s cache =
      elim (Bool-cases
        (((error == 0) || (error == ejustreturn)) && (s.store.vnodes dvp).virf_doomed)) [
          | inl e ↦ rw (e) (
              Leaves-and_then _ _ _ _
                (Leaves-call_if P kernel sharing.cache (not (lvp == 0)) (vput lvp) s cache)
                (λ a t c. Leaves-ok P _ _ (sharing.cache _ _ (sharing.cache _ _ c))))
          | inr e ↦ rw (e) (Leaves-ok P _ s cache)
        ]

  alias-keeps :
      (mp dvp ldvp error lvp vpp : ℕ) (s : State)
      → IsCache hash s.store
      → Leaves (IsCache hash) (lookup_alias hash kernel mp dvp ldvp error lvp vpp s)
  unfolding lookup_alias
  alias-keeps mp dvp ldvp error lvp vpp s cache =
      elim (Bool-cases (((error == 0) || (error == ejustreturn)) && not (lvp == 0))) [
        | inl e ↦ elim (Bool-cases (ldvp == lvp)) [
          | inl g ↦ rw (e, g) (Leaves-ok P _ _ (sharing.cache _ _ cache))
          | inr g ↦
              rw (e, g)
                (Leaves-and_then _ _ (tpt_nodeget hash kernel mp lvp s) _
                  (nodeget-keeps hash kernel is_owned sharing mp lvp s cache)
                  (λ made t c. Leaves-ok P _ t c))
        ]
        | inr e ↦ rw (e) (Leaves-ok P _ s cache)
      ]

  pub lookup-keeps :
      (a_dvp : ℕ) (a_cnp : ComponentName) (a_vpp : ℕ) (s : State)
      → IsCache hash s.store
      → Leaves (IsCache hash) (tpt_lookup hash kernel a_dvp a_cnp a_vpp s)
  unfolding tpt_lookup
  lookup-keeps a_dvp a_cnp a_vpp s cache =
      let mp = (s.store.vnodes a_dvp).v_mount in
      elim (Bool-cases (
        a_cnp.islastcn && (s.store.mounts mp).mnt_rdonly && is_delete_or_rename a_cnp.cn_nameiop)) [
          | inl e ↦ rw (e) (Leaves-ok P _ s cache)
          | inr e ↦ rw (e) (
              Leaves-lower P a_dvp s _ (λ ldvp.
                Leaves-and_then _ _ (lookup_doomed hash kernel a_dvp ldvp _ _ _) _
                  (doomed-keeps a_dvp ldvp _ _ _ (sharing.cache _ _ cache))
                  (λ error t c. alias-keeps mp a_dvp ldvp _ _ a_vpp _ c)))
        ]

  pub setattr-keeps :
      (a_vp : ℕ) (a_vap : Vattr) (ap : Args) (s : State)
      → IsCache hash s.store
      → Leaves (IsCache hash) (tpt_setattr hash kernel a_vp a_vap ap s)
  unfolding tpt_setattr
  setattr-keeps a_vp a_vap ap s cache =
      let v = s.store.vnodes a_vp in
      let rdonly = (s.store.mounts v.v_mount).mnt_rdonly in
      elim (Bool-cases (sets_attribute a_vap && rdonly)) [
        | inl e ↦ rw (e) (Leaves-ok P _ s cache)
        | inr e ↦ elim (Bool-cases (not (a_vap.va_size == vnoval64))) [
          | inl g ↦ elim (verdict_cases (size_verdict v.v_type a_vap.va_flags rdonly)) [
            | inl (returned, same) ↦ rw (e, g, same) (Leaves-ok P _ s cache)
            | inr same ↦ rw (e, g, same) (bypass_error-keeps ap s cache)
          ]
          | inr g ↦ rw (e, g) (bypass_error-keeps ap s cache)
        ]
      ]

  pub access-keeps :
      (a_vp a_accmode : ℕ) (ap : Args) (s : State)
      → IsCache hash s.store
      → Leaves (IsCache hash) (tpt_access hash kernel a_vp a_accmode ap s)
  unfolding tpt_access
  access-keeps a_vp a_accmode ap s cache =
      let v = s.store.vnodes a_vp in
      elim (Bool-cases (
        not (bit_and a_accmode vwrite == 0)
        && is_file v.v_type
        && (s.store.mounts v.v_mount).mnt_rdonly)) [
          | inl e ↦ rw (e) (Leaves-ok P _ s cache)
          | inr e ↦ rw (e) (bypass_error-keeps ap s cache)
        ]

  pub accessx-keeps :
      (a_vp a_accmode : ℕ) (ap : Args) (s : State)
      → IsCache hash s.store
      → Leaves (IsCache hash) (tpt_accessx hash kernel a_vp a_accmode ap s)
  unfolding tpt_accessx tpt_access
  accessx-keeps a_vp a_accmode ap s cache = access-keeps a_vp a_accmode ap s cache
