-- ===== src/Tptfs/Access/Holds.antt =====
-- The hold of tpt_lookup on the lower directory, which the lower layer may unlock.
use project_base_learning.Base.{
  ℕ, ◌+◌, ◌≡◌, ◌≢◌, refl, Bool, false, not, ◌==◌, ◌&&◌, ◌||◌, ◌∷◌, arith, ne→==, Bool-cases, inl,
  inr,
}
use project_base_learning.Tptfs.{
  State, Kernel, Call, vref, vrele, vput, vhold, vdrop, vop_lookup, vop_unlock, vn_lock,
  lk_exclusive,
}
use project_base_learning.Tptfs.NodeCache.{tpt_nodeget}
use project_base_learning.Tptfs.NodeCache.Creation.{IsObliging}
use project_base_learning.Tptfs.NodeCache.References.{tpt_nodeget-Outcome}
use project_base_learning.Tptfs.NodeCache.Silent.{IsHoldCount, is_hold, nodeget-Stays}
use project_base_learning.Tptfs.Tally.{
  Adds, Adds-Stays, Adds-and_then, Ends, Ends-and_then, Ends-IsEven, IsEven, Stays, Stays-and_then,
  tally, holds, drops,
}
use project_base_learning.Tptfs.Access.{
  tpt_lookup, lookup_doomed, lookup_alias, ComponentName, ejustreturn, is_delete_or_rename,
}

-- The vnode below, and the test on which `tpt_lookup` refuses at once.
abbrev pub lower_of : State → ℕ → ℕ
lower_of s vp = (s.store.nodes (s.store.vnodes vp).v_data).tpt_lowervp

abbrev pub is_refused : ℕ → ComponentName → State → Bool
is_refused dvp cnp s =
    cnp.islastcn
    && (s.store.mounts (s.store.vnodes dvp).v_mount).mnt_rdonly
    && is_delete_or_rename cnp.cn_nameiop

pub holds-q : (l : ℕ) → IsHoldCount (holds l)
unfolding holds is_hold
holds-q l c h = ground arith

pub drops-q : (l : ℕ) → IsHoldCount (drops l)
unfolding drops is_hold
drops-q l c h = ground arith

held_once :
    (l v : ℕ) → holds l (vhold v) + holds l (vdrop v) ≡ drops l (vhold v) + drops l (vdrop v)
unfolding holds drops
held_once l v = omega arith

module _ (f : Call → ℕ) (q : IsHoldCount f) (hash : ℕ → ℕ) (kernel : Kernel) where
  alias-Stays :
      (mp dvp ldvp error lvp vpp : ℕ) (s : State)
      → Stays f s.calls (lookup_alias hash kernel mp dvp ldvp error lvp vpp s)
  unfolding lookup_alias Stays tally is_hold
  alias-Stays mp dvp ldvp error lvp vpp s =
      elim (Bool-cases (((error == 0) || (error == ejustreturn)) && not (lvp == 0))) [
        | inr e ↦ rw (e) refl
        | inl e ↦ elim (Bool-cases (ldvp == lvp)) [
          | inl g ↦ rw (e, g) (omega (arith, q (vref dvp) refl, q (vrele lvp) refl))
          | inr g ↦
              rw (e, g)
                (Stays-and_then f s.calls (tpt_nodeget hash kernel mp lvp s) _
                  (nodeget-Stays f q hash kernel mp lvp s) (λ made t. refl))
        ]
      ]

  doomed-Stays :
      (dvp ldvp error lvp : ℕ) (s : State)
      → Stays f s.calls (lookup_doomed hash kernel dvp ldvp error lvp s)
  unfolding lookup_doomed Stays tally is_hold
  doomed-Stays dvp ldvp error lvp s =
      elim (Bool-cases
        (((error == 0) || (error == ejustreturn)) && (s.store.vnodes dvp).virf_doomed)) [
          | inr e ↦ rw (e) refl
          | inl e ↦ elim (Bool-cases (lvp == 0)) [
            | inl g ↦
                rw (e, g)
                  (omega (arith, q (vop_unlock ldvp) refl, q (vn_lock dvp lk_exclusive) refl))
            | inr g ↦
                rw (e, g)
                  (omega (
                    arith,
                    q (vput lvp) refl,
                    q (vop_unlock ldvp) refl,
                    q (vn_lock dvp lk_exclusive) refl,
                  ))
          ]
        ]

module _ (f : Call → ℕ) (q : IsHoldCount f) (hash : ℕ → ℕ) (kernel : Kernel) where
  lookup-Adds :
      (dvp : ℕ) (cnp : ComponentName) (vpp : ℕ) (s : State)
      → is_refused dvp cnp s ≡ false
      → (s.store.vnodes dvp).v_data ≢ 0
      → Adds f
          (f (vhold (lower_of s dvp)) + f (vdrop (lower_of s dvp)))
          s.calls
          (tpt_lookup hash kernel dvp cnp vpp s)
  unfolding tpt_lookup tally is_hold
  lookup-Adds dvp cnp vpp s b d =
      let ldvp = lower_of s dvp in
      rw (b, ne→== _ 0 d)
        (Adds-and_then f (f (vhold ldvp)) (f (vdrop ldvp)) s.calls
          (vop_lookup ldvp ∷ vhold ldvp ∷ s.calls) (lookup_doomed hash kernel dvp ldvp _ _ _) _
          (omega (arith, q (vop_lookup ldvp) refl)) (doomed-Stays f q hash kernel dvp ldvp _ _ _)
          (λ error t.
            Adds-Stays f (f (vdrop ldvp)) t.calls (vdrop ldvp ∷ t.calls) _ refl
              (alias-Stays f q hash kernel _ dvp ldvp _ _ vpp _)))

module _ (hash : ℕ → ℕ) (kernel : Kernel) (mp : ℕ) where
  doomed-ends :
      (dvp ldvp error lvp : ℕ) (s : State)
      → IsObliging kernel mp lvp
      → (s.store.mounts mp).mnt_data ≢ 0
      → Ends
          (λ _ t. (t.store.mounts mp).mnt_data ≢ 0)
          (lookup_doomed hash kernel dvp ldvp error lvp s)
  unfolding lookup_doomed Ends
  doomed-ends dvp ldvp error lvp s laws m =
      elim (Bool-cases
        (((error == 0) || (error == ejustreturn)) && (s.store.vnodes dvp).virf_doomed)) [
          | inr e ↦ rw (e) m
          | inl e ↦ elim (Bool-cases (lvp == 0)) [
            | inl g ↦ rw (e, g) (laws.stays _ _ (laws.stays _ _ m))
            | inr g ↦ rw (e, g) (laws.stays _ _ (laws.stays _ _ (laws.stays _ _ m)))
          ]
        ]

  alias-ends :
      (dvp ldvp error lvp vpp : ℕ) (s : State)
      → IsObliging kernel mp lvp
      → (s.store.mounts mp).mnt_data ≢ 0
      → Ends (λ _ _. Unit) (lookup_alias hash kernel mp dvp ldvp error lvp vpp s)
  unfolding lookup_alias Ends
  alias-ends dvp ldvp error lvp vpp s laws m =
      elim (Bool-cases (((error == 0) || (error == ejustreturn)) && not (lvp == 0))) [
        | inr e ↦ rw (e) tt
        | inl e ↦ elim (Bool-cases (ldvp == lvp)) [
          | inl g ↦ rw (e, g) tt
          | inr g ↦
              rw (e, g)
                (Ends-and_then _ _ (tpt_nodeget hash kernel mp lvp s) _
                  (tpt_nodeget-Outcome hash kernel mp lvp s laws m) (λ made t o. tt))
        ]
      ]

module _ (hash : ℕ → ℕ) (kernel : Kernel) where
  lookup-ends :
      (dvp : ℕ) (cnp : ComponentName) (vpp : ℕ) (s : State)
      → is_refused dvp cnp s ≡ false
      → (s.store.vnodes dvp).v_data ≢ 0
      → (s.store.mounts (s.store.vnodes dvp).v_mount).mnt_data ≢ 0
      → IsObliging kernel
          (s.store.vnodes dvp).v_mount
          (kernel (vop_lookup (lower_of s dvp)) s.store).out
      → Ends (λ _ _. Unit) (tpt_lookup hash kernel dvp cnp vpp s)
  unfolding tpt_lookup
  lookup-ends dvp cnp vpp s b d m laws =
      let mp = (s.store.vnodes dvp).v_mount in
      let ldvp = lower_of s dvp in
      rw (b, ne→== _ 0 d)
        (Ends-and_then _ _ (lookup_doomed hash kernel dvp ldvp _ _ _) _
          (doomed-ends hash kernel mp dvp ldvp _ _ _ laws (laws.stays _ _ m))
          (λ error t n. alias-ends hash kernel mp dvp ldvp _ _ vpp _ laws n))

  -- `tpt_lookup` always returns, and lets go of every vnode as often as it holds it: the lower
  -- directory is not held any more, whatever the lower layer answers and whether the directory
  -- was reclaimed meanwhile or not. Conditions: the directory is not reclaimed at the start, its
  -- mount has its data, and the kernel keeps to its rules on the vnode that was looked up.
  pub tpt_lookup-holds :
      (dvp : ℕ) (cnp : ComponentName) (vpp l : ℕ) (s : State)
      → (s.store.vnodes dvp).v_data ≢ 0
      → (s.store.mounts (s.store.vnodes dvp).v_mount).mnt_data ≢ 0
      → IsObliging kernel
          (s.store.vnodes dvp).v_mount
          (kernel (vop_lookup (lower_of s dvp)) s.store).out
      → Ends (λ _ t. IsEven (holds l) (drops l) s t) (tpt_lookup hash kernel dvp cnp vpp s)
  tpt_lookup-holds dvp cnp vpp l s d m laws = elim (Bool-cases (is_refused dvp cnp s)) [
    | inl e ↦ unfold tpt_lookup Ends in rw (e) (omega arith)
    | inr e ↦
        Ends-IsEven (holds l) (drops l) _ _ s (tpt_lookup hash kernel dvp cnp vpp s) _
          (held_once l (lower_of s dvp)) (lookup-ends dvp cnp vpp s e d m laws)
          (lookup-Adds (holds l) (holds-q l) hash kernel dvp cnp vpp s e d)
          (lookup-Adds (drops l) (drops-q l) hash kernel dvp cnp vpp s e d)
  ]
