-- ===== src/Tptfs/Bypass/Kept.antt =====
-- The hash across tpt_bypass.
use project_base_learning.Base.{
  ℕ, suc, ◌≡◌, Bool, true, false, not, ◌==◌, ◌&&◌, ◌||◌, List, [], ◌∷◌, Bool-cases, inl, inr,
}
use project_base_learning.Tptfs.{Store, State, Kernel, Call, vop_islocked}
use project_base_learning.Tptfs.NodeCache.{islocked_exclusive}
use project_base_learning.Tptfs.NodeCache.Hash.{IsCache}
use project_base_learning.Tptfs.NodeCache.Kept.{Leaves, Leaves-and_then, Leaves-ok}
use project_base_learning.Tptfs.NodeCache.Kept.Nodeget.{IsSharing, nodeget-keeps}
use project_base_learning.Tptfs.Bypass.{
  Args, Slot, map_vp, map_vps, move_lock, unmap_vp, unmap_vps, bypass_call, bypass_vpp, tpt_bypass,
  first_arg, first_old, is_tpt,
}

module _ (P : Store → Type 0) where
  map_vp-keeps :
      (first : Bool) (vp : ℕ) (willrele : Bool) (s : State)
      → P s.store
      → Leaves P (map_vp first vp willrele s)
  unfolding map_vp Leaves
  map_vp-keeps first vp willrele s p =
      elim (Bool-cases (not first && ((vp == 0) || not (is_tpt (s.store.vnodes vp).v_op)))) [
        | inl e ↦ rw (e) p
        | inr e ↦ elim (Bool-cases ((s.store.vnodes vp).v_data == 0)) [
          | inl g ↦ rw (e, g) tt
          | inr g ↦ elim (Bool-cases willrele) [ inl h ↦ rw (e, g, h) p | inr h ↦ rw (e, g, h) p ]
        ]
      ]

  map_vps-keeps :
      (first : Bool) (vps : List (ℕ × Bool)) (s : State)
      → P s.store
      → Leaves P (map_vps first vps s)
  unfolding map_vps
  map_vps-keeps first [] s p = unfold Leaves in p
  map_vps-keeps first ((vp, willrele) ∷ rest) s p =
      Leaves-and_then P P (map_vp first vp willrele s) _ (map_vp-keeps first vp willrele s p)
        (λ slot t q.
          Leaves-and_then P P (map_vps false rest t) _ (map_vps-keeps false rest t q)
            (λ slots u r. Leaves-ok P (slot ∷ slots) u r))

  module _ (kernel : Kernel) (keeps : (c : Call) (st : Store) → P st → P (kernel c st).store) where
    move_lock-keeps : (lvp old : ℕ) (s : State) → P s.store → Leaves P (move_lock kernel lvp old s)
    unfolding move_lock Leaves
    move_lock-keeps lvp old s p = elim (Bool-cases (lvp == 0)) [
      | inl e ↦ rw (e) p
      | inr e ↦
          let locked = kernel (vop_islocked lvp) s.store in
          elim (Bool-cases (
            (locked.error == islocked_exclusive)
            && not ((locked.store.vnodes old).v_vnlock == (locked.store.vnodes lvp).v_vnlock))) [
              | inl g ↦ rw (e, g) (keeps _ _ (keeps _ _ (keeps _ _ p)))
              | inr g ↦ rw (e, g) (keeps _ _ p)
            ]
    ]

    unmap_vp-keeps :
        (lvp : ℕ) (slot : Slot) (s : State) → P s.store → Leaves P (unmap_vp kernel lvp slot s)
    unfolding unmap_vp
    unmap_vp-keeps lvp slot s p = elim (Bool-cases (slot.old == 0)) [
      | inl e ↦ unfold Leaves in rw (e) p
      | inr e ↦ rw (e) (
          Leaves-and_then P P (move_lock kernel lvp slot.old s) _ (move_lock-keeps lvp slot.old s p)
            (λ a t q. elim (Bool-cases slot.willrele) [
              | inl g ↦ unfold Leaves in rw (g) (keeps _ _ q)
              | inr g ↦ unfold Leaves in rw (g) q
            ]))
    ]

    unmap_vps-keeps :
        (after : ℕ → ℕ) (i : ℕ) (slots : List Slot) (s : State)
        → P s.store
        → Leaves P (unmap_vps kernel after i slots s)
    unfolding unmap_vps
    unmap_vps-keeps after i [] s p = unfold Leaves in p
    unmap_vps-keeps after i (slot ∷ rest) s p =
        Leaves-and_then P P (unmap_vp kernel (after i) slot s) _ (unmap_vp-keeps (after i) slot s p)
          (λ arg t q.
            Leaves-and_then P P (unmap_vps kernel after (suc i) rest t) _
              (unmap_vps-keeps after (suc i) rest t q) (λ args u r. Leaves-ok P (arg ∷ args) u r))

    plain_call-keeps :
        (hash : ℕ → ℕ) (slots : List Slot) (s : State)
        → P s.store
        → Leaves P (bypass_call hash kernel slots s)
    unfolding bypass_call Leaves
    plain_call-keeps hash slots s p = elim (Bool-cases (first_arg slots == 0)) [
      | inl e ↦ rw (e) p
      | inr e ↦ rw (e) (keeps _ _ p)
    ]

    -- An operation that returns no vnode keeps what the calls of the kernel keep.
    pub bypass_plain-keeps :
        (hash : ℕ → ℕ) (ap : Args) (s : State)
        → ap.has_vpp ≡ false
        → P s.store
        → Leaves P (tpt_bypass hash kernel ap s)
    unfolding tpt_bypass bypass_vpp
    bypass_plain-keeps hash ap s none p =
        Leaves-and_then P P (map_vps true ap.a_vps s) _ (map_vps-keeps true ap.a_vps s p)
          (λ slots t q.
            Leaves-and_then P P (bypass_call hash kernel slots t) _
              (plain_call-keeps hash slots t q)
              (λ called u r.
                Leaves-and_then P P (unmap_vps kernel called.2 0 slots u) _
                  (unmap_vps-keeps called.2 0 slots u r)
                  (λ args v o. rw (none) (Leaves-ok P _ v o))))

module _ (hash : ℕ → ℕ) (kernel : Kernel) (is_owned : ℕ → Store → Type 0)
    (sharing : IsSharing hash kernel is_owned) where
  vpp-keeps :
      (ap : Args) (slots : List Slot) (error out : ℕ) (s : State)
      → IsCache hash s.store
      → Leaves (IsCache hash) (bypass_vpp hash kernel ap slots error out s)
  unfolding bypass_vpp
  vpp-keeps ap slots error out s cache =
      elim (Bool-cases (ap.has_vpp && (error == 0) && not (ap.a_vpp == 0))) [
        | inl e ↦ rw (e) (
            nodeget-keeps hash kernel is_owned sharing (s.store.vnodes (first_old slots)).v_mount
              out s cache)
        | inr e ↦ unfold Leaves in rw (e) cache
      ]

  pub bypass-keeps :
      (ap : Args) (s : State)
      → IsCache hash s.store
      → Leaves (IsCache hash) (tpt_bypass hash kernel ap s)
  unfolding tpt_bypass
  bypass-keeps ap s cache =
      Leaves-and_then _ _ (map_vps true ap.a_vps s) _
        (map_vps-keeps (IsCache hash) true ap.a_vps s cache)
        (λ slots t c.
          Leaves-and_then _ _ (bypass_call hash kernel slots t) _
            (plain_call-keeps (IsCache hash) kernel sharing.cache hash slots t c)
            (λ called u d.
              Leaves-and_then _ _ (unmap_vps kernel called.2 0 slots u) _
                (unmap_vps-keeps (IsCache hash) kernel sharing.cache called.2 0 slots u d)
                (λ args v e.
                  Leaves-and_then _ _ (bypass_vpp hash kernel ap slots called.0 called.1 v) _
                    (vpp-keeps ap slots called.0 called.1 v e)
                    (λ made w f. Leaves-ok (IsCache hash) _ w f))))
