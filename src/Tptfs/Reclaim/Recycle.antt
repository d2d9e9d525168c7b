-- ===== src/Tptfs/Reclaim/Recycle.antt =====
-- When a vnode that is not used any more is recycled.
use project_base_learning.Base.{
  ℕ, arith, ◌⊎◌, true, false, update, ok, ◌≡◌, ◌≢◌, refl, Bool, not, ◌||◌, if◌then◌else◌, ◌∷◌,
  ne→==, Bool-cases, inl, inr,
}
use project_base_learning.Tptfs.{State, Store, Kernel, vrecycle}
use project_base_learning.Tptfs.Tally.{Ends}
use project_base_learning.Tptfs.Reclaim.{tpt_want_recycle, tpt_inactive, tpt_need_inactive}

-- The node is to be dropped, or nodes are not cached, or the lower vnode was unlinked.
abbrev pub is_wanted : ℕ → State → Bool
is_wanted vp s =
    let v = s.store.vnodes vp in
    let xp = s.store.nodes v.v_data in
    not (s.store.tpt_mounts (s.store.mounts v.v_mount).mnt_data).nullm_cache
    || xp.nullv_drop
    || (s.store.vnodes xp.tpt_lowervp).vv_nosync

-- Why a vnode of the layer is not kept when nobody uses it any more.
pub data IsWanted (vp : ℕ) (st : Store) : Type 0 where
  uncached :
      (st.tpt_mounts (st.mounts (st.vnodes vp).v_mount).mnt_data).nullm_cache ≡ false
      → IsWanted vp st
  dropped : (st.nodes (st.vnodes vp).v_data).nullv_drop ≡ true → IsWanted vp st
  unlinked :
      (st.vnodes (st.nodes (st.vnodes vp).v_data).tpt_lowervp).vv_nosync ≡ true → IsWanted vp st

-- After the vnode's object was cleared and the kernel has recycled the vnode.
abbrev pub recycled : Kernel → ℕ → State → State
recycled kernel vp s =
    let cleared = record (s.store) {
      vnodes = update s.store.vnodes vp (record (s.store.vnodes vp) { v_object = 0 });
    } in
    record s { store = (kernel (vrecycle vp) cleared).store; calls = vrecycle vp ∷ s.calls }

refused : (vp : ℕ) (s : State) → is_wanted vp s ≡ false → ¬ IsWanted vp s.store
refused vp s e (uncached h) = ground (arith, e, h)
refused vp s e (dropped h) = ground (arith, e, h)
refused vp s e (unlinked h) = ground (arith, e, h)

IsWanted-cases :
    (vp : ℕ) (s : State)
    → ((is_wanted vp s ≡ true) × IsWanted vp s.store)
      ⊎ ((is_wanted vp s ≡ false) × ¬ IsWanted vp s.store)
IsWanted-cases vp s =
    let v = s.store.vnodes vp in
    let xp = s.store.nodes v.v_data in
    let cache = (s.store.tpt_mounts (s.store.mounts v.v_mount).mnt_data).nullm_cache in
    let nosync = (s.store.vnodes xp.tpt_lowervp).vv_nosync in
    elim (Bool-cases cache) [
      | inr c ↦ inl (ground (arith, c), uncached c)
      | inl c ↦ elim (Bool-cases xp.nullv_drop) [
        | inl d ↦ inl (ground (arith, c, d), dropped d)
        | inr d ↦ elim (Bool-cases nosync) [
          | inl n ↦ inl (ground (arith, c, d, n), unlinked n)
          | inr n ↦ inr (ground (arith, c, d, n), refused vp s (ground (arith, c, d, n)))
        ]
      ]
    ]

module _ (hash : ℕ → ℕ) (kernel : Kernel) (vp : ℕ) (s : State)
    (node : (s.store.vnodes vp).v_data ≢ 0)
    (filled : (s.store.mounts (s.store.vnodes vp).v_mount).mnt_data ≢ 0) where
  pub inactive-ends :
      Ends
        (λ r u. (r ≡ 0) × (u.calls ≡ (if is_wanted vp s then vrecycle vp ∷ s.calls else s.calls)))
        (tpt_inactive hash kernel vp s)
  unfolding tpt_inactive tpt_want_recycle Ends
  inactive-ends = elim (Bool-cases (is_wanted vp s)) [
    | inl e ↦ rw (ne→== _ 0 node, ne→== _ 0 filled, e) (refl, refl)
    | inr e ↦ rw (ne→== _ 0 node, ne→== _ 0 filled, e) (refl, refl)
  ]

  -- `tpt_need_inactive` answers exactly whether `tpt_inactive` has something to do. It is true, and
  -- then `tpt_inactive` clears the vnode's object, has the kernel recycle the vnode and does nothing
  -- else, when the mount does not cache nodes, the node is to be dropped or the lower vnode was
  -- unlinked; it is false, and then `tpt_inactive` changes nothing at all and makes no call, when
  -- none of the three holds. Conditions: the vnode has its node, and the mount its data.
  pub tpt_need_inactive-tpt_inactive :
      Ends
        (λ need t.
          (t ≡ s)
          × (((need ≡ true)
                × IsWanted vp s.store
                × (tpt_inactive hash kernel vp s ≡ ok 0 (recycled kernel vp s)))
              ⊎ ((need ≡ false)
                  × ¬ IsWanted vp s.store
                  × (tpt_inactive hash kernel vp s ≡ ok 0 s))))
        (tpt_need_inactive vp s)
  unfolding tpt_need_inactive tpt_want_recycle tpt_inactive Ends
  tpt_need_inactive-tpt_inactive = elim (IsWanted-cases vp s) [
    | inl (e, wanted) ↦ rw (ne→== _ 0 node, ne→== _ 0 filled, e) (refl, inl (refl, wanted, refl))
    | inr (e, unwanted) ↦
        rw (ne→== _ 0 node, ne→== _ 0 filled, e) (refl, inr (refl, unwanted, refl))
  ]
