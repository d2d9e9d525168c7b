-- ===== src/Tptfs/NodeCache/Kept/Combined.antt =====
-- The store across commands that are put together from others.
use project_base_learning.Base.{
  ℕ, ◌==◌, Bool, true, false, if◌then◌else◌, Bool-cases, inl, inr, Cmd, and_then, pure, ◌>>=◌,
}
use project_base_learning.Tptfs.{
  Store, State, Kernel, Call, TptMount, call, null_vp_to_lower_vp, tpt_mount, tpt_mount_at,
}
use project_base_learning.Tptfs.NodeCache.Kept.{Leaves, Leaves-ok}

module _ (P : Store → Type 0) where
  -- The lower vnode of a vnode that may have no node.
  pub Leaves-lower :
      {A : Type 0} (vp : ℕ) (s : State) (k : ℕ → Cmd State A)
      → ((lvp : ℕ) → Leaves P (k lvp s))
      → Leaves P (and_then (null_vp_to_lower_vp vp s) k)
  Leaves-lower vp s k h = elim (Bool-cases ((s.store.vnodes vp).v_data == 0)) [
    | inl e ↦ unfold Leaves in rw (e) tt
    | inr e ↦ rw (e) (h _)
  ]

  -- What a pointer points to that may be NULL.
  pub Leaves-tpt_mount_at :
      {A : Type 0} (p : ℕ) (s : State) (k : TptMount → Cmd State A)
      → ((m : TptMount) → Leaves P (k m s))
      → Leaves P (and_then (tpt_mount_at p s) k)
  Leaves-tpt_mount_at p s k h = elim (Bool-cases (p == 0)) [
    | inl e ↦ unfold Leaves in rw (e) tt
    | inr e ↦ rw (e) (h _)
  ]

  -- The data of a mount that may have none.
  pub Leaves-tpt_mount :
      {A : Type 0} (mp : ℕ) (s : State) (k : TptMount → Cmd State A)
      → ((m : TptMount) → Leaves P (k m s))
      → Leaves P (and_then (tpt_mount mp s) k)
  Leaves-tpt_mount mp s k h = elim (Bool-cases ((s.store.mounts mp).mnt_data == 0)) [
    | inl e ↦ unfold Leaves in rw (e) tt
    | inr e ↦ rw (e) (h _)
  ]

  module _ (kernel : Kernel) (keeps : (c : Call) (st : Store) → P st → P (kernel c st).store) where
    -- A call whose answer is not used, where the test holds.
    pub Leaves-call_if :
        (b : Bool) (c : Call) (s : State)
        → P s.store
        → Leaves P ((if b then (do _ ← call kernel c; pure tt) else pure tt) s)
    Leaves-call_if true c s p = Leaves-ok P tt _ (keeps c s.store p)
    Leaves-call_if false c s p = Leaves-ok P tt s p

    -- One call or the other.
    pub Leaves-call_either :
        (b : Bool) (c d : Call) (s : State)
        → P s.store
        → Leaves P ((if b then call kernel c else call kernel d) s)
    Leaves-call_either true c d s p = Leaves-ok P _ _ (keeps c s.store p)
    Leaves-call_either false c d s p = Leaves-ok P _ _ (keeps d s.store p)
