-- ===== src/Tptfs/Names/Pair.antt =====
-- tpt_vput_pair: which references it gives up, and the hold on the vnode.
use project_base_learning.Base.{
  ℕ, ◌+◌, ◌≡◌, ◌≢◌, refl, true, ◌==◌, if◌then◌else◌, arith, ne→==, ==→ne, Bool-cases, inl, inr,
}
use project_base_learning.Tptfs.{State, Kernel}
use project_base_learning.Tptfs.Tally.{Ends, IsEven, tally, holds, drops, gives, once}
use project_base_learning.Tptfs.Names.{tpt_vput_pair, vput_pair_after}

module _ (hash : ℕ → ℕ) (kernel : Kernel) where
  -- When the vnode is to be unlocked, `tpt_vput_pair` always returns; it gives up one reference on
  -- the directory and one on the vnode, where there is one, and no other reference, and lets go of
  -- the vnode as often as it held it. Conditions: the directory and the vnode have their nodes.
  pub tpt_vput_pair-gives :
      (dvp vp l : ℕ) (s : State)
      → (s.store.vnodes dvp).v_data ≢ 0
      → (vp ≢ 0 → (s.store.vnodes vp).v_data ≢ 0)
      → Ends
          (λ r t.
            (r.1 ≡ vp)
            × (tally (gives l) t.calls
                ≡ once (dvp == l)
                  + (if vp == 0 then 0 else once (vp == l))
                  + tally (gives l) s.calls)
            × IsEven (holds l) (drops l) s t)
          (tpt_vput_pair hash kernel dvp vp true s)
  unfolding tpt_vput_pair vput_pair_after Ends tally gives holds drops
  tpt_vput_pair-gives dvp vp l s d v = elim (Bool-cases (vp == 0)) [
    | inl e ↦ rw (ne→== _ 0 d, e) (ground arith, omega arith, omega arith)
    | inr e ↦ rw (ne→== _ 0 d, e, ne→== _ 0 (v (==→ne vp 0 e))) (refl, omega arith, omega arith)
  ]
