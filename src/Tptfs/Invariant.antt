-- ===== src/Tptfs/Invariant.antt =====
-- Sequences of the layer's operations from tptfs_init on, with other threads in between.
mod Tests
use project_base_learning.Base.{ℕ, ◌≡◌, Bool, List, ◌∷◌, Run, ok, subst}
use project_base_learning.Tptfs.{Store, State, Kernel, Call}
use project_base_learning.Tptfs.NodeCache.{tptfs_init, tpt_nodeget}
use project_base_learning.Tptfs.NodeCache.Hash.{IsCache}
use project_base_learning.Tptfs.NodeCache.Kept.{Leaves}
use project_base_learning.Tptfs.NodeCache.Kept.Nodeget.{IsSharing, nodeget-keeps}
use project_base_learning.Tptfs.Table.{VnodeOp, vnode_op, VfsOp, vfs_op}
use project_base_learning.Tptfs.Table.Kept.{init-IsCache, vnode_op-keeps, vfs_op-keeps}

module _ (hash : ℕ → ℕ) (kernel : Kernel) where
  -- An operation of the layer that has come to its end, or a call of the kernel, in which other
  -- threads may have run.
  pub data Step (s : State) : State → Type 0 where
    on_vnode : {t : State} (op : VnodeOp) (r : ℕ) → vnode_op hash kernel op s ≡ ok r t → Step s t
    on_mount :
        {t : State} (is_tptfs : ℕ → Bool) (op : VfsOp) (r : ℕ)
        → vfs_op hash kernel is_tptfs op s ≡ ok r t
        → Step s t
    nodeget :
        {t : State} (mp lowervp : ℕ) (r : ℕ × ℕ)
        → tpt_nodeget hash kernel mp lowervp s ≡ ok r t
        → Step s t
    called : (c : Call) → Step s (record { store = (kernel c s.store).store; calls = c ∷ s.calls })

  pub data Reachable : State → Type 0 where
    start : (s : State) → Reachable (tptfs_init hash s)
    step : {s t : State} → Reachable s → Step s t → Reachable t

Leaves-run :
    (P : Store → Type 0) {A : Type 0} (r : Run State A) (a : A) (t : State)
    → Leaves P r
    → r ≡ ok a t
    → P t.store
Leaves-run P r a t h e = unfold Leaves in subst (Leaves P) e h

module _ (hash : ℕ → ℕ) (kernel : Kernel) (is_owned : ℕ → Store → Type 0)
    (sharing : IsSharing hash kernel is_owned) where
  Step-keeps : (s t : State) → Step hash kernel s t → IsCache hash s.store → IsCache hash t.store
  Step-keeps s t (on_vnode op r runs) cache =
      Leaves-run _ _ r t (vnode_op-keeps hash kernel is_owned sharing op s cache) runs
  Step-keeps s t (on_mount is_tptfs op r runs) cache =
      Leaves-run _ _ r t (vfs_op-keeps hash kernel is_owned sharing is_tptfs op s cache) runs
  Step-keeps s t (nodeget mp lowervp r runs) cache =
      Leaves-run _ _ r t (nodeget-keeps hash kernel is_owned sharing mp lowervp s cache) runs
  Step-keeps s t (called c) cache = sharing.cache c s.store cache

  -- In every state that `tptfs_init` and any sequence of operations of the two tables of the layer,
  -- of `tpt_nodeget` and of calls of the kernel lead to, the hash is in order: each listed node has a
  -- vnode and is in the list of its lower vnode, and no lower vnode has two nodes in one mount.
  -- Conditions: other threads keep the hash in order and leave alone what `malloc` gave to this one,
  -- and the kernel puts new vnodes into the mount.
  pub Reachable-IsCache : (s : State) → Reachable hash kernel s → IsCache hash s.store
  Reachable-IsCache s (start s') = init-IsCache hash s'
  Reachable-IsCache s (step {s = s'} reached next) =
      Step-keeps s' s next (Reachable-IsCache s' reached)
