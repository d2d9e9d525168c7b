-- ===== src/Tptfs/NodeCache/Map/Refine.antt =====
-- Sequences of calls on the hash, and on the map.
use project_base_learning.Base.{ℕ, ◌≡◌, refl, ap, ◌∙◌, subst, List, [], ◌∷◌, ok}
use project_base_learning.Tptfs.{TptNode, Vnode, State}
use project_base_learning.Tptfs.NodeCache.Hash.{IsCache}
use project_base_learning.Tptfs.Tally.{Ends, Ends-and_then}
use project_base_learning.Tptfs.NodeCache.Map.{
  HashOp, perform, perform_all, Aliases, on_map, on_map_all, IsValid, AreValid, StandsFor, Follows,
}
use project_base_learning.Tptfs.NodeCache.Map.Calls.{perform-Follows}

Ends-pure : {A : Type 0} (P : A → State → Type 0) (a : A) (t : State) → P a t → Ends P (ok a t)
unfolding Ends
Ends-pure P a t p = p

-- The same over nodes and vnodes that those of the state are equal to.
perform-over :
    (hash : ℕ → ℕ) (nodes : ℕ → TptNode) (vnodes : ℕ → Vnode) (op : HashOp) (s : State)
    (a : Aliases)
    → s.store.nodes ≡ nodes
    → s.store.vnodes ≡ vnodes
    → StandsFor hash s.store a
    → IsCache hash s.store
    → IsValid nodes vnodes op a
    → Ends
        (λ r t. Follows hash nodes vnodes (on_map nodes vnodes op a) r t × IsCache hash t.store)
        (perform hash op s)
perform-over hash nodes vnodes op s a en ev stands cache =
    subst
      (λ n.
        IsValid n vnodes op a
        → Ends (λ r t. Follows hash n vnodes (on_map n vnodes op a) r t × IsCache hash t.store)
            (perform hash op s))
      en
      (subst
        (λ v.
          IsValid s.store.nodes v op a
          → Ends
              (λ r t.
                Follows hash s.store.nodes v (on_map s.store.nodes v op a) r t
                × IsCache hash t.store)
              (perform hash op s))
        ev (perform-Follows hash s a stands op cache))

calls-follow :
    (hash : ℕ → ℕ) (nodes : ℕ → TptNode) (vnodes : ℕ → Vnode) (ops : List HashOp) (s : State)
    (a : Aliases)
    → s.store.nodes ≡ nodes
    → s.store.vnodes ≡ vnodes
    → StandsFor hash s.store a
    → IsCache hash s.store
    → AreValid nodes vnodes ops a
    → Ends
        (λ rs t.
          Follows hash nodes vnodes (on_map_all nodes vnodes ops a) rs t × IsCache hash t.store)
        (perform_all hash ops s)
unfolding perform_all on_map_all AreValid
calls-follow hash nodes vnodes [] s a en ev stands cache valid =
    unfold Ends in ((refl, stands, en, ev), cache)
calls-follow hash nodes vnodes (op ∷ ops) s a en ev stands cache (valid, later) =
    Ends-and_then _ _ (perform hash op s) _
      (perform-over hash nodes vnodes op s a en ev stands cache valid)
      (λ r t ((same, stands', en', ev'), cache').
        Ends-and_then _ _ (perform_all hash ops t) _
          (calls-follow hash nodes vnodes ops t (on_map nodes vnodes op a).1 en' ev' stands' cache'
            later)
          (λ rs u ((same', stands'', en'', ev''), cache''). Ends-pure _ (r ∷ rs) u (
            (
              ap (λ r'. r' ∷ rs) same ∙ ap (λ rs'. (on_map nodes vnodes op a).0 ∷ rs') same',
              stands'',
              en'',
              ev'',
            ),
            cache'',
          )))

-- Any sequence of `tpt_hashget`, `tpt_hashins` and `tpt_hashrem` returns what the same calls on a map
-- from mounts and lower vnodes to nodes return, and the hash then stands for the map that these
-- leave: a search finds the vnode of the node, an insertion changes the map only where there was no
-- node and else finds the one that is there, and a removal takes out that node alone; whatever lists
-- the hash function puts them in. Conditions: the hash is in order and stands for the map at the
-- start; inserted nodes are filled, with their vnode in the mount, and removed nodes are in the map.
pub perform_all-on_map_all :
    (hash : ℕ → ℕ) (ops : List HashOp) (s : State) (a : Aliases)
    → StandsFor hash s.store a
    → IsCache hash s.store
    → AreValid s.store.nodes s.store.vnodes ops a
    → Ends
        (λ rs t.
          Follows hash s.store.nodes s.store.vnodes
            (on_map_all s.store.nodes s.store.vnodes ops a)
            rs
            t
          × IsCache hash t.store)
        (perform_all hash ops s)
perform_all-on_map_all hash ops s a =
    calls-follow hash s.store.nodes s.store.vnodes ops s a refl refl
