-- ===== src/Tptfs/NodeCache/Map.antt =====
-- The hash as a map from a mount and a lower vnode to a node, and the calls of tpt_hashget, tpt_hashins
-- and tpt_hashrem on it.
pub mod Search
pub mod Calls
pub mod Refine
mod Tests
use project_base_learning.Base.{
  ℕ, ◌≤◌, ◌≡◌, ◌≢◌, refl, sym, ap, ◌∙◌, subst, arith, Bool, true, false, ◌==◌, ◌&&◌, if◌then◌else◌,
  List, [], ◌∷◌, ==→eq, eq→==, ne→==, Bool-cases, inl, inr, Run, ok, pure, ◌>>=◌, ◌>>◌,
}
use project_base_learning.Tptfs.{TptNode, Vnode, State, Store, Layer}
use project_base_learning.Tptfs.NodeCache.{
  tpt_hashget, tpt_hashins, tpt_hashrem, is_alias, set_list, list_find, list_remove, list_empty,
}
use project_base_learning.Tptfs.NodeCache.Hash.{IsCache, count, tpt_hashins-IsCache}
use project_base_learning.Tptfs.NodeCache.Kept.{
  Leaves, Ends-Leaves, Leaves-and_then, Leaves-ok, hashrem-keeps,
}
use project_base_learning.Tptfs.Tally.{Ends, Ends-map, Ends-both, Ends-and_then, once}

-- A call of the three functions.
pub data HashOp : Type 0 where
  find : (mp lowervp : ℕ) → HashOp
  insert : (mp xp : ℕ) → HashOp
  remove : (xp : ℕ) → HashOp

module _ (hash : ℕ → ℕ) where
  unfoldable pub perform : HashOp → Layer ℕ
  perform (find mp lowervp) = tpt_hashget hash mp lowervp
  perform (insert mp xp) = tpt_hashins hash mp xp
  perform (remove xp) = do tpt_hashrem hash xp; pure 0

  unfoldable pub perform_all : List HashOp → Layer (List ℕ)
  perform_all [] = pure []
  perform_all (op ∷ ops) = do r ← perform op; rs ← perform_all ops; pure (r ∷ rs)

-- The map: the node of a mount and a lower vnode, 0 where there is none.
abbrev pub Aliases : Type 0
Aliases = (mp lowervp : ℕ) → ℕ

abbrev pub put : Aliases → (mp lowervp xp : ℕ) → Aliases
put a mp lowervp xp m k = if (lowervp == k) && (mp == m) then xp else a m k

module _ (nodes : ℕ → TptNode) (vnodes : ℕ → Vnode) where
  abbrev pub mount_of : ℕ → ℕ
  mount_of xp = (vnodes (nodes xp).tpt_vnode).v_mount

  abbrev pub vnode_or_null : ℕ → ℕ
  vnode_or_null xp = if xp == 0 then 0 else (nodes xp).tpt_vnode

  -- The result and the map after the call: an insertion keeps the node that is there.
  unfoldable pub on_map : HashOp → Aliases → ℕ × Aliases
  on_map (find mp lowervp) a = (vnode_or_null (a mp lowervp), a)
  on_map (insert mp xp) a =
      let lowervp = (nodes xp).tpt_lowervp in
      (vnode_or_null (a mp lowervp), if a mp lowervp == 0 then put a mp lowervp xp else a)
  on_map (remove xp) a = (0, put a (mount_of xp) (nodes xp).tpt_lowervp 0)

  unfoldable pub on_map_all : List HashOp → Aliases → List ℕ × Aliases
  on_map_all [] a = ([], a)
  on_map_all (op ∷ ops) a =
      let rest = on_map_all ops (on_map op a).1 in ((on_map op a).0 ∷ rest.0, rest.1)

  -- What is inserted is a node with a vnode in the mount, and what is removed is in the map.
  unfoldable pub IsValid : HashOp → Aliases → Type 0
  IsValid (find mp lowervp) a = Unit
  IsValid (insert mp xp) a = (xp ≢ 0) × ((nodes xp).tpt_vnode ≢ 0) × (mount_of xp ≡ mp)
  IsValid (remove xp) a = (xp ≢ 0) × (a (mount_of xp) (nodes xp).tpt_lowervp ≡ xp)

  unfoldable pub AreValid : List HashOp → Aliases → Type 0
  AreValid [] a = Unit
  AreValid (op ∷ ops) a = IsValid op a × AreValid ops (on_map op a).1

-- The map stands for the lists: a search in the list of the lower vnode finds its node.
abbrev pub StandsFor : (hash : ℕ → ℕ) → Store → Aliases → Type 0
StandsFor hash st a =
    (mp lowervp : ℕ) → list_find (is_alias st mp lowervp) (st.hashtbl (hash lowervp)) ≡ a mp lowervp

-- A call gives the result and the map that it should, and changes no node and no vnode.
abbrev pub Follows :
    {A : Type 0} (hash : ℕ → ℕ) (nodes : ℕ → TptNode) (vnodes : ℕ → Vnode)
    → A × Aliases
    → A
    → State
    → Type 0
Follows hash nodes vnodes (expected, after) r t =
    (r ≡ expected)
    × StandsFor hash t.store after
    × (t.store.nodes ≡ nodes)
    × (t.store.vnodes ≡ vnodes)
