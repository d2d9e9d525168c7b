-- ===== src/Tptfs/NodeCache.antt =====
-- tptfs/tpt_subr.c: the hash of the layer's nodes. `hash` stands for the list that
-- `NULL_NHASH(lowervp)` picks, a function of the lower vnode.
pub mod Creation
pub mod References
pub mod Hash
pub mod Silent
pub mod Kept
pub mod Map
use project_base_learning.Base.{
  ℕ, Bool, true, false, not, ◌==◌, ◌&&◌, ◌||◌, if◌then◌else◌, update, List, [], ◌∷◌, Cmd, Run, ok,
  panic, pure, ◌>>=◌, ◌>>◌, modify, ltb,
}
use project_base_learning.Tptfs.{
  Vnode, tpt_vnodeops, dead_vnodeops, TptNode, Store, State, Layer, Kernel, Reply, Call, vref,
  vrele, vput, vgone, vi_lock, vi_unlock, vop_islocked, lock_own, vn_lock, lk_upgrade, getnewvnode,
  insmntque1, malloc, free, hash_rlock, hash_runlock, hash_wlock, hash_wunlock, rw_destroy,
  hashdestroy, call, note, vnode, set_vnode, tpt_node, set_tpt_node, tpt_mount,
}

abbrev pub enoent : ℕ
enoent = 2

-- `LK_EXCLUSIVE`, as `VOP_ISLOCKED` returns it.
abbrev pub islocked_exclusive : ℕ
islocked_exclusive = 0x080000

abbrev pub islocked_shared : ℕ
islocked_shared = 0x200000

-- The node is an alias of the lower vnode in the mount: the test in the searches.
abbrev pub is_alias : Store → (mp lowervp a : ℕ) → Bool
is_alias st mp lowervp a =
    ((st.nodes a).tpt_lowervp == lowervp) && ((st.vnodes (st.nodes a).tpt_vnode).v_mount == mp)

-- `LIST_FOREACH (a, hd, tpt_hash)` up to the first node that passes the test.
pub list_find : (ℕ → Bool) → List ℕ → ℕ
list_find test [] = 0
list_find test (a ∷ hd) = let rest = list_find test hd in if test a then a else rest

pub list_empty : List ℕ → Bool
list_empty [] = true
list_empty (a ∷ hd) = false

-- `LIST_REMOVE (xp, tpt_hash)`
pub list_remove : ℕ → List ℕ → List ℕ
list_remove xp [] = []
list_remove xp (a ∷ hd) = let rest = list_remove xp hd in if a == xp then rest else a ∷ rest

abbrev pub set_list : ℕ → List ℕ → State → State
set_list i hd s = record s { store = record (s.store) { hashtbl = update s.store.hashtbl i hd } }

module _ (hash : ℕ → ℕ) where
  -- `hashinit` leaves every list empty.
  unfoldable pub tptfs_init : State → State
  tptfs_init s = record s { store = record (s.store) { hashtbl = λ i. [] } }

  unfoldable pub tptfs_uninit : Layer ℕ
  tptfs_uninit = do note rw_destroy; note hashdestroy; pure 0

  pub tpt_hashget : (mp lowervp : ℕ) → Layer ℕ
  tpt_hashget mp lowervp s =
      let hd = s.store.hashtbl (hash lowervp) in
      let found = list_find (is_alias s.store mp lowervp) hd in
      if list_empty hd
      then ok 0 s
      else (if found == 0
          then ok 0 (record s { calls = hash_runlock ∷ hash_rlock ∷ s.calls })
          else ok (s.store.nodes found).tpt_vnode (record s {
            calls = hash_runlock ∷ vref (s.store.nodes found).tpt_vnode ∷ hash_rlock ∷ s.calls;
          }))

  pub tpt_hashins : (mp xp : ℕ) → Layer ℕ
  tpt_hashins mp xp s =
      let lowervp = (s.store.nodes xp).tpt_lowervp in
      let hd = s.store.hashtbl (hash lowervp) in
      let found = list_find (is_alias s.store mp lowervp) hd in
      if found == 0
      then ok 0 (record (set_list (hash lowervp) (xp ∷ hd) s) {
        calls = hash_wunlock ∷ hash_wlock ∷ s.calls;
      })
      else ok (s.store.nodes found).tpt_vnode (record s {
        calls = hash_wunlock ∷ vref (s.store.nodes found).tpt_vnode ∷ hash_wlock ∷ s.calls;
      })

  unfoldable pub tpt_hashrem : ℕ → Layer (Unit {0})
  tpt_hashrem xp s =
      let i = hash (s.store.nodes xp).tpt_lowervp in
      ok tt (record (set_list i (list_remove xp (s.store.hashtbl i)) s) {
        calls = hash_wunlock ∷ hash_wlock ∷ s.calls;
      })

module _ (kernel : Kernel) where
  pub tpt_destroy_proto : (vp xp : ℕ) → Layer (Unit {0})
  tpt_destroy_proto vp xp = do
    _ ← call kernel (lock_own vp)
    note (vi_lock vp)
    set_vnode vp (λ v. record v { v_data = 0; v_vnlock = vp; v_op = dead_vnodeops })
    note (vi_unlock vp)
    _ ← call kernel (vgone vp)
    _ ← call kernel (vput vp)
    note (free xp)

  pub tpt_insmntque_dtr : (vp xp : ℕ) → Layer (Unit {0})
  tpt_insmntque_dtr vp xp = do
    node ← tpt_node xp
    _ ← call kernel (vput node.tpt_lowervp)
    tpt_destroy_proto vp xp

  -- `tpt_checkvp`, what NULLVPTOLOWERVP is under DIAGNOSTIC.
  pub tpt_checkvp : ℕ → Layer ℕ
  tpt_checkvp vp = do
    v ← vnode vp
    a ← tpt_node v.v_data
    lower ← vnode a.tpt_lowervp
    if (a.tpt_lowervp == 0) || ltb lower.v_usecount 1
        then (λ s. panic)
        else (do note (vi_lock a.tpt_lowervp); note (vi_unlock a.tpt_lowervp); pure a.tpt_lowervp)

module _ (hash : ℕ → ℕ) (kernel : Kernel) where
  -- The last part of `tpt_nodeget`: the new node enters the hash, or gives way to the one that is
  -- there by now.
  pub nodeget_insert : (mp lowervp xp vp : ℕ) → Layer (ℕ × ℕ)
  nodeget_insert mp lowervp xp vp = do
    other ← tpt_hashins hash mp xp
    if not (other == 0)
        then (do
          _ ← call kernel (vrele lowervp)
          set_vnode vp (λ v. record v { v_object = 0 })
          tpt_destroy_proto kernel vp xp
          pure (0, other))
        else pure (0, vp)

  -- The page cache of the lower vnode, where that reads through it.
  pub nodeget_pgread : (lowervp vp : ℕ) → Layer (Unit {0})
  nodeget_pgread lowervp vp = do
    lower ← vnode lowervp
    v ← vnode vp
    if lower.virf_pgread && not v.virf_pgread
        then set_vnode vp (λ v. record v {
          v_object = if v.v_object == 0 then lower.v_object else v.v_object;
          virf_pgread = true;
        })
        else pure tt

  -- The new vnode is on the list of its mount.
  pub nodeget_enter : (mp lowervp xp vp : ℕ) → Layer (ℕ × ℕ)
  nodeget_enter mp lowervp xp vp = do
    xmp ← tpt_mount mp
    set_vnode vp (λ v. record v { vv_root = (lowervp == xmp.nullm_lowerrootvp) || v.vv_root })
    nodeget_pgread lowervp vp
    nodeget_insert mp lowervp xp vp

  -- Where `insmntque1` fails it has called the destructor.
  pub nodeget_queue : (mp lowervp xp vp : ℕ) → Layer (ℕ × ℕ)
  nodeget_queue mp lowervp xp vp = do
    queued ← call kernel (insmntque1 vp mp)
    if not (queued.error == 0)
        then (do tpt_insmntque_dtr kernel vp xp; pure (queued.error, 0))
        else nodeget_enter mp lowervp xp vp

  -- The node and the vnode are there: they are filled, which also puts in the table that
  -- `getnewvnode` was given.
  pub nodeget_fill : (mp lowervp xp vp : ℕ) → Layer (ℕ × ℕ)
  nodeget_fill mp lowervp xp vp = do
    set_tpt_node xp (λ x. record {
      tpt_lowervp = lowervp;
      tpt_vnode = vp;
      nullv_nounlock = false;
      nullv_drop = false;
    })
    lower ← vnode lowervp
    set_vnode vp (λ v. record v {
      v_type = lower.v_type;
      v_op = tpt_vnodeops;
      v_data = xp;
      v_vnlock = lower.v_vnlock;
    })
    nodeget_queue mp lowervp xp vp

  -- From `malloc` on: a new node, or the end.
  pub nodeget_create : (mp lowervp : ℕ) → Layer (ℕ × ℕ)
  nodeget_create mp lowervp = do
    memory ← call kernel malloc
    fresh ← call kernel (getnewvnode mp)
    if not (fresh.error == 0)
        then (do _ ← call kernel (vput lowervp); note (free memory.out); pure (fresh.error, 0))
        else nodeget_fill mp lowervp memory.out fresh.out

  -- There was no node in the hash.
  pub nodeget_upgrade : (mp lowervp : ℕ) → Layer (ℕ × ℕ)
  nodeget_upgrade mp lowervp = do
    locked ← call kernel (vop_islocked lowervp)
    if locked.error == islocked_exclusive then nodeget_create mp lowervp else (do
      _ ← call kernel (vn_lock lowervp lk_upgrade)
      lower ← vnode lowervp
      if lower.virf_doomed
          then (do _ ← call kernel (vput lowervp); pure (enoent, 0))
          else nodeget_create mp lowervp)

  pub nodeget_found : (mp lowervp found : ℕ) → Layer (ℕ × ℕ)
  nodeget_found mp lowervp found =
      if not (found == 0)
      then (do _ ← call kernel (vrele lowervp); pure (0, found))
      else nodeget_upgrade mp lowervp

  -- The error and `*vpp`.
  pub tpt_nodeget : (mp lowervp : ℕ) → Layer (ℕ × ℕ)
  tpt_nodeget mp lowervp = do found ← tpt_hashget hash mp lowervp; nodeget_found mp lowervp found
