-- ===== src/Tptfs/NodeCache/Kept/Nodeget.antt =====
-- The hash across tpt_nodeget, with what it relies on from the kernel and other threads.
use project_base_learning.Base.{
  ℕ, ◌≡◌, ◌≢◌, refl, ap, ◌∙◌, not, ◌==◌, ◌&&◌, update, ◌>>◌, arith, eq→==, ne→==, ==→eq, Bool-cases,
  inl, inr,
}
use project_base_learning.Tptfs.{
  Vnode, TptNode, State, Store, Kernel, Call, malloc, insmntque1, getnewvnode, vop_islocked,
  vn_lock, lk_upgrade,
}
use project_base_learning.Tptfs.NodeCache.{
  tpt_hashins, tpt_destroy_proto, tpt_insmntque_dtr, nodeget_insert, nodeget_pgread, nodeget_create,
  nodeget_enter, nodeget_queue, nodeget_fill, nodeget_upgrade, nodeget_found, tpt_nodeget,
  tpt_hashget, islocked_exclusive, list_empty, list_find, is_alias,
}
use project_base_learning.Tptfs.NodeCache.Hash.{IsCache, tpt_hashins-IsCache}
use project_base_learning.Tptfs.NodeCache.Kept.{
  Leaves, Leaves-and_then, Leaves-of, IsUnlisted, vnode-IsCache, unlisted-IsCache,
}

-- What the layer relies on. Other threads keep the hash in order. A node that `malloc` returned is
-- owned by the thread that asked for it: no list has it, and nobody else writes to it. A new vnode
-- is not NULL, and `insmntque1` puts it into the mount.
pub record IsSharing (hash : ℕ → ℕ) (kernel : Kernel) (is_owned : ℕ → Store → Type 0) : Type 0 where
  pub cache : (c : Call) (st : Store) → IsCache hash st → IsCache hash (kernel c st).store
  pub allocates :
      (st : Store)
      → ((kernel malloc st).out ≢ 0) × is_owned (kernel malloc st).out (kernel malloc st).store
  pub keeps :
      (c : Call) (st : Store) (xp : ℕ)
      → is_owned xp st
      → is_owned xp (kernel c st).store × ((kernel c st).store.nodes xp ≡ st.nodes xp)
  pub writes :
      (st : Store) (xp vp : ℕ) (x : TptNode) (v : Vnode)
      → is_owned xp st
      → is_owned xp (record st { nodes = update st.nodes xp x; vnodes = update st.vnodes vp v })
  pub unlisted : (st : Store) (xp : ℕ) → is_owned xp st → IsUnlisted xp st
  pub vnode :
      (mp : ℕ) (st : Store)
      → (kernel (getnewvnode mp) st).error ≡ 0
      → (kernel (getnewvnode mp) st).out ≢ 0
  pub mounts :
      (vp mp : ℕ) (st : Store)
      → (kernel (insmntque1 vp mp) st).error ≡ 0
      → ((kernel (insmntque1 vp mp) st).store.vnodes vp).v_mount ≡ mp

-- The hash is in order, and the node and its vnode in the mount are ready to enter it.
abbrev pub IsEntering : (hash : ℕ → ℕ) → (mp xp vp : ℕ) → Store → Type 0
IsEntering hash mp xp vp st =
    IsCache hash st
    × (xp ≢ 0)
    × (vp ≢ 0)
    × ((st.nodes xp).tpt_vnode ≡ vp)
    × ((st.vnodes vp).v_mount ≡ mp)

vnode-IsEntering :
    (hash : ℕ → ℕ) (mp xp vp : ℕ) (st : Store) (v : Vnode)
    → IsEntering hash mp xp vp st
    → v.v_mount ≡ (st.vnodes vp).v_mount
    → IsEntering hash mp xp vp (record st { vnodes = update st.vnodes vp v })
vnode-IsEntering hash mp xp vp st v (cache, x, n, same, m) kept =
    (vnode-IsCache hash st vp v cache kept, x, n, same, rw (eq→== vp vp refl) (kept ∙ m))

module _ (hash : ℕ → ℕ) (kernel : Kernel) (is_owned : ℕ → Store → Type 0)
    (sharing : IsSharing hash kernel is_owned) where
  destroy-keeps :
      (vp xp : ℕ) (s : State)
      → IsCache hash s.store
      → Leaves (IsCache hash) (tpt_destroy_proto kernel vp xp s)
  unfolding tpt_destroy_proto Leaves
  destroy-keeps vp xp s cache =
      sharing.cache _ _
        (sharing.cache _ _ (vnode-IsCache hash _ vp _ (sharing.cache _ _ cache) refl))

  insert-keeps :
      (mp lowervp xp vp : ℕ) (s : State)
      → IsEntering hash mp xp vp s.store
      → Leaves (IsCache hash) (nodeget_insert hash kernel mp lowervp xp vp s)
  unfolding nodeget_insert
  insert-keeps mp lowervp xp vp s (cache, x, v, same, m) =
      Leaves-and_then _ _ (tpt_hashins hash mp xp s) _
        (Leaves-of _ _ (tpt_hashins hash mp xp s)
          (tpt_hashins-IsCache hash mp xp s cache x (omega (arith, same, v))
            (ap (λ p. (s.store.vnodes p).v_mount) same ∙ m))
          (λ a t h. h.0))
        (λ other t c. elim (Bool-cases (other == 0)) [
          | inl e ↦ unfold Leaves in rw (e) c
          | inr e ↦ rw (e) (
              Leaves-and_then _ _ (tpt_destroy_proto kernel vp xp _) _
                (destroy-keeps vp xp _ (vnode-IsCache hash _ vp _ (sharing.cache _ _ c) refl))
                (λ a u d. unfold Leaves in d))
        ])

  pgread-keeps :
      (mp lowervp xp vp : ℕ) (s : State)
      → IsEntering hash mp xp vp s.store
      → Leaves (IsEntering hash mp xp vp) (nodeget_pgread hash kernel lowervp vp s)
  unfolding nodeget_pgread Leaves
  pgread-keeps mp lowervp xp vp s entering =
      elim (Bool-cases
        ((s.store.vnodes lowervp).virf_pgread && not (s.store.vnodes vp).virf_pgread)) [
          | inl e ↦ rw (e) (vnode-IsEntering hash mp xp vp s.store _ entering refl)
          | inr e ↦ rw (e) entering
        ]

  enter-keeps :
      (mp lowervp xp vp : ℕ) (s : State)
      → IsEntering hash mp xp vp s.store
      → Leaves (IsCache hash) (nodeget_enter hash kernel mp lowervp xp vp s)
  unfolding nodeget_enter
  enter-keeps mp lowervp xp vp s entering = elim (Bool-cases ((s.store.mounts mp).mnt_data == 0)) [
    | inl e ↦ unfold Leaves in rw (e) tt
    | inr e ↦ rw (e) (go _ (vnode-IsEntering hash mp xp vp s.store _ entering refl))
  ]
    where
      go :
          (t : State)
          → IsEntering hash mp xp vp t.store
          → Leaves (IsCache hash) (
              (nodeget_pgread hash kernel lowervp vp >> nodeget_insert hash kernel mp lowervp xp vp)
                t)
      go t entering =
          Leaves-and_then _ _ (nodeget_pgread hash kernel lowervp vp t) _
            (pgread-keeps mp lowervp xp vp t entering) (λ a u h. insert-keeps mp lowervp xp vp u h)

  queue-keeps :
      (mp lowervp xp vp : ℕ) (s : State)
      → IsCache hash s.store
      → xp ≢ 0
      → vp ≢ 0
      → is_owned xp s.store
      → (s.store.nodes xp).tpt_vnode ≡ vp
      → Leaves (IsCache hash) (nodeget_queue hash kernel mp lowervp xp vp s)
  unfolding nodeget_queue tpt_insmntque_dtr
  queue-keeps mp lowervp xp vp s cache x v owned same =
      let queued = kernel (insmntque1 vp mp) s.store in
      let kept = sharing.keeps (insmntque1 vp mp) s.store xp owned in
      elim (Bool-cases (queued.error == 0)) [
        | inl e ↦ rw (e) (
            enter-keeps mp lowervp xp vp _ (
              sharing.cache _ _ cache,
              x,
              v,
              ap (λ n. n.tpt_vnode) kept.1 ∙ same,
              sharing.mounts vp mp s.store (==→eq _ 0 e),
            ))
        | inr e ↦
            rw (e, ne→== _ 0 x)
              (Leaves-and_then _ _ (tpt_destroy_proto kernel vp xp _) _
                (destroy-keeps vp xp _ (sharing.cache _ _ (sharing.cache _ _ cache)))
                (λ a u d. unfold Leaves in d))
      ]

  fill-keeps :
      (mp lowervp xp vp : ℕ) (s : State)
      → IsCache hash s.store
      → xp ≢ 0
      → vp ≢ 0
      → is_owned xp s.store
      → Leaves (IsCache hash) (nodeget_fill hash kernel mp lowervp xp vp s)
  unfolding nodeget_fill
  fill-keeps mp lowervp xp vp s cache x v owned = rw (ne→== _ 0 x) (
      queue-keeps mp lowervp xp vp _
        (vnode-IsCache hash _ vp _
          (unlisted-IsCache hash s.store xp _ cache (sharing.unlisted s.store xp owned)) refl)
        x v (sharing.writes s.store xp vp _ _ owned) (rw (eq→== xp xp refl) refl))

  create-keeps :
      (mp lowervp : ℕ) (s : State)
      → IsCache hash s.store
      → Leaves (IsCache hash) (nodeget_create hash kernel mp lowervp s)
  unfolding nodeget_create
  create-keeps mp lowervp s cache =
      let memory = kernel malloc s.store in
      let fresh = kernel (getnewvnode mp) memory.store in
      let (x, owned) = sharing.allocates s.store in
      elim (Bool-cases (fresh.error == 0)) [
        | inr e ↦
            unfold Leaves in
            rw (e) (sharing.cache _ _ (sharing.cache _ _ (sharing.cache _ _ cache)))
        | inl e ↦ rw (e) (
            fill-keeps mp lowervp memory.out fresh.out _
              (sharing.cache _ _ (sharing.cache _ _ cache)) x
              (sharing.vnode mp memory.store (==→eq _ 0 e))
              (sharing.keeps (getnewvnode mp) memory.store memory.out owned).0)
      ]

  upgrade-keeps :
      (mp lowervp : ℕ) (s : State)
      → IsCache hash s.store
      → Leaves (IsCache hash) (nodeget_upgrade hash kernel mp lowervp s)
  unfolding nodeget_upgrade
  upgrade-keeps mp lowervp s cache =
      let locked = kernel (vop_islocked lowervp) s.store in
      let upgraded = kernel (vn_lock lowervp lk_upgrade) locked.store in
      elim (Bool-cases (locked.error == islocked_exclusive)) [
        | inl e ↦ rw (e) (create-keeps mp lowervp _ (sharing.cache _ _ cache))
        | inr e ↦ elim (Bool-cases (upgraded.store.vnodes lowervp).virf_doomed) [
          | inl g ↦
              unfold Leaves in
              rw (e, g) (sharing.cache _ _ (sharing.cache _ _ (sharing.cache _ _ cache)))
          | inr g ↦
              rw (e, g) (create-keeps mp lowervp _ (sharing.cache _ _ (sharing.cache _ _ cache)))
        ]
      ]

  -- `tpt_hashget` writes nothing.
  pub hashget-keeps :
      (P : Store → Type 0) (mp lowervp : ℕ) (s : State)
      → P s.store
      → Leaves P (tpt_hashget hash mp lowervp s)
  unfolding tpt_hashget Leaves
  hashget-keeps P mp lowervp s p = elim (Bool-cases (list_empty (s.store.hashtbl (hash lowervp)))) [
    | inl e ↦ rw (e) p
    | inr e ↦
        elim (Bool-cases
          (list_find (is_alias s.store mp lowervp) (s.store.hashtbl (hash lowervp)) == 0)) [
            | inl g ↦ rw (e, g) p
            | inr g ↦ rw (e, g) p
          ]
  ]

  -- `tpt_nodeget` keeps the hash in order, wherever it returns.
  pub nodeget-keeps :
      (mp lowervp : ℕ) (s : State)
      → IsCache hash s.store
      → Leaves (IsCache hash) (tpt_nodeget hash kernel mp lowervp s)
  unfolding tpt_nodeget nodeget_found
  nodeget-keeps mp lowervp s cache =
      Leaves-and_then _ _ (tpt_hashget hash mp lowervp s) _
        (hashget-keeps (IsCache hash) mp lowervp s cache)
        (λ found t c. elim (Bool-cases (found == 0)) [
          | inl e ↦ rw (e) (upgrade-keeps mp lowervp t c)
          | inr e ↦ unfold Leaves in rw (e) (sharing.cache _ _ c)
        ])
