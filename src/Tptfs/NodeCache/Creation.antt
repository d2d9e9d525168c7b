-- ===== src/Tptfs/NodeCache/Creation.antt =====
-- Who holds the reference on the lower vnode after the parts of tpt_nodeget that make a node.
use project_base_learning.Base.{
  ℕ, sym, ap, ◌∙◌, ==→eq, List, ◌+◌, ◌≡◌, ◌≢◌, refl, not, ◌==◌, ◌&&◌, ◌||◌, update, Run, ok, arith,
  eq→==, ne→==, ==→ne, Bool-cases, inl, inr,
}
use project_base_learning.Tptfs.{
  State, Store, Vnode, TptNode, Kernel, Call, getnewvnode, malloc, insmntque1,
}
use project_base_learning.Tptfs.NodeCache.{
  tpt_hashins, tpt_destroy_proto, tpt_insmntque_dtr, nodeget_insert, nodeget_pgread, nodeget_create,
  nodeget_enter, nodeget_queue, nodeget_fill, list_find, is_alias,
}
use project_base_learning.Tptfs.Tally.{Ends-map, Ends, tally, gives, takes, once}

-- No reference was taken on any vnode but `vp`.
abbrev pub TookNoneBut : ℕ → State → State → Type 0
TookNoneBut vp s t = (w : ℕ) → w ≢ 0 → w ≢ vp → tally (takes w) t.calls ≡ tally (takes w) s.calls

-- The vnode is one that `getnewvnode` returned for the mount, and the node one from `malloc`.
pub record IsNew (kernel : Kernel) (mp vp xp : ℕ) : Type 0 where
  pub vnode : (st : Store) × (vp ≡ (kernel (getnewvnode mp) st).out)
  pub node : (st : Store) × (xp ≡ (kernel malloc st).out)
  pub nonzero : xp ≢ 0

-- The vnode and the node belong together, and the node has the lower vnode.
pub record IsLinked (lowervp vp xp : ℕ) (st : Store) : Type 0 where
  pub data_of : (st.vnodes vp).v_data ≡ xp
  pub lower : (st.nodes xp).tpt_lowervp ≡ lowervp
  pub vnode_of : (st.nodes xp).tpt_vnode ≡ vp

-- What `tpt_nodeget` leaves: it failed, gave the reference up and took none; or found a node, took one
-- reference, on its vnode, in exchange; or made a vnode and a node that has the reference now, and
-- took none.
pub data Outcome (kernel : Kernel) (mp lowervp : ℕ) (s t : State) : ℕ → ℕ → Type 0 where
  failed :
      {e : ℕ}
      → e ≢ 0
      → tally (gives lowervp) t.calls ≡ 1 + tally (gives lowervp) s.calls
      → TookNoneBut 0 s t
      → Outcome kernel mp lowervp s t e 0
  shared :
      {vp : ℕ}
      → vp ≢ 0
      → tally (gives lowervp) t.calls ≡ 1 + tally (gives lowervp) s.calls
      → tally (takes vp) t.calls ≡ 1 + tally (takes vp) s.calls
      → TookNoneBut vp s t
      → Outcome kernel mp lowervp s t 0 vp
  created :
      {vp : ℕ} (xp : ℕ)
      → IsNew kernel mp vp xp
      → IsLinked lowervp vp xp t.store
      → tally (gives lowervp) t.calls ≡ tally (gives lowervp) s.calls
      → TookNoneBut 0 s t
      → Outcome kernel mp lowervp s t 0 vp

module _ (hash : ℕ → ℕ) (kernel : Kernel) (lowervp : ℕ) where
  insert-ends :
      (mp xp vp : ℕ) (s : State)
      → vp ≢ lowervp
      → IsNew kernel mp vp xp
      → IsLinked lowervp vp xp s.store
      → Ends
          (λ r t. Outcome kernel mp lowervp s t r.0 r.1)
          (nodeget_insert hash kernel mp lowervp xp vp s)
  unfolding nodeget_insert tpt_hashins tpt_destroy_proto Ends tally gives takes once
  insert-ends mp xp vp s v new linked = elim (Bool-cases (found == 0)) [
    | inl e ↦ rw (e) (created xp new (kept linked) (ground arith) (λ w n _. omega arith))
    | inr e ↦ elim (Bool-cases (other == 0)) [
      | inl e' ↦
          rw (e, e')
            (created xp new (kept linked) (ground arith)
              (λ w n _. ground (arith, ne→== other w (λ q. n (sym q ∙ ==→eq other 0 e')))))
      | inr e' ↦
          rw (e, e')
            (shared (==→ne other 0 e')
              (ground (arith, eq→== lowervp lowervp refl, ne→== vp lowervp v))
              (ground (arith, eq→== other other refl))
              (λ w n o. ground (arith, ne→== other w (λ q. o (sym q)))))
    ]
  ]
    where
      found : ℕ
      found =
          list_find (is_alias s.store mp (s.store.nodes xp).tpt_lowervp)
            (s.store.hashtbl (hash (s.store.nodes xp).tpt_lowervp))

      other : ℕ
      other = (s.store.nodes found).tpt_vnode

      kept :
          {h : ℕ → List ℕ}
          → IsLinked lowervp vp xp s.store
          → IsLinked lowervp vp xp (record (s.store) { hashtbl = h })
      kept l = record { data_of = l.data_of; lower = l.lower; vnode_of = l.vnode_of }

-- What the layer relies on while a node is made: `malloc` with M_WAITOK does not fail,
-- `getnewvnode` returns a vnode that is not in use, nobody else writes to a node that is not yet in
-- the hash or gives its vnode another one, and a mount that is busy keeps its data.
pub record IsObliging (kernel : Kernel) (mp lowervp : ℕ) : Type 0 where
  pub allocates : (st : Store) → (kernel malloc st).out ≢ 0
  pub fresh : (st : Store) → (kernel (getnewvnode mp) st).out ≢ lowervp
  pub untouched :
      (xp vp : ℕ) (st : Store)
      → (st.vnodes vp).v_data ≡ xp
      → let after = (kernel (insmntque1 vp mp) st).store in
        (after.nodes xp ≡ st.nodes xp) × ((after.vnodes vp).v_data ≡ xp)
  pub stays :
      (c : Call) (st : Store)
      → (st.mounts mp).mnt_data ≢ 0
      → ((kernel c st).store.mounts mp).mnt_data ≢ 0

-- A part of the run before that made no call on the references.
unfoldable pub IsQuiet : ℕ → State → State → Type 0
IsQuiet lowervp s s' =
    (tally (gives lowervp) s'.calls ≡ tally (gives lowervp) s.calls)
    × ((w : ℕ) → w ≢ 0 → tally (takes w) s'.calls ≡ tally (takes w) s.calls)

IsQuiet-same : (lowervp : ℕ) (s s' : State) → s'.calls ≡ s.calls → IsQuiet lowervp s s'
unfolding IsQuiet
IsQuiet-same lowervp s s' same = rw (same) (refl, λ v n. refl)

TookNoneBut-after :
    (lowervp vp : ℕ) (s s' t : State)
    → IsQuiet lowervp s s'
    → TookNoneBut vp s' t
    → TookNoneBut vp s t
unfolding IsQuiet
TookNoneBut-after lowervp vp s s' t q none w n o = none w n o ∙ q.1 w n

Outcome-after :
    (kernel : Kernel) (mp lowervp : ℕ) (s s' t : State) (e vp : ℕ)
    → IsQuiet lowervp s s'
    → Outcome kernel mp lowervp s' t e vp
    → Outcome kernel mp lowervp s t e vp
unfolding IsQuiet
Outcome-after kernel mp lowervp s s' t e vp q (failed n g none) =
    failed n (omega (arith, q.0)) (TookNoneBut-after lowervp 0 s s' t q none)
Outcome-after kernel mp lowervp s s' t e vp q (shared n g h none) =
    shared n (omega (arith, q.0)) (omega (arith, q.1 vp n))
      (TookNoneBut-after lowervp vp s s' t q none)
Outcome-after kernel mp lowervp s s' t e vp q (created xp new linked g none) =
    created xp new linked (omega (arith, q.0)) (TookNoneBut-after lowervp 0 s s' t q none)

module _ (hash : ℕ → ℕ) (kernel : Kernel) (mp lowervp : ℕ) where
  pub after :
      (s s' : State) (r : Run State (ℕ × ℕ))
      → IsQuiet lowervp s s'
      → Ends (λ p t. Outcome kernel mp lowervp s' t p.0 p.1) r
      → Ends (λ p t. Outcome kernel mp lowervp s t p.0 p.1) r
  after s s' r q = Ends-map r (λ p t. Outcome-after kernel mp lowervp s s' t p.0 p.1 q)

  vnode-IsLinked :
      (vp xp : ℕ) (st : Store) (v : Vnode)
      → IsLinked lowervp vp xp st
      → v.v_data ≡ (st.vnodes vp).v_data
      → IsLinked lowervp vp xp (record st { vnodes = update st.vnodes vp v })
  vnode-IsLinked vp xp st v linked same = record {
    data_of = rw (eq→== vp vp refl) (same ∙ linked.data_of);
    lower = linked.lower;
    vnode_of = linked.vnode_of;
  }

  pub pgread-runs :
      (vp xp : ℕ) (s : State)
      → IsLinked lowervp vp xp s.store
      → (t : State) × (nodeget_pgread hash kernel lowervp vp s ≡ ok tt t)
        × (t.calls ≡ s.calls)
        × IsLinked lowervp vp xp t.store
  unfolding nodeget_pgread
  pgread-runs vp xp s linked =
      elim (Bool-cases
        ((s.store.vnodes lowervp).virf_pgread && not (s.store.vnodes vp).virf_pgread)) [
          | inl e ↦ rw (e) (_, refl, refl, vnode-IsLinked vp xp s.store _ linked refl)
          | inr e ↦ rw (e) (_, refl, refl, linked)
        ]

  enter-ends :
      (xp vp : ℕ) (s : State)
      → vp ≢ lowervp
      → IsNew kernel mp vp xp
      → IsLinked lowervp vp xp s.store
      → (s.store.mounts mp).mnt_data ≢ 0
      → Ends
          (λ r t. Outcome kernel mp lowervp s t r.0 r.1)
          (nodeget_enter hash kernel mp lowervp xp vp s)
  unfolding nodeget_enter
  enter-ends xp vp s v new linked m =
      let root = record s {
        store = record (s.store) {
          vnodes = update s.store.vnodes vp (record (s.store.vnodes vp) {
            vv_root =
                (lowervp == (s.store.tpt_mounts (s.store.mounts mp).mnt_data).nullm_lowerrootvp)
                || (s.store.vnodes vp).vv_root;
          });
        };
      } in
      let (t, runs, same, linked') =
        pgread-runs vp xp root (vnode-IsLinked vp xp s.store _ linked refl) in
      rw (ne→== _ 0 m, runs)
        (after s t _ (IsQuiet-same lowervp s t same)
          (insert-ends hash kernel lowervp mp xp vp t v new linked'))

  queue-ends :
      (xp vp : ℕ) (s : State)
      → IsObliging kernel mp lowervp
      → vp ≢ lowervp
      → IsNew kernel mp vp xp
      → IsLinked lowervp vp xp s.store
      → (s.store.mounts mp).mnt_data ≢ 0
      → Ends
          (λ r t. Outcome kernel mp lowervp s t r.0 r.1)
          (nodeget_queue hash kernel mp lowervp xp vp s)
  unfolding nodeget_queue tpt_insmntque_dtr tpt_destroy_proto Ends tally gives takes once IsQuiet
  queue-ends xp vp s laws v new linked m =
      let queued = kernel (insmntque1 vp mp) s.store in
      let (node, data_of) = laws.untouched xp vp s.store linked.data_of in
      let lower = ap (λ x. TptNode.tpt_lowervp x) node ∙ linked.lower in
      elim (Bool-cases (queued.error == 0)) [
        | inl e ↦ rw (e) (
            after s _ _ (omega arith, λ w n. omega arith)
              (enter-ends xp vp _ v new
                (record {
                  data_of = data_of;
                  lower = lower;
                  vnode_of = ap (λ x. TptNode.tpt_vnode x) node ∙ linked.vnode_of;
                })
                (laws.stays (insmntque1 vp mp) s.store m)))
        | inr e ↦
            rw (e, ne→== _ 0 new.nonzero, lower)
              (failed (==→ne _ 0 e) (ground (arith, eq→== lowervp lowervp refl, ne→== vp lowervp v))
                (λ w n _. omega arith))
      ]

  fill-ends :
      (xp vp : ℕ) (s : State)
      → IsObliging kernel mp lowervp
      → vp ≢ lowervp
      → IsNew kernel mp vp xp
      → (s.store.mounts mp).mnt_data ≢ 0
      → Ends
          (λ r t. Outcome kernel mp lowervp s t r.0 r.1)
          (nodeget_fill hash kernel mp lowervp xp vp s)
  unfolding nodeget_fill
  fill-ends xp vp s laws v new m = rw (ne→== _ 0 new.nonzero) (
      after s _ _ (IsQuiet-same lowervp _ _ refl) (
        queue-ends xp vp _ laws v new
          (record {
            data_of = ground (arith, eq→== vp vp refl);
            lower = ground (arith, eq→== xp xp refl);
            vnode_of = ground (arith, eq→== xp xp refl);
          })
          m))

  pub create-ends :
      (s : State)
      → IsObliging kernel mp lowervp
      → (s.store.mounts mp).mnt_data ≢ 0
      → Ends
          (λ r t. Outcome kernel mp lowervp s t r.0 r.1)
          (nodeget_create hash kernel mp lowervp s)
  unfolding nodeget_create Ends tally gives takes once IsQuiet
  create-ends s laws m =
      let memory = kernel malloc s.store in
      elim (Bool-cases ((kernel (getnewvnode mp) memory.store).error == 0)) [
        | inr e ↦ rw (e) (
            failed (==→ne _ 0 e) (ground (arith, eq→== lowervp lowervp refl))
              (λ w n _. omega arith))
        | inl e ↦ rw (e) (
            after s _ _ (omega arith, λ w n. omega arith)
              (fill-ends memory.out (kernel (getnewvnode mp) memory.store).out _ laws
                (laws.fresh memory.store)
                (record {
                  vnode = (memory.store, refl);
                  node = (s.store, refl);
                  nonzero = laws.allocates s.store;
                })
                (laws.stays (getnewvnode mp) memory.store (laws.stays malloc s.store m))))
      ]
